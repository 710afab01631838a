-- ===== src/Layers/Extents.antt =====
-- Which accesses of the layers are inside of their arrays.
use gemma_cpp.Base.{ℕ, ◌+◌, ◌*◌, ◌<◌, ◌≤◌, ◌≡◌, arith, ◌>>◌, Checked, Returns, true, leb, le→leb}
use gemma_cpp.Weights.{Config}
use gemma_cpp.Layers.Arrays.{
  LayerFault, inside, rows_size, q_size, att_size, post_size, hidden_size, kv_cache_size,
  cache_offset, cache_layer_size, cache_pos_size,
}
use native.Mathlib.Nat.{add-mul, mul-le-mul_right, mul-le-mul_left}

-- An access that is inside goes on.
pub inside_then :
    {A : Type 0} {P : A → Type 0} {k : Checked LayerFault A} (at n size : ℕ)
    → at + n ≤ size
    → Returns k P
    → Returns (inside at n size >> k) P
unfolding inside
inside_then at n size h r = let test : leb (at + n) size ≡ true = le→leb _ _ h in rw test r

pub add-mul_one : (n k : ℕ) → (n + 1) * k ≡ n * k + k
add-mul_one n k = omega (arith, add-mul n 1 k)

-- Block number `i` of `n` blocks.
pub block_inside : (i n d : ℕ) → i < n → i * d + d ≤ n * d
block_inside i n d h =
    let m : (i + 1) * d ≤ n * d = mul-le-mul_right d (omega arith) in
    omega (arith, m, add-mul_one i d)

-- Column `i` of row `b`.
pub flat_inside : (i n b m : ℕ) → i < n → b < m → i + b * n < m * n
flat_inside i n b m h l = omega (arith, block_inside b m n l)

-- Each head has a part of the KV cache, and a row of scores is not shorter than a query.
pub record Fitting (config : Config) : Type 0 where
  pub caches : config.heads ≤ config.kv_heads
  pub scores : config.qkv_dim ≤ config.seq_len

module _ (config : Config) (batch_size : ℕ) where
  pub row_inside :
      (batch_idx : ℕ)
      → batch_idx < batch_size
      → batch_idx * config.model_dim + config.model_dim ≤ rows_size config batch_size
  row_inside batch_idx h = block_inside batch_idx batch_size config.model_dim h

  pub hidden_inside :
      (batch_idx : ℕ)
      → batch_idx < batch_size
      → batch_idx * config.ff_hidden_dim * 2 + config.ff_hidden_dim + config.ff_hidden_dim
        ≤ hidden_size config batch_size
  hidden_inside batch_idx h =
      omega (arith, block_inside batch_idx batch_size config.ff_hidden_dim h)

  pub post_inside :
      (head batch_idx : ℕ)
      → head < config.heads
      → batch_idx < batch_size
      → head * batch_size * config.model_dim + config.model_dim ≤ post_size config batch_size
  post_inside head batch_idx h b =
      block_inside (head * batch_size) (config.heads * batch_size) config.model_dim
        (omega (arith, block_inside head config.heads batch_size h, b))

  pub q_inside :
      (head batch_idx : ℕ)
      → head < config.heads
      → batch_idx < batch_size
      → head * config.qkv_dim + batch_idx * config.heads * config.qkv_dim + config.qkv_dim
        ≤ q_size config batch_size
  q_inside head batch_idx h b =
      let block =
        block_inside (head + batch_idx * config.heads) (batch_size * config.heads) config.qkv_dim
          (flat_inside head config.heads batch_idx batch_size h b) in
      omega (arith, block, add-mul head (batch_idx * config.heads) config.qkv_dim)

  pub att_inside :
      (head batch_idx pos : ℕ)
      → Fitting config
      → head < config.heads
      → batch_idx < batch_size
      → pos < config.seq_len
      → head * config.seq_len + batch_idx * config.heads * config.qkv_dim + (pos + 1)
        ≤ att_size config batch_size
  att_inside head batch_idx pos fitting h b p =
      let block =
        block_inside (head + batch_idx * config.heads) (batch_size * config.heads) config.seq_len
          (flat_inside head config.heads batch_idx batch_size h b) in
      let short : batch_idx * config.heads * config.qkv_dim
          ≤ batch_idx * config.heads * config.seq_len =
        mul-le-mul_left (batch_idx * config.heads) fitting.scores in
      omega (arith, block, short, p, add-mul head (batch_idx * config.heads) config.seq_len)

-- The part of a head is inside the part of its position.
pub head_inside :
    (config : Config) (pos layer head : ℕ)
    → layer < config.layers
    → head < config.kv_heads
    → (pos * cache_pos_size config ≤ cache_offset config pos layer head)
      × (cache_offset config pos layer head + config.qkv_dim ≤ (pos + 1) * cache_pos_size config)
head_inside config pos layer head l h =
    let heads : (head + 1) * config.qkv_dim ≤ config.kv_heads * config.qkv_dim =
      mul-le-mul_right config.qkv_dim (omega arith) in
    let layers : (layer + 1) * cache_layer_size config ≤ config.layers * cache_layer_size config =
      mul-le-mul_right (cache_layer_size config) (omega arith) in
    let one_head : (head + 1) * config.qkv_dim ≡ head * config.qkv_dim + config.qkv_dim =
      add-mul_one head config.qkv_dim in
    let one_layer : (layer + 1) * cache_layer_size config
        ≡ layer * cache_layer_size config + cache_layer_size config =
      add-mul_one layer (cache_layer_size config) in
    let one_pos : (pos + 1) * cache_pos_size config
        ≡ pos * cache_pos_size config + cache_pos_size config =
      add-mul_one pos (cache_pos_size config) in
    (omega arith, omega arith)

-- The part of a head at a position of the cache is inside of the cache.
pub cache_inside :
    (config : Config) (pos layer head : ℕ)
    → layer < config.layers
    → head < config.kv_heads
    → pos < config.seq_len
    → cache_offset config pos layer head + config.qkv_dim ≤ kv_cache_size config
cache_inside config pos layer head l h p =
    let (low, high) = head_inside config pos layer head l h in
    let last : (pos + 1) * cache_pos_size config ≤ config.seq_len * cache_pos_size config =
      mul-le-mul_right (cache_pos_size config) (omega (arith, p)) in
    omega (arith, high, last)

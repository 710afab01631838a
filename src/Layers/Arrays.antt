-- ===== src/Layers/Arrays.antt =====
-- The arrays and weights of the layers of gemma.cc, and the kernels of ops.h. `F` stands for float and
-- `M` for a compressed matrix. An array is a function from its indices, and its extent, which is that
-- of the source, is looked at by `inside` at each access; a task of the thread pool is one step, and
-- the order of the tasks is a parameter.
use gemma_cpp.Base.{ℕ, ◌+◌, ◌-◌, ◌*◌, Checked, check, ◌&&◌, ltb, leb, if◌then◌else◌}
use gemma_cpp.Weights.{Config}

abbrev pub Array : Type 0 → Type 0
Array F = ℕ → F

-- The array from an index on.
abbrev pub behind : {F : Type 0} → Array F → ℕ → Array F
behind a at i = a (at + i)

-- The array with `n` new values from an index on.
unfoldable pub put : {F : Type 0} → Array F → ℕ → ℕ → Array F → Array F
put a at n values i = if leb at i && ltb i (at + n) then values (i - at) else a i

-- What the layers call. The values of a result stand from index 0 on. `mat_vec m rows columns ofs
-- vec` is MatVec or MatVecLoop on the matrix that starts at `ofs`.
pub record Kernels (F M : Type 0) : Type 0 where
  pub zero_f : F
  pub query_scale : F
  pub embedding_scale : F
  pub mat_vec : M → ℕ → ℕ → ℕ → Array F → Array F
  pub dot : Array F → Array F → ℕ → F
  pub rope : Array F → ℕ → ℕ → Array F
  pub scale : F → Array F → Array F
  pub softmax : Array F → ℕ → Array F
  pub add_scaled : F → Array F → Array F → Array F
  pub add : Array F → Array F → Array F
  pub rms_norm : Array F → Array F → ℕ → Array F
  pub to_bf16 : Array F → Array F
  pub gelu_times : Array F → Array F → Array F
  pub decompress : M → ℕ → ℕ → Array F

-- A CompressedLayer and the CompressedWeights.
pub record LayerWeights (F M : Type 0) : Type 0 where
  pub pre_attention_norm_scale : Array F
  pub pre_ffw_norm_scale : Array F
  pub gating_einsum_w : M
  pub linear_w : M
  pub qkv_einsum_w : M
  pub attn_vec_einsum_w : M

pub record NetworkWeights (F M : Type 0) : Type 0 where
  pub embedder_input_embedding : M
  pub final_norm_scale : Array F
  pub layer : ℕ → LayerWeights F M

-- The Activations that the layers use, and the KV cache.
pub record Activations (F : Type 0) : Type 0 where
  pub x : Array F
  pub pre_att_rms_out : Array F
  pub q : Array F
  pub att : Array F
  pub att_out : Array F
  pub att_post1 : Array F
  pub att_post2 : Array F
  pub bf_pre_ffw_rms_out : Array F
  pub ffw_hidden : Array F
  pub ffw_out : Array F
  pub key_cache : Array F
  pub value_cache : Array F

-- The assertion on the batch, and an access outside of an array.
pub data LayerFault : Type 0 where
  batch_assertion outside_array : LayerFault

-- The access to `n` values from an index on, in an array of a size.
unfoldable pub inside : ℕ → ℕ → ℕ → Checked LayerFault (Unit {0})
inside at n size = check (leb (at + n) size) LayerFault.outside_array

-- The extents of the std::array members: x and the others with rows of kModelDim values, q and
-- att_out, att, att_post1, and ffw_hidden.
abbrev pub rows_size : Config → ℕ → ℕ
rows_size config batch_size = batch_size * config.model_dim

abbrev pub q_size : Config → ℕ → ℕ
q_size config batch_size = batch_size * config.heads * config.qkv_dim

abbrev pub att_size : Config → ℕ → ℕ
att_size config batch_size = batch_size * config.heads * config.seq_len

abbrev pub post_size : Config → ℕ → ℕ
post_size config batch_size = config.heads * batch_size * config.model_dim

abbrev pub hidden_size : Config → ℕ → ℕ
hidden_size config batch_size = batch_size * config.ff_hidden_dim * 2

-- kCacheLayerSize, kCachePosSize, and the offset of a head in the KV cache.
abbrev pub cache_layer_size : Config → ℕ
cache_layer_size config = config.kv_heads * config.qkv_dim

abbrev pub cache_pos_size : Config → ℕ
cache_pos_size config = config.layers * (config.kv_heads * config.qkv_dim)

abbrev pub cache_offset : Config → ℕ → ℕ → ℕ → ℕ
cache_offset config pos layer head =
    pos * cache_pos_size config + layer * cache_layer_size config + head * config.qkv_dim

-- CreateKVCache: the number of floats of each cache.
abbrev pub kv_cache_size : Config → ℕ
kv_cache_size config = config.seq_len * cache_pos_size config

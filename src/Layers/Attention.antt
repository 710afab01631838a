-- ===== src/Layers/Attention.antt =====
-- Attention of gemma.cc, head by head.
use gemma_cpp.Base.{
  ℕ, zero, suc, ◌+◌, ◌-◌, ◌*◌, ok, ◌>>◌, Checked, debug_check, Bool, true, false, ltb, ◌==◌, List,
  [], ◌∷◌, ◌>>=◌,
}
use gemma_cpp.Weights.{Config}
use gemma_cpp.Layers.Arrays.{
  Array, behind, put, Kernels, LayerWeights, Activations, LayerFault, cache_offset, inside,
  rows_size, q_size, att_size, post_size, kv_cache_size,
}

module _ {F M : Type 0} (kernels : Kernels F M) (config : Config)
    (batch_size pos batch_idx layer : ℕ) (weights : LayerWeights F M) where
  -- The offset of a head in q and in att_out.
  abbrev pub q_offset : ℕ → ℕ
  q_offset head = head * config.qkv_dim + batch_idx * config.heads * config.qkv_dim

  -- The offset of a head in att, as the code has it.
  abbrev pub att_offset : ℕ → ℕ
  att_offset head = head * config.seq_len + batch_idx * config.heads * config.qkv_dim

  -- The linear projections to q, to the key and to the value.
  unfoldable pub project : ℕ → Activations F → Checked LayerFault (Activations F)
  project head a = do
    let d = config.qkv_dim
    let head_offset = 3 * d * config.model_dim
    let input = behind a.pre_att_rms_out (batch_idx * config.model_dim)
    let row : ℕ → Array F = λ part.
        kernels.mat_vec weights.qkv_einsum_w d config.model_dim
          (head * head_offset + part * d * config.model_dim) input
    let kv_offset = cache_offset config pos layer head
    inside (batch_idx * config.model_dim) config.model_dim (rows_size config batch_size)
    inside (q_offset head) d (q_size config batch_size)
    inside kv_offset d (kv_cache_size config)
    ok (record a {
      q = put a.q (q_offset head) d (row 0);
      key_cache = put a.key_cache kv_offset d (row 1);
      value_cache = put a.value_cache kv_offset d (row 2);
    })

  -- Rope on the query and on the key, and the scale of the query.
  unfoldable pub rotate : ℕ → Activations F → Checked LayerFault (Activations F)
  rotate head a = do
    let d = config.qkv_dim
    let kv_offset = cache_offset config pos layer head
    let rotated = kernels.rope (behind a.q (q_offset head)) d pos
    inside (q_offset head) d (q_size config batch_size)
    inside kv_offset d (kv_cache_size config)
    ok (record a {
      q = put a.q (q_offset head) d (kernels.scale kernels.query_scale rotated);
      key_cache = put a.key_cache kv_offset d (kernels.rope (behind a.key_cache kv_offset) d pos);
    })

  -- The scores of `left` positions from `pos2` on.
  unfoldable pub score_loop : ℕ → ℕ → ℕ → Activations F → Checked LayerFault (Activations F)
  score_loop head zero pos2 a = ok a
  score_loop head (suc left) pos2 a = do
    let score =
        kernels.dot (behind a.q (q_offset head))
          (behind a.key_cache (cache_offset config pos2 layer head)) config.qkv_dim
    inside (q_offset head) config.qkv_dim (q_size config batch_size)
    inside (cache_offset config pos2 layer head) config.qkv_dim (kv_cache_size config)
    inside (att_offset head + pos2) 1 (att_size config batch_size)
    score_loop head left (pos2 + 1)
        (record a { att = put a.att (att_offset head + pos2) 1 (λ i. score) })

  -- The weighted sum of the values of `left` positions from `pos2` on.
  unfoldable pub sum_loop : ℕ → ℕ → ℕ → Activations F → Checked LayerFault (Activations F)
  sum_loop head zero pos2 a = ok a
  sum_loop head (suc left) pos2 a = do
    let weight = a.att (att_offset head + pos2)
    let sum =
        kernels.add_scaled weight (behind a.value_cache (cache_offset config pos2 layer head))
          (behind a.att_out (q_offset head))
    inside (att_offset head + pos2) 1 (att_size config batch_size)
    inside (cache_offset config pos2 layer head) config.qkv_dim (kv_cache_size config)
    inside (q_offset head) config.qkv_dim (q_size config batch_size)
    sum_loop head left (pos2 + 1)
        (record a { att_out = put a.att_out (q_offset head) config.qkv_dim sum })

  unfoldable pub soften : ℕ → Activations F → Checked LayerFault (Activations F)
  soften head a = do
    inside (att_offset head) (pos + 1) (att_size config batch_size)
    inside (q_offset head) config.qkv_dim (q_size config batch_size)
    ok (record a {
      att =
          put a.att (att_offset head) (pos + 1)
            (kernels.softmax (behind a.att (att_offset head)) (pos + 1));
      att_out = put a.att_out (q_offset head) config.qkv_dim (λ i. kernels.zero_f);
    })

  -- The projection back, for head 0 into the place of the sum.
  unfoldable pub project_back : ℕ → Activations F → Checked LayerFault (Activations F)
  project_back head a = do
    let out =
        kernels.mat_vec weights.attn_vec_einsum_w config.model_dim config.qkv_dim
          (head * config.model_dim * config.qkv_dim) (behind a.att_out (q_offset head))
    inside (q_offset head) config.qkv_dim (q_size config batch_size)
    elim (head == 0) [
      | true ↦ do
        inside (batch_idx * config.model_dim) config.model_dim (rows_size config batch_size)
        ok (record a {
          att_post2 = put a.att_post2 (batch_idx * config.model_dim) config.model_dim out;
        })
      | false ↦ do
        inside (head * batch_size * config.model_dim) config.model_dim (post_size config batch_size)
        ok (record a {
          att_post1 = put a.att_post1 (head * batch_size * config.model_dim) config.model_dim out;
        })
    ]

  -- The task of a head.
  unfoldable pub attention_head : ℕ → Activations F → Checked LayerFault (Activations F)
  attention_head head a = do
    projected ← project head a
    rotated ← rotate head projected
    scored ← score_loop head (pos + 1) 0 rotated
    softened ← soften head scored
    summed ← sum_loop head (pos + 1) 0 softened
    project_back head summed

  unfoldable pub head_tasks : List ℕ → Activations F → Checked LayerFault (Activations F)
  head_tasks [] a = ok a
  head_tasks (head ∷ order) a = do a1 ← attention_head head a; head_tasks order a1

  -- The sum over `left` heads from `head` on.
  unfoldable pub accumulate : ℕ → ℕ → Activations F → Checked LayerFault (Activations F)
  accumulate zero head a = ok a
  accumulate (suc left) head a = do
    let at = batch_idx * config.model_dim
    inside (head * batch_size * config.model_dim) config.model_dim (post_size config batch_size)
    inside at config.model_dim (rows_size config batch_size)
    accumulate left (head + 1) (record a {
      att_post2 = put a.att_post2 at config.model_dim (
          kernels.add (behind a.att_post1 (head * batch_size * config.model_dim))
            (behind a.att_post2 at));
    })

  -- Attention, where pos is batch_start + batch_idx.
  unfoldable pub attention : Bool → List ℕ → Activations F → Checked LayerFault (Activations F)
  attention debug order a = do
    debug_check debug (ltb batch_idx batch_size) LayerFault.batch_assertion
    a1 ← head_tasks order a
    accumulate (config.heads - 1) 1 a1

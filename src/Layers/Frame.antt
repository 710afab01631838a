-- ===== src/Layers/Frame.antt =====
-- What Transformer and Prefill write to the KV cache.
use gemma_cpp.Base.{
  ℕ, zero, suc, ◌+◌, ◌-◌, ◌*◌, ◌<◌, ◌≤◌, ◌≡◌, refl, arith, Returns, Returns-map, Bool, true, ltb,
  lt→ltb, List, [], ◌∷◌, some, get_elem?, get_elem?-inside, length, debug_check-true,
}
use gemma_cpp.Weights.{Config}
use gemma_cpp.Layers.Arrays.{
  Kernels, LayerWeights, NetworkWeights, Activations, LayerFault, cache_pos_size,
}
use gemma_cpp.Layers.Attention.{head_tasks, attention}
use gemma_cpp.Layers.{
  embed_loop, attention_loop, ffw_loop, layers_loop, norm_loop, prefill, transformer_loop,
  transformer,
}
use native.Mathlib.Nat.{mul-le-mul_right}
use gemma_cpp.Layers.Extents.{Fitting, head_inside}
use gemma_cpp.Layers.Tokens.{
  embed-Framed, pre_attention-Framed, final_norm-Framed, feed_forward-Framed,
}
use gemma_cpp.Layers.Heads.{
  Framed, Framed-refl, Framed-wider, then-Framed, AllBelow, attention_head-Framed,
  accumulate-Framed,
}

module _ {F M : Type 0} (kernels : Kernels F M) (config : Config) (batch_size : ℕ)
    (fitting : Fitting config) (debug : Bool) where
  module _ (order : List ℕ) (heads : AllBelow config.heads order) where
    head_tasks-Framed :
        (tasks : List ℕ) (pos batch_idx layer : ℕ) (weights : LayerWeights F M) (a : Activations F)
        → AllBelow config.heads tasks
        → batch_idx < batch_size
        → layer < config.layers
        → pos < config.seq_len
        → Returns
            (head_tasks kernels config batch_size pos batch_idx layer weights tasks a)
            (Framed (pos * cache_pos_size config) ((pos + 1) * cache_pos_size config) a)
    unfolding head_tasks
    head_tasks-Framed [] pos batch_idx layer weights a all b l p = (a, refl, Framed-refl _ _ a)
    head_tasks-Framed (head ∷ tasks) pos batch_idx layer weights a (h, all) b l p =
        let (low, high) = head_inside config pos layer head l (omega (arith, fitting.caches, h)) in
        then-Framed
          (Returns-map (λ c f. Framed-wider _ _ _ _ low high f)
            (attention_head-Framed kernels config batch_size fitting pos batch_idx layer weights b l
              p head h a))
          λ a1. head_tasks-Framed tasks pos batch_idx layer weights a1 all b l p

    pub attention-Framed :
        (pos batch_idx layer : ℕ) (weights : LayerWeights F M) (a : Activations F)
        → batch_idx < batch_size
        → layer < config.layers
        → pos < config.seq_len
        → Returns
            (attention kernels config batch_size pos batch_idx layer weights debug order a)
            (Framed (pos * cache_pos_size config) ((pos + 1) * cache_pos_size config) a)
    unfolding attention
    attention-Framed pos batch_idx layer weights a b l p =
        let test : ltb batch_idx batch_size ≡ true = lt→ltb batch_idx batch_size b in
        rw (test, debug_check-true debug LayerFault.batch_assertion)
          (then-Framed (head_tasks-Framed order pos batch_idx layer weights a heads b l p) λ a1.
            accumulate-Framed kernels config batch_size fitting pos batch_idx layer weights b l p _
              _ (config.heads - 1) 1 a1 (omega arith))

    -- One position of a batch: nothing but its part of the caches changes.
    position_inside :
        (pos token_idx n : ℕ)
        → token_idx < n
        → (pos * cache_pos_size config ≤ (pos + token_idx) * cache_pos_size config)
          × ((pos + token_idx + 1) * cache_pos_size config ≤ (pos + n) * cache_pos_size config)
    position_inside pos token_idx n h = (
      mul-le-mul_right (cache_pos_size config) (omega arith),
      mul-le-mul_right (cache_pos_size config) (omega arith),
    )

    module _ (weights : NetworkWeights F M) (pos n lo hi : ℕ) (fits : n ≤ batch_size) where
      pub embed_loop-Framed :
          (tokens : List ℕ) (left token_idx : ℕ) (a : Activations F)
          → n ≤ length tokens
          → AllBelow config.vocab_size tokens
          → token_idx + left ≤ n
          → Returns
              (embed_loop kernels config batch_size debug order weights pos tokens left token_idx a)
              (Framed lo hi a)
      unfolding embed_loop
      embed_loop-Framed tokens zero token_idx a room all h = (a, refl, Framed-refl _ _ a)
      embed_loop-Framed tokens (suc left) token_idx a room all h =
          let (token, found) = get_elem?-inside tokens token_idx (omega arith) in
          rw (embed_loop, found)
            (then-Framed
              (embed-Framed kernels config batch_size debug lo hi token_idx (omega arith) weights
                token a (all_below_at tokens token_idx token all found))
              λ a1. embed_loop-Framed tokens left (token_idx + 1) a1 room all (omega arith))
        where
          all_below_at :
              (ts : List ℕ) (i t : ℕ)
              → AllBelow config.vocab_size ts
              → get_elem? ts i ≡ some t
              → t < config.vocab_size
          all_below_at [] i t all e = cc
          all_below_at (u ∷ ts) zero t (first, all) e =
              let same : u ≡ t = cc in omega (arith, first, same)
          all_below_at (u ∷ ts) (suc i) t (first, all) e = all_below_at ts i t all e

    module _ (weights : NetworkWeights F M) (pos n : ℕ) (fits : n ≤ batch_size)
        (in_cache : pos + n ≤ config.seq_len) where
      abbrev lo : ℕ
      lo = pos * cache_pos_size config

      abbrev hi : ℕ
      hi = (pos + n) * cache_pos_size config

      attention_loop-Framed :
          (layer left token_idx : ℕ) (a : Activations F)
          → layer < config.layers
          → token_idx + left ≤ n
          → Returns
              (attention_loop kernels config batch_size debug order weights pos layer left token_idx
                a)
              (Framed lo hi a)
      unfolding attention_loop
      attention_loop-Framed layer zero token_idx a l h = (a, refl, Framed-refl _ _ a)
      attention_loop-Framed layer (suc left) token_idx a l h =
          let (low, high) = position_inside pos token_idx n (omega arith) in
          then-Framed
            (pre_attention-Framed kernels config batch_size debug lo hi token_idx (omega arith)
              (weights.layer layer) a)
            λ a0.
              then-Framed
                (Returns-map (λ c f. Framed-wider _ _ _ _ low high f)
                  (attention-Framed (pos + token_idx) token_idx layer (weights.layer layer) a0
                    (omega arith) l (omega arith)))
                λ a1. attention_loop-Framed layer left (token_idx + 1) a1 l (omega arith)

      ffw_loop-Framed :
          (layer left token_idx : ℕ) (a : Activations F)
          → token_idx + left ≤ n
          → Returns
              (ffw_loop kernels config batch_size debug order weights pos layer left token_idx a)
              (Framed lo hi a)
      unfolding ffw_loop
      ffw_loop-Framed layer zero token_idx a h = (a, refl, Framed-refl _ _ a)
      ffw_loop-Framed layer (suc left) token_idx a h =
          then-Framed
            (feed_forward-Framed kernels config batch_size debug lo hi token_idx (omega arith)
              (weights.layer layer) a)
            λ a1. ffw_loop-Framed layer left (token_idx + 1) a1 (omega arith)

      layers_loop-Framed :
          (left layer : ℕ) (a : Activations F)
          → layer + left ≤ config.layers
          → Returns
              (layers_loop kernels config batch_size debug order weights pos n left layer a)
              (Framed lo hi a)
      unfolding layers_loop
      layers_loop-Framed zero layer a h = (a, refl, Framed-refl _ _ a)
      layers_loop-Framed (suc left) layer a h =
          then-Framed (attention_loop-Framed layer n 0 a (omega arith) (omega arith)) λ a1.
            then-Framed (ffw_loop-Framed layer n 0 a1 (omega arith))
              λ a2. layers_loop-Framed left (layer + 1) a2 (omega arith)

      norm_loop-Framed :
          (left token_idx : ℕ) (a : Activations F)
          → token_idx + left ≤ n
          → Returns
              (norm_loop kernels config batch_size debug order weights pos left token_idx a)
              (Framed lo hi a)
      unfolding norm_loop
      norm_loop-Framed zero token_idx a h = (a, refl, Framed-refl _ _ a)
      norm_loop-Framed (suc left) token_idx a h =
          then-Framed
            (final_norm-Framed kernels config batch_size debug lo hi token_idx (omega arith) weights
              a)
            λ a1. norm_loop-Framed left (token_idx + 1) a1 (omega arith)

      -- For a model in which each head has a part of the KV cache and a query is not longer than a row
      -- of scores: Prefill of the first `n` of the tokens, which are in the vocabulary, with n at most
      -- kBatchSize and pos + n at most kSeqLen, ends normally. No assertion fails, no access to the
      -- activations, the cache or the tokens is outside of its array, and nothing in the cache changes
      -- but the parts of the positions from `pos` up to pos + n. This is so whatever the kernels
      -- compute and for any order of the tasks of the heads.
      pub prefill-Framed :
          (tokens : List ℕ) (a : Activations F)
          → n ≤ length tokens
          → AllBelow config.vocab_size tokens
          → Returns
              (prefill kernels config batch_size debug order weights pos tokens n a)
              (Framed (pos * cache_pos_size config) ((pos + n) * cache_pos_size config) a)
      unfolding prefill
      prefill-Framed tokens a room all =
          then-Framed
            (embed_loop-Framed weights pos n lo hi fits tokens n 0 a room all (omega arith))
            λ a0.
              then-Framed (layers_loop-Framed config.layers 0 a0 (omega arith))
                λ a1. norm_loop-Framed n 0 a1 (omega arith)

    module _ (weights : NetworkWeights F M) (pos : ℕ) (one : 0 < batch_size)
        (in_cache : pos < config.seq_len) where
      transformer_loop-Framed :
          (left layer : ℕ) (a : Activations F)
          → layer + left ≤ config.layers
          → Returns
              (transformer_loop kernels config batch_size debug order weights pos left layer a)
              (Framed (pos * cache_pos_size config) ((pos + 1) * cache_pos_size config) a)
      unfolding transformer_loop
      transformer_loop-Framed zero layer a h = (a, refl, Framed-refl _ _ a)
      transformer_loop-Framed (suc left) layer a h =
          then-Framed
            (pre_attention-Framed kernels config batch_size debug _ _ 0 one (weights.layer layer) a)
            λ a0.
              then-Framed
                (attention-Framed pos 0 layer (weights.layer layer) a0 one (omega arith) in_cache)
                λ a1.
                  then-Framed
                    (feed_forward-Framed kernels config batch_size debug _ _ 0 one
                      (weights.layer layer) a1)
                    λ a2. transformer_loop-Framed left (layer + 1) a2 (omega arith)

      -- In such a model Transformer on a token of the vocabulary, at a position below kSeqLen, ends
      -- normally too, with no access outside of an array, and nothing in the cache changes but the
      -- part of its position.
      pub transformer-Framed :
          (token : ℕ) (a : Activations F)
          → token < config.vocab_size
          → Returns
              (transformer kernels config batch_size debug order weights pos token a)
              (Framed (pos * cache_pos_size config) ((pos + 1) * cache_pos_size config) a)
      unfolding transformer
      transformer-Framed token a v =
          then-Framed (embed-Framed kernels config batch_size debug _ _ 0 one weights token a v)
            λ a0.
              then-Framed (transformer_loop-Framed config.layers 0 a0 (omega arith))
                λ a1. final_norm-Framed kernels config batch_size debug _ _ 0 one weights a1

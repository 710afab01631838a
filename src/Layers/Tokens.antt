-- ===== src/Layers/Tokens.antt =====
-- The parts of Prefill and Transformer that work on a token and leave the KV cache.
use gemma_cpp.Base.{ℕ, ◌<◌, ◌≡◌, refl, arith, Returns, Bool, true, ltb, lt→ltb, debug_check-true}
use gemma_cpp.Weights.{Config}
use gemma_cpp.Layers.Arrays.{Kernels, LayerWeights, NetworkWeights, Activations, LayerFault}
use gemma_cpp.Layers.{ffw, gated, embed, pre_attention, pre_ffw, post_ffw, final_norm, feed_forward}
use gemma_cpp.Layers.Extents.{inside_then, row_inside, hidden_inside, block_inside}
use gemma_cpp.Layers.Heads.{Framed, untouched, then-Framed}

module _ {F M : Type 0} (kernels : Kernels F M) (config : Config) (batch_size : ℕ)
    (debug : Bool) where
  -- The parts that leave the caches as they are, for a token of the batch.
  module _ (lo hi token_idx : ℕ) (b : token_idx < batch_size) where
    pub embed-Framed :
        (weights : NetworkWeights F M) (token : ℕ) (a : Activations F)
        → token < config.vocab_size
        → Returns (embed kernels config batch_size debug weights token token_idx a) (Framed lo hi a)
    unfolding embed
    embed-Framed weights token a v =
        inside_then _ _ _ (block_inside token config.vocab_size config.model_dim v) (
          inside_then _ _ _ (row_inside config batch_size token_idx b)
            (_, refl, untouched lo hi refl refl))

    pub pre_attention-Framed :
        (weights : LayerWeights F M) (a : Activations F)
        → Returns
            (pre_attention kernels config batch_size debug weights token_idx a)
            (Framed lo hi a)
    unfolding pre_attention
    pre_attention-Framed weights a =
        inside_then _ _ _ (row_inside config batch_size token_idx b)
          (_, refl, untouched lo hi refl refl)

    pub final_norm-Framed :
        (weights : NetworkWeights F M) (a : Activations F)
        → Returns (final_norm kernels config batch_size debug weights token_idx a) (Framed lo hi a)
    unfolding final_norm
    final_norm-Framed weights a =
        inside_then _ _ _ (row_inside config batch_size token_idx b)
          (_, refl, untouched lo hi refl refl)

    pre_ffw-Framed :
        (weights : LayerWeights F M) (a : Activations F)
        → Returns (pre_ffw kernels config batch_size debug weights token_idx a) (Framed lo hi a)
    unfolding pre_ffw
    pre_ffw-Framed weights a =
        inside_then _ _ _ (row_inside config batch_size token_idx b)
          (_, refl, untouched lo hi refl refl)

    post_ffw-Framed :
        (a : Activations F)
        → Returns (post_ffw kernels config batch_size debug token_idx a) (Framed lo hi a)
    unfolding post_ffw
    post_ffw-Framed a =
        inside_then _ _ _ (row_inside config batch_size token_idx b)
          (_, refl, untouched lo hi refl refl)

    ffw-Framed :
        (weights : LayerWeights F M) (a : Activations F)
        → Returns (ffw kernels config batch_size debug token_idx weights a) (Framed lo hi a)
    unfolding ffw gated
    ffw-Framed weights a =
        let test : ltb token_idx batch_size ≡ true = lt→ltb token_idx batch_size b in
        let room = hidden_inside config batch_size token_idx b in
        rw (test, debug_check-true debug LayerFault.batch_assertion)
          (inside_then _ _ _ (row_inside config batch_size token_idx b) (
            inside_then _ _ _ room
              (inside_then _ _ _ (omega (arith, room)) (_, refl, untouched lo hi refl refl))))

    pub feed_forward-Framed :
        (weights : LayerWeights F M) (a : Activations F)
        → Returns
            (feed_forward kernels config batch_size debug weights token_idx a)
            (Framed lo hi a)
    unfolding feed_forward
    feed_forward-Framed weights a =
        then-Framed (pre_ffw-Framed weights a)
          λ a1. then-Framed (ffw-Framed weights a1) post_ffw-Framed

-- ===== src/Layers.antt =====
-- FFW, Prefill and Transformer of gemma.cc over the kernels of ops.h. The arrays are those of
-- Layers/Arrays, Attention is in Layers/Attention. The order of the tasks of the heads is a
-- parameter, and the tasks of tokens run in ascending order.
pub mod Arrays
pub mod Attention
pub mod Extents
pub mod Heads
pub mod Tokens
pub mod Frame
pub mod Generated
pub mod Overrun
mod Tests
use gemma_cpp.Base.{
  ℕ, zero, suc, ◌+◌, ◌*◌, ok, ◌>>=◌, ◌>>◌, Checked, debug_check, Bool, ltb, List, Option, none,
  some, get_elem?, failed,
}
use gemma_cpp.Weights.{Config}
use gemma_cpp.Layers.Arrays.{
  Array, behind, put, Kernels, LayerWeights, NetworkWeights, Activations, LayerFault, inside,
  rows_size, hidden_size,
}
use gemma_cpp.Layers.Attention.{attention}

module _ {F M : Type 0} (kernels : Kernels F M) (config : Config) (batch_size : ℕ)
    (debug : Bool) where
  -- The gate and the product with the nonlinearity, and the projection back.
  unfoldable pub gated : ℕ → LayerWeights F M → Activations F → Checked LayerFault (Activations F)
  gated batch_idx weights a = do
    let hidden = config.ff_hidden_dim
    let at = batch_idx * hidden * 2
    let vec = behind a.bf_pre_ffw_rms_out (batch_idx * config.model_dim)
    let out_mul =
        kernels.mat_vec weights.gating_einsum_w hidden config.model_dim (hidden * config.model_dim)
          vec
    let gate = kernels.mat_vec weights.gating_einsum_w hidden config.model_dim 0 vec
    let both =
        put (put a.ffw_hidden (at + hidden) hidden out_mul) at hidden
          (kernels.gelu_times gate out_mul)
    let out = kernels.mat_vec weights.linear_w config.model_dim hidden 0 (behind both at)
    inside (batch_idx * config.model_dim) config.model_dim (rows_size config batch_size)
    inside (at + hidden) hidden (hidden_size config batch_size)
    inside at hidden (hidden_size config batch_size)
    ok (record a {
      ffw_hidden = both;
      ffw_out = put a.ffw_out (batch_idx * config.model_dim) config.model_dim out;
    })

  -- FFW
  unfoldable pub ffw : ℕ → LayerWeights F M → Activations F → Checked LayerFault (Activations F)
  ffw batch_idx weights a =
      debug_check debug (ltb batch_idx batch_size) LayerFault.batch_assertion
      >> gated batch_idx weights a

  -- x[token] = the scaled embedding.
  unfoldable pub embed :
      NetworkWeights F M → ℕ → ℕ → Activations F → Checked LayerFault (Activations F)
  embed weights token token_idx a = do
    let values =
        kernels.decompress weights.embedder_input_embedding (token * config.model_dim)
          config.model_dim
    inside (token * config.model_dim) config.model_dim (config.vocab_size * config.model_dim)
    inside (token_idx * config.model_dim) config.model_dim (rows_size config batch_size)
    ok (record a {
      x =
          put a.x (token_idx * config.model_dim) config.model_dim
            (kernels.scale kernels.embedding_scale values);
    })

  unfoldable pub pre_attention :
      LayerWeights F M → ℕ → Activations F → Checked LayerFault (Activations F)
  pre_attention weights token_idx a = do
    let at = token_idx * config.model_dim
    inside at config.model_dim (rows_size config batch_size)
    ok (record a {
      pre_att_rms_out =
          put a.pre_att_rms_out at config.model_dim
            (kernels.rms_norm (behind a.x at) weights.pre_attention_norm_scale config.model_dim);
    })

  -- AddFrom(att_post2, x) and RMSNorm before FFW.
  unfoldable pub pre_ffw : LayerWeights F M → ℕ → Activations F → Checked LayerFault (Activations F)
  pre_ffw weights token_idx a = do
    let at = token_idx * config.model_dim
    let x = put a.x at config.model_dim (kernels.add (behind a.att_post2 at) (behind a.x at))
    inside at config.model_dim (rows_size config batch_size)
    ok (record a {
      x = x;
      bf_pre_ffw_rms_out = put a.bf_pre_ffw_rms_out at config.model_dim (
          kernels.to_bf16
            (kernels.rms_norm (behind x at) weights.pre_ffw_norm_scale config.model_dim));
    })

  -- AddFrom(ffw_out, x)
  unfoldable pub post_ffw : ℕ → Activations F → Checked LayerFault (Activations F)
  post_ffw token_idx a = do
    let at = token_idx * config.model_dim
    inside at config.model_dim (rows_size config batch_size)
    ok (record a {
      x = put a.x at config.model_dim (kernels.add (behind a.ffw_out at) (behind a.x at));
    })

  unfoldable pub final_norm :
      NetworkWeights F M → ℕ → Activations F → Checked LayerFault (Activations F)
  final_norm weights token_idx a = do
    let at = token_idx * config.model_dim
    inside at config.model_dim (rows_size config batch_size)
    ok (record a {
      x =
          put a.x at config.model_dim
            (kernels.rms_norm (behind a.x at) weights.final_norm_scale config.model_dim);
    })

  -- The rest of a layer behind Attention, for a token.
  unfoldable pub feed_forward :
      LayerWeights F M → ℕ → Activations F → Checked LayerFault (Activations F)
  feed_forward weights token_idx a = do
    a1 ← pre_ffw weights token_idx a
    a2 ← ffw token_idx weights a1
    post_ffw token_idx a2

  module _ (order : List ℕ) (weights : NetworkWeights F M) (pos : ℕ) where
    -- The embeddings of `left` tokens from tokens[token_idx] on.
    unfoldable pub embed_loop : List ℕ → ℕ → ℕ → Activations F → Checked LayerFault (Activations F)
    embed_loop tokens zero token_idx a = ok a
    embed_loop tokens (suc left) token_idx a = elim (get_elem? tokens token_idx) [
      | none ↦ failed LayerFault.outside_array
      | some token ↦ do
        a1 ← embed weights token token_idx a
        embed_loop tokens left (token_idx + 1) a1
    ]

    -- The loop of Attention over `left` tokens from `token_idx` on.
    unfoldable pub attention_loop : ℕ → ℕ → ℕ → Activations F → Checked LayerFault (Activations F)
    attention_loop layer zero token_idx a = ok a
    attention_loop layer (suc left) token_idx a = do
      a0 ← pre_attention (weights.layer layer) token_idx a
      a1 ←
          attention kernels config batch_size (pos + token_idx) token_idx layer
            (weights.layer layer) debug order a0
      attention_loop layer left (token_idx + 1) a1

    unfoldable pub ffw_loop : ℕ → ℕ → ℕ → Activations F → Checked LayerFault (Activations F)
    ffw_loop layer zero token_idx a = ok a
    ffw_loop layer (suc left) token_idx a = do
      a1 ← feed_forward (weights.layer layer) token_idx a
      ffw_loop layer left (token_idx + 1) a1

    unfoldable pub layers_loop : ℕ → ℕ → ℕ → Activations F → Checked LayerFault (Activations F)
    layers_loop num_tokens zero layer a = ok a
    layers_loop num_tokens (suc left) layer a = do
      a1 ← attention_loop layer num_tokens 0 a
      a2 ← ffw_loop layer num_tokens 0 a1
      layers_loop num_tokens left (layer + 1) a2

    unfoldable pub norm_loop : ℕ → ℕ → Activations F → Checked LayerFault (Activations F)
    norm_loop zero token_idx a = ok a
    norm_loop (suc left) token_idx a = do
      a1 ← final_norm weights token_idx a
      norm_loop left (token_idx + 1) a1

    -- Prefill
    unfoldable pub prefill : List ℕ → ℕ → Activations F → Checked LayerFault (Activations F)
    prefill tokens num_tokens a = do
      a0 ← embed_loop tokens num_tokens 0 a
      a1 ← layers_loop num_tokens config.layers 0 a0
      norm_loop num_tokens 0 a1

    -- The loop of Transformer, which is the one of a batch of one token.
    unfoldable pub transformer_loop : ℕ → ℕ → Activations F → Checked LayerFault (Activations F)
    transformer_loop zero layer a = ok a
    transformer_loop (suc left) layer a = do
      a0 ← pre_attention (weights.layer layer) 0 a
      a1 ← attention kernels config batch_size pos 0 layer (weights.layer layer) debug order a0
      a2 ← feed_forward (weights.layer layer) 0 a1
      transformer_loop left (layer + 1) a2

    -- Transformer, for a batch size of 1.
    unfoldable pub transformer : ℕ → Activations F → Checked LayerFault (Activations F)
    transformer token a = do
      a0 ← embed weights token 0 a
      a1 ← transformer_loop config.layers 0 a0
      final_norm weights 0 a1

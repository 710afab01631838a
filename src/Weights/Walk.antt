-- ===== src/Weights/Walk.antt =====
-- ForEachTensor as a list of tensors.
use gemma_cpp.Base.{
  ℕ, zero, suc, ◌+◌, ◌*◌, ok, ◌>>=◌, bind_ok, bind_ext, bind_assoc, ◌≡◌, refl, ap, ◌∙◌, sym, List,
  [], ◌∷◌, ◌++◌, text,
}
use gemma_cpp.Blob.{Run}
use gemma_cpp.Weights.{
  Config, MatT, Part, Tensor, weight_tensor, norm_tensor, embedding_tensor, final_norm_tensor,
  visit_layer, layer_loop, for_each_tensor,
}

-- The function at each tensor of a list, in order.
unfoldable pub visit_all : {St : Type 0} → (Tensor → St → Run St) → List Tensor → St → Run St
visit_all func [] st = ok st
visit_all func (t ∷ ts) st = func t st >>= visit_all func ts

visit_all-append :
    {St : Type 0} (func : Tensor → St → Run St) (ts us : List Tensor) (st : St)
    → visit_all func (ts ++ us) st ≡ (visit_all func ts st >>= visit_all func us)
unfolding visit_all
visit_all-append func [] us st = refl
visit_all-append func (t ∷ ts) us st =
    bind_ext (func t st) (visit_all-append func ts us)
    ∙ sym (bind_assoc (func t st) (visit_all func ts) (visit_all func us))

six_calls :
    {St : Type 0} (f1 f2 f3 f4 f5 f6 : St → Run St) (st : St)
    → (f1 st >>= λ a. f2 a >>= λ b. f3 b >>= λ c. f4 c >>= λ d. f5 d >>= λ e. f6 e)
      ≡ (f1 st >>= λ a. f2 a >>= λ b. f3 b >>= λ c. f4 c >>= λ d. f5 d >>= λ e. f6 e >>= ok)
six_calls f1 f2 f3 f4 f5 f6 st = bind_ext (f1 st) λ a.
    bind_ext (f2 a)
      λ b. bind_ext (f3 b) λ c. bind_ext (f4 c) λ d. bind_ext (f5 d) λ e. sym (bind_ok (f6 e))

module _ (weight_t : MatT) (config : Config) where
  -- The tensors of a layer, and of the layers from one on.
  abbrev pub layer_tensors : ℕ → List Tensor
  layer_tensors i =
      norm_tensor weight_t config (text "pre_ff_ns_") Part.pre_ffw_norm_scale i
      ∷ weight_tensor weight_t config (text "gating_ein_")
          (2 * config.ff_hidden_dim * config.model_dim) Part.gating_einsum_w i
      ∷ weight_tensor weight_t config (text "linear_w_") (config.model_dim * config.ff_hidden_dim)
          Part.linear_w i
      ∷ weight_tensor weight_t config (text "qkv_ein_")
          (3 * config.heads * config.qkv_dim * config.model_dim) Part.qkv_einsum_w i
      ∷ weight_tensor weight_t config (text "att_ein_")
          (config.heads * config.qkv_dim * config.model_dim) Part.attn_vec_einsum_w i
      ∷ norm_tensor weight_t config (text "pre_att_ns_") Part.pre_attention_norm_scale i
      ∷ []

  abbrev pub tensors_from : ℕ → ℕ → List Tensor
  tensors_from zero i = []
  tensors_from (suc left) i = layer_tensors i ++ tensors_from left (i + 1)

  abbrev pub all_tensors : List Tensor
  all_tensors =
      embedding_tensor weight_t config
      ∷ final_norm_tensor weight_t config
      ∷ tensors_from config.layers 0

  module _ {St : Type 0} (func : Tensor → St → Run St) where
    visit_layer-visit_all :
        (i : ℕ) (st : St)
        → visit_layer weight_t config func i st ≡ visit_all func (layer_tensors i) st
    unfolding visit_layer visit_all
    visit_layer-visit_all i st =
        six_calls (func (norm_tensor weight_t config (text "pre_ff_ns_") Part.pre_ffw_norm_scale i))
          (func (
            weight_tensor weight_t config (text "gating_ein_")
              (2 * config.ff_hidden_dim * config.model_dim) Part.gating_einsum_w i))
          (func (
            weight_tensor weight_t config (text "linear_w_")
              (config.model_dim * config.ff_hidden_dim) Part.linear_w i))
          (func (
            weight_tensor weight_t config (text "qkv_ein_")
              (3 * config.heads * config.qkv_dim * config.model_dim) Part.qkv_einsum_w i))
          (func (
            weight_tensor weight_t config (text "att_ein_")
              (config.heads * config.qkv_dim * config.model_dim) Part.attn_vec_einsum_w i))
          (func (norm_tensor weight_t config (text "pre_att_ns_") Part.pre_attention_norm_scale i))
          st

    layer_loop-visit_all :
        (left i : ℕ) (st : St)
        → layer_loop weight_t config func left i st ≡ visit_all func (tensors_from left i) st
    unfolding layer_loop visit_all
    layer_loop-visit_all zero i st = refl
    layer_loop-visit_all (suc left) i st =
        ap (◌>>= layer_loop weight_t config func left (i + 1)) (visit_layer-visit_all i st)
        ∙ bind_ext (visit_all func (layer_tensors i) st) (layer_loop-visit_all left (i + 1))
        ∙ sym (visit_all-append func (layer_tensors i) (tensors_from left (i + 1)) st)

    -- ForEachTensor calls its function at each tensor of the list, in order, until a call stops the
    -- program.
    pub for_each_tensor-visit_all :
        (st : St) → for_each_tensor weight_t config func st ≡ visit_all func all_tensors st
    unfolding for_each_tensor visit_all
    for_each_tensor-visit_all st = bind_ext (func (embedding_tensor weight_t config) st) λ a.
        bind_ext (func (final_norm_tensor weight_t config) a)
          λ b. layer_loop-visit_all config.layers 0 b

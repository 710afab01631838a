-- ===== src/Layers/Tests.antt =====
-- Kernels that return their first argument, and the theorems on the layers at them.
use gemma_cpp.Generate.{Bounds, GenerateFault, generate}
use gemma_cpp.Layers.Generated.{GemmaState, layer_network, generate-Framed}
use gemma_cpp.Base.{
  failed, zero, suc, ◌<◌, ◌≡◌, refl, ok, Checked, Bool, some, get_elem?, ℕ, ◌+◌, ◌*◌, arith,
  Returns, true, List, [], ◌∷◌,
}
use gemma_cpp.Weights.{config_2b}
use gemma_cpp.Layers.{prefill}
use gemma_cpp.Layers.Arrays.{
  Kernels, LayerWeights, NetworkWeights, Activations, LayerFault, cache_pos_size,
}
use gemma_cpp.Layers.Extents.{Fitting}
use gemma_cpp.Layers.Heads.{Framed, AllBelow}
use gemma_cpp.Layers.Overrun.{prefill_overruns}
use gemma_cpp.Layers.Frame.{prefill-Framed}

abbrev kernels : Kernels ℕ ℕ
kernels = record {
  zero_f = 0;
  query_scale = 1;
  embedding_scale = 45;
  mat_vec = λ m rows columns ofs vec i. m + vec i;
  dot = λ a b n. a 0 * b 0;
  rope = λ a n pos i. a i + pos;
  scale = λ c a i. c * a i;
  softmax = λ a n i. a i;
  add_scaled = λ c a b i. c * a i + b i;
  add = λ a b i. a i + b i;
  rms_norm = λ a scale n i. a i;
  to_bf16 = λ a i. a i;
  gelu_times = λ a b i. a i * b i;
  decompress = λ m ofs n i. m + ofs + i;
}

abbrev layer_weights : LayerWeights ℕ ℕ
layer_weights = record {
  pre_attention_norm_scale = λ i. 1;
  pre_ffw_norm_scale = λ i. 1;
  gating_einsum_w = 1;
  linear_w = 2;
  qkv_einsum_w = 3;
  attn_vec_einsum_w = 4;
}

abbrev weights : NetworkWeights ℕ ℕ
weights = record {
  embedder_input_embedding = 5;
  final_norm_scale = λ i. 1;
  layer = λ i. layer_weights;
}

abbrev zeros : Activations ℕ
zeros = record {
  x = λ i. 0;
  pre_att_rms_out = λ i. 0;
  q = λ i. 0;
  att = λ i. 0;
  att_out = λ i. 0;
  att_post1 = λ i. 0;
  att_post2 = λ i. 0;
  bf_pre_ffw_rms_out = λ i. 0;
  ffw_hidden = λ i. 0;
  ffw_out = λ i. 0;
  key_cache = λ i. 0;
  value_cache = λ i. 0;
}

abbrev heads : List ℕ
heads = 3 ∷ 0 ∷ 1 ∷ 2 ∷ 7 ∷ 6 ∷ 5 ∷ 4 ∷ []

heads-below : AllBelow 8 heads
heads-below = (
  omega arith,
  (
    omega arith,
    (omega arith, (omega arith, (omega arith, (omega arith, (omega arith, (omega arith, tt)))))),
  ),
)

config_2b-Fitting : Fitting config_2b
config_2b-Fitting = record { caches = omega arith; scores = omega arith }

prefill-Framed_example :
    Returns
      (prefill kernels config_2b 16 true heads weights 7 (2 ∷ 5 ∷ 6 ∷ []) 3 zeros)
      (Framed (7 * cache_pos_size config_2b) (10 * cache_pos_size config_2b) zeros)
prefill-Framed_example =
    prefill-Framed kernels config_2b 16 config_2b-Fitting true heads heads-below weights 7 3
      (omega arith) (omega arith) (2 ∷ 5 ∷ 6 ∷ []) zeros (omega arith)
      (omega arith, (omega arith, (omega arith, tt)))

abbrev prompt : List ℕ
prompt = 2 ∷ 5 ∷ 6 ∷ []

prompt-below : (i token : ℕ) → get_elem? prompt i ≡ some token → token < config_2b.vocab_size
prompt-below zero token e = let same : 2 ≡ token = cc in omega (arith, same)
prompt-below (suc zero) token e = let same : 5 ≡ token = cc in omega (arith, same)
prompt-below (suc (suc zero)) token e = let same : 6 ≡ token = cc in omega (arith, same)
prompt-below (suc (suc (suc i))) token e = cc

abbrev small : Bounds
small = record { max_tokens = 20; max_generated_tokens = 2; debug = true }

abbrev before : GemmaState ℕ
before = record { state = zeros; prefill = zeros; logits = λ i. 0 }

abbrev always_seven : (ℕ → ℕ) → ℕ → ℕ × ℕ
always_seven logits u = (7, u)

abbrev count_tokens : ℕ → ℕ → ℕ → Checked GenerateFault (Bool × ℕ)
count_tokens token p u = ok (true, u + 1)

generate-Framed_example :
    Returns
      (generate
        (layer_network kernels config_2b true heads weights always_seven count_tokens)
        small
        prompt
        5
        before
        0)
      (λ r. Framed (5 * cache_pos_size config_2b) (7168 * cache_pos_size config_2b) zeros r.0.state)
generate-Framed_example =
    generate-Framed kernels config_2b true heads weights always_seven count_tokens config_2b-Fitting
      heads-below (λ logits u. omega arith) (λ token p u v. ((true, u + 1), refl, tt)) small prompt
      5 prompt-below before 0 (omega arith) (omega arith) (omega arith)

prefill_overruns_example :
    prefill kernels config_2b 16 true heads weights 7166 prompt 3 zeros
    ≡ failed LayerFault.outside_array
prefill_overruns_example =
    prefill_overruns kernels config_2b 16 config_2b-Fitting true 3 (0 ∷ 1 ∷ 2 ∷ 7 ∷ 6 ∷ 5 ∷ 4 ∷ [])
      heads-below (omega arith) weights 7166 3 (omega arith) (omega arith) prompt zeros
      (omega arith) (omega arith) (omega arith) (omega arith, (omega arith, (omega arith, tt)))

-- ===== src/Weights.antt =====
-- The tensors of gemma.cc and configs.h, and the walk over them, ForEachTensor.
pub mod Keys
pub mod Walk
pub mod Cache
mod Tests
use gemma_cpp.Base.{
  ℕ, zero, suc, ◌+◌, ◌-◌, ◌*◌, ◌/◌, ◌%◌, ◌^◌, ok, failed, ◌>>=◌, ltb, if◌then◌else◌, List, [], ◌∷◌,
  ◌++◌, take, Text, text,
}
use gemma_cpp.Blob.{Run, U128}
use gemma_cpp.Blob.Key.{make_key}
use gemma_cpp.Args.Loader.{Model}

pub record Config : Type 0 where
  pub seq_len : ℕ
  pub vocab_size : ℕ
  pub layers : ℕ
  pub model_dim : ℕ
  pub ff_hidden_dim : ℕ
  pub heads : ℕ
  pub kv_heads : ℕ
  pub qkv_dim : ℕ
  pub top_k : ℕ

abbrev pub config_7b : Config
config_7b = record {
  seq_len = 7168;
  vocab_size = 256128;
  layers = 28;
  model_dim = 3072;
  ff_hidden_dim = 16 * 3072 / 2;
  heads = 16;
  kv_heads = 16;
  qkv_dim = 256;
  top_k = 1;
}

abbrev pub config_2b : Config
config_2b = record {
  seq_len = 7168;
  vocab_size = 256128;
  layers = 18;
  model_dim = 2048;
  ff_hidden_dim = 16 * 2048 / 2;
  heads = 8;
  kv_heads = 8;
  qkv_dim = 256;
  top_k = 1;
}

-- The configuration of GetCompressedWeightsT and of the constructor of Gemma.
abbrev pub config_of : Model → Config
config_of Model.gemma_2b = config_2b
config_of Model.gemma_7b = config_7b

-- The types of weights: float, bfloat16_t, SfpStream and NuqStream.
pub data MatT : Type 0 where
  f32 bf16 sfp nuq : MatT

abbrev pub size_of : MatT → ℕ
size_of MatT.f32 = 4
size_of MatT.bf16 = 2
size_of MatT.sfp = 1
size_of MatT.nuq = 1

-- NuqStream::PackedStart and PackedEnd, with hwy::RoundUpTo as a parameter.
abbrev pub packed_start : (ℕ → ℕ → ℕ) → ℕ → ℕ
packed_start round_up_to capacity = round_up_to (capacity / 256 * 16) 64

abbrev pub packed_end : (ℕ → ℕ → ℕ) → ℕ → ℕ
packed_end round_up_to capacity = packed_start round_up_to capacity + capacity / 2

-- CompressedArrayLen and CompressedSize.
abbrev pub compressed_array_len : (ℕ → ℕ → ℕ) → MatT → ℕ → ℕ
compressed_array_len round_up_to MatT.f32 capacity = capacity
compressed_array_len round_up_to MatT.bf16 capacity = capacity
compressed_array_len round_up_to MatT.sfp capacity = capacity
compressed_array_len round_up_to MatT.nuq capacity = packed_end round_up_to capacity

abbrev pub compressed_size : (ℕ → ℕ → ℕ) → MatT → ℕ → ℕ
compressed_size round_up_to mat capacity =
    compressed_array_len round_up_to mat capacity * size_of mat

-- CacheKey: a letter for the type, and the name.
abbrev pub key_prefix : MatT → ℕ
key_prefix MatT.f32 = b'F'
key_prefix MatT.bf16 = b'B'
key_prefix MatT.sfp = b'$'
key_prefix MatT.nuq = b'2'

unfoldable pub cache_key : MatT → Text → Run U128
cache_key mat name = make_key ((key_prefix mat ∷ name) ++ 0 ∷ [])

-- %lu, with a round for each digit.
unfoldable pub decimal : ℕ → ℕ → Text
decimal zero n = []
decimal (suc fuel) n =
    let front = decimal fuel (n / 10) in
    if ltb n 10 then (48 + n) ∷ [] else front ++ ((48 + n % 10) ∷ [])

-- snprintf into a name of 16 bytes.
unfoldable pub layer_name : Text → ℕ → Text
layer_name stem layer_idx = take 15 (stem ++ decimal 20 layer_idx)

-- The arrays of CompressedWeights and of a CompressedLayer.
pub data Part : Type 0 where
  embedder_input_embedding final_norm_scale : Part
  pre_ffw_norm_scale gating_einsum_w linear_w qkv_einsum_w attn_vec_einsum_w
        pre_attention_norm_scale :
      ℕ → Part

-- What a call of the function gets: the name, the type and length of the array, and the array.
pub record Tensor : Type 0 where
  pub name : Text
  pub mat : MatT
  pub capacity : ℕ
  pub part : Part

module _ (weight_t : MatT) (config : Config) where
  abbrev pub weight_tensor : Text → ℕ → (ℕ → Part) → ℕ → Tensor
  weight_tensor stem capacity part layer_idx = record {
    name = layer_name stem layer_idx;
    mat = weight_t;
    capacity = capacity;
    part = part layer_idx;
  }

  abbrev pub norm_tensor : Text → (ℕ → Part) → ℕ → Tensor
  norm_tensor stem part layer_idx = record {
    name = layer_name stem layer_idx;
    mat = MatT.bf16;
    capacity = config.model_dim;
    part = part layer_idx;
  }

  abbrev pub embedding_tensor : Tensor
  embedding_tensor = record {
    name = text "c_embedding";
    mat = MatT.bf16;
    capacity = config.vocab_size * config.model_dim;
    part = Part.embedder_input_embedding;
  }

  abbrev pub final_norm_tensor : Tensor
  final_norm_tensor = record {
    name = text "c_final_norm";
    mat = MatT.bf16;
    capacity = config.model_dim;
    part = Part.final_norm_scale;
  }

  module _ {St : Type 0} (func : Tensor → St → Run St) where
    unfoldable pub visit_layer : ℕ → St → Run St
    visit_layer layer_idx st0 = do
      st1 ← func (norm_tensor (text "pre_ff_ns_") Part.pre_ffw_norm_scale layer_idx) st0
      st2 ←
          func
            (weight_tensor (text "gating_ein_") (2 * config.ff_hidden_dim * config.model_dim)
              Part.gating_einsum_w layer_idx)
            st1
      st3 ←
          func
            (weight_tensor (text "linear_w_") (config.model_dim * config.ff_hidden_dim)
              Part.linear_w layer_idx)
            st2
      st4 ←
          func
            (weight_tensor (text "qkv_ein_") (3 * config.heads * config.qkv_dim * config.model_dim)
              Part.qkv_einsum_w layer_idx)
            st3
      st5 ←
          func
            (weight_tensor (text "att_ein_") (config.heads * config.qkv_dim * config.model_dim)
              Part.attn_vec_einsum_w layer_idx)
            st4
      func (norm_tensor (text "pre_att_ns_") Part.pre_attention_norm_scale layer_idx) st5

    -- The loop from `layer_idx` on, with the number of layers that are left.
    unfoldable pub layer_loop : ℕ → ℕ → St → Run St
    layer_loop zero layer_idx st = ok st
    layer_loop (suc left) layer_idx st = do
      st1 ← visit_layer layer_idx st
      layer_loop left (layer_idx + 1) st1

    -- ForEachTensor; the pointers to the weights are part of `func`.
    unfoldable pub for_each_tensor : St → Run St
    for_each_tensor st0 = do
      st1 ← func embedding_tensor st0
      st2 ← func final_norm_tensor st1
      layer_loop config.layers 0 st2

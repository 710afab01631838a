-- ===== src/Weights/Cache.antt =====
-- CacheLoader of compression/compress.h, Compressor of compression/compress-inl.h, and LoadWeights
-- and GetCompressedWeights of gemma.cc. `place` says where the arrays of the compressed weights are.
pub mod Loading
pub mod Regenerating
pub mod RoundTrip
use gemma_cpp.Base.{
  ℕ, zero, suc, ◌+◌, ◌*◌, ok, failed, ◌>>=◌, ◌>>◌, Checked, check, Bool, true, false, not, ◌&&◌,
  ◌==◌, List, [], ◌∷◌, ◌++◌, Option, if◌then◌else◌, Text, text,
}
use gemma_cpp.Base.Block.{Block}
use gemma_cpp.Blob.{Run, Fault, Pointer, BlobError}
use gemma_cpp.Blob.Io.{Calls, Memory}
use gemma_cpp.Blob.Store.{Allocator}
use gemma_cpp.Blob.Reader.{BlobReader, enqueue, read_all}
use gemma_cpp.Blob.Writer.{BlobWriter, add, write_all}
use gemma_cpp.Weights.{
  Config, MatT, Part, Tensor, size_of, compressed_size, cache_key, for_each_tensor,
}

pub record CacheLoader : Type 0 where
  pub reader : BlobReader
  pub err : BlobError

-- The constructor, with what Open returned.
abbrev pub new_loader : BlobError × BlobReader → CacheLoader
new_loader opened = record { reader = opened.1; err = opened.0 }

-- ReadAll of CacheLoader.
unfoldable pub loader_read_all :
    (ℕ → Calls) → Block → List ℕ → CacheLoader → Memory → Run (Bool × CacheLoader × Memory)
loader_read_all calls file order l memory = elim (l.err == 0) [
  | false ↦ ok (false, l, memory)
  | true ↦ do
    r ← read_all calls file order l.reader memory
    ok (r.0 == 0, record l { err = r.0 }, r.1)
]

-- What LoadWeights has read: whether each read succeeded, and where in the file each array begins.
pub record Reading : Type 0 where
  pub all_ok : Bool
  pub calls : ℕ
  pub at : ℕ
  pub arrays : List (Part × ℕ)

-- `ok &= 1 == fread(...)`, for an array of floats; `fread` says which of the calls return 1.
unfoldable pub read_array : (ℕ → Bool) → Part → ℕ → Reading → Reading
read_array fread part elements r = record {
  all_ok = r.all_ok && fread r.calls;
  calls = r.calls + 1;
  at = r.at + elements * 4;
  arrays = r.arrays ++ ((part, r.at) ∷ []);
}

unfoldable pub read_layers : Config → (ℕ → Bool) → ℕ → ℕ → Reading → Reading
read_layers config fread zero layer r = r
read_layers config fread (suc left) layer r = read_layers config fread left (layer + 1) (
    read_array fread (Part.pre_ffw_norm_scale layer) config.model_dim (
      read_array fread (Part.pre_attention_norm_scale layer) config.model_dim (
        read_array fread (Part.linear_w layer) (config.model_dim * config.ff_hidden_dim) (
          read_array fread (Part.gating_einsum_w layer)
            (2 * config.ff_hidden_dim * config.model_dim)
            (read_array fread (Part.qkv_einsum_w layer)
              (3 * config.heads * config.qkv_dim * config.model_dim)
              (read_array fread (Part.attn_vec_einsum_w layer)
                (config.heads * config.qkv_dim * config.model_dim) r))))))

-- How GetCompressedWeights can stop: the two messages about files, a short file of weights, the
-- assertion on fclose, or a fault in the blob store.
pub data WeightsFault : Type 0 where
  no_file no_model short_model not_closed : WeightsFault
  store : Fault → WeightsFault

-- LoadWeights. `opened` and `closed` are about fopen and fclose.
unfoldable pub load_weights :
    Config → Bool → (ℕ → Bool) → Bool → Checked WeightsFault (List (Part × ℕ))
load_weights config opened fread closed = do
  check opened WeightsFault.no_model
  let start : Reading = record { all_ok = true; calls = 0; at = 0; arrays = [] }
  let embedding =
      read_array fread Part.embedder_input_embedding (config.vocab_size * config.model_dim) start
  let norm = read_array fread Part.final_norm_scale config.model_dim embedding
  let r = read_layers config fread config.layers 0 norm
  check r.all_ok WeightsFault.short_model
  check closed WeightsFault.not_closed
  ok r.arrays

-- The state of the regeneration: the memory of the compressed weights, and the writer.
pub record Compressor : Type 0 where
  pub memory : Memory
  pub writer : BlobWriter

abbrev pub store_fault : {A : Type 0} → Run A → Checked WeightsFault A
store_fault (ok a) = ok a
store_fault (failed f) = failed (WeightsFault.store f)

module _ (round_up_to : ℕ → ℕ → ℕ) (place : Part → Pointer) where
  -- CacheLoader on a tensor.
  unfoldable pub load_tensor : Tensor → CacheLoader → Run CacheLoader
  load_tensor t l = elim (l.err == 0) [
    | false ↦ ok l
    | true ↦ do
      key ← cache_key t.mat t.name
      r ← enqueue key (place t.part) (compressed_size round_up_to t.mat t.capacity) l.reader
      ok (record { reader = r.1; err = r.0 })
  ]

  -- Compressor on a tensor; `compress` is Compress for it, which can stop the program, as at the
  -- assertion of EncBytes on a value that is too large.
  unfoldable pub compress_tensor :
      (Tensor → Memory → Run Memory) → Tensor → Compressor → Run Compressor
  compress_tensor compress t c = do
    memory ← compress t c.memory
    key ← cache_key t.mat t.name
    ok (record {
      memory = memory;
      writer = add c.writer key (place t.part) (compressed_size round_up_to t.mat t.capacity);
    })

  -- What the file system and the thread pool do in a run of GetCompressedWeights.
  pub record Setting : Type 0 where
    pub model_exists : Bool
    pub cache_exists : Bool
    pub opened_cache : Run (BlobError × BlobReader)
    pub read_calls : ℕ → Calls
    pub cache_file : Block
    pub read_order : List ℕ
    pub opened_model : Bool
    pub fread : ℕ → Bool
    pub closed_model : Bool
    pub compress : List (Part × ℕ) → Tensor → Memory → Run Memory
    pub allocator : Allocator
    pub freed : Block → ℕ → ℕ
    pub write_calls : ℕ → Calls
    pub created_cache : Bool
    pub write_order : List ℕ

  -- The weights come from the cache, or are regenerated; then WriteAll has an error code and a file.
  pub data Weights : Type 0 where
    cached : Memory → Weights
    regenerated : Memory → BlobError × Option Block → Weights

  -- The part behind the failed load.
  unfoldable pub regenerate : Setting → MatT → Config → Memory → Checked WeightsFault Weights
  regenerate s weight_t config memory = do
    arrays ← load_weights config s.opened_model s.fread s.closed_model
    let new : Compressor = record { memory = memory; writer = record { keys = []; blobs = [] } }
    c ← store_fault (for_each_tensor weight_t config (compress_tensor (s.compress arrays)) new)
    written ← store_fault (
        write_all round_up_to s.allocator s.freed s.write_calls s.created_cache c.memory
          s.write_order c.writer)
    ok (Weights.regenerated c.memory written)

  -- GetCompressedWeights
  unfoldable pub get_compressed_weights :
      Setting → MatT → Config → Memory → Checked WeightsFault Weights
  get_compressed_weights s weight_t config memory = do
    check (not (not s.model_exists && not s.cache_exists)) WeightsFault.no_file
    opened ← store_fault s.opened_cache
    l ← store_fault (for_each_tensor weight_t config load_tensor (new_loader opened))
    r ← store_fault (loader_read_all s.read_calls s.cache_file s.read_order l memory)
    elim r.0 [ true ↦ ok (Weights.cached r.2) | false ↦ regenerate s weight_t config r.2 ]

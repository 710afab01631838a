-- ===== src/Weights/Cache/RoundTrip.antt =====
-- From Compressor over the header of the cache to CacheLoader.
use gemma_cpp.Base.{
  ℕ, suc, ◌+◌, ◌*◌, ◌/◌, ◌^◌, ◌<◌, ◌≤◌, ◌≡◌, ◌⊎◌, inl, inr, refl, ap, arith, ok, Returns, leb→le,
  List, [], ◌∷◌, length, Option, some, get_elem?,
}
use gemma_cpp.Base.Block.{Block}
use gemma_cpp.Blob.{Run, U128, Span, BlobIo, Pointer}
use gemma_cpp.Blob.Io.{Memory}
use gemma_cpp.Blob.Store.{Allocator, RoundsUp, align, header_size, prepare_write_requests}
use gemma_cpp.Blob.Store.Layout.{KeysFit, SizesFit, padded_total}
use gemma_cpp.Blob.Store.Written.{prepare_write_requests-IsHeader}
use gemma_cpp.Blob.Writer.{BlobWriter}
use gemma_cpp.Args.Loader.{Model}
use gemma_cpp.Weights.{
  MatT, Part, Tensor, compressed_size, cache_key, config_of, for_each_tensor, layer_name, decimal,
}
use gemma_cpp.Weights.Walk.{all_tensors}
use gemma_cpp.Weights.Keys.{cache_key_fits}
use gemma_cpp.Weights.Cache.{Compressor, load_tensor, compress_tensor}
use gemma_cpp.Weights.Cache.Loading.{loader_of}
use gemma_cpp.Weights.Cache.Regenerating.{
  Stored, StoppedBy, Stored-length, empty_writer, for_each_tensor-Stored, compressed_loads,
}

-- More than the padded size of each tensor together.
abbrev total_bound : List Tensor → ℕ
total_bound [] = 0
total_bound (t ∷ ts) = (t.capacity * 4 + 320) + total_bound ts

all_tensors_bounds :
    (w : MatT) (model : Model)
    → (total_bound (all_tensors w (config_of model)) ≤ 2 ^ 62)
      × (length (all_tensors w (config_of model)) ≤ 200)
unfolding layer_name decimal
all_tensors_bounds w Model.gemma_2b = (leb→le _ _ refl, leb→le _ _ refl)
all_tensors_bounds w Model.gemma_7b = (leb→le _ _ refl, leb→le _ _ refl)

module _ (round_up_to : ℕ → ℕ → ℕ) (rounds : RoundsUp round_up_to) (place : Part → Pointer) where
  compressed_size_bound :
      (mat : MatT) (capacity : ℕ)
      → capacity * 4 ≤ 2 ^ 62
      → compressed_size round_up_to mat capacity ≤ capacity * 4 + 64
  compressed_size_bound MatT.f32 capacity h = omega arith
  compressed_size_bound MatT.bf16 capacity h = omega arith
  compressed_size_bound MatT.sfp capacity h = omega arith
  compressed_size_bound MatT.nuq capacity h =
      let r = rounds (capacity / 256 * 16) 64 (omega arith) (omega arith) in omega (arith, r.1)

  Stored-SizesFit :
      {ts : List Tensor} {keys : List U128} {blobs : List Span}
      → Stored round_up_to place ts keys blobs
      → total_bound ts ≤ 2 ^ 62
      → SizesFit blobs × (padded_total round_up_to blobs ≤ total_bound ts)
  Stored-SizesFit Stored.nothing h = (tt, omega arith)
  Stored-SizesFit (Stored.also t ts key keys blobs e stored) h =
      let (fit, total) = Stored-SizesFit stored (omega arith) in
      let small = compressed_size_bound t.mat t.capacity (omega arith) in
      let r =
        rounds (compressed_size round_up_to t.mat t.capacity) align (omega arith) (omega arith) in
      ((omega arith, fit), omega (arith, r.1))

  Stored-KeysFit :
      {ts : List Tensor} {keys : List U128} {blobs : List Span}
      → Stored round_up_to place ts keys blobs
      → ((i : ℕ) (t : Tensor) (key : U128)
          → get_elem? ts i ≡ some t
          → cache_key t.mat t.name ≡ ok key
          → (key.lo < 2 ^ 64) × (key.hi < 2 ^ 64))
      → KeysFit keys
  Stored-KeysFit Stored.nothing fits = tt
  Stored-KeysFit (Stored.also t ts key keys blobs e stored) fits =
      let (low, high) = fits 0 t key refl e in (low, high, Stored-KeysFit stored λ i. fits (suc i))

  Stored-count :
      {ts : List Tensor} {keys : List U128} {blobs : List Span}
      → Stored round_up_to place ts keys blobs
      → length keys ≡ length ts
  Stored-count Stored.nothing = refl
  Stored-count (Stored.also t ts key keys blobs e stored) = ap suc (Stored-count stored)

  -- A writer whose keys and blobs get a header with which CacheLoader has no error.
  pub Served : Allocator → MatT → Model → Option ℕ → BlobWriter → Type 0
  Served allocator weight_t model fd w =
      (m : Block) × (rs : List BlobIo) × (prepare_write_requests round_up_to allocator w.keys
          w.blobs
        ≡ ok (rs, m))
      × Returns
          (for_each_tensor weight_t (config_of model) (load_tensor round_up_to place)
            (loader_of round_up_to rounds place m w.keys w.blobs fd 0 []))
          (λ l. l.err ≡ 0)

  Stored-Served :
      (compress : Tensor → Memory → Run Memory) (memory : Memory) (weight_t : MatT) (model : Model)
      (allocator : Allocator) (bytes : ℕ → ℕ → ℕ) (fd : Option ℕ)
      → ((n : ℕ) → allocator n ≡ some (bytes n))
      → (c : Compressor)
      → for_each_tensor weight_t
          (config_of model)
          (compress_tensor round_up_to place compress)
          (record { memory = memory; writer = empty_writer })
        ≡ ok c
      → Stored round_up_to place
          (all_tensors weight_t (config_of model))
          c.writer.keys
          c.writer.blobs
      → Served allocator weight_t model fd c.writer
  unfolding Served
  Stored-Served compress memory weight_t model allocator bytes fd memory_for c run stored =
      let (total, count) = all_tensors_bounds weight_t model in
      let (sizes, padded) = Stored-SizesFit stored total in
      let same : length c.writer.keys ≡ length c.writer.blobs =
        Stored-length round_up_to place stored in
      let few = Stored-count stored in
      let r =
        rounds (header_size (length c.writer.keys)) align (omega arith)
          (omega (arith, few, count)) in
      let fits : round_up_to (header_size (length c.writer.keys)) align
            + padded_total round_up_to c.writer.blobs
          < 2 ^ 64 =
        omega (arith, few, count, r.1, padded, total) in
      let (m, rs, prepared, is, plan) =
        prepare_write_requests-IsHeader round_up_to rounds allocator
          (bytes (round_up_to (header_size (length c.writer.keys)) align)) c.writer.keys
          c.writer.blobs (memory_for _) same (omega arith)
          (Stored-KeysFit stored (cache_key_fits weight_t model)) sizes fits in
      (
        m,
        _,
        prepared,
        compressed_loads round_up_to place rounds m c.writer.keys c.writer.blobs fd compress memory
            weight_t model c run refl refl is sizes fits,
      )

  -- For each type of weights and both models, a Compressor either stops because Compress stopped at
  -- a tensor, with the same fault, or gets through all tensors. The cache that it then hands to the
  -- writer is one that loads: PrepareWriteRequests stops at no assertion, and with the header that it
  -- makes CacheLoader enqueues each tensor without an error. There is memory for the header.
  pub regenerated-Served :
      (compress : Tensor → Memory → Run Memory) (memory : Memory) (weight_t : MatT) (model : Model)
      (allocator : Allocator) (bytes : ℕ → ℕ → ℕ) (fd : Option ℕ)
      → ((n : ℕ) → allocator n ≡ some (bytes n))
      → let r : Run Compressor =
          for_each_tensor weight_t
            (config_of model)
            (compress_tensor round_up_to place compress)
            (record { memory = memory; writer = empty_writer }) in
        StoppedBy round_up_to place compress r
        ⊎ Returns r (λ c. Served allocator weight_t model fd c.writer)
  regenerated-Served compress memory weight_t model allocator bytes fd memory_for =
      elim (for_each_tensor-Stored round_up_to place compress memory weight_t model) [
        | inl stop ↦ inl stop
        | inr (c, run, stored) ↦ inr (
          c,
          run,
          Stored-Served compress memory weight_t model allocator bytes fd memory_for c run stored,
        )
      ]

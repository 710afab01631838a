-- ===== src/Weights/Cache/Regenerating.antt =====
-- Regenerating the cache: what Compressor hands to the writer, and that CacheLoader finds it.
use gemma_cpp.Base.{
  ℕ, zero, suc, ◌+◌, ◌^◌, ◌<◌, ◌≡◌, ◌⊎◌, Checked-cases, failed, refl, sym, ◌∙◌, ap, arith, ok,
  ◌>>=◌, Returns, Returns-map, ok_injective, true, ◌&&◌, ◌==◌, ==_iff, ==_self, &&-eq-true,
  Bool-cases, List, [], ◌∷◌, ◌++◌, length, Option, some, get_elem?, inl, inr,
}
use mathlib.Core.List.{append_assoc, append-nil}
use gemma_cpp.Base.Block.{Block}
use gemma_cpp.Blob.{Run, Fault, U128, Span, BlobIo, Pointer}
use gemma_cpp.Blob.Io.{Memory}
use gemma_cpp.Blob.Store.{RoundsUp, align, header_size}
use gemma_cpp.Blob.Store.Layout.{SizesFit, padded_total, IsHeader}
use gemma_cpp.Blob.Store.Find.{first_blob}
use gemma_cpp.Blob.Reader.Enqueue.{first_blob_here, first_blob_later}
use gemma_cpp.Blob.Writer.{BlobWriter, add}
use gemma_cpp.Args.Loader.{Model}
use gemma_cpp.Weights.{MatT, Part, Tensor, compressed_size, cache_key, config_of, for_each_tensor}
use gemma_cpp.Weights.Walk.{visit_all, all_tensors, for_each_tensor-visit_all}
use gemma_cpp.Weights.Keys.{cache_key_returns, cache_key_injective}
use gemma_cpp.Weights.Cache.{CacheLoader, Compressor, load_tensor, compress_tensor}
use gemma_cpp.Weights.Cache.Loading.{Loaded, loader_of, blob_of, for_each_tensor-Loaded}

-- The test of FindKey holds of equal keys only.
same_key : (k key : U128) → (k.lo == key.lo && k.hi == key.hi) ≡ true → k ≡ key
same_key k key e =
    let (low, high) = &&-eq-true (k.lo == key.lo) (k.hi == key.hi) e in
    let l : k.lo ≡ key.lo = (==_iff k.lo key.lo).0 low in
    let h : k.hi ≡ key.hi = (==_iff k.hi key.hi).0 high in cc

abbrev pub empty_writer : BlobWriter
empty_writer = record { keys = []; blobs = [] }

module _ (round_up_to : ℕ → ℕ → ℕ) (place : Part → Pointer) where
  -- No two places of the list have the same key.
  abbrev pub Distinct : List Tensor → Type 0
  Distinct ts =
      (i j : ℕ) (t u : Tensor)
      → get_elem? ts i ≡ some t
      → get_elem? ts j ≡ some u
      → cache_key t.mat t.name ≡ cache_key u.mat u.name
      → i ≡ j

  -- A writer's keys and blobs are those of the tensors, one after the other.
  pub data Stored : List Tensor → List U128 → List Span → Type 0 where
    nothing : Stored [] [] []
    also :
        (t : Tensor) (ts : List Tensor) (key : U128) (keys : List U128) (blobs : List Span)
        → cache_key t.mat t.name ≡ ok key
        → Stored ts keys blobs
        → Stored (t ∷ ts) (key ∷ keys) (
            record { ptr = place t.part; size = compressed_size round_up_to t.mat t.capacity }
            ∷ blobs)

  -- What the walk adds to a writer.
  pub record Added (ts : List Tensor) (w w1 : BlobWriter) : Type 0 where
    pub keys : List U128
    pub blobs : List Span
    pub all_keys : w1.keys ≡ w.keys ++ keys
    pub all_blobs : w1.blobs ≡ w.blobs ++ blobs
    pub stored : Stored ts keys blobs

  -- A run that Compress stopped, at some tensor.
  pub StoppedBy : (Tensor → Memory → Run Memory) → Run Compressor → Type 0
  StoppedBy compress r =
      (t : Tensor) × (memory : Memory) × (f : Fault) × (compress t memory ≡ failed f)
      × (r ≡ failed f)

  visit_all-Added :
      (compress : Tensor → Memory → Run Memory) (ts : List Tensor) (memory : Memory)
      (w : BlobWriter)
      → ((i : ℕ) (t : Tensor)
          → get_elem? ts i ≡ some t
          → (key : U128) × (cache_key t.mat t.name ≡ ok key))
      → let r : Run Compressor =
          visit_all
            (compress_tensor round_up_to place compress)
            ts
            (record { memory = memory; writer = w }) in
        StoppedBy compress r ⊎ Returns r (λ c. Added ts w c.writer)
  unfolding visit_all compress_tensor add StoppedBy
  visit_all-Added compress [] memory w named = inr (
    record { memory = memory; writer = w },
    refl,
    record {
      keys = [];
      blobs = [];
      all_keys = sym (append-nil w.keys);
      all_blobs = sym (append-nil w.blobs);
      stored = Stored.nothing;
    },
  )
  visit_all-Added compress (t ∷ ts) memory w named =
      let (key, e) = named 0 t refl in
      let span : Span = record {
        ptr = place t.part;
        size = compressed_size round_up_to t.mat t.capacity;
      } in
      let w1 = add w key (place t.part) (compressed_size round_up_to t.mat t.capacity) in
      elim (Checked-cases (compress t memory)) [
        | inr (f, stop) ↦
            inl (t, memory, f, stop, rw (visit_all, compress_tensor, stop, ◌>>=◌) refl)
        | inl (memory1, done) ↦ elim (visit_all-Added compress ts memory1 w1 (λ i. named (suc i))) [
          | inl (u, memory2, f, stop, run) ↦
              inl (u, memory2, f, stop, rw (visit_all, compress_tensor, done, ◌>>=◌, e) run)
          | inr (c, run, added) ↦ inr (
            c,
            rw (visit_all, compress_tensor, done, ◌>>=◌, e) run,
            record {
              keys = key ∷ added.keys;
              blobs = span ∷ added.blobs;
              all_keys = added.all_keys ∙ append_assoc w.keys (key ∷ []) added.keys;
              all_blobs = added.all_blobs ∙ append_assoc w.blobs (span ∷ []) added.blobs;
              stored = Stored.also t ts key added.keys added.blobs e added.stored;
            },
          )
        ]
      ]

  -- Each tensor's blob is the first one with its key, if no two tensors have the same key.
  Stored-first_blob :
      (rounds : RoundsUp round_up_to) {ts : List Tensor} {keys : List U128} {blobs : List Span}
      → Stored ts keys blobs
      → Distinct ts
      → (at i : ℕ) (t : Tensor) (key : U128) → get_elem? ts i ≡ some t
      → cache_key t.mat t.name ≡ ok key
      → (offset : ℕ) × (first_blob round_up_to at keys blobs key
          ≡ some (offset, compressed_size round_up_to t.mat t.capacity))
  Stored-first_blob rounds Stored.nothing distinct at i t key e k = cc
  Stored-first_blob rounds (Stored.also u ts key1 keys blobs e1 stored) distinct at zero t key e k =
      let same : u ≡ t = cc in
      let equal : key1 ≡ key = cc in
      let test : (key1.lo == key.lo && key1.hi == key.hi) ≡ true =
        rw (equal, ==_self key.lo, ==_self key.hi) refl in
      (
        at,
        first_blob_here round_up_to rounds at key1 keys _ blobs key test
            ∙ ap (λ v. some (at, compressed_size round_up_to v.mat v.capacity)) same,
      )
  Stored-first_blob rounds (Stored.also u ts key1 keys blobs e1 stored) distinct at (suc i) t key e
        k =
      elim (Bool-cases (key1.lo == key.lo && key1.hi == key.hi)) [
        | inl test ↦
            let equal : key1 ≡ key = same_key key1 key test in
            let keys_eq : cache_key u.mat u.name ≡ cache_key t.mat t.name =
              e1 ∙ ap ok equal ∙ sym k in
            let clash : 0 ≡ suc i = distinct 0 (suc i) u t refl e keys_eq in
            absurd (omega (arith, clash))
        | inr test ↦
            let behind : Distinct ts =
              λ i j t u a b c. omega (arith, distinct (suc i) (suc j) t u a b c) in
            let (offset, found) =
              Stored-first_blob rounds stored behind (at + round_up_to _ align) i t key e k in
            (offset, first_blob_later round_up_to rounds at key1 keys _ blobs key test ∙ found)
      ]

  -- ForEachTensor with Compressor stops where Compress does, or hands the writer each tensor of the
  -- walk, in order, under its key.
  pub for_each_tensor-Stored :
      (compress : Tensor → Memory → Run Memory) (memory : Memory) (weight_t : MatT) (model : Model)
      → let r : Run Compressor =
          for_each_tensor weight_t
            (config_of model)
            (compress_tensor round_up_to place compress)
            (record { memory = memory; writer = empty_writer }) in
        StoppedBy compress r
        ⊎ Returns r
            λ c. Stored (all_tensors weight_t (config_of model)) c.writer.keys c.writer.blobs
  for_each_tensor-Stored compress memory weight_t model =
      rw
        (for_each_tensor-visit_all weight_t (config_of model)
          (compress_tensor round_up_to place compress)
          (record { memory = memory; writer = empty_writer }))
        (elim (visit_all-Added compress (all_tensors weight_t (config_of model)) memory empty_writer
          (cache_key_returns weight_t model)) [
            | inl stop ↦ inl stop
            | inr added ↦ inr (Returns-map (λ c a. rw (a.all_keys, a.all_blobs) a.stored) added)
          ])

  pub Stored-length :
      {ts : List Tensor} {keys : List U128} {blobs : List Span}
      → Stored ts keys blobs
      → length keys ≡ length blobs
  Stored-length Stored.nothing = refl
  Stored-length (Stored.also t ts key keys blobs e stored) = ap suc (Stored-length stored)

  module _ (rounds : RoundsUp round_up_to) (m : Block) (keys : List U128) (blobs : List Span)
      (fd : Option ℕ) where
    -- No tensor is missing or resized if each has its blob.
    Loaded-found :
        {ts : List Tensor} {requests : List BlobIo} {l : CacheLoader}
        → Loaded round_up_to rounds place m keys blobs fd ts requests l
        → ((i : ℕ) (t : Tensor) (key : U128)
            → get_elem? ts i ≡ some t
            → cache_key t.mat t.name ≡ ok key
            → (offset : ℕ) × (blob_of round_up_to rounds place m keys blobs fd key
                ≡ some (offset, compressed_size round_up_to t.mat t.capacity)))
        → l.err ≡ 0
    Loaded-found (Loaded.complete requests) found = refl
    Loaded-found (Loaded.next t ts requests new l key offset e b tiles loaded) found =
        Loaded-found loaded (λ i. found (suc i))
    Loaded-found (Loaded.missing t ts requests key e b) found =
        let (offset, f) = found 0 t key refl e in absurd cc
    Loaded-found (Loaded.resized t ts requests key offset actual e b other) found =
        let (offset', f) = found 0 t key refl e in
        let same : ◌≡◌ {A = Option (ℕ × ℕ)} (some (offset, actual))
            (some (offset', compressed_size round_up_to t.mat t.capacity)) =
          sym b ∙ f in
        absurd (other cc)

    -- A cache with the header of what Compressor has handed to the writer serves each tensor: the
    -- loader has no error at the end of the walk. The sizes and the file fit in 64 bits.
    pub compressed_loads :
        (compress : Tensor → Memory → Run Memory) (memory : Memory) (weight_t : MatT)
        (model : Model) (c : Compressor)
        → for_each_tensor weight_t
            (config_of model)
            (compress_tensor round_up_to place compress)
            (record { memory = memory; writer = empty_writer })
          ≡ ok c
        → keys ≡ c.writer.keys
        → blobs ≡ c.writer.blobs
        → IsHeader round_up_to m keys blobs
        → SizesFit blobs
        → round_up_to (header_size (length keys)) align + padded_total round_up_to blobs < 2 ^ 64
        → Returns
            (for_each_tensor weight_t
              (config_of model)
              (load_tensor round_up_to place)
              (loader_of round_up_to rounds place m keys blobs fd 0 []))
            (λ l. l.err ≡ 0)
    unfolding StoppedBy
    compressed_loads compress memory weight_t model c run its_keys its_blobs is sizes fits =
        elim (for_each_tensor-Stored compress memory weight_t model) [
          | inl (u, memory1, f, stop, stopped) ↦ absurd cc
          | inr (c1, run1, stored1) ↦
              let same : c1 ≡ c = ok_injective (sym run1 ∙ run) in
              let stored : Stored (all_tensors weight_t (config_of model)) keys blobs =
                rw (its_keys, its_blobs, ← same) stored1 in
              Returns-map
                (λ l loaded. Loaded-found loaded λ i t key e k.
                  Stored-first_blob rounds stored (cache_key_injective weight_t model)
                    (round_up_to (header_size (length keys)) align) i t key e k)
                (for_each_tensor-Loaded round_up_to rounds place m keys blobs fd is
                  (Stored-length stored) sizes fits weight_t model [])
        ]

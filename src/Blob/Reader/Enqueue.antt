-- ===== src/Blob/Reader/Enqueue.antt =====
-- BlobReader::Enqueue with the header of a file.
use gemma_cpp.Base.{
  ℕ, ◌+◌, ◌^◌, ◌≤◌, ◌<◌, ◌≡◌, ◌≢◌, ◌⊎◌, refl, arith, ok, true, false, ◌>>=◌, ◌==◌, ◌&&◌, List, [],
  ◌∷◌, ◌++◌, length, none, some, ◌∙◌, ap, ℕ_discrete, ne→==, ==_self, inl, inr, Bool-cases, Option,
  sym, subst,
}
use gemma_cpp.Base.Block.{Block}
use gemma_cpp.Blob.{U128, Pointer, BlobIo, Span, Run, BlobError}
use gemma_cpp.Blob.Chunks.{enqueue_chunk_requests}
use gemma_cpp.Blob.Chunks.Tiling.{Tiles, enqueue_chunk_requests-Tiles}
use gemma_cpp.Blob.Store.{RoundsUp, align, header_size, find_key}
use gemma_cpp.Blob.Store.Layout.{SizesFit, padded_total, IsHeader}
use gemma_cpp.Blob.Store.Find.{first_blob, find_key-first_blob}
use gemma_cpp.Blob.Reader.{BlobReader, enqueue}

module _ (round_up_to : ℕ → ℕ → ℕ) (rounds : RoundsUp round_up_to) where
  module _ (at : ℕ) (k : U128) (ks : List U128) (b : Span) (bs : List Span) (key : U128) where
    pub first_blob_here :
        k.lo == key.lo && k.hi == key.hi ≡ true
        → first_blob round_up_to at (k ∷ ks) (b ∷ bs) key ≡ some (at, b.size)
    unfolding first_blob
    first_blob_here h = rw h

    pub first_blob_later :
        k.lo == key.lo && k.hi == key.hi ≡ false
        → first_blob round_up_to at (k ∷ ks) (b ∷ bs) key
          ≡ first_blob round_up_to (at + round_up_to b.size align) ks bs key
    unfolding first_blob
    first_blob_later h = rw h

  -- A blob that is found ends inside the file.
  first_blob_inside :
      (at offset size : ℕ) (keys : List U128) (blobs : List Span) (key : U128)
      → SizesFit blobs
      → first_blob round_up_to at keys blobs key ≡ some (offset, size)
      → offset + size ≤ at + padded_total round_up_to blobs
  first_blob_inside at offset size [] bs key sf e = unfold first_blob in cc
  first_blob_inside at offset size (k ∷ ks) [] key sf e = unfold first_blob in cc
  first_blob_inside at offset size (k ∷ ks) (b ∷ bs) key (fit, sf) e =
      let r = rounds b.size align (omega arith) (omega arith) in
      elim (Bool-cases (k.lo == key.lo && k.hi == key.hi)) [
        | inl here ↦
            let found : ◌≡◌ {A = Option (ℕ × ℕ)} (some (at, b.size)) (some (offset, size)) =
              sym (first_blob_here at k ks b bs key here) ∙ e in
            let pair : ◌≡◌ {A = ℕ × ℕ} (at, b.size) (offset, size) = cc in
            let e₀ : at ≡ offset = ap (λ p. p.0) pair in
            let e₁ : b.size ≡ size = ap (λ p. p.1) pair in omega arith
        | inr later ↦
            let rest : first_blob round_up_to (at + round_up_to b.size align) ks bs key
                ≡ some (offset, size) =
              sym (first_blob_later at k ks b bs key later) ∙ e in
            omega (
              arith,
              first_blob_inside (at + round_up_to b.size align) offset size ks bs key sf rest,
            )
      ]

  module _ (m : Block) (keys : List U128) (blobs : List Span) (key : U128) (data_ptr : Pointer)
      (size : ℕ) (fd : Option ℕ) (requests : List BlobIo) where
    abbrev reader_of : List BlobIo → BlobReader
    reader_of rs = record { fd = fd; blob_store = some m; requests = rs }

    not_found :
        find_key m key ≡ ok none
        → enqueue key data_ptr size (reader_of requests) ≡ ok (294, reader_of requests)
    unfolding enqueue
    not_found e = rw e

    other_size :
        (offset actual : ℕ)
        → find_key m key ≡ ok (some (offset, actual))
        → actual ≢ size
        → enqueue key data_ptr size (reader_of requests) ≡ ok (295, reader_of requests)
    unfolding enqueue
    other_size offset actual e ne = rw (e, ◌>>=◌, ne→== actual size ne)

    enqueued :
        (offset actual : ℕ) (rs : List BlobIo)
        → find_key m key ≡ ok (some (offset, actual))
        → actual ≡ size
        → enqueue_chunk_requests offset actual data_ptr requests ≡ ok rs
        → enqueue key data_ptr size (reader_of requests) ≡ ok (0, reader_of rs)
    unfolding enqueue
    enqueued offset actual rs e same run =
        let test : actual == size ≡ true = ap (◌==◌ actual) (sym same) ∙ ==_self actual in
        rw (e, ◌>>=◌, test, run)

    -- What Enqueue returns, by what is stored under the key.
    abbrev pub Outcome : Option (ℕ × ℕ) → Run (BlobError × BlobReader) → Type 0
    Outcome none result = result ≡ ok (294, reader_of requests)
    Outcome (some (offset, actual)) result =
        ((actual ≢ size) × (result ≡ ok (295, reader_of requests)))
        ⊎ ((actual ≡ size)
            × (new : List BlobIo) × (result ≡ ok (0, reader_of (requests ++ new)))
            × Tiles offset size data_ptr new)

    Outcome_lem :
        (found : Option (ℕ × ℕ))
        → find_key m key ≡ ok found
        → ((offset actual : ℕ) → found ≡ some (offset, actual) → offset + actual < 2 ^ 64)
        → Outcome found (enqueue key data_ptr size (reader_of requests))
    Outcome_lem none e fits = not_found e
    Outcome_lem (some (offset, actual)) e fits = elim (ℕ_discrete actual size) [
      | no other ↦ inl (other, other_size offset actual e other)
      | yes equal ↦
          let (rs, run, (new, behind, tiles)) =
            enqueue_chunk_requests-Tiles offset actual data_ptr (fits offset actual refl)
              requests in
          inr (
            equal,
            new,
            enqueued offset actual (requests ++ new) e equal (run ∙ ap ok behind),
            subst (λ n. Tiles offset n data_ptr new) equal tiles,
          )
    ]

    -- With the header of a file, Enqueue returns 294 if no blob has the key and 295 if the first one
    -- with the key has another size, and leaves the reader as it is. Else it returns 0 and
    -- appends requests that read exactly this blob, back to back, to the bytes from the pointer on.
    -- There are as many keys as blobs, and the sizes and the file fit in 64 bits.
    pub enqueue-Outcome :
        IsHeader round_up_to m keys blobs
        → length keys ≡ length blobs
        → SizesFit blobs
        → round_up_to (header_size (length keys)) align + padded_total round_up_to blobs < 2 ^ 64
        → Outcome
            (first_blob round_up_to (round_up_to (header_size (length keys)) align) keys blobs key)
            (enqueue key data_ptr size (reader_of requests))
    enqueue-Outcome is same sf fits =
        Outcome_lem _ (find_key-first_blob round_up_to m keys blobs key is same) λ offset actual e.
          omega (
            arith,
            first_blob_inside (round_up_to (header_size (length keys)) align) offset actual keys
                blobs key sf e,
          )

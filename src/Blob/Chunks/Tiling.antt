-- ===== src/Blob/Chunks/Tiling.antt =====
-- The requests of one blob are back to back, cover it exactly, and none is larger than a chunk.
use gemma_cpp.Base.{
  ℕ, zero, suc, ◌+◌, ◌-◌, ◌/◌, ◌^◌, ◌≤◌, ◌<◌, ◌≡◌, refl, ap, arith, ok, true, subst, leb, ◌==◌,
  if◌then◌else◌, List, [], ◌∷◌, ◌++◌, Returns, Bool-cases, inl, inr, ◌∙◌, sym, dec_le, le→leb,
  gt→leb,
}
use mathlib.Core.List.{append_assoc, append-nil}
use gemma_cpp.Blob.{Pointer, BlobIo, add64, advance}
use gemma_cpp.Blob.Chunks.{chunk_size, chunk_loop, enqueue_chunk_requests}

-- Requests for the `n` bytes of the file from `at` on, which are the bytes from `ptr` on.
abbrev pub Tiles : ℕ → ℕ → Pointer → List BlobIo → Type 0
Tiles at n ptr [] = n ≡ 0
Tiles at n ptr (r ∷ rs) =
    (r.offset ≡ at)
    × (r.ptr ≡ ptr)
    × (0 < r.size)
    × (r.size ≤ chunk_size)
    × (r.size ≤ n)
    × Tiles (at + r.size) (n - r.size) (advance ptr r.size) rs

abbrev request : ℕ → Pointer → ℕ → ℕ → BlobIo
request offset ptr pos n = record {
  offset = add64 offset pos;
  size = n;
  ptr = advance ptr pos;
  padding = 0;
}

one_chunk :
    (offset size pos : ℕ) (ptr : Pointer) (rs : List BlobIo)
    → offset + size < 2 ^ 64
    → pos + chunk_size ≤ size
    → Tiles
        (offset + (pos + chunk_size))
        (size - (pos + chunk_size))
        (advance ptr (pos + chunk_size))
        rs
    → Tiles (offset + pos) (size - pos) (advance ptr pos) (request offset ptr pos chunk_size ∷ rs)
one_chunk offset size pos ptr rs fits h t = (
  omega arith,
  refl,
  omega arith,
  omega arith,
  omega arith,
  subst (λ (k : ℕ × ℕ × ℕ). Tiles k.0 k.1 (record ptr { at = k.2 }) rs) (ground arith) t,
)

module _ (offset size : ℕ) (ptr : Pointer) (fits : offset + size < 2 ^ 64) where
  wrap : (pos : ℕ) → pos + chunk_size ≤ size → add64 pos chunk_size ≡ pos + chunk_size
  wrap pos h = omega arith

  chunk_loop_more :
      (fuel pos : ℕ) (requests : List BlobIo)
      → pos + chunk_size ≤ size
      → chunk_loop (suc fuel) offset size ptr pos requests
        ≡ chunk_loop fuel offset size ptr
            (pos + chunk_size)
            (requests ++ request offset ptr pos chunk_size ∷ [])
  unfolding chunk_loop
  chunk_loop_more fuel pos requests h = rw (test, chunk_loop, wrap pos h)
    where
      test : leb pos (size - chunk_size) ≡ true
      test = ground arith

  chunk_loop-Tiles :
      (fuel pos : ℕ) (requests : List BlobIo)
      → pos ≤ size
      → chunk_size ≤ size
      → (size - pos) / chunk_size < fuel
      → (new : List BlobIo) × (pos' : ℕ) × (chunk_loop fuel offset size ptr pos requests
          ≡ ok (requests ++ new, pos'))
        × (pos' ≤ size)
        × (size < pos' + chunk_size)
        × ((rs : List BlobIo)
            → Tiles (offset + pos') (size - pos') (advance ptr pos') rs
            → Tiles (offset + pos) (size - pos) (advance ptr pos) (new ++ rs))
  unfolding chunk_loop
  chunk_loop-Tiles zero pos requests a b c = absurd (omega arith)
  chunk_loop-Tiles (suc fuel) pos requests a b c = elim (Bool-cases (leb pos (size - chunk_size))) [
    | inl more ↦
        let chunk = request offset ptr pos chunk_size in
        let (new, pos', run, le, lt, tiles) =
          chunk_loop-Tiles fuel (pos + chunk_size) (requests ++ chunk ∷ []) (ground arith) b
            (ground arith) in
        (
          chunk ∷ new,
          pos',
          chunk_loop_more fuel pos requests (ground arith)
              ∙ run
              ∙ ap (λ l. ok (l, pos')) (append_assoc requests (chunk ∷ []) new),
          le,
          lt,
          λ rs t. one_chunk offset size pos ptr (new ++ rs) fits (ground arith) (tiles rs t),
        )
    | inr done ↦ ([], pos, rw (done, chunk_loop, append-nil), a, ground arith, λ rs t. t)
  ]

  -- The last request, if whole chunks leave a remainder.
  last_request :
      (pos : ℕ) (requests new : List BlobIo)
      → pos ≤ size
      → size < pos + chunk_size
      → (rs : List BlobIo) × ((if pos == size
            then requests ++ new
            else (requests ++ new) ++ request offset ptr pos (size - pos) ∷ [])
          ≡ requests ++ (new ++ rs))
        × Tiles (offset + pos) (size - pos) (advance ptr pos) rs
  last_request pos requests new a b = elim (Bool-cases (pos == size)) [
    | inl all ↦ ([], rw (all, append-nil), ground arith)
    | inr rest ↦ (
      request offset ptr pos (size - pos) ∷ [],
      rw (rest, append_assoc),
      (ground arith, refl, ground arith, ground arith, ground arith, ground arith),
    )
  ]

  after_loop : List BlobIo → ℕ → List BlobIo
  after_loop requests pos =
      if pos == size then requests else requests ++ request offset ptr pos (size - pos) ∷ []

  enqueue_large :
      (requests rs : List BlobIo) (pos : ℕ)
      → chunk_size ≤ size
      → chunk_loop (size / chunk_size + 1) offset size ptr 0 requests ≡ ok (rs, pos)
      → enqueue_chunk_requests offset size ptr requests ≡ ok (after_loop rs pos)
  unfolding enqueue_chunk_requests after_loop
  enqueue_large requests rs pos h run = rw (le→leb chunk_size size h, run)

  enqueue_small :
      (requests : List BlobIo)
      → size < chunk_size
      → enqueue_chunk_requests offset size ptr requests ≡ ok (after_loop requests 0)
  unfolding enqueue_chunk_requests after_loop
  enqueue_small requests h = rw (gt→leb chunk_size size h)

  -- The new requests stand behind the old ones, are back to back, cover the blob and nothing else,
  -- and are at most a chunk each, for a blob that ends below 2 ^ 64.
  pub enqueue_chunk_requests-Tiles :
      (requests : List BlobIo)
      → Returns
          (enqueue_chunk_requests offset size ptr requests)
          λ rs. (new : List BlobIo) × (rs ≡ requests ++ new) × Tiles offset size ptr new
  unfolding after_loop
  enqueue_chunk_requests-Tiles requests = elim (dec_le chunk_size size) [
    | yes large ↦
        let (new, pos, run, le, lt, tiles) =
          chunk_loop-Tiles (size / chunk_size + 1) 0 requests (omega arith) large (omega arith) in
        let (rs, e, last) = last_request pos requests new le lt in
        (
          requests ++ (new ++ rs),
          enqueue_large requests _ pos large run ∙ ap ok e,
          (new ++ rs, refl, from_start (new ++ rs) (tiles rs last)),
        )
    | no small ↦
        let (rs, e, last) = last_request 0 requests [] (omega arith) (omega arith) in
        (
          requests ++ rs,
          enqueue_small requests (omega arith)
              ∙ ap ok (ap (λ l. after_loop l 0) (sym (append-nil requests)) ∙ e),
          (rs, refl, from_start rs last),
        )
  ]
    where
      from_start :
          (rs : List BlobIo)
          → Tiles (offset + 0) (size - 0) (advance ptr 0) rs
          → Tiles offset size ptr rs
      from_start rs t =
          subst (λ (k : ℕ × ℕ × ℕ). Tiles k.0 k.1 (record ptr { at = k.2 }) rs) (ground arith) t

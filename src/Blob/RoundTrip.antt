-- ===== src/Blob/RoundTrip.antt =====
-- What a program gets back from a file of compression/blob_store.cc: Open, Enqueue and ReadAll of
-- BlobReader, one after the other, on a file that BlobWriter::WriteAll has left.
pub mod Fetched
use gemma_cpp.Base.{
  ℕ, zero, suc, ◌+◌, ◌-◌, ◌^◌, ◌≤◌, ◌<◌, ◌≡◌, refl, arith, ok, ◌>>=◌, ◌==◌, ◌&&◌, List, [], ◌∷◌,
  ◌∙◌, ap, sym, Option, some, none, length, get_elem?, dec_lt, if◌then◌else◌, Bool-cases, inl, inr,
  subst, true, false,
}
use gemma_cpp.Base.Block.{Block}
use gemma_cpp.Blob.{Run, U128, BlobError, Buffer, Pointer, BlobIo, Span}
use gemma_cpp.Blob.Chunks.Tiling.{Tiles}
use gemma_cpp.Blob.Io.{Calls, Memory}
use gemma_cpp.Blob.Store.{RoundsUp, Allocator, align}
use gemma_cpp.Blob.Store.Layout.{SizesFit, padded_total}
use gemma_cpp.Blob.Store.Find.{first_blob}
use gemma_cpp.Blob.Writer.Image.{blobs_image, tail_inside, tail_behind}
use gemma_cpp.Blob.Reader.{BlobReader, new_reader, open_reader, enqueue, read_all}
use gemma_cpp.Blob.Reader.Enqueue.{first_blob_here, first_blob_later}
use gemma_cpp.Blob.Reader.Fetch.{AllFetch}

-- A program that reads the blob of one key. The pool runs `n` tasks in the order `order n`.
unfoldable pub fetch :
    (ℕ → ℕ → ℕ)
    → Allocator
    → ℕ
    → Calls
    → Calls
    → (ℕ → Calls)
    → (ℕ → ℕ)
    → (ℕ → List ℕ)
    → Block
    → U128
    → Pointer
    → ℕ
    → Memory
    → Run (List BlobError × Memory)
fetch round_up_to allocator fd first rest calls stack order file key data_ptr size memory = do
  (e₁, r₁) ←
      open_reader round_up_to allocator (some fd) first rest (some (some file.size)) stack file
        new_reader
  (e₂, r₂) ← enqueue key data_ptr size r₁
  (e₃, memory') ← read_all calls file (order (length r₂.requests)) r₂ memory
  ok (e₁ ∷ e₂ ∷ e₃ ∷ [], memory')

-- The first blob that was added with this key.
unfoldable pub first_span : List U128 → List Span → U128 → Option Span
first_span [] bs key = none
first_span (k ∷ ks) [] key = none
first_span (k ∷ ks) (b ∷ bs) key =
    if k.lo == key.lo && k.hi == key.hi then some b else first_span ks bs key

some_eq : {a b : Span} → ◌≡◌ {A = Option Span} (some a) (some b) → a ≡ b
some_eq e = cc

module _ (k : U128) (ks : List U128) (b : Span) (bs : List Span) (key : U128) where
  first_span_here :
      k.lo == key.lo && k.hi == key.hi ≡ true → first_span (k ∷ ks) (b ∷ bs) key ≡ some b
  unfolding first_span
  first_span_here h = rw h

  first_span_later :
      k.lo == key.lo && k.hi == key.hi ≡ false
      → first_span (k ∷ ks) (b ∷ bs) key ≡ first_span ks bs key
  unfolding first_span
  first_span_later h = rw h

module _ (round_up_to : ℕ → ℕ → ℕ) (rounds : RoundsUp round_up_to) (memory : Memory)
    (zeros : (q : ℕ) → memory Buffer.zeros q ≡ 0) (image : ℕ → ℕ) (lo hi : ℕ) where
  -- Where the first blob of the key stands, and the bytes that stand there.
  pub record Stands (at : ℕ) (keys : List U128) (blobs : List Span) (key : U128) (b : Span)
      (offset : ℕ) : Type 0 where
    pub found : first_blob round_up_to at keys blobs key ≡ some (offset, b.size)
    pub above : at ≤ offset
    pub below : offset + b.size ≤ at + padded_total round_up_to blobs
    pub bytes :
        (k : ℕ)
        → k < b.size
        → blobs_image round_up_to memory at blobs (offset + k) ≡ memory b.ptr.buffer (b.ptr.at + k)

  pub first_span-Stands :
      (at : ℕ) (keys : List U128) (blobs : List Span) (key : U128) (b : Span)
      → SizesFit blobs
      → first_span keys blobs key ≡ some b
      → (offset : ℕ) × Stands at keys blobs key b offset
  first_span-Stands at [] bs key b sf e = unfold first_span in cc
  first_span-Stands at (k ∷ ks) [] key b sf e = unfold first_span in cc
  first_span-Stands at (k ∷ ks) (x ∷ bs) key b (fit, sf) e =
      let r = rounds x.size align (omega arith) (omega arith) in
      elim (Bool-cases (k.lo == key.lo && k.hi == key.hi)) [
        | inl here ↦
            let same : x ≡ b = some_eq (sym (first_span_here k ks x bs key here) ∙ e) in
            subst (λ b. (offset : ℕ) × Stands at (k ∷ ks) (x ∷ bs) key b offset) same
              (
                at,
                record {
                  found = first_blob_here round_up_to rounds at k ks x bs key here;
                  above = omega arith;
                  below = omega arith;
                  bytes =
                      λ i l. tail_inside round_up_to rounds memory zeros image lo hi at i x bs l;
                },
              )
        | inr later ↦
            let rest : first_span ks bs key ≡ some b =
              sym (first_span_later k ks x bs key later) ∙ e in
            let (offset, s) =
              first_span-Stands (at + round_up_to x.size align) ks bs key b sf rest in
            (
              offset,
              record {
                found = first_blob_later round_up_to rounds at k ks x bs key later ∙ s.found;
                above = omega (arith, s.above);
                below = omega (arith, s.below);
                bytes = λ i l.
                    tail_behind round_up_to rounds memory zeros image lo hi at (offset + i) x bs
                      (omega (arith, s.above)) (omega (arith, s.above))
                    ∙ s.bytes i l;
              },
            )
      ]

-- The request of each byte.
pub Tiles-at :
    (at n k : ℕ) (ptr : Pointer) (rs : List BlobIo)
    → Tiles at n ptr rs
    → k < n
    → (i : ℕ) × (r : BlobIo) × (j : ℕ) × (get_elem? rs i ≡ some r)
      × (j < r.size)
      × (r.ptr.buffer ≡ ptr.buffer)
      × (r.ptr.at + j ≡ ptr.at + k)
      × (r.offset + j ≡ at + k)
Tiles-at at n k ptr [] e l = absurd (omega arith)
Tiles-at at n k ptr (r ∷ rs) (eo, ep, pos, _, room, t) l = elim (dec_lt k r.size) [
  | yes here ↦
      let place : r.ptr.at ≡ ptr.at = ap (λ (p : Pointer). p.at) ep in
      (0, r, k, refl, here, ap (λ (p : Pointer). p.buffer) ep, omega arith, omega arith)
  | no later ↦
      let (i, r', j, g, lt, eb, ea, eo') =
        Tiles-at (at + r.size) (n - r.size) (k - r.size) (record ptr { at = ptr.at + r.size }) rs t
          (omega arith) in
      (suc i, r', j, g, lt, eb, omega arith, omega arith)
]

-- Memory that has the bytes of the file from `offset` on at `start`.
abbrev pub wanted_at : Block → ℕ → ℕ → Memory
wanted_at file offset start b q = file.byte (offset + (q - start))

pub Tiles-AllFetch :
    (file : Block) (offset start at n : ℕ) (ptr : Pointer) (rs : List BlobIo)
    → Tiles at n ptr rs
    → start ≤ ptr.at
    → offset + (ptr.at - start) ≡ at
    → at + n ≤ file.size
    → AllFetch file (wanted_at file offset start) rs
Tiles-AllFetch file offset start at n ptr [] t l e h = tt
Tiles-AllFetch file offset start at n ptr (r ∷ rs) (eo, ep, pos, _, room, t) l e h =
    let place : r.ptr.at ≡ ptr.at = ap (λ (p : Pointer). p.at) ep in
    (
      record { inside = omega arith; bytes = λ k lt. ap file.byte (omega arith) },
      Tiles-AllFetch file offset start (at + r.size) (n - r.size)
          (record ptr { at = ptr.at + r.size }) rs t (omega arith) (omega arith) (omega arith),
    )

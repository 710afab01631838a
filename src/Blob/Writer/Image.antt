-- ===== src/Blob/Writer/Image.antt =====
-- The bytes that the requests of a file show, and that the requests cover it.
use gemma_cpp.Base.{
  ℕ, zero, suc, ◌+◌, ◌-◌, ◌≤◌, ◌<◌, ◌≡◌, refl, arith, true, ltb, if◌then◌else◌, List, [], ◌∷◌, ◌++◌,
  ◌∙◌, ap, sym, get_elem?, some, dec_lt, lt→ltb, ge→ltb, subst, ne→==,
}
use gemma_cpp.Blob.{Buffer, Pointer, BlobIo, Span}
use gemma_cpp.Blob.Io.{Memory}
use gemma_cpp.Blob.Chunks.Tiling.{Tiles}
use gemma_cpp.Blob.Store.{RoundsUp, align}
use gemma_cpp.Blob.Store.Layout.{SizesFit, padding_request, padded_total, Plan}

-- The bytes of the request are those of the image.
pub record Shows (memory : Memory) (image : ℕ → ℕ) (lo hi : ℕ) (r : BlobIo) : Type 0 where
  pub some_bytes : 0 < r.size
  pub above : lo ≤ r.offset
  pub below : r.offset + r.size ≤ hi
  pub bytes : (k : ℕ) → k < r.size → memory r.ptr.buffer (r.ptr.at + k) ≡ image (r.offset + k)

abbrev pub AllShow : Memory → (ℕ → ℕ) → ℕ → ℕ → List BlobIo → Type 0
AllShow memory image lo hi [] = Unit {0}
AllShow memory image lo hi (r ∷ rs) = Shows memory image lo hi r × AllShow memory image lo hi rs

-- Each request starts where the one before ends.
abbrev pub BackToBack : ℕ → List BlobIo → ℕ → Type 0
BackToBack at [] end = at ≡ end
BackToBack at (r ∷ rs) end = (r.offset ≡ at) × BackToBack (at + r.size) rs end

pub BackToBack-append :
    (a b c : ℕ) (xs ys : List BlobIo)
    → BackToBack a xs b
    → BackToBack b ys c
    → BackToBack a (xs ++ ys) c
BackToBack-append a b c [] ys e t = subst (λ k. BackToBack k ys c) (sym e) t
BackToBack-append a b c (x ∷ xs) ys (e, s) t = (e, BackToBack-append (a + x.size) b c xs ys s t)

pub AllShow-append :
    (memory : Memory) (image : ℕ → ℕ) (lo hi : ℕ) (xs ys : List BlobIo)
    → AllShow memory image lo hi xs
    → AllShow memory image lo hi ys
    → AllShow memory image lo hi (xs ++ ys)
AllShow-append memory image lo hi [] ys s t = t
AllShow-append memory image lo hi (x ∷ xs) ys (e, s) t =
    (e, AllShow-append memory image lo hi xs ys s t)

-- Every position is in the range of a request.
pub BackToBack-covers :
    (at end q : ℕ) (rs : List BlobIo)
    → BackToBack at rs end
    → at ≤ q
    → q < end
    → (i : ℕ) × (r : BlobIo) × (get_elem? rs i ≡ some r) × (r.offset ≤ q) × (q < r.offset + r.size)
BackToBack-covers at end q [] e lo hi = absurd (omega arith)
BackToBack-covers at end q (r ∷ rs) (e, t) lo hi = elim (dec_lt q (at + r.size)) [
  | yes here ↦ (0, r, refl, omega arith, omega arith)
  | no later ↦
      let (i, r', g, a, b) = BackToBack-covers (at + r.size) end q rs t (omega arith) hi in
      (suc i, r', g, a, b)
]

pub AllShow-get :
    (memory : Memory) (image : ℕ → ℕ) (lo hi : ℕ) (rs : List BlobIo) (i : ℕ) (r : BlobIo)
    → AllShow memory image lo hi rs
    → get_elem? rs i ≡ some r
    → Shows memory image lo hi r
AllShow-get memory image lo hi [] i r s e = cc
AllShow-get memory image lo hi (x ∷ xs) zero r (s, t) e =
    let same : x ≡ r = cc in subst (Shows memory image lo hi) same s
AllShow-get memory image lo hi (x ∷ xs) (suc i) r (s, t) e =
    AllShow-get memory image lo hi xs i r t e

module _ (round_up_to : ℕ → ℕ → ℕ) (memory : Memory) where
  -- The blobs from `at` on, each followed by zeros up to a multiple of the alignment.
  abbrev pub blobs_image : ℕ → List Span → ℕ → ℕ
  blobs_image at [] q = 0
  blobs_image at (b ∷ bs) q =
      if ltb q (at + b.size)
      then memory b.ptr.buffer (b.ptr.at + (q - at))
      else if ltb q (at + round_up_to b.size align)
      then 0
      else blobs_image (at + round_up_to b.size align) bs q

  -- A file: its header, and the blobs behind it.
  abbrev pub file_image : ℕ → List Span → ℕ → ℕ
  file_image padded blobs q =
      if ltb q padded then memory Buffer.header q else blobs_image padded blobs q

module _ (memory : Memory) (image : ℕ → ℕ) (lo hi : ℕ) where
  -- The requests from `at` up to `end`, which show the image.
  abbrev pub Covers : ℕ → List BlobIo → ℕ → Type 0
  Covers at rs end = BackToBack at rs end × AllShow memory image lo hi rs

  Covers-append :
      (a b c : ℕ) (xs ys : List BlobIo) → Covers a xs b → Covers b ys c → Covers a (xs ++ ys) c
  Covers-append a b c xs ys (s, s') (t, t') =
      (BackToBack-append a b c xs ys s t, AllShow-append memory image lo hi xs ys s' t')

  Tiles-Covers :
      (at n : ℕ) (ptr : Pointer) (rs : List BlobIo)
      → Tiles at n ptr rs
      → ((k : ℕ) → k < n → memory ptr.buffer (ptr.at + k) ≡ image (at + k))
      → lo ≤ at
      → at + n ≤ hi
      → Covers at rs (at + n)
  Tiles-Covers at n ptr [] e h l u = (omega arith, tt)
  Tiles-Covers at n ptr (r ∷ rs) (eo, ep, some_bytes, _, room, t) h l u =
      let (b, s) =
        Tiles-Covers (at + r.size) (n - r.size) (record ptr { at = ptr.at + r.size }) rs t
          (λ k lt.
            ap (memory ptr.buffer) (omega arith)
            ∙ h (r.size + k) (omega arith)
            ∙ ap image (omega arith))
          (omega arith) (omega arith) in
      (
        (eo, subst (BackToBack (at + r.size) rs) (omega arith) b),
        (
          record {
            some_bytes = some_bytes;
            above = omega arith;
            below = omega arith;
            bytes = λ k lt.
                ap (λ (p : Pointer). memory p.buffer (p.at + k)) ep
                ∙ h k (omega arith)
                ∙ ap (λ o. image (o + k)) (sym eo);
          },
          s,
        ),
      )

  padding-Covers :
      (at n : ℕ)
      → ((q : ℕ) → memory Buffer.zeros q ≡ 0)
      → ((k : ℕ) → k < n → image (at + k) ≡ 0)
      → lo ≤ at
      → at + n ≤ hi
      → Covers at (padding_request at n) (at + n)
  padding-Covers at zero z h l u = (omega arith, tt)
  padding-Covers at (suc n) z h l u = rw (ne→== (suc n) 0 (omega arith)) (
    (refl, refl),
    (
      record {
        some_bytes = omega arith;
        above = l;
        below = u;
        bytes = λ k lt. z (0 + k) ∙ sym (h k lt);
      },
      tt,
    ),
  )

module _ (round_up_to : ℕ → ℕ → ℕ) (rounds : RoundsUp round_up_to) (memory : Memory)
    (zeros : (q : ℕ) → memory Buffer.zeros q ≡ 0) (image : ℕ → ℕ) (lo hi : ℕ) where
  abbrev pub tail : ℕ → List Span → ℕ → ℕ
  tail = blobs_image round_up_to memory

  -- The image of the first blob, of its padding, and of the blobs behind it.
  pub tail_inside :
      (at k : ℕ) (b : Span) (bs : List Span)
      → k < b.size
      → tail at (b ∷ bs) (at + k) ≡ memory b.ptr.buffer (b.ptr.at + k)
  tail_inside at k b bs h =
      let test : ltb (at + k) (at + b.size) ≡ true = lt→ltb _ _ (omega arith) in
      let back : at + k - at ≡ k = omega arith in rw (test, back)

  tail_padding :
      (at q : ℕ) (b : Span) (bs : List Span)
      → at + b.size ≤ q
      → q < at + round_up_to b.size align
      → tail at (b ∷ bs) q ≡ 0
  tail_padding at q b bs h l = rw (ge→ltb q (at + b.size) h, lt→ltb q _ l)

  pub tail_behind :
      (at q : ℕ) (b : Span) (bs : List Span)
      → at + b.size ≤ q
      → at + round_up_to b.size align ≤ q
      → tail at (b ∷ bs) q ≡ tail (at + round_up_to b.size align) bs q
  tail_behind at q b bs h l = rw (ge→ltb q (at + b.size) h, ge→ltb q _ l)

  -- The planned requests show the image of the blobs.
  pub Plan-Covers :
      (at : ℕ) (blobs : List Span) (rs : List BlobIo)
      → Plan round_up_to at blobs rs
      → SizesFit blobs
      → ((q : ℕ) → at ≤ q → image q ≡ tail at blobs q)
      → lo ≤ at
      → at + padded_total round_up_to blobs ≤ hi
      → Covers memory image lo hi at rs (at + padded_total round_up_to blobs)
  Plan-Covers at [] rs e sf same l u =
      subst (λ rs. Covers memory image lo hi at rs (at + 0)) (sym e) (omega arith, tt)
  Plan-Covers at (b ∷ bs) rs (chunks, rest, e, t, plan) (fit, sf) same l u =
      let r = rounds b.size align (omega arith) (omega arith) in
      let up = round_up_to b.size align in
      let of_chunks =
        Tiles-Covers memory image lo hi at b.size b.ptr chunks t
          (λ k lt. sym (same (at + k) (omega arith) ∙ tail_inside at k b bs lt)) l (omega arith) in
      let of_padding =
        padding-Covers memory image lo hi (at + b.size) (up - b.size) zeros
          (λ k lt.
            same (at + b.size + k) (omega arith)
            ∙ tail_padding at (at + b.size + k) b bs (omega arith) (omega arith))
          (omega arith) (omega arith) in
      let of_rest =
        Plan-Covers (at + up) bs rest plan sf
          (λ q h. same q (omega arith) ∙ tail_behind at q b bs (omega arith) h) (omega arith)
          (omega arith) in
      let padded : at + b.size + (up - b.size) ≡ at + up = omega arith in
      let total : at + up + padded_total round_up_to bs ≡ at + (up + padded_total round_up_to bs) =
        omega arith in
      let pad = padding_request (at + b.size) (up - b.size) in
      subst (λ rs. Covers memory image lo hi at rs (at + (up + padded_total round_up_to bs)))
        (sym e)
        (Covers-append memory image lo hi at (at + b.size) _ chunks (pad ++ rest) of_chunks (
          Covers-append memory image lo hi (at + b.size) (at + up) _ pad rest
            (subst (Covers memory image lo hi (at + b.size) pad) padded of_padding)
            (subst (Covers memory image lo hi (at + up) rest) total of_rest)))

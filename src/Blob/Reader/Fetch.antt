-- ===== src/Blob/Reader/Fetch.antt =====
-- BlobReader::ReadAll: what one of its tasks leaves in memory.
pub mod Tasks
pub mod ReadAll
use gemma_cpp.Base.{
  get_elem?-inside, get_elem?-some, ℕ, zero, suc, ◌+◌, ◌-◌, ◌^◌, ◌≤◌, ◌<◌, ◌≡◌, ◌≢◌, ◌⊎◌, inl, inr,
  refl, arith, Bool, true, false, not, ◌||◌, ◌==◌, ok, List, [], ◌∷◌, ◌∙◌, ap, sym, subst,
  get_elem?, some, length, dec_lt, ==_self, ==_iff, Bool-cases, if◌then◌else◌,
}
use gemma_cpp.Base.Block.{
  Block, slice, store, store_inside, store_outside, get_or-slice, length-slice,
}
use gemma_cpp.Blob.{Buffer, BlobIo, Pointer}
use gemma_cpp.Blob.Io.{Calls, Preads, Progresses, Memory, io_read}
use gemma_cpp.Blob.Io.Reads.{io_read_run}
use gemma_cpp.Blob.Writer.{Elem, Runs}
use gemma_cpp.Blob.Reader.{BlobReader, same_buffer, store_at, read_tasks, read_all}

same_buffer-eq : (a b : Buffer) → same_buffer a b ≡ true → a ≡ b
same_buffer-eq Buffer.header Buffer.header e = refl
same_buffer-eq Buffer.zeros Buffer.zeros e = refl
same_buffer-eq (Buffer.heap j) (Buffer.heap k) e = ap Buffer.heap ((==_iff j k).0 e)
same_buffer-eq Buffer.header Buffer.zeros e = cc
same_buffer-eq Buffer.header (Buffer.heap k) e = cc
same_buffer-eq Buffer.zeros Buffer.header e = cc
same_buffer-eq Buffer.zeros (Buffer.heap k) e = cc
same_buffer-eq (Buffer.heap j) Buffer.header e = cc
same_buffer-eq (Buffer.heap j) Buffer.zeros e = cc

same_buffer_self : (a : Buffer) → same_buffer a a ≡ true
same_buffer_self Buffer.header = refl
same_buffer_self Buffer.zeros = refl
same_buffer_self (Buffer.heap k) = ==_self k

-- The request reads a range of the file to where the wanted memory has those bytes.
pub record Fetches (file : Block) (wanted : Memory) (r : BlobIo) : Type 0 where
  pub inside : r.offset + r.size ≤ file.size
  pub bytes : (k : ℕ) → k < r.size → wanted r.ptr.buffer (r.ptr.at + k) ≡ file.byte (r.offset + k)

abbrev pub AllFetch : Block → Memory → List BlobIo → Type 0
AllFetch file wanted [] = Unit {0}
AllFetch file wanted (r ∷ rs) = Fetches file wanted r × AllFetch file wanted rs

pub AllFetch-get :
    (file : Block) (wanted : Memory) (rs : List BlobIo) (i : ℕ) (r : BlobIo)
    → AllFetch file wanted rs
    → get_elem? rs i ≡ some r
    → Fetches file wanted r
AllFetch-get file wanted [] i r s e = cc
AllFetch-get file wanted (x ∷ rs) zero r (s, t) e =
    let same : x ≡ r = cc in subst (Fetches file wanted) same s
AllFetch-get file wanted (x ∷ rs) (suc i) r (s, t) e = AllFetch-get file wanted rs i r t e

-- The place is not among those that the request fills.
abbrev pub Outside : BlobIo → Buffer → ℕ → Type 0
Outside r b q = (b ≢ r.ptr.buffer) ⊎ ((q < r.ptr.at) ⊎ (r.ptr.at + r.size ≤ q))

module _ (file : Block) (wanted : Memory) (r : BlobIo) (fetches : Fetches file wanted r) where
  abbrev after : ℕ → Memory → Memory
  after p memory = store_at memory r.ptr (slice file.byte r.offset p)

  pub after_inside :
      (p k : ℕ) (memory : Memory)
      → p ≤ r.size
      → k < p
      → after p memory r.ptr.buffer (r.ptr.at + k) ≡ wanted r.ptr.buffer (r.ptr.at + k)
  after_inside p k memory h l = rw (same_buffer_self r.ptr.buffer) (
      store_inside (memory r.ptr.buffer) r.ptr.at (slice file.byte r.offset p) k (rw length-slice l)
      ∙ get_or-slice file.byte r.offset p k l
      ∙ sym (fetches.bytes k (omega arith)))

  pub after_outside :
      (p q : ℕ) (b : Buffer) (memory : Memory)
      → (b ≢ r.ptr.buffer) ⊎ ((q < r.ptr.at) ⊎ (r.ptr.at + p ≤ q))
      → after p memory b q ≡ memory b q
  after_outside p q b memory o = elim (Bool-cases (same_buffer b r.ptr.buffer)) [
    | inr other ↦ rw other refl
    | inl same ↦
        let bytes = slice file.byte r.offset p in
        let len : length bytes ≡ p = length-slice file.byte r.offset p in
        rw same (
          store_outside (memory b) r.ptr.at bytes q (elim o [
            | inl ne ↦ absurd (ne (same_buffer-eq b r.ptr.buffer same))
            | inr (inl below) ↦ inl below
            | inr (inr above) ↦ inr (omega arith)
          ]))
  ]

  -- A task keeps what is as wanted.
  pub after_keeps :
      (p q : ℕ) (b : Buffer) (memory : Memory)
      → p ≤ r.size
      → memory b q ≡ wanted b q
      → after p memory b q ≡ wanted b q
  after_keeps p q b memory h e = elim (Bool-cases (same_buffer b r.ptr.buffer)) [
    | inr other ↦ rw other e
    | inl same ↦
        let here : b ≡ r.ptr.buffer = same_buffer-eq b r.ptr.buffer same in
        elim (dec_lt q r.ptr.at) [
          | yes below ↦ after_outside p q b memory (inr (inl below)) ∙ e
          | no above ↦ elim (dec_lt q (r.ptr.at + p)) [
            | no behind ↦ after_outside p q b memory (inr (inr (omega arith))) ∙ e
            | yes inside ↦
                let back : r.ptr.at + (q - r.ptr.at) ≡ q = omega arith in
                subst (λ b. after p memory b q ≡ wanted b q) (sym here)
                  (subst (λ q. after p memory r.ptr.buffer q ≡ wanted r.ptr.buffer q) back
                    (after_inside p (q - r.ptr.at) memory h (omega arith)))
          ]
        ]
  ]

-- ===== src/Sfp/Stream.antt =====
-- compression/sfp-inl.h: SfpCodec::Enc, Dec and Dot on arrays, for bf16 and f32. A vector is the function
-- from the numbers of its lanes to their values, a bf16 is its 16 bits, and `F` stands for float.
-- EncBytes and DecBytes apply to each lane, the first lane first: of the checks that fail in a
-- vector this names one.
pub mod Loops
pub mod Rounds
pub mod Codec
pub mod Again
pub mod Plain
use gemma_cpp.Base.{
  ℕ, zero, suc, ◌+◌, ◌-◌, ◌*◌, Bool, Checked, ok, ◌>>=◌, ◌>>◌, debug_check, ltb, ◌==◌,
  if◌then◌else◌,
}
use gemma_cpp.Base.Chunks.{splice, from, chunks}
use gemma_cpp.Sfp.Simd.{Lanes}
use gemma_cpp.Sfp.{SfpCheck, enc_bytes, dec_bytes}

-- The operations of Highway on whole vectors that the loops call. The first number is that of the
-- lanes of the result, or of the argument for a promotion.
pub record Wide (F : Type 0) : Type 0 where
  pub zero_f : F
  pub bytes_of : (ℕ → ℕ) → ℕ → ℕ
  pub u16_of : (ℕ → ℕ) → ℕ → ℕ
  pub concat_even : ℕ → (ℕ → ℕ) → (ℕ → ℕ) → ℕ → ℕ
  pub concat_odd : ℕ → (ℕ → ℕ) → (ℕ → ℕ) → ℕ → ℕ
  pub interleave_whole_lower : ℕ → (ℕ → ℕ) → (ℕ → ℕ) → ℕ → ℕ
  pub interleave_whole_upper : ℕ → (ℕ → ℕ) → (ℕ → ℕ) → ℕ → ℕ
  pub ordered_demote_2_to : ℕ → (ℕ → F) → (ℕ → F) → ℕ → ℕ
  pub promote_lower_to : ℕ → (ℕ → ℕ) → ℕ → F
  pub promote_upper_to : ℕ → (ℕ → ℕ) → ℕ → F

pub data StreamFault : Type 0 where
  lane_check : SfpCheck → StreamFault
  too_many_remaining : StreamFault

abbrev pub in_stream {ℓ} : {A : Type ℓ} → Checked SfpCheck A → Checked StreamFault A
in_stream (ok a) = ok a
in_stream (Checked.failed e) = Checked.failed (StreamFault.lane_check e)

-- What CopyBytes leaves in an array of zeros.
abbrev pub padded : {A : Type 0} → A → (ℕ → A) → ℕ → ℕ → A
padded none values remaining i = if ltb i remaining then values i else none

module _ (h : Lanes) (debug : Bool) where
  -- EncBytes and DecBytes on the first `n` lanes.
  unfoldable pub enc_lanes : ℕ → (ℕ → ℕ) → (ℕ → ℕ) → Checked StreamFault (ℕ → ℕ)
  enc_lanes zero lo hi = ok (λ i. 0)
  enc_lanes (suc n) lo hi = do
    before ← enc_lanes n lo hi
    code ← in_stream (enc_bytes h debug (lo n) (hi n))
    ok (λ i. if i == n then code else before i)

  unfoldable pub dec_lanes : ℕ → (ℕ → ℕ) → Checked StreamFault ((ℕ → ℕ) × (ℕ → ℕ))
  dec_lanes zero packed = ok (λ i. 0, λ i. 0)
  dec_lanes (suc n) packed = do
    before ← dec_lanes n packed
    bytes ← in_stream (dec_bytes h debug (packed n))
    ok (λ i. if i == n then bytes.0 else before.0 i, λ i. if i == n then bytes.1 else before.1 i)

  module _ {F : Type 0} (w : Wide F) where
    -- Enc2U, Enc2B and Enc4F; `n` is the number of lanes of the argument.
    unfoldable pub enc_2u : ℕ → (ℕ → ℕ) → (ℕ → ℕ) → Checked StreamFault (ℕ → ℕ)
    enc_2u n w0 w1 =
        let lo = w.concat_even (2 * n) (w.bytes_of w1) (w.bytes_of w0) in
        let hi = w.concat_odd (2 * n) (w.bytes_of w1) (w.bytes_of w0) in enc_lanes (2 * n) lo hi

    unfoldable pub enc_2b : ℕ → (ℕ → ℕ) → Checked StreamFault (ℕ → ℕ)
    enc_2b n values = enc_2u n (from values 0) (from values n)

    unfoldable pub enc_4f : ℕ → (ℕ → F) → Checked StreamFault (ℕ → ℕ)
    enc_4f n values =
        let f0 = from values (n * 0) in
        let f1 = from values (n * 1) in
        let f2 = from values (n * 2) in
        let f3 = from values (n * 3) in
        let w0 = w.ordered_demote_2_to (2 * n) f0 f1 in
        let w1 = w.ordered_demote_2_to (2 * n) f2 f3 in enc_2u (2 * n) w0 w1

    -- Dec2U and Dec2B, and Dec4F as the array that its four vectors are stored to.
    unfoldable pub dec_2u : ℕ → (ℕ → ℕ) → Checked StreamFault ((ℕ → ℕ) × (ℕ → ℕ))
    dec_2u n packed = do
      bytes ← dec_lanes (2 * n) packed
      let w0 : ℕ → ℕ = w.u16_of (w.interleave_whole_lower (2 * n) (bytes.0) (bytes.1))
      let w1 : ℕ → ℕ = w.u16_of (w.interleave_whole_upper (2 * n) (bytes.0) (bytes.1))
      ok (w0, w1)

    unfoldable pub dec_4f :
        ℕ → (ℕ → ℕ) → Checked StreamFault ((ℕ → F) × (ℕ → F) × (ℕ → F) × (ℕ → F))
    dec_4f n packed = do
      bf ← dec_2u (2 * n) packed
      let f0 : ℕ → F = w.promote_lower_to (2 * n) (bf.0)
      let f1 : ℕ → F = w.promote_upper_to (2 * n) (bf.0)
      let f2 : ℕ → F = w.promote_lower_to (2 * n) (bf.1)
      let f3 : ℕ → F = w.promote_upper_to (2 * n) (bf.1)
      ok (f0, f1, f2, f3)

    -- The stores of the vectors, `n` lanes each.
    abbrev pub store_2 : {A : Type 0} → ℕ → (ℕ → A) → ℕ → (ℕ → A) × (ℕ → A) → ℕ → A
    store_2 n out i v = splice (splice out i n (v.0)) (i + n) n (v.1)

    abbrev pub store_4 : ℕ → (ℕ → F) → ℕ → (ℕ → F) × (ℕ → F) × (ℕ → F) × (ℕ → F) → ℕ → F
    store_4 n out i v =
        splice
          (splice (splice (splice out (i + n * 0) n (v.0)) (i + n * 1) n (v.1)) (i + n * 2) n (v.2))
          (i + n * 3) n (v.3)

    -- Enc of bf16 and of f32, with the number of values of a round, the encoder of a round and the
    -- zero of the type.
    unfoldable pub enc_stream :
        {A : Type 0}
        → ℕ
        → ((ℕ → A) → Checked StreamFault (ℕ → ℕ))
        → A
        → (ℕ → A)
        → ℕ
        → (ℕ → ℕ)
        → Checked StreamFault (ℕ → ℕ)
    enc_stream step encode none values num out = do
      r ←
          chunks step (λ i out. do packed ← encode (from values i); ok (splice out i step packed))
            (num + 1) num 0 out
      let i : ℕ = r.0
      let remaining : ℕ = num - i
      debug_check debug (ltb remaining step) StreamFault.too_many_remaining
      if remaining == 0
          then ok (r.1)
          else encode (padded none (from values i) remaining)
            >>= (λ packed. ok (splice (r.1) i remaining packed))

    unfoldable pub enc_bf16 : ℕ → (ℕ → ℕ) → ℕ → (ℕ → ℕ) → Checked StreamFault (ℕ → ℕ)
    enc_bf16 n = enc_stream (2 * n) (enc_2b n) 0

    unfoldable pub enc_f32 : ℕ → (ℕ → F) → ℕ → (ℕ → ℕ) → Checked StreamFault (ℕ → ℕ)
    enc_f32 n = enc_stream (4 * n) (enc_4f n) w.zero_f

    -- Dec to bf16 and to f32, with the decoder of a round and the stores of its vectors. The vectors
    -- of the remainder are stored to an array whose first entries are copied.
    unfoldable pub dec_stream :
        {A V : Type 0}
        → ℕ
        → ((ℕ → ℕ) → Checked StreamFault V)
        → ((ℕ → A) → ℕ → V → ℕ → A)
        → (ℕ → A)
        → (ℕ → ℕ)
        → ℕ
        → (ℕ → A)
        → Checked StreamFault (ℕ → A)
    dec_stream step decode store uninitialised packed num out = do
      r ←
          chunks step (λ i out. do v ← decode (from packed i); ok (store out i v)) (num + 1) num 0
            out
      let i : ℕ = r.0
      let remaining : ℕ = num - i
      debug_check debug (ltb remaining step) StreamFault.too_many_remaining
      if remaining == 0
          then ok (r.1)
          else decode (padded 0 (from packed i) remaining)
            >>= (λ v. ok (splice (r.1) i remaining (store uninitialised 0 v)))

    unfoldable pub dec_bf16 : ℕ → (ℕ → ℕ) → (ℕ → ℕ) → ℕ → (ℕ → ℕ) → Checked StreamFault (ℕ → ℕ)
    dec_bf16 n = dec_stream (2 * n) (dec_2u n) (store_2 n)

    unfoldable pub dec_f32 : ℕ → (ℕ → F) → (ℕ → ℕ) → ℕ → (ℕ → F) → Checked StreamFault (ℕ → F)
    dec_f32 n = dec_stream (4 * n) (dec_4f n) (store_4 n)

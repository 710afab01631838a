-- ===== src/Sfp/Stream/Again.antt =====
-- Streams of compression/sfp-inl.h that are decoded and encoded again.
use gemma_cpp.Base.{
  ℕ, ◌+◌, ◌*◌, ◌/◌, ◌%◌, ◌<◌, ◌≡◌, ◌≢◌, refl, Bool, Checked, ok, failed, ◌>>=◌, arith, Returns,
  Returns-bind,
}
use gemma_cpp.Sfp.Simd.{Lanes, IsDocumented}
use gemma_cpp.Sfp.{SfpCheck, enc_bytes, dec_bytes}
use gemma_cpp.Sfp.RoundTrip.{Decoded, dec_bytes-Decoded, enc_bytes-dec_bytes}
use gemma_cpp.Sfp.Stream.{Wide, enc_bf16, enc_f32, dec_bf16, dec_f32}
use gemma_cpp.Sfp.Stream.Loops.{Filled}
use gemma_cpp.Sfp.Stream.Rounds.{IsWide, IsCode, value}
use gemma_cpp.Sfp.Stream.Codec.{enc_f32-Filled, enc_bf16-Filled, dec_bf16-Filled, dec_f32-Filled}

-- Bytes that a stream may hold: all but the code 0x80.
pub record IsStream (codes : ℕ → ℕ) (num : ℕ) : Type 0 where
  pub below : (p : ℕ) → p < num → codes p < 256
  pub not_minus_zero : (p : ℕ) → p < num → codes p ≢ 0x80

bytes_in : Checked SfpCheck (ℕ × ℕ) → ℕ × ℕ
bytes_in (ok b) = b
bytes_in (failed e) = (0, 0)

module _ (h : Lanes) (documented : IsDocumented h) (debug : Bool) where
  decoded : ℕ → ℕ × ℕ
  decoded c = bytes_in (dec_bytes h debug c)

  module _ (codes : ℕ → ℕ) (num : ℕ) (stream : IsStream codes num) (p : ℕ) (lt : p < num) where
    both :
        (dec_bytes h debug (codes p) ≡ ok (decoded (codes p)))
        × IsCode h debug (value h debug (decoded (codes p))) (codes p)
    unfolding decoded bytes_in
    both = combine (
        dec_bytes-Decoded h debug (codes p) documented (stream.below p lt)
          (stream.not_minus_zero p lt))
      where
        combine :
            Returns (dec_bytes h debug (codes p)) (Decoded (codes p))
            → (dec_bytes h debug (codes p) ≡ ok (bytes_in (dec_bytes h debug (codes p))))
              × IsCode h debug (value h debug (bytes_in (dec_bytes h debug (codes p)))) (codes p)
        combine (b, e, q) =
            let lo : (b.0 + 256 * b.1) % 256 ≡ b.0 = omega (arith, q.lo_byte) in
            let hi : (b.0 + 256 * b.1) / 256 ≡ b.1 = omega (arith, q.lo_byte) in
            let again : dec_bytes h debug (codes p) >>= (λ b. enc_bytes h debug b.0 b.1)
                ≡ ok (codes p) =
              enc_bytes-dec_bytes h debug (codes p) documented (stream.below p lt)
                (stream.not_minus_zero p lt) in
            let back : enc_bytes h debug b.0 b.1 ≡ ok (codes p) = rw (e) at again in
            rw (e, lo, hi) (refl, back)

  module _ {F : Type 0} (w : Wide F) {demote : F → ℕ} {promote : ℕ → F}
      (d : IsWide w demote promote) where
    module _ (n m : ℕ) (some_lane : 0 < n) (some_other_lane : 0 < m) (codes : ℕ → ℕ) (num : ℕ) where
      pub enc_bf16-dec_bf16 :
          (uninitialised values out : ℕ → ℕ)
          → IsStream codes num
          → Returns
              (dec_bf16 h debug w n uninitialised codes num values >>= λ decoded.
                enc_bf16 h debug w m decoded num out)
              (Filled codes out num)
      enc_bf16-dec_bf16 uninitialised values out stream =
          Returns-bind
            (dec_bf16-Filled h documented debug w d n some_lane num uninitialised codes
              (λ p. decoded (codes p)) values (λ p lt. (both codes num stream p lt).0))
            λ v f.
              enc_bf16-Filled h documented debug w d m some_other_lane num v codes out
                λ p lt. rw (f.inside p lt) ((both codes num stream p lt).1)

      -- A stream of codes without 0x80 that is decoded to f32 values and encoded again is the same
      -- stream, in both builds and also if the encoder has vectors of another length, provided
      -- that a bf16 is not changed by way of f32.
      pub enc_f32-dec_f32 :
          (uninitialised values : ℕ → F) (out : ℕ → ℕ)
          → IsStream codes num
          → ((b : ℕ) → demote (promote b) ≡ b)
          → Returns
              (dec_f32 h debug w n uninitialised codes num values >>= λ decoded.
                enc_f32 h debug w m decoded num out)
              (Filled codes out num)
      enc_f32-dec_f32 uninitialised values out stream exact =
          Returns-bind
            (dec_f32-Filled h documented debug w d n some_lane num uninitialised codes
              (λ p. decoded (codes p)) values (λ p lt. (both codes num stream p lt).0))
            λ v f. enc_f32-Filled h documented debug w d m some_other_lane num v codes out λ p lt.
              rw (f.inside p lt, exact (value h debug (decoded (codes p))))
                ((both codes num stream p lt).1)

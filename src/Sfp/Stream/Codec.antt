-- ===== src/Sfp/Stream/Codec.antt =====
-- SfpCodec::Enc and Dec of compression/sfp-inl.h on arrays of any length, and the two in turn.
use gemma_cpp.Base.{
  ℕ, ◌+◌, ◌-◌, ◌*◌, ◌<◌, ◌≡◌, refl, ◌∙◌, Bool, true, false, inl, inr, ok, arith, lt→ltb, ltb,
  Bool-cases, Returns, Returns-map,
}
use gemma_cpp.Base.Chunks.{from}
use gemma_cpp.Sfp.Simd.{Lanes, IsDocumented, lanes-eq, byte_lanes}
use gemma_cpp.Sfp.{enc_bytes, dec_bytes}
use gemma_cpp.Sfp.Stream.{
  Wide, padded, enc_2b, enc_4f, dec_2u, dec_4f, store_2, store_4, enc_bf16, enc_f32, dec_bf16,
  dec_f32,
}
use gemma_cpp.Sfp.Stream.Loops.{Filled, enc_stream-Filled, dec_stream-Filled}
use gemma_cpp.Sfp.Stream.Rounds.{
  IsWide, IsCode, value, enc_2b-ok, enc_4f-ok, lane_2, store_2-splice, dec_2u-lane_2, lane_4,
  store_4-splice, dec_4f-ok,
}

module _ (h : Lanes) (documented : IsDocumented h) (debug : Bool) where
  -- The zero that pads a remainder.
  enc_zero : IsCode h debug 0 0
  unfolding enc_bytes gemma_cpp.Sfp.signed_gt gemma_cpp.Sfp.signed_lt
  enc_zero = rw (lanes-eq h documented) (zero_code debug)
    where
      zero_code : (debug : Bool) → enc_bytes byte_lanes debug 0 0 ≡ ok 0
      zero_code true = refl
      zero_code false = refl

  dec_zero : dec_bytes h debug 0 ≡ ok (0, 0)
  unfolding dec_bytes gemma_cpp.Sfp.signed_gt gemma_cpp.Sfp.signed_lt
  dec_zero = rw (lanes-eq h documented) (zero_bytes debug)
    where
      zero_bytes : (debug : Bool) → dec_bytes byte_lanes debug 0 ≡ ok (0, 0)
      zero_bytes true = refl
      zero_bytes false = refl

  inside_pad : (a : ℕ → ℕ) (num i k : ℕ) → k < num - i → padded 0 (from a i) (num - i) k ≡ a (i + k)
  inside_pad a num i k lt = rw (lt→ltb k (num - i) lt) refl

  -- The bytes of the padded codes.
  unfoldable pub padded_bytes : (ℕ → ℕ × ℕ) → ℕ → ℕ → ℕ → ℕ × ℕ
  padded_bytes bytes num i = padded (0, 0) (from bytes i) (num - i)

  pub dec_padded :
      (codes : ℕ → ℕ) (bytes : ℕ → ℕ × ℕ) (num i k : ℕ)
      → ((p : ℕ) → p < num → dec_bytes h debug (codes p) ≡ ok (bytes p))
      → dec_bytes h debug (padded 0 (from codes i) (num - i) k) ≡ ok (padded_bytes bytes num i k)
  unfolding padded_bytes
  dec_padded codes bytes num i k each = elim (Bool-cases (ltb k (num - i))) [
    | inl e ↦ rw (e) (each (i + k) (ground arith))
    | inr e ↦ rw (e) dec_zero
  ]

  module _ {F : Type 0} (w : Wide F) {demote : F → ℕ} {promote : ℕ → F}
      (d : IsWide w demote promote) where
    module _ (n : ℕ) (some_lane : 0 < n) (num : ℕ) where
      -- Enc of f32 values: the first `num` bytes are the codes of the values as bf16, whatever the
      -- number of lanes, and no other byte is changed, if EncBytes gives these codes.
      pub enc_f32-Filled :
          (values : ℕ → F) (codes out : ℕ → ℕ)
          → ((p : ℕ) → p < num → IsCode h debug (demote (values p)) (codes p))
          → Returns (enc_f32 h debug w n values num out) (Filled codes out num)
      unfolding enc_f32
      enc_f32-Filled values codes out each =
          enc_stream-Filled h debug w (4 * n) (omega arith) (enc_4f h debug w n) w.zero_f values
            codes num out
            (λ i le.
              enc_4f-ok h debug w d n (from values i) (λ k. codes (i + k))
                λ k lt. each (i + k) (omega arith))
            (λ i le lt.
              Returns-map (λ packed p k q. p k (omega arith) ∙ inside_pad codes num i k q)
                (enc_4f-ok h debug w d n _ (padded 0 (from codes i) (num - i)) λ k q.
                  elim (Bool-cases (ltb k (num - i))) [
                    | inl e ↦ rw (e) (each (i + k) (ground arith))
                    | inr e ↦ rw (e, d.demote_zero) enc_zero
                  ]))

      pub enc_bf16-Filled :
          (values codes out : ℕ → ℕ)
          → ((p : ℕ) → p < num → IsCode h debug (values p) (codes p))
          → Returns (enc_bf16 h debug w n values num out) (Filled codes out num)
      unfolding enc_bf16
      enc_bf16-Filled values codes out each =
          enc_stream-Filled h debug w (2 * n) (omega arith) (enc_2b h debug w n) 0 values codes num
            out
            (λ i le.
              enc_2b-ok h debug w d n (from values i) (λ k. codes (i + k))
                λ k lt. each (i + k) (omega arith))
            (λ i le lt.
              Returns-map (λ packed p k q. p k (omega arith) ∙ inside_pad codes num i k q)
                (enc_2b-ok h debug w d n _ (padded 0 (from codes i) (num - i)) λ k q.
                  elim (Bool-cases (ltb k (num - i))) [
                    | inl e ↦ rw (e) (each (i + k) (ground arith))
                    | inr e ↦ rw (e) enc_zero
                  ]))

      pub dec_bf16-Filled :
          (uninitialised codes : ℕ → ℕ) (bytes : ℕ → ℕ × ℕ) (out : ℕ → ℕ)
          → ((p : ℕ) → p < num → dec_bytes h debug (codes p) ≡ ok (bytes p))
          → Returns
              (dec_bf16 h debug w n uninitialised codes num out)
              (Filled (λ p. value h debug (bytes p)) out num)
      unfolding dec_bf16 padded_bytes
      dec_bf16-Filled uninitialised codes bytes out each =
          dec_stream-Filled h debug w (2 * n) (omega arith) (dec_2u h debug w n)
            (store_2 h debug w n) (lane_2 h debug w d n) (store_2-splice h debug w d n)
            uninitialised _ codes num out
            (λ i le.
              dec_2u-lane_2 h debug w d n (from codes i) (from bytes i)
                λ k lt. each (i + k) (omega arith))
            (λ i le lt.
              Returns-map (λ v p k q. p k (omega arith) ∙ rw (lt→ltb k (num - i) q) refl)
                (dec_2u-lane_2 h debug w d n _ (padded_bytes bytes num i)
                  λ k q. dec_padded codes bytes num i k each))

      -- Dec to f32 values: the first `num` values are those of the codes, whatever the number of
      -- lanes, and no other one is changed, if DecBytes decodes the codes.
      pub dec_f32-Filled :
          (uninitialised : ℕ → F) (codes : ℕ → ℕ) (bytes : ℕ → ℕ × ℕ) (out : ℕ → F)
          → ((p : ℕ) → p < num → dec_bytes h debug (codes p) ≡ ok (bytes p))
          → Returns
              (dec_f32 h debug w n uninitialised codes num out)
              (Filled (λ p. promote (value h debug (bytes p))) out num)
      unfolding dec_f32 padded_bytes
      dec_f32-Filled uninitialised codes bytes out each =
          dec_stream-Filled h debug w (4 * n) (omega arith) (dec_4f h debug w n)
            (store_4 h debug w n) (lane_4 h debug w d n) (store_4-splice h debug w d n)
            uninitialised _ codes num out
            (λ i le.
              dec_4f-ok h debug w d n (from codes i) (from bytes i)
                λ k lt. each (i + k) (omega arith))
            (λ i le lt.
              Returns-map (λ v p k q. p k (omega arith) ∙ rw (lt→ltb k (num - i) q) refl)
                (dec_4f-ok h debug w d n _ (padded_bytes bytes num i)
                  λ k q. dec_padded codes bytes num i k each))

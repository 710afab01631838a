-- ===== src/Sfp/Rounding.antt =====
-- What EncBytes gives for every bf16: the nearest code, zero, or a stop.
use gemma_cpp.Base.{
  ℕ, zero, suc, ◌+◌, ◌-◌, ◌*◌, ◌/◌, ◌%◌, ◌≤◌, ◌<◌, ◌≡◌, ◌≢◌, ◌⊎◌, inl, inr, refl, subst, Bool, true,
  false, ok, failed, arith, all_below, all_below_sound, Returns, ap₂, sym, ◌∙◌, ◌&&◌, &&-eq-true,
}
use gemma_cpp.Sfp.Simd.{Lanes, byte_lanes, IsDocumented, lanes-eq}
use gemma_cpp.Sfp.Value.{
  bf16_value, code_value, dist, IsNearest, IsNearest-of_neighbours, tie_is_neighbour,
}
use gemma_cpp.Sfp.Table.{
  enc16, zero_limit, top_limit, rounds, with_sign, same_code, encodes, encodes_parts, encodes_table,
  vanishes, vanishes_table, stops, stops_table, is_ok_zero, is_ok_zero-eq, is_failed_by,
  is_failed_by-eq,
}
use gemma_cpp.Sfp.{SfpCheck, enc_bytes}

-- The 15 bits below the sign.
abbrev pub magnitude : ℕ → ℕ → ℕ
magnitude lo hi = hi % 128 * 256 + lo

-- `c` is the rounded code of a magnitude, with ties to even.
pub record IsRounded (x c : ℕ) : Type 0 where
  pub in_range : c < 128
  pub zero_below : x < zero_limit → c ≡ 0
  pub nonzero : zero_limit ≤ x → 0 < c
  pub nearest : zero_limit ≤ x → IsNearest (bf16_value x) c
  pub ties_to_even :
      zero_limit ≤ x
      → (c' : ℕ) → c' < 128
      → c' ≢ c
      → dist (bf16_value x) (code_value c') ≡ dist (bf16_value x) (code_value c)
      → c % 2 ≡ 0

rounds_below : (x c : ℕ) → x < zero_limit → rounds x c ≡ true → c ≡ 0
unfolding rounds
rounds_below x c h e = ground arith

rounds_above :
    (x c : ℕ)
    → zero_limit ≤ x
    → rounds x c ≡ true
    → (0 < c)
      × (dist (bf16_value x) (code_value c) ≤ dist (bf16_value x) (code_value (c - 1)))
      × (dist (bf16_value x) (code_value c) ≤ dist (bf16_value x) (code_value (c + 1)))
unfolding rounds
rounds_above x c h e = ground arith

rounds_tie :
    (x c : ℕ)
    → zero_limit ≤ x
    → rounds x c ≡ true
    → (dist (bf16_value x) (code_value (c - 1)) ≡ dist (bf16_value x) (code_value c))
      ⊎ (dist (bf16_value x) (code_value (c + 1)) ≡ dist (bf16_value x) (code_value c))
    → c % 2 ≡ 0
unfolding rounds
rounds_tie x c h e (inl t) = ground arith
rounds_tie x c h e (inr t) = ground arith

rounds_range : (x c : ℕ) → rounds x c ≡ true → c < 128
unfolding rounds
rounds_range x c e = ground arith

rounds-IsRounded : (x c : ℕ) → rounds x c ≡ true → IsRounded x c
rounds-IsRounded x c e = record {
  in_range = rounds_range x c e;
  zero_below = λ h. rounds_below x c h e;
  nonzero = λ h. (rounds_above x c h e).0;
  nearest = λ h.
      let (_, lo, hi) = rounds_above x c h e in
      IsNearest-of_neighbours (bf16_value x) c (rounds_range x c e) lo hi;
  ties_to_even = λ h c' lt ne t.
      let (pos, lo, hi) = rounds_above x c h e in
      rounds_tie x c h e
        (elim (tie_is_neighbour (bf16_value x) c pos (rounds_range x c e) lo hi c' lt ne t) [
          | inl p ↦ inl (
              subst (λ n. dist (bf16_value x) (code_value n) ≡ dist (bf16_value x) (code_value c)) p
                t)
          | inr p ↦ inr (
              subst (λ n. dist (bf16_value x) (code_value n) ≡ dist (bf16_value x) (code_value c)) p
                t)
        ]);
}

same_code-eq :
    (debug : Bool) (x s c : ℕ)
    → same_code x s c ≡ true
    → enc16 debug (32768 * s + x) ≡ ok (with_sign s c)
unfolding same_code
same_code-eq true x s c e = ground arith
same_code-eq false x s c e = ground arith

-- The bytes of a bf16 as the number that the tables go through.
enc16-bytes :
    (debug : Bool) (lo hi x : ℕ)
    → lo < 256
    → x ≡ 256 * hi + lo
    → enc16 debug x ≡ enc_bytes byte_lanes debug lo hi
unfolding enc16
enc16-bytes debug lo hi x l e =
    let e₁ : x % 256 ≡ lo = omega arith in
    let e₂ : x / 256 ≡ hi = omega arith in ap₂ (enc_bytes byte_lanes debug) e₁ e₂

-- The table entry of the bytes, where the table goes from the magnitude `base` on.
by_sign :
    (p : ℕ → Bool) (base i s : ℕ)
    → s < 2
    → (p (base + i) && p (32768 + base + i)) ≡ true
    → p (32768 * s + (base + i)) ≡ true
by_sign p base i zero h e = ground arith
by_sign p base i (suc zero) h e = rw (eq base i) (ground arith)
  where
    eq : (base i : ℕ) → 32768 * 1 + (base + i) ≡ 32768 + base + i
    eq base i = omega arith
by_sign p base i (suc (suc s)) h e = absurd (omega arith)

-- A bf16 from 1.875 * 2 ^ -24 up to but not including 1.9375, of either sign and in both builds,
-- becomes the nearest code that is not zero to its value without the lowest mantissa bit, ties going
-- to the even code, with the sign before it; a bf16 below 1.875 * 2 ^ -24 becomes zero, even where
-- the least code is nearer. No check fails.
pub enc_bytes-IsRounded :
    (h : Lanes) (debug : Bool) (lo hi : ℕ)
    → IsDocumented h
    → lo < 256
    → hi < 256
    → magnitude lo hi < top_limit
    → Returns
        (enc_bytes h debug lo hi)
        λ r. (c : ℕ) × (r ≡ with_sign (hi / 128) c) × IsRounded (2 * (magnitude lo hi / 2)) c
enc_bytes-IsRounded h debug lo hi d l u m =
    let i = magnitude lo hi / 2 in
    let (c, (r, s)) =
      encodes_parts i (magnitude lo hi % 2) (hi / 128) (omega arith) (omega arith)
        (all_below_sound (top_limit / 2) encodes i encodes_table (omega arith)) in
    rw (lanes-eq h d) (
      with_sign (hi / 128) c,
      sym (enc16-bytes debug lo hi _ l (omega arith)) ∙ same_code-eq debug _ (hi / 128) c s,
      (c, refl, rounds-IsRounded (2 * i) c r),
    )

entry :
    (p : ℕ → Bool) (base n lo hi : ℕ)
    → all_below n (λ i. p (base + i) && p (32768 + base + i)) ≡ true
    → lo < 256
    → hi < 256
    → base ≤ magnitude lo hi
    → magnitude lo hi < base + n
    → p (256 * hi + lo) ≡ true
entry p base n lo hi t l u b m =
    let i = magnitude lo hi - base in
    subst (λ x. p x ≡ true) (omega arith)
      (by_sign p base i (hi / 128) (omega arith)
        (all_below_sound n (λ i. p (base + i) && p (32768 + base + i)) i t (omega arith)))

vanishes_parts :
    (x : ℕ)
    → vanishes x ≡ true
    → (enc16 false x ≡ ok 0) × (enc16 true x ≡ failed SfpCheck.exponent_after_round)
unfolding vanishes
vanishes_parts x e =
    let (z, f) = &&-eq-true (is_ok_zero (enc16 false x)) _ e in
    (is_ok_zero-eq _ z, is_failed_by-eq _ _ f)

-- A bf16 from 1.9375 up to 2, which EncBytes accepts, becomes zero in a release build. A debug
-- build stops at the check of the exponent after rounding.
pub enc_bytes_vanishes :
    (h : Lanes) (lo hi : ℕ)
    → IsDocumented h
    → lo < 256
    → hi < 256
    → top_limit ≤ magnitude lo hi
    → magnitude lo hi < 16384
    → (enc_bytes h false lo hi ≡ ok 0)
      × (enc_bytes h true lo hi ≡ failed SfpCheck.exponent_after_round)
enc_bytes_vanishes h lo hi d l u b m =
    let e =
      vanishes_parts (256 * hi + lo) (entry vanishes top_limit 8 lo hi vanishes_table l u b m) in
    rw (lanes-eq h d)
      (sym (enc16-bytes false lo hi _ l refl) ∙ e.0, sym (enc16-bytes true lo hi _ l refl) ∙ e.1)

stops_parts :
    (debug : Bool) (x : ℕ) → stops x ≡ true → enc16 debug x ≡ failed SfpCheck.exponent_at_most_one
unfolding stops
stops_parts false x e = is_failed_by-eq _ _ (&&-eq-true (is_failed_by _ (enc16 false x)) _ e).0
stops_parts true x e = is_failed_by-eq _ _ (&&-eq-true (is_failed_by _ (enc16 false x)) _ e).1

-- From 2 on the assertion on the exponent stops both builds.
pub enc_bytes_stops :
    (h : Lanes) (debug : Bool) (lo hi : ℕ)
    → IsDocumented h
    → lo < 256
    → hi < 256
    → 16384 ≤ magnitude lo hi
    → enc_bytes h debug lo hi ≡ failed SfpCheck.exponent_at_most_one
enc_bytes_stops h debug lo hi d l u b =
    let e = entry stops 16384 16384 lo hi stops_table l u b (omega arith) in
    rw (lanes-eq h d) (sym (enc16-bytes debug lo hi _ l refl) ∙ stops_parts debug _ e)

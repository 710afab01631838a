-- ===== src/Nuq/Nibbles/Order.antt =====
-- The order of the nibbles that NibbleCodec of compression/nuq-inl.h packs and unpacks.
use gemma_cpp.Base.{
  ℕ, ◌+◌, ◌-◌, ◌*◌, ◌/◌, ◌%◌, ◌≤◌, ◌<◌, ◌≡◌, refl, ltb, ◌==◌, if◌then◌else◌, arith, ap, ap₂, ◌∙◌,
  Bool, true, false, Bool-cases, inl, inr, ltb→lt,
}
use native.Mathlib.Nat.{mul-le-mul_right}
use gemma_cpp.Base.Bits.{bit_xor_nibble, bit_xor_byte}
use gemma_cpp.Nuq.Nibbles.{Vectors, combine_u16_pair_to_8, combine_u32_pair_to_16, ordered_pack_u16}
use gemma_cpp.Nuq.Nibbles.Documented.{IsDocumented}

-- A packed byte of the nibbles from `at` on holds two, the first in its low half.
unfoldable pub packed_byte : (ℕ → ℕ) → ℕ → ℕ → ℕ
packed_byte g at j = g (at + 2 * j) + g (at + (2 * j + 1)) * 16

module _ (v : Vectors) (d : IsDocumented v) where
  module _ (a : ℕ → ℕ) (i : ℕ) (lo : a (2 * i) < 16) (hi : a (2 * i + 1) < 16) where
    pair_low : combine_u16_pair_to_8 v a (2 * i) ≡ a (2 * i) + a (2 * i + 1) * 16
    unfolding combine_u16_pair_to_8
    pair_low =
        let shifted : v.shift_right_32 12 a (2 * i) ≡ a (2 * i + 1) * 16 =
          omega (arith, d.shift_right_32_low 12 a i) in
        rw (d.xor_lem a (v.shift_right_32 12 a) (2 * i), shifted) (bit_xor_nibble _ _ lo)

    pair_high : combine_u16_pair_to_8 v a (2 * i + 1) ≡ a (2 * i + 1)
    unfolding combine_u16_pair_to_8
    pair_high =
        let shifted : v.shift_right_32 12 a (2 * i + 1) ≡ 0 * 16 =
          omega (arith, d.shift_right_32_high 12 a i) in
        rw (d.xor_lem a (v.shift_right_32 12 a) (2 * i + 1), shifted)
          (bit_xor_nibble _ 0 hi ∙ omega arith)

  quad_low :
      (a : ℕ → ℕ) (i : ℕ)
      → a (4 * i) < 256
      → a (4 * i + 1) < 16
      → a (4 * i + 2) < 256
      → combine_u32_pair_to_16 v a (4 * i) ≡ a (4 * i) + a (4 * i + 2) * 256
  unfolding combine_u32_pair_to_16
  quad_low a i p q r =
      let shifted : v.shift_right_64 24 a (4 * i) ≡ a (4 * i + 2) * 256 =
        omega (arith, d.shift_right_64_low 24 a i) in
      rw (d.xor_lem a (v.shift_right_64 24 a) (4 * i), shifted) (bit_xor_byte _ _ p)

  -- A lane of ConcatEven on vectors of `2 * h` lanes.
  concat_even-at :
      (h : ℕ) (hi lo : ℕ → ℕ) (j x : ℕ)
      → (j < h → lo (2 * j) ≡ x)
      → (h ≤ j → hi (2 * (j - h)) ≡ x)
      → v.concat_even (2 * h) hi lo j ≡ x
  concat_even-at h hi lo j x p q =
      let half : 2 * h / 2 ≡ h = omega arith in
      elim (Bool-cases (ltb j h)) [
        | inl e ↦ rw (d.concat_even_lem (2 * h) hi lo j, half, e) (p (ltb→lt j h e))
        | inr e ↦ rw (d.concat_even_lem (2 * h) hi lo j, half, e) (q (ground arith))
      ]

  -- Two levels of it take every fourth lane of four vectors of `4 * q` lanes: the value that `w`
  -- gives each lane.
  every_fourth :
      (q : ℕ) (a b c e w : ℕ → ℕ)
      → ((m : ℕ) → m < q → a (4 * m) ≡ w m)
      → ((m : ℕ) → m < q → b (4 * m) ≡ w (q + m))
      → ((m : ℕ) → m < q → c (4 * m) ≡ w (2 * q + m))
      → ((m : ℕ) → m < q → e (4 * m) ≡ w (3 * q + m))
      → (n : ℕ) → n ≡ 2 * (2 * q)
      → (j : ℕ) → j < 4 * q
      → v.concat_even n (v.concat_even n e c) (v.concat_even n b a) j ≡ w j
  every_fourth q a b c e w pa pb pc pe n size j lt = rw (size) (
      concat_even-at (2 * q) _ _ j (w j)
        (λ h.
          concat_even-at (2 * q) b a (2 * j) (w j) (λ k. ap a (omega arith) ∙ pa j (omega arith))
            (λ k. ap b (omega arith) ∙ pb (j - q) (omega arith) ∙ ap w (omega arith)))
        (λ h.
          concat_even-at (2 * q) e c (2 * (j - 2 * q)) (w j)
            (λ k. ap c (omega arith) ∙ pc (j - 2 * q) (omega arith) ∙ ap w (omega arith))
            (λ k. ap e (omega arith) ∙ pe (j - 3 * q) (omega arith) ∙ ap w (omega arith))))

  -- The nibbles from `at` on in a vector.
  module _ (g : ℕ → ℕ) (at m : ℕ) where
    joined :
        g (at + 2 * m) < 16
        → g (at + (2 * m + 1)) < 16
        → combine_u16_pair_to_8 v (λ i. g (at + i)) (2 * m)
          ≡ g (at + 2 * m) + g (at + (2 * m + 1)) * 16
    joined p q = pair_low (λ i. g (at + i)) m p q

    first_byte :
        g (at + 2 * m) < 16
        → g (at + (2 * m + 1)) < 16
        → v.bytes_of (combine_u16_pair_to_8 v (λ i. g (at + i))) (4 * m)
          ≡ g (at + 2 * m) + g (at + (2 * m + 1)) * 16
    first_byte p q =
        let even : ((4 * m % 2) == 0) ≡ true = ground arith in
        let half : 4 * m / 2 ≡ 2 * m = omega arith in
        rw
          (
            d.bytes_of_lem (combine_u16_pair_to_8 v (λ i. g (at + i))) (4 * m),
            even,
            half,
            joined p q,
          )
          (omega arith)

  -- Four vectors of `4 * r` lanes, loaded one after the other from `at` on.
  module _ (r : ℕ) (g : ℕ → ℕ) (at : ℕ) (small : (x : ℕ) → x < 16 * r → g (at + x) < 16) where
    module _ (k m : ℕ) (lt : m < 2 * r) (four : k < 4) where
      place_even : at + 4 * r * k + 2 * m ≡ at + 2 * (k * (2 * r) + m)
      place_even = grind arith

      place_odd : at + 4 * r * k + (2 * m + 1) ≡ at + (2 * (k * (2 * r) + m) + 1)
      place_odd = grind arith

      below : 2 * (k * (2 * r) + m) + 1 < 16 * r
      below =
          let bound : k * r ≤ 3 * r = mul-le-mul_right r (omega arith) in
          let same : k * (2 * r) ≡ 2 * (k * r) = grind arith in omega (arith, bound, same)

      even_small : g (at + 4 * r * k + 2 * m) < 16
      even_small = rw (place_even) (small _ (omega (arith, below)))

      odd_small : g (at + 4 * r * k + (2 * m + 1)) < 16
      odd_small = rw (place_odd) (small _ below)

      pair :
          combine_u16_pair_to_8 v (λ i. g (at + 4 * r * k + i)) (2 * m)
          ≡ packed_byte g at (k * (2 * r) + m)
      unfolding packed_byte
      pair = joined g (at + 4 * r * k) m even_small odd_small ∙ rw (place_even, place_odd) refl

      low_byte :
          v.bytes_of (combine_u16_pair_to_8 v (λ i. g (at + 4 * r * k + i))) (4 * m)
          ≡ packed_byte g at (k * (2 * r) + m)
      unfolding packed_byte
      low_byte =
          first_byte g (at + 4 * r * k) m even_small odd_small ∙ rw (place_even, place_odd) refl

      odd_lane : combine_u16_pair_to_8 v (λ i. g (at + 4 * r * k + i)) (2 * m + 1) < 16
      odd_lane = rw (pair_high (λ i. g (at + 4 * r * k + i)) m even_small odd_small) odd_small

      pair-lt : packed_byte g at (k * (2 * r) + m) < 256
      unfolding packed_byte
      pair-lt = rw (← place_even, ← place_odd) (omega (arith, even_small, odd_small))

    abbrev two_bytes : ℕ → ℕ
    two_bytes m = packed_byte g at (2 * m) + packed_byte g at (2 * m + 1) * 256

    low_u16 :
        (k m : ℕ)
        → m < r
        → k < 4
        → combine_u32_pair_to_16 v (combine_u16_pair_to_8 v (λ i. g (at + 4 * r * k + i))) (4 * m)
          ≡ two_bytes (k * r + m)
    low_u16 k m lt four =
        let u8 : ℕ → ℕ = combine_u16_pair_to_8 v (λ i. g (at + 4 * r * k + i)) in
        let e0 : 4 * m ≡ 2 * (2 * m) = omega arith in
        let e1 : 4 * m + 1 ≡ 2 * (2 * m) + 1 = omega arith in
        let e2 : 4 * m + 2 ≡ 2 * (2 * m + 1) = omega arith in
        let p0 : u8 (4 * m) ≡ packed_byte g at (k * (2 * r) + 2 * m) =
          ap u8 e0 ∙ pair k (2 * m) (omega arith) four in
        let p2 : u8 (4 * m + 2) ≡ packed_byte g at (k * (2 * r) + (2 * m + 1)) =
          ap u8 e2 ∙ pair k (2 * m + 1) (omega arith) four in
        quad_low u8 m (rw (p0) (pair-lt k (2 * m) (omega arith) four))
          (rw (e1) (odd_lane k (2 * m) (omega arith) four))
          (rw (p2) (pair-lt k (2 * m + 1) (omega arith) four))
        ∙ ap₂ (λ x y. x + y * 256) (p0 ∙ ap (packed_byte g at) (grind arith))
            (p2 ∙ ap (packed_byte g at) (grind arith))

    abbrev u16_at : ℕ → ℕ → ℕ
    u16_at k = combine_u32_pair_to_16 v (combine_u16_pair_to_8 v (λ i. g (at + 4 * r * k + i)))

    words :
        (m : ℕ)
        → m < 4 * r
        → v.concat_even
            (4 * r)
            (v.concat_even (4 * r) (u16_at 3) (u16_at 2))
            (v.concat_even (4 * r) (u16_at 1) (u16_at 0))
            m
          ≡ two_bytes m
    words =
        every_fourth r (u16_at 0) (u16_at 1) (u16_at 2) (u16_at 3) two_bytes
          (λ m h. low_u16 0 m h (omega arith) ∙ ap two_bytes (omega arith))
          (λ m h. low_u16 1 m h (omega arith) ∙ ap two_bytes (omega arith))
          (λ m h. low_u16 2 m h (omega arith) ∙ ap two_bytes (omega arith))
          (λ m h. low_u16 3 m h (omega arith) ∙ ap two_bytes (omega arith)) (4 * r) (omega arith)

    pub packed_byte-lt : (j : ℕ) → j < 8 * r → packed_byte g at j < 256
    unfolding packed_byte
    packed_byte-lt j lt =
        omega (arith, small (2 * j) (omega arith), small (2 * j + 1) (omega arith))

    choose_byte :
        (j w : ℕ)
        → j < 8 * r
        → w ≡ two_bytes (j / 2)
        → (if j % 2 == 0 then w % 256 else w / 256) ≡ packed_byte g at j
    choose_byte j w lt e =
        let p0 : packed_byte g at (2 * (j / 2)) < 256 =
          packed_byte-lt (2 * (j / 2)) (omega arith) in
        elim (Bool-cases (j % 2 == 0)) [
          | inl even ↦
              let here : 2 * (j / 2) ≡ j = ground arith in
              rw (even) (omega (arith, e, p0, ap (packed_byte g at) here))
          | inr odd ↦
              let here : 2 * (j / 2) + 1 ≡ j = ground arith in
              rw (odd) (omega (arith, e, p0, ap (packed_byte g at) here))
        ]

    -- OrderedPackU16 stores the nibbles in order, on either kind of target and for any length of
    -- the vectors.
    pub ordered_pack_u16-packed_byte :
        (cheap_concat : Bool) (j : ℕ)
        → j < 8 * r
        → ordered_pack_u16 v cheap_concat
            (4 * r)
            (λ i. g (at + 4 * r * 0 + i))
            (λ i. g (at + 4 * r * 1 + i))
            (λ i. g (at + 4 * r * 2 + i))
            (λ i. g (at + 4 * r * 3 + i))
            j
          ≡ packed_byte g at j
    unfolding ordered_pack_u16
    ordered_pack_u16-packed_byte true j lt =
        every_fourth (2 * r) _ _ _ _ (packed_byte g at)
          (λ m h. low_byte 0 m h (omega arith) ∙ ap (packed_byte g at) (omega arith))
          (λ m h. low_byte 1 m h (omega arith) ∙ ap (packed_byte g at) (omega arith))
          (λ m h. low_byte 2 m h (omega arith) ∙ ap (packed_byte g at) (omega arith))
          (λ m h. low_byte 3 m h (omega arith) ∙ ap (packed_byte g at) (omega arith)) (2 * (4 * r))
          (omega arith) j (omega arith)
    ordered_pack_u16-packed_byte false j lt =
        d.bytes_of_lem _ j ∙ choose_byte j _ lt (words (j / 2) (omega arith))

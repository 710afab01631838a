-- ===== src/Nuq/Nibbles/Unpack.antt =====
-- OrderedUnpackU16 of compression/nuq-inl.h on each kind of target.
use gemma_cpp.Base.{
  ℕ, ◌+◌, ◌-◌, ◌*◌, ◌/◌, ◌%◌, ◌≤◌, ◌<◌, ◌≡◌, ◌⊎◌, inl, inr, refl, bit_and, ltb, leb, ◌==◌,
  if◌then◌else◌, arith, ap, ap₂, ◌∙◌, Bool, true, false, Bool-cases, Returns, Returns-bind,
  all_below, all_below_sound, ==_iff,
}
use gemma_cpp.Base.Bits.{nibble-bit_and}
use gemma_cpp.Nuq.Nibbles.{Vectors, rep4_index, replicate4, ordered_unpack_u16}
use gemma_cpp.Nuq.Nibbles.Documented.{IsDocumented}

-- The nibble `i` of some bytes, the low half of a byte first.
abbrev pub nibble : (ℕ → ℕ) → ℕ → ℕ
nibble packed i = if i % 2 == 0 then packed (i / 2) % 16 else packed (i / 2) / 16

-- The vectors that a target of fixed vector length has, of `n` lanes.
pub record IsWidth (cheap_permute : Bool) (n : ℕ) : Type 0 where
  pub quarter : ℕ
  pub four : n ≡ 4 * quarter
  pub supported : (n ≤ 8) ⊎ ((cheap_permute ≡ true) ⊎ ((n ≡ 16) ⊎ (n ≡ 32)))

module _ (v : Vectors) (d : IsDocumented v) (debug : Bool) (packed : ℕ → ℕ) where
  Replicated : ℕ → (ℕ → ℕ) → Type 0
  Replicated n rep4 = (i : ℕ) → i < 2 * n → rep4 i ≡ packed (i / 4)

  -- A lane of the load of a quarter of a vector.
  loaded : (n i : ℕ) → i < 2 * n / 4 → v.load_resized packed (2 * n / 4) i ≡ packed i
  loaded n i lt = d.load_resized_lem packed (2 * n / 4) i lt

  from_bytes :
      (a : ℕ → ℕ) (i : ℕ)
      → i < 64
      → a (i / 16 * 16 + i / 4) ≡ packed (i / 4)
      → v.table_lookup_bytes a rep4_index i ≡ packed (i / 4)
  from_bytes a i lt e = d.table_lookup_bytes_lem a rep4_index i (omega arith) ∙ e

  broadcast :
      (a : ℕ → ℕ) (i : ℕ)
      → i < 32
      → v.concat_lower_lower (2 * 16) a a (i / 16 * 16 + i / 4) ≡ a (i / 4)
  broadcast a i lt =
      d.concat_lower_lower_lem (2 * 16) a a (i / 16 * 16 + i / 4)
      ∙ elim (Bool-cases (ltb (i / 16 * 16 + i / 4) 16)) [
        | inl e ↦ rw (e) (ap a (ground arith))
        | inr e ↦ rw (e) (ap a (ground arith))
      ]

  replicate4-Replicated :
      (cheap_permute : Bool) (n : ℕ)
      → IsWidth cheap_permute n
      → Returns (replicate4 v debug false cheap_permute n packed) (Replicated n)
  unfolding replicate4 Replicated
  replicate4-Replicated cheap_permute n w = elim (Bool-cases (leb n 8)) [
    | inl small ↦ rw (small) (
      _,
      refl,
      λ i lt. from_bytes (v.load_resized packed (2 * n / 4)) i (ground arith) (
          ap (v.load_resized packed (2 * n / 4)) (ground arith)
          ∙ loaded n (i / 4) (omega (arith, w.four))),
    )
    | inr large ↦ elim (Bool-cases cheap_permute) [
      | inl cheap ↦
          rw (large, cheap)
            (
              _,
              refl,
              λ i lt.
                  d.table_lookup_lanes_lem (v.load_resized packed (2 * n / 4)) rep4_index i
                  ∙ loaded n (i / 4) (omega (arith, w.four)),
            )
      | inr dear ↦ elim (Bool-cases (n == 16)) [
        | inl sixteen ↦
            let e : n ≡ 16 = (==_iff n 16).0 sixteen in
            rw (large, dear, sixteen) (_, refl, λ i lt. sixteen_lanes e i (omega (arith, e)))
        | inr other ↦ elim (Bool-cases (n == 32)) [
          | inl thirty_two ↦
              let e : n ≡ 32 = (==_iff n 32).0 thirty_two in
              rw (large, dear, other, thirty_two)
                (
                  _,
                  refl,
                  λ i lt. from_bytes (v.load_dup128 packed) i (omega (arith, e)) (
                      d.load_dup128_lem packed (i / 16 * 16 + i / 4)
                      ∙ ap packed (omega (arith, e))),
                )
          | inr none_left ↦ absurd (no_width w.supported large dear other none_left)
        ]
      ]
    ]
  ]
    where
      sixteen_lanes :
          n ≡ 16
          → (i : ℕ) → i < 32
          → v.table_lookup_bytes
              (v.concat_lower_lower
                (2 * n)
                (v.load_resized packed (2 * n / 4))
                (v.load_resized packed (2 * n / 4)))
              rep4_index
              i
            ≡ packed (i / 4)
      sixteen_lanes e i lt = rw (e) (
          from_bytes _ i (omega arith)
            (broadcast (v.load_resized packed (2 * 16 / 4)) i lt ∙ loaded 16 (i / 4) (omega arith)))

      no_width :
          (n ≤ 8) ⊎ ((cheap_permute ≡ true) ⊎ ((n ≡ 16) ⊎ (n ≡ 32)))
          → leb n 8 ≡ false
          → cheap_permute ≡ false
          → (n == 16) ≡ false
          → (n == 32) ≡ false
          → ⊥
      no_width (inl h) a b c e = ground arith
      no_width (inr (inl h)) a b c e = cc
      no_width (inr (inr (inl h))) a b c e = ground arith
      no_width (inr (inr (inr h))) a b c e = ground arith

  masked :
      (x : ℕ → ℕ) (i : ℕ)
      → v.and (v.set 0xF) (v.odd_even (v.shift_right_16 4 x) x) i
        ≡ (if i % 2 == 0 then x i % 16 else x i / 16 % 16)
  masked x i =
      rw
        (
          d.and_lem (v.set 0xF) (v.odd_even (v.shift_right_16 4 x) x) i,
          d.set_lem 0xF i,
          d.odd_even_lem (v.shift_right_16 4 x) x i,
          d.shift_right_16_lem 4 x i,
        )
        (elim (Bool-cases (i % 2 == 0)) [
          | inl e ↦ rw (e) (nibble-bit_and (x i))
          | inr e ↦ rw (e) (nibble-bit_and (x i / 16))
        ])

  -- A u16 lane from the two bytes that are copies of one.
  module _ (bytes : (j : ℕ) → packed j < 256) where
    unpacked :
        (n : ℕ) (rep4 : ℕ → ℕ)
        → Replicated n rep4
        → (i : ℕ) → i < n
        → v.and (v.set 0xF) (v.odd_even (v.shift_right_16 4 (v.u16_of rep4)) (v.u16_of rep4)) i
          ≡ nibble packed i
    unfolding Replicated
    unpacked n rep4 r i lt =
        let lane : v.u16_of rep4 i ≡ packed (i / 2) + 256 * packed (i / 2) =
          d.u16_of_lem rep4 i
          ∙ ap₂ (λ a b. a + 256 * b) (r (2 * i) (omega arith) ∙ ap packed (omega arith))
              (r (2 * i + 1) (omega arith) ∙ ap packed (omega arith)) in
        masked (v.u16_of rep4) i
        ∙ rw (lane) (elim (Bool-cases (i % 2 == 0)) [
          | inl e ↦ rw (e) (omega arith)
          | inr e ↦ rw (e) (omega (arith, bytes (i / 2)))
        ])

    -- On a target of fixed vector length the lanes are the nibbles in order.
    pub ordered_unpack_u16-nibble :
        (cheap_permute : Bool) (n : ℕ)
        → IsWidth cheap_permute n
        → Returns
            (ordered_unpack_u16 v debug false cheap_permute n packed)
            (λ u. (i : ℕ) → i < n → u i ≡ nibble packed i)
    unfolding ordered_unpack_u16
    ordered_unpack_u16-nibble cheap_permute n w =
        Returns-bind (replicate4-Replicated cheap_permute n w)
          λ rep4 r. (_, refl, unpacked n rep4 r)

  step_of_four : all_below 16 (λ j. bit_and j 0xFC == j - j % 4) ≡ true
  unfolding all_below
  step_of_four = refl

  lost :
      (j : ℕ)
      → 4 ≤ j
      → j < 16
      → v.table_lookup_bytes (v.load_n packed 4) (v.and (v.iota 0) (v.set 0xFC)) j ≡ 0
  lost j lo hi =
      let idx : ℕ → ℕ = v.and (v.iota 0) (v.set 0xFC) in
      let iota_j : v.iota 0 j ≡ j = d.iota_lem 0 j (omega arith) ∙ omega arith in
      let index : idx j ≡ j - j % 4 =
        d.and_lem (v.iota 0) (v.set 0xFC) j
        ∙ rw (iota_j, d.set_lem 0xFC j) ((==_iff _ _).0 (all_below_sound 16 _ j step_of_four hi)) in
      let far : ltb (j / 16 * 16 + (j - j % 4)) 4 ≡ false = ground arith in
      d.table_lookup_bytes_lem (v.load_n packed 4) idx j (omega (arith, index))
      ∙ rw (index, d.load_n_lem packed 4 (j / 16 * 16 + (j - j % 4)), far) refl

  -- On a target of scalable vectors of 128 bits, all lanes but the first two are zero, whatever the
  -- packed bytes are.
  pub ordered_unpack_u16-zero :
      (cheap_permute : Bool)
      → Returns
          (ordered_unpack_u16 v debug true cheap_permute 8 packed)
          (λ u. (i : ℕ) → 2 ≤ i → i < 8 → u i ≡ 0)
  unfolding ordered_unpack_u16 replicate4
  ordered_unpack_u16-zero cheap_permute = (
    _,
    refl,
    λ i lo hi.
        let source : ℕ → ℕ =
          v.table_lookup_bytes (v.load_n packed 4) (v.and (v.iota 0) (v.set 0xFC)) in
        let lane : v.u16_of source i ≡ 0 =
          d.u16_of_lem source i
          ∙ ap₂ (λ a b. a + 256 * b) (lost (2 * i) (omega arith) (omega arith))
              (lost (2 * i + 1) (omega arith) (omega arith)) in
        masked (v.u16_of source) i
        ∙ rw (lane) (elim (Bool-cases (i % 2 == 0)) [ inl e ↦ rw (e) refl | inr e ↦ rw (e) refl ]),
  )

-- ===== src/Sfp/Value.antt =====
-- The numbers that a bf16 and an SFP code stand for, as compression/sfp.h describes them, in units
-- of 2 ^ -134 and without the sign. This is the specification of the code, not part of it.
use gemma_cpp.Base.{
  ℕ, zero, suc, ◌+◌, ◌-◌, ◌*◌, ◌/◌, ◌%◌, ◌^◌, ◌≤◌, ◌<◌, ◌≡◌, refl, arith, ◌==◌, ltb, ltb→lt,
  all_below, all_below_sound, if◌then◌else◌, subst, ap, dec_lt, ◌≢◌, ◌⊎◌, inl, inr, ℕ_discrete,
}
use native.Mathlib.Numerals.{add-one}

-- The 15 bits below the sign of a bf16: 8 of exponent, 7 of mantissa. Exponent 0 is subnormal.
unfoldable pub bf16_value : ℕ → ℕ
bf16_value x = if x / 128 == 0 then x % 128 * 2 else (128 + x % 128) * 2 ^ (x / 128)

-- The 7 bits below the sign of a code. From 2 ^ -7 on there are 4 bits of exponent and 3 of
-- mantissa, below that 4 and 2; the maximal exponent is 2 ^ 0, and the code 0 is zero.
unfoldable pub code_value : ℕ → ℕ
code_value c =
    if c == 0
    then 0
    else if ltb c 64
    then (4 + c % 4) * 2 ^ (c / 4 + 134 - 23 - 2)
    else (8 + c % 8) * 2 ^ (c / 8 - 8 + 134 - 7 - 3)

abbrev pub dist : ℕ → ℕ → ℕ
dist a b = (a - b) + (b - a)

-- No code stands for a number that is nearer to `v`.
abbrev pub IsNearest : ℕ → ℕ → Type 0
IsNearest v c = (c' : ℕ) → c' < 128 → dist v (code_value c) ≤ dist v (code_value c')

code_value_step : (c : ℕ) → c < 128 → code_value c < code_value (c + 1)
unfolding code_value all_below
code_value_step c h =
    ltb→lt _ _ (all_below_sound 128 (λ c. ltb (code_value c) (code_value (c + 1))) c refl h)

pub code_value_mono : (c e : ℕ) → c ≤ e → e ≤ 128 → code_value c ≤ code_value e
code_value_mono zero zero h k = omega arith
code_value_mono (suc c) zero h k = absurd (omega arith)
code_value_mono c (suc e) h k = elim (dec_lt c (suc e)) [
  | yes lt ↦ rw (← add-one) (
      omega
        (arith, code_value_mono c e (omega arith) (omega arith), code_value_step e (omega arith)))
  | no ge ↦ omega (arith, ap code_value (eq c (suc e) h ge))
]
  where
    eq : (a b : ℕ) → a ≤ b → ¬ (a < b) → a ≡ b
    eq a b p q = omega arith

-- Against all codes it is enough to look at the two neighbours.
pub IsNearest-of_neighbours :
    (v c : ℕ)
    → c < 128
    → dist v (code_value c) ≤ dist v (code_value (c - 1))
    → dist v (code_value c) ≤ dist v (code_value (c + 1))
    → IsNearest v c
IsNearest-of_neighbours v c hc lo hi c' h = elim (dec_lt c' c) [
  | yes below ↦ omega (arith, below_step, code_value_mono c' (c - 1) (omega arith) (omega arith))
  | no above ↦ elim (dec_lt c c') [
    | yes over ↦
        omega (arith, code_value_step c hc, code_value_mono (c + 1) c' (omega arith) (omega arith))
    | no same ↦ omega (arith, ap code_value (equal above same))
  ]
]
  where
    below_step : 0 < c → code_value (c - 1) < code_value c
    below_step p =
        subst (λ n. code_value (c - 1) < code_value n) (omega arith)
          (code_value_step (c - 1) (omega arith))

    equal : ¬ (c' < c) → ¬ (c < c') → c ≡ c'
    equal p q = omega arith

code_value_strict : (c e : ℕ) → c < e → e ≤ 128 → code_value c < code_value e
code_value_strict c e h k =
    omega (arith, code_value_step c (omega arith), code_value_mono (c + 1) e (omega arith) k)

-- Only a neighbour can be as near.
pub tie_is_neighbour :
    (v c : ℕ)
    → 0 < c
    → c < 128
    → dist v (code_value c) ≤ dist v (code_value (c - 1))
    → dist v (code_value c) ≤ dist v (code_value (c + 1))
    → (c' : ℕ) → c' < 128
    → c' ≢ c
    → dist v (code_value c') ≡ dist v (code_value c)
    → (c' ≡ c - 1) ⊎ (c' ≡ c + 1)
tie_is_neighbour v c pos hc lo hi c' h ne e = elim (dec_lt c' c) [
  | yes below ↦ elim (ℕ_discrete c' (c - 1)) [
    | yes near ↦ inl near
    | no far ↦ absurd (
        omega (
          arith,
          code_value_strict c' (c - 1) (omega arith) (omega arith),
          code_value_strict (c - 1) c (omega arith) (omega arith),
        ))
  ]
  | no above ↦ elim (ℕ_discrete c' (c + 1)) [
    | yes near ↦ inr near
    | no far ↦ absurd (
        omega (
          arith,
          code_value_strict (c + 1) c' (omega arith) (omega arith),
          code_value_strict c (c + 1) (omega arith) (omega arith),
        ))
  ]
]

-- ===== src/Base/Bits.antt =====
-- The bit operations of the native numbers at variables: the step to the next digit, and masks.
use Prim.Native.Nat.{
  ℕ, zero, suc, ◌+◌, ◌*◌, ◌/◌, ◌%◌, ◌≤◌, ◌<◌, min, max, bit_and, bit_or, bit_xor, digits, bitwise,
  differ, bit_and-bitwise, bit_or-bitwise, bit_xor-bitwise,
}
use mathlib.Core.Path.{◌≡◌, refl, sym, ap, ◌∙◌}
use native.Mathlib.Omega.{arith}

-- An operation on digits, for which `z` is what remains once the first number has run out.
module _ (z : ℕ → ℕ) (f : ℕ → ℕ → ℕ) where
  enough_digits : (n m a b : ℕ) → a ≤ n → a ≤ m → digits z f n a b ≡ digits z f m a b
  enough_digits zero zero a b p q = refl
  enough_digits zero (suc m) zero b p q = refl
  enough_digits (suc n) zero zero b p q = refl
  enough_digits (suc n) (suc m) zero b p q = refl
  enough_digits zero m (suc a) b p q = absurd (omega arith)
  enough_digits (suc n) zero (suc a) b p q = absurd (omega arith)
  enough_digits (suc n) (suc m) (suc a) b p q =
      ap (λ r. r * 2 + f (suc a % 2) (b % 2))
        (enough_digits n m (suc a / 2) (b / 2) (omega arith) (omega arith))

  bitwise_step :
      ((b : ℕ) → z b ≡ z (b / 2) * 2 + f 0 (b % 2))
      → (a b : ℕ) → bitwise z f a b ≡ bitwise z f (a / 2) (b / 2) * 2 + f (a % 2) (b % 2)
  bitwise_step rest zero b = rest b
  bitwise_step rest (suc a) b =
      ap (λ r. r * 2 + f (suc a % 2) (b % 2))
        (enough_digits a (suc a / 2) (suc a / 2) (b / 2) (omega arith) (omega arith))

pub bit_and_step : (a b : ℕ) → bit_and a b ≡ bit_and (a / 2) (b / 2) * 2 + min (a % 2) (b % 2)
bit_and_step a b = omega (
  arith,
  bit_and-bitwise a b,
  bit_and-bitwise (a / 2) (b / 2),
  bitwise_step (λ b. zero) min (λ b. omega arith) a b,
)

pub bit_or_step : (a b : ℕ) → bit_or a b ≡ bit_or (a / 2) (b / 2) * 2 + max (a % 2) (b % 2)
bit_or_step a b = omega (
  arith,
  bit_or-bitwise a b,
  bit_or-bitwise (a / 2) (b / 2),
  bitwise_step (λ b. b) max (λ b. omega arith) a b,
)

pub bit_xor_step : (a b : ℕ) → bit_xor a b ≡ bit_xor (a / 2) (b / 2) * 2 + differ (a % 2) (b % 2)
bit_xor_step a b = omega (
  arith,
  bit_xor-bitwise a b,
  bit_xor-bitwise (a / 2) (b / 2),
  bitwise_step (λ b. b) differ (λ b. omega arith) a b,
)

-- A proof that halves both numbers, on enough steps for the first.
halves :
    (P : ℕ → ℕ → Type 0)
    → ((b : ℕ) → P 0 b)
    → ((a b : ℕ) → P (a / 2) (b / 2) → P a b)
    → (n a b : ℕ) → a ≤ n
    → P a b
halves P none step n zero b h = none b
halves P none step zero (suc a) b h = absurd (omega arith)
halves P none step (suc n) (suc a) b h =
    step (suc a) b (halves P none step n (suc a / 2) (b / 2) (omega arith))

pub bit_or-zero : (a : ℕ) → bit_or a 0 ≡ a
bit_or-zero a =
    halves (λ a b. bit_or a 0 ≡ a) (λ b. refl) (λ a b h. omega (arith, bit_or_step a 0)) a a 0
      (omega arith)

differ-zero : (a : ℕ) → differ a 0 ≡ a
differ-zero zero = refl
differ-zero (suc a) = refl

pub bit_xor-zero : (a : ℕ) → bit_xor a 0 ≡ a
bit_xor-zero a =
    halves (λ a b. bit_xor a 0 ≡ a) (λ b. refl)
      (λ a b h. omega (arith, bit_xor_step a 0, differ-zero (a % 2))) a a 0 (omega arith)

pub zero-bit_and : (b : ℕ) → bit_and 0 b ≡ 0
zero-bit_and b = bit_and-bitwise 0 b

pub bit_and-half : (a m : ℕ) → bit_and a m / 2 ≡ bit_and (a / 2) (m / 2)
bit_and-half a m = omega (arith, bit_and_step a m)

pub bit_and-zero : (a : ℕ) → bit_and a 0 ≡ 0
bit_and-zero a =
    halves (λ a b. bit_and a 0 ≡ 0) (λ b. refl) (λ a b h. omega (arith, bit_and_step a 0)) a a 0
      (omega arith)

-- Clearing bits twice is clearing them once.
pub bit_and_again : (a m : ℕ) → bit_and (bit_and a m) m ≡ bit_and a m
bit_and_again a m =
    halves (λ a m. bit_and (bit_and a m) m ≡ bit_and a m)
      (λ b. rw (zero-bit_and b, zero-bit_and b) refl) step a a m (omega arith)
  where
    step :
        (a m : ℕ)
        → bit_and (bit_and (a / 2) (m / 2)) (m / 2) ≡ bit_and (a / 2) (m / 2)
        → bit_and (bit_and a m) m ≡ bit_and a m
    step a m h =
        let again : bit_and (bit_and a m / 2) (m / 2) ≡ bit_and (a / 2) (m / 2) =
          rw (bit_and-half a m) h in
        omega (arith, bit_and_step (bit_and a m) m, bit_and_step a m, again)

-- The low eight bits.
pub bit_and_even : (a b : ℕ) → bit_and a (b * 2) ≡ bit_and (a / 2) b * 2
bit_and_even a b =
    let half : b * 2 / 2 ≡ b = omega arith in
    omega (arith, bit_and_step a (b * 2), ap (bit_and (a / 2)) half)

-- A number moved up and down by some bits, its low bits, and the mask of these.
abbrev up : ℕ → ℕ → ℕ
up zero a = a
up (suc k) a = up k a * 2

abbrev down : ℕ → ℕ → ℕ
down zero a = a
down (suc k) a = down k (a / 2)

abbrev low : ℕ → ℕ → ℕ
low zero a = 0
low (suc k) a = low k (a / 2) * 2 + a % 2

abbrev ones : ℕ → ℕ
ones zero = 0
ones (suc k) = ones k * 2 + 1

bit_or-up : (k a i : ℕ) → i < up k 1 → bit_or (up k a) i ≡ up k a + i
bit_or-up zero a zero h = omega (arith, bit_or-zero a)
bit_or-up zero a (suc i) h = absurd (omega arith)
bit_or-up (suc k) a i h =
    let half : up k a * 2 / 2 ≡ up k a = omega arith in
    omega (
      arith,
      bit_or_step (up k a * 2) i,
      ap (λ x. bit_or x (i / 2)) half,
      bit_or-up k a (i / 2) (omega arith),
    )

bit_and-up : (k a m : ℕ) → bit_and a (up k m) ≡ up k (bit_and (down k a) m)
bit_and-up zero a m = refl
bit_and-up (suc k) a m = bit_and_even a (up k m) ∙ ap (λ x. x * 2) (bit_and-up k (a / 2) m)

bit_and-ones : (k a : ℕ) → bit_and a (ones k) ≡ low k a
bit_and-ones zero a = bit_and-zero a
bit_and-ones (suc k) a =
    let half : (ones k * 2 + 1) / 2 ≡ ones k = omega arith in
    omega
      (arith, bit_and_step a (ones k * 2 + 1), ap (bit_and (a / 2)) half, bit_and-ones k (a / 2))

pub bit_or_byte : (a i : ℕ) → i < 256 → bit_or (a * 256) i ≡ a * 256 + i
bit_or_byte a i h =
    let e : up 8 a ≡ a * 256 = omega arith in
    ap (λ x. bit_or x i) (sym e) ∙ bit_or-up 8 a i (omega arith) ∙ ap (λ x. x + i) e

pub bit_and_byte : (a : ℕ) → bit_and a 255 ≡ a % 256
bit_and_byte a = omega (arith, bit_and-ones 8 a)

bit_xor-up : (k a i : ℕ) → i < up k 1 → bit_xor i (up k a) ≡ i + up k a
bit_xor-up zero a zero h = omega (arith, bit_xor-bitwise 0 a)
bit_xor-up zero a (suc i) h = absurd (omega arith)
bit_xor-up (suc k) a i h =
    let half : up k a * 2 / 2 ≡ up k a = omega arith in
    let even : up k a * 2 % 2 ≡ 0 = omega arith in
    omega (
      arith,
      bit_xor_step i (up k a * 2),
      ap (bit_xor (i / 2)) half,
      ap (differ (i % 2)) even,
      differ-zero (i % 2),
      bit_xor-up k a (i / 2) (omega arith),
    )

-- Numbers whose digits do not meet are joined by an exclusive or.
pub bit_xor_nibble : (i a : ℕ) → i < 16 → bit_xor i (a * 16) ≡ i + a * 16
bit_xor_nibble i a h =
    let e : up 4 a ≡ a * 16 = omega arith in
    ap (bit_xor i) (sym e) ∙ bit_xor-up 4 a i (omega arith) ∙ ap (λ x. i + x) e

pub bit_xor_byte : (i a : ℕ) → i < 256 → bit_xor i (a * 256) ≡ i + a * 256
bit_xor_byte i a h =
    let e : up 8 a ≡ a * 256 = omega arith in
    ap (bit_xor i) (sym e) ∙ bit_xor-up 8 a i (omega arith) ∙ ap (λ x. i + x) e

pub bit_and_nibble : (a : ℕ) → bit_and a 15 ≡ a % 16
bit_and_nibble a = omega (arith, bit_and-ones 4 a)

-- A mask that keeps all but the low eight bits.
pub bit_and_high : (a m : ℕ) → bit_and a (m * 256) ≡ bit_and (a / 256) m * 256
bit_and_high a m =
    let e : up 8 m ≡ m * 256 = omega arith in
    let d : down 8 a ≡ a / 256 = omega arith in
    let moved : up 8 (bit_and (down 8 a) m) ≡ bit_and (a / 256) m * 256 =
      omega (arith, ap (λ x. bit_and x m) d) in
    ap (bit_and a) (sym e) ∙ bit_and-up 8 a m ∙ moved

pub bit_and-le : (a m : ℕ) → bit_and a m ≤ m
bit_and-le a m =
    halves (λ a m. bit_and a m ≤ m) (λ b. rw (zero-bit_and b) (omega arith))
      (λ a m h. omega (arith, bit_and_step a m)) a a m (omega arith)

pub nibble-bit_and : (a : ℕ) → bit_and 15 a ≡ a % 16
nibble-bit_and a = omega (
  arith,
  bit_and_step 15 a,
  bit_and_step 7 (a / 2),
  bit_and_step 3 (a / 2 / 2),
  bit_and_step 1 (a / 2 / 2 / 2),
  zero-bit_and (a / 2 / 2 / 2 / 2),
)

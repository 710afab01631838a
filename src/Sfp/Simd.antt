-- ===== src/Sfp/Simd.antt =====
-- The operations of the Highway library (hwy/highway.h) that the SFP code applies to vectors of
-- uint8_t, as one lane of each. Highway is not part of the repository, so the operations are a
-- parameter, and `IsDocumented` states what its reference manual says of each of them.
use gemma_cpp.Base.{
  ℕ, Bool, ◌+◌, ◌-◌, ◌*◌, ◌/◌, ◌%◌, ◌^◌, ◌≡◌, refl, bit_and, bit_or, ltb, ◌==◌, not, ◌&&◌, ◌||◌,
  if◌then◌else◌, max,
}

pub record Lanes : Type 0 where
  pub add : ℕ → ℕ → ℕ
  pub or : ℕ → ℕ → ℕ
  pub and : ℕ → ℕ → ℕ
  pub and_not : ℕ → ℕ → ℕ
  pub shift_left : ℕ → ℕ → ℕ
  pub shift_right : ℕ → ℕ → ℕ
  pub lt : ℕ → ℕ → Bool
  pub gt_i8 : ℕ → ℕ → Bool
  pub eq : ℕ → ℕ → Bool
  pub ne : ℕ → ℕ → Bool
  pub mask_or : Bool → Bool → Bool
  pub mask_and : Bool → Bool → Bool
  pub if_then_else : Bool → ℕ → ℕ → ℕ
  pub if_then_zero_else : Bool → ℕ → ℕ
  pub masked_add_or : ℕ → Bool → ℕ → ℕ → ℕ
  pub masked_max_or : ℕ → Bool → ℕ → ℕ → ℕ
  pub bitwise_if_then_else : ℕ → ℕ → ℕ → ℕ

-- The documented operations on a lane of eight bits. int8_t lanes are compared with the sign bit
-- flipped.
abbrev pub byte_lanes : Lanes
byte_lanes = record {
  add = λ a b. (a + b) % 256;
  or = bit_or;
  and = bit_and;
  and_not = λ a b. bit_and (255 - a) b;
  shift_left = λ k a. a * 2 ^ k % 256;
  shift_right = λ k a. a / 2 ^ k;
  lt = ltb;
  gt_i8 = λ a b. ltb ((b + 128) % 256) ((a + 128) % 256);
  eq = λ a b. a == b;
  ne = λ a b. not (a == b);
  mask_or = λ a b. a || b;
  mask_and = λ a b. a && b;
  if_then_else = λ m a b. if m then a else b;
  if_then_zero_else = λ m a. if m then 0 else a;
  masked_add_or = λ n m a b. if m then (a + b) % 256 else n;
  masked_max_or = λ n m a b. if m then max a b else n;
  bitwise_if_then_else = λ m a b. bit_or (bit_and m a) (bit_and (255 - m) b);
}

-- What the manual says of each operation, on lanes that are written as numbers.
pub record IsDocumented (h : Lanes) : Type 0 where
  pub add_lem : (a b : ℕ) → h.add a b ≡ (a + b) % 256
  pub or_lem : (a b : ℕ) → h.or a b ≡ bit_or a b
  pub and_lem : (a b : ℕ) → h.and a b ≡ bit_and a b
  pub and_not_lem : (a b : ℕ) → h.and_not a b ≡ bit_and (255 - a) b
  pub shift_left_lem : (k a : ℕ) → h.shift_left k a ≡ a * 2 ^ k % 256
  pub shift_right_lem : (k a : ℕ) → h.shift_right k a ≡ a / 2 ^ k
  pub lt_lem : (a b : ℕ) → h.lt a b ≡ ltb a b
  pub gt_i8_lem : (a b : ℕ) → h.gt_i8 a b ≡ ltb ((b + 128) % 256) ((a + 128) % 256)
  pub eq_lem : (a b : ℕ) → h.eq a b ≡ a == b
  pub ne_lem : (a b : ℕ) → h.ne a b ≡ not (a == b)
  pub mask_or_lem : (a b : Bool) → h.mask_or a b ≡ a || b
  pub mask_and_lem : (a b : Bool) → h.mask_and a b ≡ a && b
  pub if_then_else_lem : (m : Bool) (a b : ℕ) → h.if_then_else m a b ≡ (if m then a else b)
  pub if_then_zero_else_lem : (m : Bool) (a : ℕ) → h.if_then_zero_else m a ≡ (if m then 0 else a)
  pub masked_add_or_lem :
      (n : ℕ) (m : Bool) (a b : ℕ) → h.masked_add_or n m a b ≡ (if m then (a + b) % 256 else n)
  pub masked_max_or_lem :
      (n : ℕ) (m : Bool) (a b : ℕ) → h.masked_max_or n m a b ≡ (if m then max a b else n)
  pub bitwise_if_then_else_lem :
      (m a b : ℕ) → h.bitwise_if_then_else m a b ≡ bit_or (bit_and m a) (bit_and (255 - m) b)

-- The manual leaves no choice, so a proof about the documented operations serves for all.
pub lanes-eq : (h : Lanes) → IsDocumented h → h ≡ byte_lanes
lanes-eq h d = λ i. record {
  add = λ a b. d.add_lem a b i;
  or = λ a b. d.or_lem a b i;
  and = λ a b. d.and_lem a b i;
  and_not = λ a b. d.and_not_lem a b i;
  shift_left = λ k a. d.shift_left_lem k a i;
  shift_right = λ k a. d.shift_right_lem k a i;
  lt = λ a b. d.lt_lem a b i;
  gt_i8 = λ a b. d.gt_i8_lem a b i;
  eq = λ a b. d.eq_lem a b i;
  ne = λ a b. d.ne_lem a b i;
  mask_or = λ a b. d.mask_or_lem a b i;
  mask_and = λ a b. d.mask_and_lem a b i;
  if_then_else = λ m a b. d.if_then_else_lem m a b i;
  if_then_zero_else = λ m a. d.if_then_zero_else_lem m a i;
  masked_add_or = λ n m a b. d.masked_add_or_lem n m a b i;
  masked_max_or = λ n m a b. d.masked_max_or_lem n m a b i;
  bitwise_if_then_else = λ m a b. d.bitwise_if_then_else_lem m a b i;
}

pub byte_lanes-IsDocumented : IsDocumented byte_lanes
byte_lanes-IsDocumented = record {
  add_lem = λ a b. refl;
  or_lem = λ a b. refl;
  and_lem = λ a b. refl;
  and_not_lem = λ a b. refl;
  shift_left_lem = λ k a. refl;
  shift_right_lem = λ k a. refl;
  lt_lem = λ a b. refl;
  gt_i8_lem = λ a b. refl;
  eq_lem = λ a b. refl;
  ne_lem = λ a b. refl;
  mask_or_lem = λ a b. refl;
  mask_and_lem = λ a b. refl;
  if_then_else_lem = λ m a b. refl;
  if_then_zero_else_lem = λ m a. refl;
  masked_add_or_lem = λ n m a b. refl;
  masked_max_or_lem = λ n m a b. refl;
  bitwise_if_then_else_lem = λ m a b. refl;
}

-- ===== src/Base/Int.antt =====
-- Signed integers, and their conversion to size_t.
use Prim.Native.Nat.{ℕ, ◌-◌, ◌^◌}

-- `negsuc n` is -(n + 1).
pub data ℤ : Type 0 where
  pos : ℕ → ℤ
  negsuc : ℕ → ℤ

-- static_cast<size_t> of an int.
abbrev pub to_u64 : ℤ → ℕ
to_u64 (pos n) = n
to_u64 (negsuc n) = 2 ^ 64 - 1 - n

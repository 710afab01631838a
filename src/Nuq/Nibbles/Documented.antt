-- ===== src/Nuq/Nibbles/Documented.antt =====
-- What the manual of Highway says of the vector operations that NibbleCodec of compression/nuq-inl.h
-- calls. u16 lanes are numbers below 2 ^ 16, and lanes of 32 and 64 bits are made of two and four
-- of them, the lowest first.
use gemma_cpp.Base.{
  true, false, ℕ, ◌+◌, ◌-◌, ◌*◌, ◌/◌, ◌%◌, ◌^◌, ◌<◌, ◌≡◌, refl, bit_and, ltb, ◌==◌, if◌then◌else◌,
  lt→ltb, arith,
}
use Prim.Native.Nat.{bit_xor}
use gemma_cpp.Nuq.Nibbles.{Vectors}

pub record IsDocumented (v : Vectors) : Type 0 where
  pub xor_lem : (a b : ℕ → ℕ) (i : ℕ) → v.xor a b i ≡ bit_xor (a i) (b i)
  pub and_lem : (a b : ℕ → ℕ) (i : ℕ) → v.and a b i ≡ bit_and (a i) (b i)
  pub set_lem : (x i : ℕ) → v.set x i ≡ x
  pub iota_lem : (first i : ℕ) → first + i < 256 → v.iota first i ≡ first + i
  pub shift_right_16_lem : (k : ℕ) (a : ℕ → ℕ) (i : ℕ) → v.shift_right_16 k a i ≡ a i / 2 ^ k
  -- the lower and the upper half of a lane of 32 bits
  pub shift_right_32_low :
      (k : ℕ) (a : ℕ → ℕ) (i : ℕ)
      → v.shift_right_32 k a (2 * i) ≡ (a (2 * i) + 2 ^ 16 * a (2 * i + 1)) / 2 ^ k % 2 ^ 16
  pub shift_right_32_high :
      (k : ℕ) (a : ℕ → ℕ) (i : ℕ)
      → v.shift_right_32 k a (2 * i + 1)
        ≡ (a (2 * i) + 2 ^ 16 * a (2 * i + 1)) / 2 ^ k / 2 ^ 16 % 2 ^ 16
  pub shift_right_64_low :
      (k : ℕ) (a : ℕ → ℕ) (i : ℕ)
      → v.shift_right_64 k a (4 * i)
        ≡ (a (4 * i) + 2 ^ 16 * a (4 * i + 1) + 2 ^ 32 * a (4 * i + 2) + 2 ^ 48 * a (4 * i + 3))
          / 2 ^ k
          % 2 ^ 16
  pub bytes_of_lem :
      (a : ℕ → ℕ) (i : ℕ)
      → v.bytes_of a i ≡ (if i % 2 == 0 then a (i / 2) % 256 else a (i / 2) / 256)
  pub u16_of_lem : (a : ℕ → ℕ) (i : ℕ) → v.u16_of a i ≡ a (2 * i) + 256 * a (2 * i + 1)
  pub odd_even_lem : (a b : ℕ → ℕ) (i : ℕ) → v.odd_even a b i ≡ (if i % 2 == 0 then b i else a i)
  pub concat_even_lem :
      (n : ℕ) (hi lo : ℕ → ℕ) (i : ℕ)
      → v.concat_even n hi lo i ≡ (if ltb i (n / 2) then lo (2 * i) else hi (2 * (i - n / 2)))
  pub concat_lower_lower_lem :
      (n : ℕ) (hi lo : ℕ → ℕ) (i : ℕ)
      → v.concat_lower_lower n hi lo i ≡ (if ltb i (n / 2) then lo i else hi (i - n / 2))
  pub load_n_lem :
      (from : ℕ → ℕ) (count i : ℕ) → v.load_n from count i ≡ (if ltb i count then from i else 0)
  pub load_resized_lem :
      (from : ℕ → ℕ) (count i : ℕ) → i < count → v.load_resized from count i ≡ from i
  pub load_dup128_lem : (from : ℕ → ℕ) (i : ℕ) → v.load_dup128 from i ≡ from (i % 16)
  -- within the block of 16 bytes
  pub table_lookup_bytes_lem :
      (a idx : ℕ → ℕ) (i : ℕ) → idx i < 16 → v.table_lookup_bytes a idx i ≡ a (i / 16 * 16 + idx i)
  pub table_lookup_lanes_lem : (a idx : ℕ → ℕ) (i : ℕ) → v.table_lookup_lanes a idx i ≡ a (idx i)
  pub two_tables_lookup_lanes_lem :
      (n : ℕ) (a b idx : ℕ → ℕ) (i : ℕ)
      → v.two_tables_lookup_lanes n a b idx i ≡ (if ltb (idx i) n then a (idx i) else b (idx i - n))

-- The operations as the manual describes them, with 0 where it leaves a lane open.
abbrev pub vectors : Vectors
vectors = record {
  xor = λ a b i. bit_xor (a i) (b i);
  and = λ a b i. bit_and (a i) (b i);
  set = λ x i. x;
  iota = λ first i. (first + i) % 256;
  shift_right_16 = λ k a i. a i / 2 ^ k;
  shift_right_32 = λ k a i.
      if i % 2 == 0
      then (a i + 2 ^ 16 * a (i + 1)) / 2 ^ k % 2 ^ 16
      else (a (i - 1) + 2 ^ 16 * a i) / 2 ^ k / 2 ^ 16 % 2 ^ 16;
  shift_right_64 = λ k a i.
      (a i + 2 ^ 16 * a (i + 1) + 2 ^ 32 * a (i + 2) + 2 ^ 48 * a (i + 3)) / 2 ^ k % 2 ^ 16;
  bytes_of = λ a i. if i % 2 == 0 then a (i / 2) % 256 else a (i / 2) / 256;
  u16_of = λ a i. a (2 * i) + 256 * a (2 * i + 1);
  odd_even = λ a b i. if i % 2 == 0 then b i else a i;
  concat_even = λ n hi lo i. if ltb i (n / 2) then lo (2 * i) else hi (2 * (i - n / 2));
  concat_lower_lower = λ n hi lo i. if ltb i (n / 2) then lo i else hi (i - n / 2);
  load_n = λ from count i. if ltb i count then from i else 0;
  load_resized = λ from count i. if ltb i count then from i else 0;
  load_dup128 = λ from i. from (i % 16);
  uninitialised = λ i. 0;
  table_lookup_bytes = λ a idx i. a (i / 16 * 16 + idx i);
  table_lookup_lanes = λ a idx i. a (idx i);
  two_tables_lookup_lanes = λ n a b idx i. if ltb (idx i) n then a (idx i) else b (idx i - n);
}

pub vectors-IsDocumented : IsDocumented vectors
vectors-IsDocumented = record {
  xor_lem = λ a b i. refl;
  and_lem = λ a b i. refl;
  set_lem = λ x i. refl;
  iota_lem = λ first i h. omega arith;
  shift_right_16_lem = λ k a i. refl;
  shift_right_32_low = λ k a i. rw (even i) refl;
  shift_right_32_high = λ k a i. rw (odd i, before i) refl;
  shift_right_64_low = λ k a i. refl;
  bytes_of_lem = λ a i. refl;
  u16_of_lem = λ a i. refl;
  odd_even_lem = λ a b i. refl;
  concat_even_lem = λ n hi lo i. refl;
  concat_lower_lower_lem = λ n hi lo i. refl;
  load_n_lem = λ from count i. refl;
  load_resized_lem = λ from count i h. rw (lt→ltb i count h) refl;
  load_dup128_lem = λ from i. refl;
  table_lookup_bytes_lem = λ a idx i h. refl;
  table_lookup_lanes_lem = λ a idx i. refl;
  two_tables_lookup_lanes_lem = λ n a b idx i. refl;
}
  where
    even : (i : ℕ) → ((2 * i % 2) == 0) ≡ true
    even i = ground arith

    odd : (i : ℕ) → (((2 * i + 1) % 2) == 0) ≡ false
    odd i = ground arith

    before : (i : ℕ) → 2 * i + 1 - 1 ≡ 2 * i
    before i = omega arith

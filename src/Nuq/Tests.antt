-- ===== src/Nuq/Tests.antt =====
-- The theorems on NUQ at concrete inputs. Floats are numbers below a greatest one, in place of f32.
use gemma_cpp.Base.{
  ℕ, ◌+◌, ◌-◌, ◌*◌, ◌/◌, ◌%◌, ◌^◌, ◌≤◌, ◌<◌, ◌≡◌, refl, min, true, false, ltb, leb, arith, ℤ, pos,
  negsuc, Returns, ok, inl, inr,
}
use gemma_cpp.Sfp.{dec_bytes, signed_gt, signed_lt}
use gemma_cpp.Sfp.Simd.{byte_lanes, byte_lanes-IsDocumented}
use gemma_cpp.Sfp.Stream.Plain.{wide, wide-IsWide}
use gemma_cpp.Sfp.Stream.Loops.{Filled}
use gemma_cpp.Nuq.Stream.{Target, num_tables, nuq_dec_f32}
use gemma_cpp.Nuq.Stream.Table.{IsTarget}
use gemma_cpp.Nuq.Stream.Decoded.{center_at, nuq_dec_f32-Filled}
use gemma_cpp.Nuq.Payload.{Floats, IsBitCast, set, Payload, set-Payload}
use gemma_cpp.Nuq.Search.{fill_rows, lane_cost}
use gemma_cpp.Nuq.Search.Entry.{IsOrdered, IsBounded}
use gemma_cpp.Nuq.Search.Optimal.{IsLanes, AllCheapest, fill_rows-Cheapest}
use gemma_cpp.Nuq.Cluster.{cluster_exact_l2}
use gemma_cpp.Nuq.Cluster.Group.{IsSort, Grouped, Outcome, cluster_exact_l2-Grouped}
use gemma_cpp.Nuq.Nibbles.{ordered_pack_u16, ordered_unpack_u16}
use gemma_cpp.Nuq.Nibbles.Documented.{vectors, vectors-IsDocumented}
use gemma_cpp.Nuq.Nibbles.Order.{packed_byte, ordered_pack_u16-packed_byte}
use gemma_cpp.Nuq.Nibbles.Unpack.{
  nibble, IsWidth, ordered_unpack_u16-nibble, ordered_unpack_u16-zero,
}

abbrev to_number : ℤ → ℕ
to_number (pos n) = n
to_number (negsuc n) = 0

abbrev numbers : Floats ℕ
numbers = record {
  binary32 = λ x. x % 2 ^ 32;
  of_binary32 = λ b. b;
  of_int = to_number;
  max_cost = 1000000;
  add = ◌+◌;
  sub = ◌-◌;
  mul = ◌*◌;
  div = ◌/◌;
  mul_add = λ a b c. a * b + c;
  neg_mul_add = λ a b c. min (c - a * b) 1000000;
  lt = ltb;
  ge = λ a b. leb b a;
}

numbers-IsBitCast : IsBitCast numbers
numbers-IsBitCast = record {
  bits_below = λ x. omega arith;
  binary32-of_binary32 = λ b lt. omega arith;
}

numbers-IsOrdered : IsOrdered numbers
numbers-IsOrdered = record {
  irreflexive = λ a. ground arith;
  asymmetric = λ a b e. ground arith;
  le_trans = λ a b c e e'. ground arith;
  add_mono = λ a b c e. ground arith;
}

numbers-IsBounded : (sorted : ℕ → ℕ) → IsBounded numbers sorted
unfolding lane_cost
numbers-IsBounded sorted m = ground arith

eight-IsLanes : IsLanes 8
eight-IsLanes = record { some_lane = omega arith; batches = 32; fill = refl }

same-IsSort : IsSort {F = ℕ} (λ xs. xs)
same-IsSort = record {
  origin = λ xs p. p;
  rank = λ xs i. i;
  origin_below = λ xs p lt. lt;
  rank_below = λ xs i lt. lt;
  moved = λ xs p lt. refl;
  origin-rank = λ xs i lt. refl;
  rank-origin = λ xs p lt. refl;
}

abbrev ramp : ℕ → ℕ
ramp i = i * 1000

fill_rows-Cheapest_example :
    Returns (fill_rows numbers true 8 ramp 15) (λ rows. AllCheapest numbers ramp rows 15)
fill_rows-Cheapest_example =
    fill_rows-Cheapest numbers true 8 ramp eight-IsLanes numbers-IsOrdered (numbers-IsBounded ramp)
      15

cluster_exact_l2-Grouped_example :
    Outcome numbers numbers-IsBitCast true
      (Grouped numbers numbers-IsBitCast true (λ xs. xs) same-IsSort ramp)
      (cluster_exact_l2 numbers true 8 (λ xs. xs) (λ i. 0) ramp (λ c. 0) (λ i. 0))
cluster_exact_l2-Grouped_example =
    cluster_exact_l2-Grouped numbers numbers-IsBitCast true 8 (λ xs. xs) same-IsSort (λ i. 0) ramp
      (λ c. 0) (λ i. 0) eight-IsLanes numbers-IsOrdered (λ xs m. numbers-IsBounded xs)

set-Payload_example : Returns (set numbers true 1000 7) (Payload numbers numbers-IsBitCast 1000 7)
set-Payload_example = set-Payload numbers numbers-IsBitCast true 1000 7 (omega arith)

-- Nibbles in sixteen lanes, behind one that is not read.
abbrev some_nibbles : ℕ → ℕ
some_nibbles x = (x * 7) % 16

ordered_pack_u16-packed_byte_example :
    ordered_pack_u16 vectors false
      (4 * 1)
      (λ i. some_nibbles (1 + 4 * 1 * 0 + i))
      (λ i. some_nibbles (1 + 4 * 1 * 1 + i))
      (λ i. some_nibbles (1 + 4 * 1 * 2 + i))
      (λ i. some_nibbles (1 + 4 * 1 * 3 + i))
      5
    ≡ packed_byte some_nibbles 1 5
ordered_pack_u16-packed_byte_example =
    ordered_pack_u16-packed_byte vectors vectors-IsDocumented 1 some_nibbles 1 (λ x lt. omega arith)
      false 5 (omega arith)

abbrev some_bytes : ℕ → ℕ
some_bytes j = (j * 37 + 5) % 256

sixteen-IsWidth : IsWidth false 16
sixteen-IsWidth = record { quarter = 4; four = refl; supported = inr (inr (inl refl)) }

ordered_unpack_u16-nibble_example :
    Returns
      (ordered_unpack_u16 vectors true false false 16 some_bytes)
      (λ u. (i : ℕ) → i < 16 → u i ≡ nibble some_bytes i)
ordered_unpack_u16-nibble_example =
    ordered_unpack_u16-nibble vectors vectors-IsDocumented true some_bytes (λ j. omega arith) false
      16 sixteen-IsWidth

ordered_unpack_u16-zero_example :
    Returns
      (ordered_unpack_u16 vectors true true false 8 some_bytes)
      (λ u. (i : ℕ) → 2 ≤ i → i < 8 → u i ≡ 0)
ordered_unpack_u16-zero_example =
    ordered_unpack_u16-zero vectors vectors-IsDocumented true some_bytes false

abbrev round_up : ℕ → ℕ → ℕ
round_up a b = (a + b - 1) / b * b

decodes_center : dec_bytes byte_lanes true 0x7C ≡ ok (0xC0, 0x3F)
unfolding dec_bytes signed_gt signed_lt
decodes_center = refl

-- Vectors of 128 bits, which need two tables.
abbrev small_target : Target
small_target = record { scalable = false; cheap_permute = false; lanes = 8; table_lanes = 8 }

small_target-IsTarget : IsTarget small_target
unfolding num_tables
small_target-IsTarget = record {
  fixed = refl;
  width = record { quarter = 2; four = refl; supported = inl (omega arith) };
  some_lane = omega arith;
  table_fits = refl;
  size = inl refl;
  rounds = 16;
  fill = refl;
}

-- The second of two groups, in a stream of which each byte is the code of 1.5.
nuq_dec_f32-Filled_example :
    Returns
      (nuq_dec_f32 byte_lanes true wide vectors small_target round_up 512
        (λ j. 0x7C)
        256
        (λ p. 9)
        256)
      (Filled (λ p. center_at byte_lanes true (λ k. (0xC0, 0x3F)) (λ j. 0x7C) p) (λ p. 9) 256)
nuq_dec_f32-Filled_example =
    nuq_dec_f32-Filled byte_lanes byte_lanes-IsDocumented true wide wide-IsWide vectors
      vectors-IsDocumented small_target small_target-IsTarget round_up 512 (λ j. 0x7C) 256 256
      (λ k. (0xC0, 0x3F))
      (record {
        inside = omega arith;
        capacity_whole = refl;
        offset_whole = refl;
        num_whole = refl;
      })
      (λ j. omega arith) (λ k lt. decodes_center) (omega arith) (λ p. 9)

-- ===== src/Sfp/Tests.antt =====
-- Codes and bf16 values through the byte codec, and its theorems at concrete inputs.
use gemma_cpp.Base.{
  ℕ, ◌≡◌, refl, arith, true, false, ok, failed, ◌>>=◌, Returns, ◌+◌, ◌*◌, ◌/◌, ◌≤◌, ◌<◌,
}
use gemma_cpp.Sfp.Dot.{Sums, Products, dot_f32}
use gemma_cpp.Sfp.Dot.Plain.{IsLanewise, Agree, plain_dot, dot_f32-Agree}
use gemma_cpp.Sfp.Stream.{enc_f32, dec_f32}
use gemma_cpp.Sfp.Stream.Plain.{wide, wide-IsWide}
use gemma_cpp.Sfp.Stream.Loops.{Filled}
use gemma_cpp.Sfp.Stream.Codec.{enc_f32-Filled}
use gemma_cpp.Sfp.Stream.Again.{IsStream, enc_f32-dec_f32}
use gemma_cpp.Sfp.{SfpCheck, signed_gt, signed_lt, enc_bytes, dec_bytes}
use gemma_cpp.Sfp.Simd.{byte_lanes, byte_lanes-IsDocumented}
use gemma_cpp.Sfp.Table.{with_sign}
use gemma_cpp.Sfp.RoundTrip.{Decoded, dec_bytes-Decoded, enc_bytes-dec_bytes}
use gemma_cpp.Sfp.Rounding.{magnitude, IsRounded, enc_bytes-IsRounded, enc_bytes_vanishes}

-- 1.5 is 0x3FC0, and its code has the exponent 15 and the mantissa 100.
encodes_one_and_a_half : enc_bytes byte_lanes true 0xC0 0x3F ≡ ok 0x7C
unfolding enc_bytes signed_gt signed_lt
encodes_one_and_a_half = refl

-- The least code of a positive value.
decodes_least : dec_bytes byte_lanes true 1 ≡ ok (0x20, 0x34)
unfolding dec_bytes signed_gt signed_lt
decodes_least = refl

dec_bytes-Decoded_example : Returns (dec_bytes byte_lanes true 0x9C) (Decoded 0x9C)
dec_bytes-Decoded_example =
    dec_bytes-Decoded byte_lanes true 0x9C byte_lanes-IsDocumented (omega arith) (λ e. omega arith)

enc_bytes-dec_bytes_example :
    dec_bytes byte_lanes true 0x9C >>= (λ b. enc_bytes byte_lanes true b.0 b.1) ≡ ok 0x9C
enc_bytes-dec_bytes_example =
    enc_bytes-dec_bytes byte_lanes true 0x9C byte_lanes-IsDocumented (omega arith)
      (λ e. omega arith)

enc_bytes-IsRounded_example :
    Returns
      (enc_bytes byte_lanes true 0x9A 0xBE)
      λ r. (c : ℕ) × (r ≡ with_sign (0xBE / 128) c) × IsRounded (2 * (magnitude 0x9A 0xBE / 2)) c
enc_bytes-IsRounded_example =
    enc_bytes-IsRounded byte_lanes true 0x9A 0xBE byte_lanes-IsDocumented (omega arith)
      (omega arith) (omega arith)

enc_bytes_vanishes_example :
    (enc_bytes byte_lanes false 0xFA 0x3F ≡ ok 0)
    × (enc_bytes byte_lanes true 0xFA 0x3F ≡ failed SfpCheck.exponent_after_round)
enc_bytes_vanishes_example =
    enc_bytes_vanishes byte_lanes 0xFA 0x3F byte_lanes-IsDocumented (omega arith) (omega arith)
      (omega arith) (omega arith)

-- Seven values do not fill two rounds of four.
enc_f32-Filled_example :
    Returns
      (enc_f32 byte_lanes true wide 1 (λ p. 0x3FC0) 7 (λ p. 9))
      (Filled (λ p. 0x7C) (λ p. 9) 7)
enc_f32-Filled_example =
    enc_f32-Filled byte_lanes byte_lanes-IsDocumented true wide wide-IsWide 1 (omega arith) 7
      (λ p. 0x3FC0) (λ p. 0x7C) (λ p. 9) (λ p lt. encodes_one_and_a_half)

counting-IsStream : IsStream (λ p. p + 1) 7
counting-IsStream = record { below = λ p lt. omega arith; not_minus_zero = λ p lt e. omega arith }

-- Decoded with vectors of two floats and encoded with vectors of one.
enc_f32-dec_f32_example :
    Returns
      (dec_f32 byte_lanes true wide 2 (λ p. 5) (λ p. p + 1) 7 (λ p. 6) >>= λ decoded.
        enc_f32 byte_lanes true wide 1 decoded 7 (λ p. 9))
      (Filled (λ p. p + 1) (λ p. 9) 7)
enc_f32-dec_f32_example =
    enc_f32-dec_f32 byte_lanes byte_lanes-IsDocumented true wide wide-IsWide 2 1 (omega arith)
      (omega arith) (λ p. p + 1) 7 (λ p. 5) (λ p. 6) (λ p. 9) counting-IsStream (λ b. refl)

-- Six values are one round of four vectors of one float, and two that remain.
abbrev products : Products ℕ
products = record {
  mul_add = λ a b c l. a l * b l + c l;
  reorder_widen_mul_accumulate =
      λ a b s0 s1. (λ l. a (2 * l) * b (2 * l) + a (2 * l + 1) * b (2 * l + 1) + s0 l, s1);
}

products-IsLanewise : IsLanewise products (λ a b c. a * b + c)
products-IsLanewise = record { mul_add_lem = λ a b c l. refl }

abbrev no_sums : Sums ℕ
no_sums = record { sum0 = λ l. 0; sum1 = λ l. 0; sum2 = λ l. 0; sum3 = λ l. 0 }

decodes_one_and_a_half : dec_bytes byte_lanes true 0x7C ≡ ok (0xC0, 0x3F)
unfolding dec_bytes signed_gt signed_lt
decodes_one_and_a_half = refl

dot_f32-Agree_example :
    Returns (dot_f32 products byte_lanes true wide 1 (λ p. 0x7C) 6 (λ p. p) no_sums) (λ s.
      (r : ℕ) × (r * (4 * 1) ≤ 6)
      × (6 < r * (4 * 1) + 4 * 1)
      × Agree 1 s (plain_dot products 1 0 0 (λ p. 0x3FC0) (λ p. p) no_sums 6 r))
dot_f32-Agree_example =
    dot_f32-Agree byte_lanes byte_lanes-IsDocumented true wide wide-IsWide products
      products-IsLanewise 1 (omega arith) (λ p. 0x7C) (λ p. (0xC0, 0x3F)) 6 (λ p. p) no_sums
      (λ p lt. decodes_one_and_a_half)

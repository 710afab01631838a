-- ===== src/Sfp.antt =====
-- compression/sfp-inl.h: the 8-bit switching floating point code of bf16 values, one lane at a
-- time. `enc_bytes` and `dec_bytes` are SfpCodec::EncBytes and SfpCodec::DecBytes, which apply
-- lane-wise vector operations only; a lane is a number below 256 and a mask is a Bool.
pub mod Simd
pub mod Value
pub mod Table
pub mod Rounding
pub mod RoundTrip
pub mod Stream
pub mod Dot
mod Tests
use gemma_cpp.Base.{ℕ, ◌+◌, ◌-◌, Bool, Checked, ok, ◌>>=◌, ◌>>◌, check, debug_check}
use gemma_cpp.Sfp.Simd.{Lanes}

-- The checks of EncBytes and DecBytes, in the order of the source.
pub data SfpCheck : Type 0 where
  exponent_at_most_one carry_is_clear exponent_after_round mantissa_fits : SfpCheck
  exponent_fits code_fits not_minus_zero shifted_fits exponent_of_code decoded_exponent : SfpCheck

-- SignedGt and SignedLt compare the lanes as int8_t.
unfoldable pub signed_gt : Lanes → ℕ → ℕ → Bool
signed_gt h a b = h.gt_i8 a b

unfoldable pub signed_lt : Lanes → ℕ → ℕ → Bool
unfolding signed_gt
signed_lt h a b = signed_gt h b a

-- SfpCodec::EncBytes. `debug` is HWY_IS_DEBUG_BUILD.
unfoldable pub enc_bytes : Lanes → Bool → ℕ → ℕ → Checked SfpCheck ℕ
unfolding signed_gt signed_lt
enc_bytes h debug lo hi = do
  let k1 : ℕ = 1
  let k80 : ℕ = 0x80
  let sign_in_msb : ℕ = hi
  let biased_e : ℕ = h.or (h.add hi hi) (h.shift_right 7 lo)
  check (h.lt biased_e k80) exponent_at_most_one
  let m6 : ℕ = h.shift_right 2 (h.add lo lo)
  let min_large_e : ℕ = 127 - 8
  let is_large_before_round : Bool =
      h.mask_or (signed_gt h biased_e min_large_e)
        (h.mask_and (h.eq biased_e min_large_e) (signed_gt h m6 0x3B))
  let m_shl4 : ℕ = h.masked_add_or m6 is_large_before_round m6 m6
  let odd_bit : ℕ = h.and (h.shift_right 4 m_shl4) k1
  let rounded : ℕ = h.add m_shl4 (h.add odd_bit 7)
  let carry_bit : ℕ = h.if_then_else is_large_before_round k80 0x40
  let carry_clear : ℕ = h.and_not carry_bit rounded
  debug_check debug (h.lt carry_clear carry_bit) carry_is_clear
  let is_overflow : Bool = h.ne carry_clear rounded
  let biased_e' : ℕ = h.masked_add_or biased_e is_overflow biased_e k1
  debug_check debug (h.lt biased_e' 128) exponent_after_round
  let min_normal : ℕ = 127 - 23
  let is_zero : Bool = signed_lt h biased_e' min_normal
  let is_min : Bool = h.eq biased_e' min_normal
  let is_large : Bool = signed_gt h biased_e' (127 - 8)
  let m : ℕ = h.shift_right 4 carry_clear
  debug_check debug (signed_lt h m (h.if_then_else is_large 8 4)) mantissa_fits
  let m' : ℕ = h.masked_max_or m is_min m k1
  let e_bias : ℕ = h.if_then_else is_large (256 + 15 - 127) (256 + 23 - 127)
  let e : ℕ = h.add biased_e' e_bias
  debug_check debug (h.lt (h.if_then_zero_else is_zero e) 16) exponent_fits
  let em : ℕ = h.or m' (h.shift_left 2 (h.masked_add_or e is_large e e))
  debug_check debug (h.lt (h.if_then_zero_else is_zero em) k80) code_fits
  let encoded : ℕ = h.bitwise_if_then_else k80 sign_in_msb em
  ok (h.if_then_zero_else is_zero encoded)

-- SfpCodec::DecBytes: the low and the high byte of the bf16.
unfoldable pub dec_bytes : Lanes → Bool → ℕ → Checked SfpCheck (ℕ × ℕ)
unfolding signed_gt signed_lt
dec_bytes h debug code = do
  let k0 : ℕ = 0
  let k80 : ℕ = 0x80
  debug_check debug (h.ne code k80) not_minus_zero
  let sign_in_msb : ℕ = code
  let encoded : ℕ = h.and_not k80 code
  let is_nonzero : Bool = signed_gt h encoded k0
  let is_small_e : Bool = signed_lt h encoded 64
  let e4m3 : ℕ = h.masked_add_or encoded is_small_e encoded encoded
  debug_check debug (h.lt e4m3 k80) shifted_fits
  let e : ℕ = h.shift_right 3 e4m3
  debug_check debug (h.lt e 16) exponent_of_code
  let e_bias : ℕ = h.if_then_else is_small_e (127 - 15 - 8) (127 - 15)
  let biased_e : ℕ = h.masked_add_or k0 is_nonzero e_bias e
  debug_check debug (h.lt biased_e k80) decoded_exponent
  let m7 : ℕ = h.shift_left 4 e4m3
  let lo : ℕ = h.bitwise_if_then_else k80 (h.shift_left 7 biased_e) m7
  let hi : ℕ = h.bitwise_if_then_else k80 sign_in_msb (h.shift_right 1 biased_e)
  ok (lo, hi)

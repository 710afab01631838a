-- ===== src/Nuq/Payload.antt =====
-- The constants of compression/nuq.h, and NuqClustering::FloatPayload of compression/nuq-inl.h: an
-- index in the low bits of a float. `F` stands for float; its arithmetic and the cast between a
-- float and its 32 bits belong to the processor and to Highway, and are a parameter.
use gemma_cpp.Base.{
  ℕ, ◌+◌, ◌-◌, ◌*◌, ◌/◌, ◌^◌, ◌<◌, ◌≡◌, ap, ◌∙◌, Bool, bit_and, bit_or, Checked, ok, ◌>>=◌, ◌>>◌,
  Returns, debug_check, debug_check-true, refl, lt→ltb, arith, ltb, ℤ,
}
use gemma_cpp.Base.Bits.{bit_or_byte, bit_and_byte, bit_and_high, bit_and_again, bit_and-le}

abbrev pub clusters : ℕ
clusters = 16

abbrev pub group_size : ℕ
group_size = 256

-- `max_cost` is 1E38F, `mul_add a b c` is a * b + c and `neg_mul_add a b c` is c - a * b.
pub record Floats (F : Type 0) : Type 0 where
  pub binary32 : F → ℕ
  pub of_binary32 : ℕ → F
  pub of_int : ℤ → F
  pub max_cost : F
  pub add : F → F → F
  pub sub : F → F → F
  pub mul : F → F → F
  pub div : F → F → F
  pub mul_add : F → F → F → F
  pub neg_mul_add : F → F → F → F
  pub lt : F → F → Bool
  pub ge : F → F → Bool

-- Where the bits of a float, and the float of some bits, agree.
pub record IsBitCast {F : Type 0} (f : Floats F) : Type 0 where
  pub bits_below : (x : F) → f.binary32 x < 2 ^ 32
  pub binary32-of_binary32 : (b : ℕ) → b < 2 ^ 32 → f.binary32 (f.of_binary32 b) ≡ b

pub data ClusterFault : Type 0 where
  payload_too_large first_outside last_outside start_outside : ClusterFault
  size_outside index_outside last_wrapped centers_descend : ClusterFault

-- ~(kGroupSize - 1) on 32 bits.
abbrev pub clear_mask : ℕ
clear_mask = 2 ^ 32 - 1 - (group_size - 1)

module _ {F : Type 0} (f : Floats F) where
  unfoldable pub clear : F → F
  clear x = f.of_binary32 (bit_and (f.binary32 x) clear_mask)

  unfoldable pub set : Bool → F → ℕ → Checked ClusterFault F
  unfolding clear
  set debug x bits = do
    debug_check debug (ltb bits group_size) ClusterFault.payload_too_large
    let cleared : ℕ = f.binary32 (clear x)
    ok (f.of_binary32 (bit_or cleared bits))

  unfoldable pub get : F → ℕ
  get x = bit_and (f.binary32 x) (group_size - 1)

  -- The bits above the payload.
  abbrev pub upper : F → ℕ
  upper x = bit_and (f.binary32 x / 256) 0xff_ffff

  module _ (cast : IsBitCast f) where
    upper-lt : (x : F) → upper x * 256 + 255 < 2 ^ 32
    upper-lt x = omega (arith, bit_and-le (f.binary32 x / 256) 0xff_ffff)

    clear_bits : (x : F) → f.binary32 (clear x) ≡ upper x * 256
    unfolding clear
    clear_bits x =
        let high : bit_and (f.binary32 x) clear_mask ≡ upper x * 256 =
          bit_and_high (f.binary32 x) 0xff_ffff in
        cast.binary32-of_binary32 _ (omega (arith, high, upper-lt x)) ∙ high

    pub record Payload (x : F) (i : ℕ) (y : F) : Type 0 where
      pub payload : get y ≡ i
      pub value : clear y ≡ clear x

    -- An index below 256 is set in either build, can be read again, and leaves the other bits.
    pub set-Payload :
        (debug : Bool) (x : F) (i : ℕ) → i < 256 → Returns (set debug x i) (Payload x i)
    unfolding set get clear
    set-Payload debug x i lt =
        let high : bit_and (f.binary32 x) clear_mask ≡ upper x * 256 =
          bit_and_high (f.binary32 x) 0xff_ffff in
        let joined : bit_or (f.binary32 (clear x)) i ≡ upper x * 256 + i =
          ap (λ b. bit_or b i) (clear_bits x) ∙ bit_or_byte (upper x) i lt in
        let bits : f.binary32 (f.of_binary32 (upper x * 256 + i)) ≡ upper x * 256 + i =
          cast.binary32-of_binary32 _ (omega (arith, upper-lt x)) in
        let above : (upper x * 256 + i) / 256 ≡ upper x = omega arith in
        let payload : bit_and (upper x * 256 + i) 255 ≡ i =
          omega (arith, bit_and_byte (upper x * 256 + i)) in
        let value : bit_and (upper x * 256 + i) clear_mask ≡ upper x * 256 =
          bit_and_high (upper x * 256 + i) 0xff_ffff
          ∙ ap (λ u. bit_and u 0xff_ffff * 256) above
          ∙ ap (λ u. u * 256) (bit_and_again (f.binary32 x / 256) 0xff_ffff) in
        rw
          (
            lt→ltb i group_size lt,
            debug_check-true debug ClusterFault.payload_too_large,
            ◌>>=◌,
            joined,
          )
          ((
            _,
            refl,
            record { payload = rw (get, bits) payload; value = rw (clear, bits, value, high) refl },
          ))

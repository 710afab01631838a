-- ===== src/Nuq/Nibbles.antt =====
-- compression/nuq-inl.h: NibbleCodec. A vector is the function from the numbers of its lanes to their
-- values, and `n` is its number of u16 lanes.
pub mod Documented
pub mod Order
pub mod Unpack
use gemma_cpp.Base.{
  ℕ, ◌*◌, ◌/◌, Bool, Checked, ok, ◌>>=◌, ◌>>◌, debug_check, leb, ◌==◌, if◌then◌else◌, max,
}

-- The vector operations of Highway that the codec calls. The casts to lanes of another width and
-- back are a part of the two shifts: `shift_right_32 k v` is
-- BitCast(d16, ShiftRight<k>(BitCast(d32, v))).
pub record Vectors : Type 0 where
  pub xor : (ℕ → ℕ) → (ℕ → ℕ) → ℕ → ℕ
  pub and : (ℕ → ℕ) → (ℕ → ℕ) → ℕ → ℕ
  pub set : ℕ → ℕ → ℕ
  pub iota : ℕ → ℕ → ℕ
  pub shift_right_16 : ℕ → (ℕ → ℕ) → ℕ → ℕ
  pub shift_right_32 : ℕ → (ℕ → ℕ) → ℕ → ℕ
  pub shift_right_64 : ℕ → (ℕ → ℕ) → ℕ → ℕ
  pub bytes_of : (ℕ → ℕ) → ℕ → ℕ
  pub u16_of : (ℕ → ℕ) → ℕ → ℕ
  pub odd_even : (ℕ → ℕ) → (ℕ → ℕ) → ℕ → ℕ
  pub concat_even : ℕ → (ℕ → ℕ) → (ℕ → ℕ) → ℕ → ℕ
  pub concat_lower_lower : ℕ → (ℕ → ℕ) → (ℕ → ℕ) → ℕ → ℕ
  pub load_n : (ℕ → ℕ) → ℕ → ℕ → ℕ
  pub load_resized : (ℕ → ℕ) → ℕ → ℕ → ℕ
  pub load_dup128 : (ℕ → ℕ) → ℕ → ℕ
  pub uninitialised : ℕ → ℕ
  pub table_lookup_bytes : (ℕ → ℕ) → (ℕ → ℕ) → ℕ → ℕ
  pub table_lookup_lanes : (ℕ → ℕ) → (ℕ → ℕ) → ℕ → ℕ
  pub two_tables_lookup_lanes : ℕ → (ℕ → ℕ) → (ℕ → ℕ) → (ℕ → ℕ) → ℕ → ℕ

pub data NibbleFault : Type 0 where
  no_such_vector : NibbleFault

-- kRep4
abbrev pub rep4_index : ℕ → ℕ
rep4_index i = i / 4

module _ (v : Vectors) where
  -- The two lambdas of OrderedPackU16.
  unfoldable pub combine_u16_pair_to_8 : (ℕ → ℕ) → ℕ → ℕ
  combine_u16_pair_to_8 v16 = v.xor v16 (v.shift_right_32 12 v16)

  unfoldable pub combine_u32_pair_to_16 : (ℕ → ℕ) → ℕ → ℕ
  combine_u32_pair_to_16 v16 = v.xor v16 (v.shift_right_64 24 v16)

  -- OrderedPackU16: the `2 * n` bytes that it stores. `cheap_concat` is
  -- HWY_TARGET <= HWY_AVX3_DL || !HWY_ARCH_X86.
  unfoldable pub ordered_pack_u16 : Bool → ℕ → (ℕ → ℕ) → (ℕ → ℕ) → (ℕ → ℕ) → (ℕ → ℕ) → ℕ → ℕ
  ordered_pack_u16 cheap_concat n in0 in1 in2 in3 =
      let u8_0 = combine_u16_pair_to_8 in0 in
      let u8_1 = combine_u16_pair_to_8 in1 in
      let u8_2 = combine_u16_pair_to_8 in2 in
      let u8_3 = combine_u16_pair_to_8 in3 in
      if cheap_concat
      then (let x2_0 = v.concat_even (2 * n) (v.bytes_of u8_1) (v.bytes_of u8_0) in
          let x2_1 = v.concat_even (2 * n) (v.bytes_of u8_3) (v.bytes_of u8_2) in
          v.concat_even (2 * n) x2_1 x2_0)
      else (let u16_0 = combine_u32_pair_to_16 u8_0 in
          let u16_1 = combine_u32_pair_to_16 u8_1 in
          let u16_2 = combine_u32_pair_to_16 u8_2 in
          let u16_3 = combine_u32_pair_to_16 u8_3 in
          let x2_0 = v.concat_even n u16_1 u16_0 in
          let x2_1 = v.concat_even n u16_3 u16_2 in v.bytes_of (v.concat_even n x2_1 x2_0))

  -- The bytes of OrderedUnpackU16, each four times. `scalable` is HWY_HAVE_SCALABLE.
  unfoldable pub replicate4 : Bool → Bool → Bool → ℕ → (ℕ → ℕ) → Checked NibbleFault (ℕ → ℕ)
  replicate4 debug scalable cheap_permute n packed =
      if scalable
      then (let num_bytes = max 1 (2 * n / 4) in
          let bytes = v.load_n packed num_bytes in
          let idx = v.and (v.iota 0) (v.set 0xFC) in ok (v.table_lookup_bytes bytes idx))
      else if leb n 8
      then ok (v.table_lookup_bytes (v.load_resized packed (2 * n / 4)) rep4_index)
      else if cheap_permute
      then ok (v.table_lookup_lanes (v.load_resized packed (2 * n / 4)) rep4_index)
      else if n == 16
      then (let bytes = v.load_resized packed (2 * n / 4) in
          let bcast = v.concat_lower_lower (2 * n) bytes bytes in
          ok (v.table_lookup_bytes bcast rep4_index))
      else if n == 32
      then ok (v.table_lookup_bytes (v.load_dup128 packed) rep4_index)
      else debug_check debug Bool.false NibbleFault.no_such_vector >> ok v.uninitialised

  -- OrderedUnpackU16
  unfoldable pub ordered_unpack_u16 : Bool → Bool → Bool → ℕ → (ℕ → ℕ) → Checked NibbleFault (ℕ → ℕ)
  ordered_unpack_u16 debug scalable cheap_permute n packed = do
    rep4 ← replicate4 debug scalable cheap_permute n packed
    let mask4 : ℕ → ℕ = v.set 0xF
    let u16 : ℕ → ℕ = v.u16_of rep4
    ok (v.and mask4 (v.odd_even (v.shift_right_16 4 u16) u16))

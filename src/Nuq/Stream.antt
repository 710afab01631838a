-- ===== src/Nuq/Stream.antt =====
-- compression/nuq-inl.h: NuqCodec::LoadTable, TableLookups and Dec on the stream whose layout is that of
-- compression/nuq.h. A stream is the function from positions to bytes; hwy::RoundUpTo is a parameter.
pub mod Table
pub mod Decoded
use gemma_cpp.Base.{
  ℕ, zero, suc, ◌+◌, ◌*◌, ◌/◌, ◌%◌, Bool, not, ◌&&◌, ◌||◌, Checked, ok, failed, ◌>>=◌, ◌>>◌,
  debug_check, leb, ◌==◌, if◌then◌else◌,
}
use gemma_cpp.Base.Chunks.{from, rounds}
use gemma_cpp.Weights.{packed_start}
use gemma_cpp.Sfp.Simd.{Lanes}
use gemma_cpp.Sfp.Stream.{Wide, StreamFault, dec_bf16, store_2, store_4}
use gemma_cpp.Nuq.Payload.{clusters, group_size}
use gemma_cpp.Nuq.Nibbles.{Vectors, NibbleFault, ordered_unpack_u16}

pub data NuqFault : Type 0 where
  centers_fault : StreamFault → NuqFault
  nibble_fault : NibbleFault → NuqFault
  table_too_large vector_too_small group_too_small outside_capacity : NuqFault
  capacity_partial offset_partial num_partial : NuqFault

abbrev pub in_centers {ℓ} : {A : Type ℓ} → Checked StreamFault A → Checked NuqFault A
in_centers (ok a) = ok a
in_centers (failed e) = failed (NuqFault.centers_fault e)

abbrev pub in_nibbles {ℓ} : {A : Type ℓ} → Checked NibbleFault A → Checked NuqFault A
in_nibbles (ok a) = ok a
in_nibbles (failed e) = failed (NuqFault.nibble_fault e)

-- What is known of a target when it is compiled: HWY_HAVE_SCALABLE, HWY_TARGET <= HWY_AVX3_DL ||
-- !HWY_ARCH_X86, and the numbers of u16 lanes of a vector and of one capped to kClusters.
pub record Target : Type 0 where
  pub scalable : Bool
  pub cheap_permute : Bool
  pub lanes : ℕ
  pub table_lanes : ℕ

unfoldable pub num_tables : Target → ℕ
num_tables t = if not t.scalable && leb 32 (2 * t.lanes) then 1 else 2

module _ {F : Type 0} (h : Lanes) (debug : Bool) (w : Wide F) (v : Vectors) (t : Target) where
  -- LoadTable: `tbl0` and `tbl1`.
  unfoldable pub load_table : (ℕ → ℕ) → Checked NuqFault ((ℕ → ℕ) × (ℕ → ℕ))
  load_table centers = do
    debug_check debug (leb t.table_lanes t.lanes || num_tables t == 2) NuqFault.table_too_large
    table ← in_centers (dec_bf16 h debug w t.table_lanes (λ k. 0) centers clusters v.uninitialised)
    debug_check debug (leb 8 t.lanes) NuqFault.vector_too_small
    ok (table, if num_tables t == 2 then from table (clusters / 2) else v.set 0)

  unfoldable pub table_lookups : (ℕ → ℕ) × (ℕ → ℕ) → (ℕ → ℕ) → Checked NuqFault ((ℕ → ℕ) × (ℕ → ℕ))
  table_lookups tbl packed = do
    idx0 ← in_nibbles (ordered_unpack_u16 v debug t.scalable t.cheap_permute t.lanes packed)
    idx1 ←
        in_nibbles (
          ordered_unpack_u16 v debug t.scalable t.cheap_permute t.lanes (from packed (t.lanes / 2)))
    if num_tables t == 1
        then ok (v.table_lookup_lanes (tbl.0) idx0, v.table_lookup_lanes (tbl.0) idx1)
        else ok (
          v.two_tables_lookup_lanes t.lanes (tbl.0) (tbl.1) idx0,
          v.two_tables_lookup_lanes t.lanes (tbl.0) (tbl.1) idx1,
        )

  -- Dec to an array of `A`, with the stores of the two vectors of a round.
  module _ {A : Type 0} (store : (ℕ → A) → ℕ → (ℕ → ℕ) × (ℕ → ℕ) → ℕ → A) where
    unfoldable pub dec_group : (ℕ → ℕ) → (ℕ → ℕ) → ℕ → (ℕ → A) → Checked NuqFault (ℕ → A)
    dec_group g_centers g_packed g_out out = do
      tbl ← load_table g_centers
      rounds (2 * t.lanes)
          (λ i out. do c ← table_lookups tbl (from g_packed (i / 2)); ok (store out (g_out + i) c))
          (group_size + 1) group_size 0 out

    -- The groups from `g` on.
    unfoldable pub dec_groups : (ℕ → ℕ) → (ℕ → ℕ) → ℕ → ℕ → (ℕ → A) → Checked NuqFault (ℕ → A)
    dec_groups tables packed zero g out = ok out
    dec_groups tables packed (suc left) g out = do
      out' ←
          dec_group (from tables (g * clusters)) (from packed (g * group_size / 2)) (g * group_size)
            out
      dec_groups tables packed left (suc g) out'

    -- `most` is what HWY_DASSERT compares with kGroupSize.
    unfoldable pub dec_values :
        ℕ → (ℕ → ℕ → ℕ) → ℕ → (ℕ → ℕ) → ℕ → (ℕ → A) → ℕ → Checked NuqFault (ℕ → A)
    dec_values most round_up_to in_capacity stream in_ofs out num = do
      debug_check debug (leb most group_size) NuqFault.group_too_small
      debug_check debug (leb (in_ofs + num) in_capacity) NuqFault.outside_capacity
      debug_check debug (in_capacity % group_size == 0) NuqFault.capacity_partial
      debug_check debug (in_ofs % group_size == 0) NuqFault.offset_partial
      debug_check debug (num % group_size == 0) NuqFault.num_partial
      let num_groups : ℕ = num / group_size
      let ofs_groups : ℕ = in_ofs / group_size
      let tables : ℕ → ℕ = from stream (ofs_groups * clusters)
      let packed : ℕ → ℕ =
          from stream (packed_start round_up_to in_capacity + ofs_groups * group_size / 2)
      dec_groups tables packed num_groups 0 out

  -- Dec to bf16. The vectors are stored one after the other.
  unfoldable pub nuq_dec_bf16 :
      (ℕ → ℕ → ℕ) → ℕ → (ℕ → ℕ) → ℕ → (ℕ → ℕ) → ℕ → Checked NuqFault (ℕ → ℕ)
  nuq_dec_bf16 = dec_values (store_2 h debug w t.lanes) (4 * t.lanes)

  -- Dec to f32, where the vectors have half the lanes.
  unfoldable pub promoted : (ℕ → ℕ) × (ℕ → ℕ) → (ℕ → F) × (ℕ → F) × (ℕ → F) × (ℕ → F)
  promoted c = (
    w.promote_lower_to t.lanes (c.0),
    w.promote_upper_to t.lanes (c.0),
    w.promote_lower_to t.lanes (c.1),
    w.promote_upper_to t.lanes (c.1),
  )

  unfoldable pub nuq_dec_f32 :
      (ℕ → ℕ → ℕ) → ℕ → (ℕ → ℕ) → ℕ → (ℕ → F) → ℕ → Checked NuqFault (ℕ → F)
  nuq_dec_f32 =
      dec_values (λ out i c. store_4 h debug w (t.lanes / 2) out i (promoted c)) (4 * (t.lanes / 2))

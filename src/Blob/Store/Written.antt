-- ===== src/Blob/Store/Written.antt =====
-- The result of PrepareWriteRequests as a whole.
use gemma_cpp.Base.{
  ℕ, ◌+◌, ◌-◌, ◌*◌, ◌%◌, ◌^◌, ◌≤◌, ◌<◌, ◌≡◌, refl, arith, ok, List, [], ◌∷◌, some, length,
  replicate, length-replicate, ◌∙◌, ℕ_discrete, ne→==, lt→ltb, ==_self,
}
use gemma_cpp.Base.Block.{Block, le_bytes, length-le_bytes}
use gemma_cpp.Blob.{U128, Buffer, BlobIo, Span, add64}
use gemma_cpp.Blob.Store.{
  RoundsUp, Allocator, align, magic, store_size, header_size, load, poke, copy_keys, fill_loop,
  allocate, zero_fill_padding, payload_loop, prepare_write_requests,
}
use gemma_cpp.Blob.Store.Layout.{KeysFit, SizesFit, padded_total, Plan, IsHeader, HasKeys-SameBelow}
use gemma_cpp.Blob.Store.Memory.{
  SameBelow, SameBelow-refl, stored, poke_inside, stored-SameBelow, load-stored, load-SameBelow,
}
use gemma_cpp.Blob.Store.Prepare.{copy_keys-HasKeys, fill_loop-HasBlobs, payload_loop-eq}

-- The request for the header.
abbrev pub header_request : ℕ → BlobIo
header_request size = record {
  offset = 0;
  size = size;
  ptr = record { buffer = Buffer.header; at = 0 };
  padding = 0;
}

module _ (round_up_to : ℕ → ℕ → ℕ) (rounds : RoundsUp round_up_to) where
  -- Zeros up to the aligned offset, inside the block.
  pub zero_fill_padding_inside :
      (m : Block) (offset : ℕ)
      → offset + align ≤ 2 ^ 64
      → round_up_to offset align ≤ m.size
      → (m' : Block) × (zero_fill_padding round_up_to m offset ≡ ok (round_up_to offset align, m'))
        × SameBelow offset m m'
  unfolding zero_fill_padding
  zero_fill_padding_inside m offset h room =
      let r = rounds offset align (omega arith) h in
      let padded = round_up_to offset align in
      let n = (padded + 2 ^ 64 - offset) % 2 ^ 64 in
      let zeros : List ℕ = replicate n 0 in
      elim (ℕ_discrete n 0) [
        | yes none_needed ↦ (m, rw (none_needed, zero_fill_padding), SameBelow-refl offset m)
        | no needed ↦ (
          stored m offset zeros,
          rw (
            ne→== n 0 needed,
            zero_fill_padding,
            poke_inside m offset zeros (rw length-replicate (omega arith)),
          ),
          stored-SameBelow m offset zeros,
        )
      ]

  pub padded_lower : (n : ℕ) → n + align ≤ 2 ^ 64 → 0 < n → align ≤ round_up_to n align
  padded_lower n h pos = omega (arith, rounds n align (omega arith) h)

  -- The fixed fields, with the memory that has them.
  module _ (m : Block) (num total : ℕ) (room : 16 ≤ m.size) (num_fits : num < 2 ^ 32)
      (total_fits : total < 2 ^ 64) where
    with_magic : Block
    with_magic = stored m 0 (le_bytes 4 magic)

    with_num : Block
    with_num = stored with_magic 4 (le_bytes 4 num)

    with_fields : Block
    with_fields = stored with_num 8 (le_bytes 8 total)

    fields_size : with_fields.size ≡ m.size
    unfolding with_magic with_num with_fields
    fields_size = refl

    fields_magic : load with_fields 0 4 ≡ ok magic
    unfolding with_magic with_num with_fields
    fields_magic =
        load-SameBelow 8 with_num with_fields 0 4 (stored-SameBelow with_num 8 _) (omega arith)
        ∙ load-SameBelow 4 with_magic with_num 0 4 (stored-SameBelow with_magic 4 _) (omega arith)
        ∙ load-stored m 0 4 magic (omega arith) (omega arith)

    fields_num : load with_fields 4 4 ≡ ok num
    unfolding with_magic with_num with_fields
    fields_num =
        load-SameBelow 8 with_num with_fields 4 4 (stored-SameBelow with_num 8 _) (omega arith)
        ∙ load-stored with_magic 4 4 num (omega arith) (omega arith)

    fields_total : load with_fields 8 8 ≡ ok total
    unfolding with_magic with_num with_fields
    fields_total = load-stored with_num 8 8 total (omega arith) (omega arith)

    fields_run :
        (poke m 0 (le_bytes 4 magic) ≡ ok with_magic)
        × (poke with_magic 4 (le_bytes 4 num) ≡ ok with_num)
        × (poke with_num 8 (le_bytes 8 total) ≡ ok with_fields)
    unfolding with_magic with_num with_fields
    fields_run = (
      poke_inside m 0 (le_bytes 4 magic) (rw length-le_bytes (omega arith)),
      poke_inside with_magic 4 (le_bytes 4 num) (rw length-le_bytes (omega arith)),
      poke_inside with_num 8 (le_bytes 8 total) (rw length-le_bytes (omega arith)),
    )

  total_eq :
      (padded : ℕ) (blobs : List Span)
      → padded + padded_total round_up_to blobs < 2 ^ 64
      → add64 padded (payload_loop round_up_to 0 blobs) ≡ padded + padded_total round_up_to blobs
  total_eq padded blobs h =
      let e = payload_loop-eq round_up_to rounds 0 blobs (omega arith) in rw e (omega arith)

  below : (a : ℕ) {b : ℕ} (m m' : Block) → a ≤ b → SameBelow b m m' → SameBelow a m m'
  below a m m' h s = record { size = s.size; byte = λ q lt. s.byte q (omega arith) }

  abbrev padded_size : List U128 → ℕ
  padded_size keys = round_up_to (header_size (length keys)) align

  prepare_run :
      (allocator : Allocator) (keys : List U128) (blobs : List Span) (m₀ m₁ m₂ m₃ m₄ m₅ m₆ : Block)
      (total : ℕ) (rs : List BlobIo)
      → length keys < 2 ^ 20
      → add64 (padded_size keys) (payload_loop round_up_to 0 blobs) ≡ total
      → allocate round_up_to allocator (padded_size keys) ≡ ok (some m₀)
      → zero_fill_padding round_up_to m₀ (header_size (length keys)) ≡ ok (padded_size keys, m₁)
      → poke m₁ 0 (le_bytes 4 magic) ≡ ok m₂
      → poke m₂ 4 (le_bytes 4 (length keys)) ≡ ok m₃
      → poke m₃ 8 (le_bytes 8 total) ≡ ok m₄
      → copy_keys 0 keys m₄ ≡ ok m₅
      → fill_loop round_up_to
          (length keys)
          0
          blobs
          m₅
          (padded_size keys)
          (header_request (padded_size keys) ∷ [])
        ≡ ok (total, rs, m₆)
      → prepare_write_requests round_up_to allocator keys blobs ≡ ok (rs, m₆)
  unfolding prepare_write_requests
  prepare_run allocator keys blobs m₀ m₁ m₂ m₃ m₄ m₅ m₆ total rs few et ea ez e₂ e₃ e₄ e₅ e₆ =
      rw (lt→ltb _ _ few, ea, ez, ==_self (padded_size keys), et, e₂, e₃, e₄, e₅, e₆, ==_self total)

  pub allocate_run :
      (allocator : Allocator) (bytes : ℕ → ℕ) (size : ℕ)
      → allocator size ≡ some bytes
      → store_size ≤ size
      → allocate round_up_to allocator size
        ≡ ok (some (stored (record { size = size; byte = bytes }) 0 (replicate store_size 0)))
  unfolding allocate
  allocate_run allocator bytes size a h =
      rw (
        a,
        allocate,
        poke_inside (record { size = size; byte = bytes }) 0 (replicate store_size 0) h,
      )

  -- With as many keys as blobs, fewer than 2 ^ 20 of them, all of them and the whole file within 64
  -- bits, and memory for the header, the function returns: the assertions behind the one on the number
  -- of blobs hold. What it returns is a filled header, and a request for that header followed by those
  -- for the blobs and their padding.
  pub prepare_write_requests-IsHeader :
      (allocator : Allocator) (bytes : ℕ → ℕ) (keys : List U128) (blobs : List Span)
      → allocator (round_up_to (header_size (length keys)) align) ≡ some bytes
      → length keys ≡ length blobs
      → length keys < 2 ^ 20
      → KeysFit keys
      → SizesFit blobs
      → round_up_to (header_size (length keys)) align + padded_total round_up_to blobs < 2 ^ 64
      → (m : Block) × (rs : List BlobIo) × (prepare_write_requests round_up_to allocator keys blobs
          ≡ ok (header_request (round_up_to (header_size (length keys)) align) ∷ rs, m))
        × IsHeader round_up_to m keys blobs
        × Plan round_up_to (round_up_to (header_size (length keys)) align) blobs rs
  prepare_write_requests-IsHeader allocator bytes keys blobs a same few kf sf total_fits =
      let num = length keys in
      let padded = round_up_to (header_size num) align in
      let r = rounds (header_size num) align (omega arith) (omega arith) in
      let lower = padded_lower (header_size num) (omega arith) (omega arith) in
      let fresh : Block = record { size = padded; byte = bytes } in
      let m₀ = stored fresh 0 (replicate store_size 0) in
      let (m₁, zeroed, near₁) =
        zero_fill_padding_inside m₀ (header_size num) (omega arith) (omega arith) in
      let total = padded + padded_total round_up_to blobs in
      let size₁ : m₁.size ≡ padded = near₁.size in
      let room : 16 ≤ m₁.size = omega arith in
      let m₄ = with_fields m₁ num total room (omega arith) total_fits in
      let size₄ : m₄.size ≡ padded =
        fields_size m₁ num total room (omega arith) total_fits ∙ size₁ in
      let fields = fields_run m₁ num total room (omega arith) total_fits in
      let (m₅, copied, near₅, has_keys) = copy_keys-HasKeys 0 keys m₄ (omega arith) kf in
      let size₅ : m₅.size ≡ padded = near₅.size ∙ size₄ in
      let (m₆, rs, run, near₆, has_blobs, plan) =
        fill_loop-HasBlobs round_up_to rounds num 0 blobs m₅ padded (header_request padded ∷ [])
          (omega arith) sf total_fits in
      (
        m₆,
        rs,
        prepare_run allocator keys blobs m₀ m₁ _ _ m₄ m₅ m₆ total _ few
            (total_eq padded blobs total_fits) (allocate_run allocator bytes padded a (omega arith))
            zeroed fields.0 fields.1 fields.2 copied run,
        record {
          size = near₆.size ∙ size₅;
          magic_field =
              load-SameBelow 16 m₅ m₆ 0 4 (below 16 m₅ m₆ (omega arith) near₆) (omega arith)
              ∙ load-SameBelow 16 m₄ m₅ 0 4 near₅ (omega arith)
              ∙ fields_magic m₁ num total room (omega arith) total_fits;
          num_blobs_field =
              load-SameBelow 16 m₅ m₆ 4 4 (below 16 m₅ m₆ (omega arith) near₆) (omega arith)
              ∙ load-SameBelow 16 m₄ m₅ 4 4 near₅ (omega arith)
              ∙ fields_num m₁ num total room (omega arith) total_fits;
          file_size_field =
              load-SameBelow 16 m₅ m₆ 8 8 (below 16 m₅ m₆ (omega arith) near₆) (omega arith)
              ∙ load-SameBelow 16 m₄ m₅ 8 8 near₅ (omega arith)
              ∙ fields_total m₁ num total room (omega arith) total_fits;
          keys_field =
              HasKeys-SameBelow (16 + 16 * (num + 0)) m₅ m₆ 0 keys near₆ (omega arith) has_keys;
          blobs_field = has_blobs;
        },
        plan,
      )

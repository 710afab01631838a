-- ===== src/Blob/Store.antt =====
-- class BlobStore of compression/blob_store.cc: the header that stands at the start of a file, as a
-- block of memory whose fields are read and written as little-endian bytes. The struct is packed:
-- magic_ at 0, num_blobs_ at 4, file_size_ at 8 and keys_ from 16 on, 16 bytes each.
-- hwy::RoundUpTo (hwy/base.h) and the allocator (hwy/aligned_allocator.h) are parameters.
pub mod Memory
pub mod Layout
pub mod Prepare
pub mod Written
pub mod Validity
pub mod Find
use gemma_cpp.Base.{
  ℕ, zero, suc, ◌+◌, ◌-◌, ◌*◌, ◌%◌, ◌^◌, ◌≤◌, ◌<◌, ◌≡◌, ok, failed, ◌>>=◌, ◌>>◌, check, Bool, true,
  false, leb, ltb, ◌==◌, ◌&&◌, ◌||◌, if◌then◌else◌, List, [], ◌∷◌, ◌++◌, length, replicate, Option,
  none, some,
}
use gemma_cpp.Base.Block.{Block, slice, store, le_bytes, le_value}
use gemma_cpp.Blob.{Run, Fault, U128, Buffer, Pointer, BlobIo, Span, BlobError, add64}
use gemma_cpp.Blob.Chunks.{enqueue_chunk_requests}

-- kMagic, kAlign and sizeof(BlobStore)
abbrev pub magic : ℕ
magic = 0x0A534253

abbrev pub align : ℕ
align = 256

abbrev pub store_size : ℕ
store_size = 32

-- hwy::RoundUpTo(what, align) is the least multiple of `align` that is not below `what`.
abbrev pub RoundsUp : (ℕ → ℕ → ℕ) → Type 0
RoundsUp round_up_to =
    (what align : ℕ)
    → 0 < align
    → what + align ≤ 2 ^ 64
    → (what ≤ round_up_to what align)
      × (round_up_to what align < what + align)
      × (round_up_to what align % align ≡ 0)

-- hwy::AllocateAlignedBytes: what the new bytes hold is not known; null if there is no memory.
abbrev pub Allocator : Type 0
Allocator = ℕ → Option (ℕ → ℕ)

-- HeaderSize
abbrev pub header_size : ℕ → ℕ
header_size num_blobs = 16 + 32 * num_blobs

-- A field of `width` bytes.
unfoldable pub load : Block → ℕ → ℕ → Run ℕ
load memory at width =
    if leb (at + width) memory.size
    then ok (le_value (slice memory.byte at width))
    else failed Fault.out_of_bounds

unfoldable pub poke : Block → ℕ → List ℕ → Run Block
poke memory at bytes =
    if leb (at + length bytes) memory.size
    then ok (record memory { byte = store memory.byte at bytes })
    else failed Fault.out_of_bounds

-- keys_[i]
unfoldable pub load_key : Block → ℕ → Run U128
unfolding load
load_key memory i = do
  lo ← load memory (16 + 16 * i) 8
  hi ← load memory (24 + 16 * i) 8
  ok (record { lo = lo; hi = hi })

-- keys_[i].lo and keys_[i].hi are set.
unfoldable pub poke_key : Block → ℕ → U128 → Run Block
poke_key memory i key = do
  memory' ← poke memory (16 + 16 * i) (le_bytes 8 key.lo)
  poke memory' (24 + 16 * i) (le_bytes 8 key.hi)

-- hwy::CopyBytes(keys, bs->keys_, num_blobs * sizeof(keys[0])), key by key.
unfoldable pub copy_keys : ℕ → List U128 → Block → Run Block
copy_keys i [] memory = ok memory
copy_keys i (key ∷ keys) memory = do memory' ← poke_key memory i key; copy_keys (suc i) keys memory'

module _ (round_up_to : ℕ → ℕ → ℕ) where
  -- PaddedHeaderSize
  unfoldable pub padded_header_size : Block → Run ℕ
  padded_header_size memory = do
    num_blobs ← load memory 4 4
    ok (round_up_to (header_size num_blobs) align)

  -- ZeroFillPadding: the aligned offset, and the memory with zeros up to it. Nothing is written
  -- where `offset` is aligned.
  unfoldable pub zero_fill_padding : Block → ℕ → Run (ℕ × Block)
  zero_fill_padding memory offset = do
    let padded = round_up_to offset align
    let n = (padded + 2 ^ 64 - offset) % 2 ^ 64
    elim (n == 0) [
      | true ↦ ok (padded, memory)
      | false ↦ do memory' ← poke memory offset (replicate n 0); ok (padded, memory')
    ]

  -- The loop of CheckValidity, which reads num_blobs_ in every round: the line number of the
  -- failing check or the final offset, and the memory.
  unfoldable pub check_loop : ℕ → Block → ℕ → ℕ → Run (Option ℕ × Block)
  check_loop zero memory i offset = failed Fault.out_of_fuel
  check_loop (suc fuel) memory i offset = do
    num_blobs ← load memory 4 4
    elim (ltb i num_blobs) [
      | false ↦ ok (some offset, memory)
      | true ↦ do
        val ← load_key memory (num_blobs + i)
        elim (val.lo == offset) [
          | false ↦ ok (none, memory)
          | true ↦ do
            (offset', memory') ← zero_fill_padding memory (add64 offset val.hi)
            check_loop fuel memory' (suc i) offset'
        ]
    ]

  -- The end of CheckValidity, after its loop.
  unfoldable pub check_end : Option ℕ → Block → Run (BlobError × Block)
  check_end none memory = ok (160, memory)
  check_end (some offset) memory = do
    file_size ← load memory 8 8
    ok (if offset == file_size then 0 else 164, memory)

  -- CheckValidity. num_blobs_ is below 2 ^ 32, so the loop makes no more rounds than that.
  unfoldable pub check_validity : Block → ℕ → Run (BlobError × Block)
  check_validity memory size = do
    magic' ← load memory 0 4
    elim (magic' == magic) [
      | false ↦ ok (152, memory)
      | true ↦ do
        num_blobs ← load memory 4 4
        elim (num_blobs == 0) [
          | true ↦ ok (153, memory)
          | false ↦ do
            file_size ← load memory 8 8
            elim (file_size == size) [
              | false ↦ ok (154, memory)
              | true ↦ do
                (offset, memory') ← zero_fill_padding memory (header_size num_blobs)
                (end, memory'') ← check_loop (2 ^ 32) memory' 0 offset
                check_end end memory''
            ]
        ]
    ]

  -- Allocate: `new (bytes) BlobStore()` zeroes the bytes of the struct.
  unfoldable pub allocate : Allocator → ℕ → Run (Option Block)
  allocate allocator total_size = elim (allocator total_size) [
    | none ↦ ok none
    | some bytes ↦ do
      memory ← poke (record { size = total_size; byte = bytes }) 0 (replicate store_size 0)
      ok (some memory)
  ]

  -- `payload += hwy::RoundUpTo(blobs[i].size(), kAlign)` over the blobs.
  unfoldable pub payload_loop : ℕ → List Span → ℕ
  payload_loop payload [] = payload
  payload_loop payload (blob ∷ blobs) =
      payload_loop (add64 payload (round_up_to blob.size align)) blobs

  -- The padding request of one blob, with the offset behind it.
  unfoldable pub enqueue_padding : ℕ → ℕ → List BlobIo → Run (ℕ × List BlobIo)
  enqueue_padding size offset requests = do
    let padded_size = round_up_to size align
    elim (padded_size == size) [
      | true ↦ ok (offset, requests)
      | false ↦ do
        let padding = (padded_size + 2 ^ 64 - size) % 2 ^ 64
        check (leb padding align) (Fault.abort 223)
        ok (
          add64 offset padding,
          requests
              ++ record {
                offset = offset;
                size = padding;
                ptr = record { buffer = Buffer.zeros; at = 0 };
                padding = 0;
              }
                ∷ [],
        )
    ]

  -- The loop that fills the second half of keys_ and prepares the requests. `num` is num_blobs
  -- and `i` the index of the first of the blobs that are left.
  unfoldable pub fill_loop :
      ℕ → ℕ → List Span → Block → ℕ → List BlobIo → Run (ℕ × List BlobIo × Block)
  fill_loop num i [] memory offset requests = ok (offset, requests, memory)
  fill_loop num i (blob ∷ blobs) memory offset requests = do
    memory' ← poke_key memory (num + i) (record { lo = offset; hi = blob.size })
    requests' ← enqueue_chunk_requests offset blob.size blob.ptr requests
    (offset', requests'') ← enqueue_padding blob.size (add64 offset blob.size) requests'
    fill_loop num (suc i) blobs memory' offset' requests''

  -- PrepareWriteRequests: the requests, and the header as it is when the function returns and
  -- frees it.
  unfoldable pub prepare_write_requests :
      Allocator → List U128 → List Span → Run (List BlobIo × Block)
  prepare_write_requests allocator keys blobs = do
    let num_blobs = length keys
    check (ltb num_blobs (2 ^ 20)) (Fault.abort 180)
    let padded_size = round_up_to (header_size num_blobs) align
    allocated ← allocate allocator padded_size
    elim allocated [
      | none ↦ failed Fault.null_pointer
      | some m₀ ↦ do
        (padded_end, m₁) ← zero_fill_padding m₀ (header_size num_blobs)
        check (padded_end == padded_size) (Fault.abort 187)
        let total_size = add64 padded_size (payload_loop 0 blobs)
        m₂ ← poke m₁ 0 (le_bytes 4 magic)
        m₃ ← poke m₂ 4 (le_bytes 4 num_blobs)
        m₄ ← poke m₃ 8 (le_bytes 8 total_size)
        m₅ ← copy_keys 0 keys m₄
        let first : BlobIo = record {
          offset = 0;
          size = padded_size;
          ptr = record { buffer = Buffer.header; at = 0 };
          padding = 0;
        }
        (offset, requests, m₆) ← fill_loop num_blobs 0 blobs m₅ padded_end (first ∷ [])
        check (offset == total_size) (Fault.abort 229)
        ok (requests, m₆)
    ]

-- FindKey: the rounds that are left, and the index.
unfoldable pub find_loop : Block → U128 → ℕ → ℕ → Run (Option (ℕ × ℕ))
find_loop memory key zero i = ok none
find_loop memory key (suc rounds) i = do
  num_blobs ← load memory 4 4
  k ← load_key memory i
  elim (k.lo == key.lo && k.hi == key.hi) [
    | true ↦ do val ← load_key memory (num_blobs + i); ok (some (val.lo, val.hi))
    | false ↦ find_loop memory key rounds (suc i)
  ]

-- The offset and the size of the first blob with this key.
unfoldable pub find_key : Block → U128 → Run (Option (ℕ × ℕ))
find_key memory key = do num_blobs ← load memory 4 4; find_loop memory key num_blobs 0

-- ===== src/Blob/Reader/Open.antt =====
-- BlobReader::Open on a file that BlobWriter lays out.
use gemma_cpp.Base.{ℕ, ◌+◌, ◌-◌, ◌^◌, ◌<◌, ◌≡◌, List, length, replicate}
use gemma_cpp.Base.Block.{Block, slice, store}
use gemma_cpp.Blob.{U128, Span}
use gemma_cpp.Blob.Io.{Calls}
use gemma_cpp.Blob.Store.{RoundsUp, Allocator, align, store_size, header_size}
use gemma_cpp.Blob.Store.Layout.{padded_total, IsHeader}
use gemma_cpp.Blob.Store.Memory.{stored}
use gemma_cpp.Blob.Reader.{first_part}

module _ (round_up_to : ℕ → ℕ → ℕ) (rounds : RoundsUp round_up_to) (allocator : Allocator)
    (bytes : ℕ → ℕ) (first rest : Calls) (stack : ℕ → ℕ) (file m : Block) (keys : List U128)
    (blobs : List Span) where
  abbrev padded : ℕ
  padded = round_up_to (header_size (length keys)) align

  abbrev total : ℕ
  total = padded + padded_total round_up_to blobs

  -- The memory of the header after the two reads.
  loaded : Block
  loaded =
      stored
        (stored (stored (record { size = padded; byte = bytes }) 0 (replicate store_size 0)) 0
          (slice (store stack 0 (slice file.byte 0 store_size)) 0 store_size))
        store_size (slice file.byte store_size (padded - store_size))

  module _ (is : IsHeader round_up_to m keys blobs) (some_keys : 0 < length keys)
      (few : length keys < 2 ^ 20) (shown : (q : ℕ) → q < padded → file.byte q ≡ m.byte q)
      (whole : file.size ≡ total) where
    abbrev head : Block
    head = first_part stack (slice file.byte 0 store_size)

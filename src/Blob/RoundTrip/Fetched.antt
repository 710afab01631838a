-- ===== src/Blob/RoundTrip/Fetched.antt =====
-- The bytes of a blob come back as they were written.
use gemma_cpp.Base.{ℕ, ◌+◌, ◌<◌, ◌≡◌, List, length}
use gemma_cpp.Base.Block.{Block}
use gemma_cpp.Blob.{U128, Pointer, Span}
use gemma_cpp.Blob.Io.{Calls, Memory}
use gemma_cpp.Blob.Store.{RoundsUp, Allocator, align, header_size}
use gemma_cpp.Blob.Store.Layout.{padded_total}

-- The bytes from one pointer on are those from the other pointer on in another memory.
abbrev pub Copied : ℕ → Memory → Pointer → Memory → Pointer → Type 0
Copied size memory p memory' p' =
    (k : ℕ) → k < size → memory' p'.buffer (p'.at + k) ≡ memory p.buffer (p.at + k)

module _ (round_up_to : ℕ → ℕ → ℕ) (rounds : RoundsUp round_up_to) (allocator : Allocator)
    (bytes : ℕ → ℕ) (fd : ℕ) (first rest : Calls) (calls : ℕ → Calls) (stack : ℕ → ℕ)
    (order : ℕ → List ℕ) (file m : Block) (source : Memory) (keys : List U128)
    (blobs : List Span) where
  abbrev padded : ℕ
  padded = round_up_to (header_size (length keys)) align

  abbrev total : ℕ
  total = padded + padded_total round_up_to blobs

-- ===== src/Blob/Tests/Reading.antt =====
-- Reading files of blobs, and the theorems about it at concrete inputs.
use gemma_cpp.Base.{
  ℕ, zero, suc, ◌+◌, ◌-◌, ◌<◌, ◌≡◌, refl, arith, ok, List, [], ◌∷◌, some, none, inl, inr, ◌⊎◌, min,
  ap,
}
use gemma_cpp.Base.Block.{Block}
use gemma_cpp.Blob.{Buffer, BlobIo}
use gemma_cpp.Blob.Io.{Calls, Memory}
use gemma_cpp.Blob.Store.Find.{first_blob}
use gemma_cpp.Blob.Writer.{Elem, Runs}
use gemma_cpp.Blob.Reader.{BlobReader, enqueue, read_all}
use gemma_cpp.Blob.Reader.Enqueue.{Outcome, enqueue-Outcome}
use gemma_cpp.Blob.Reader.Fetch.{AllFetch}
use gemma_cpp.Blob.Reader.Fetch.ReadAll.{Filled, read_all-Filled}
use gemma_cpp.Blob.Tests.{
  at_heap, heap_memory, ten_bytes, two_at_most, two_keys, ragged_blobs, ragged_fit, round_up,
  round_up-RoundsUp, whole, ragged,
}

-- A file with the header of the two aligned blobs, which is read at once.
abbrev whole_file : Block
whole_file = record { size = 1024; byte = λ q. whole.0.byte q }

abbrev pub at_once : Calls
at_once i count offset = some (min count (1024 - offset))

enqueue-Outcome_example :
    Outcome round_up round_up-RoundsUp ragged.0 two_keys ragged_blobs
      (record { lo = 2; hi = 9 })
      (at_heap 4)
      300
      (some 3)
      []
      (some (512, 300))
      (enqueue
        (record { lo = 2; hi = 9 })
        (at_heap 4)
        300
        (record { fd = some 3; blob_store = some ragged.0; requests = [] }))
unfolding first_blob
enqueue-Outcome_example =
    enqueue-Outcome round_up round_up-RoundsUp ragged.0 two_keys ragged_blobs
      (record { lo = 2; hi = 9 }) (at_heap 4) 300 (some 3) [] ragged.3 refl ragged_fit (omega arith)

-- Two requests for parts of a file that overlap, to different buffers.
abbrev two_requests : List BlobIo
two_requests =
    record { offset = 2; size = 3; ptr = record { buffer = Buffer.heap 0; at = 0 }; padding = 0 }
    ∷ record { offset = 4; size = 4; ptr = record { buffer = Buffer.heap 1; at = 5 }; padding = 0 }
    ∷ []

abbrev wanted : Memory
wanted Buffer.header q = 0
wanted Buffer.zeros q = 0
wanted (Buffer.heap zero) q = ten_bytes.byte (2 + q)
wanted (Buffer.heap (suc k)) q = ten_bytes.byte (q - 1)

two_requests-AllFetch : AllFetch ten_bytes wanted two_requests
two_requests-AllFetch = (
  record { inside = omega arith; bytes = λ k h. ap ten_bytes.byte (omega arith) },
  (record { inside = omega arith; bytes = λ k h. ap ten_bytes.byte (omega arith) }, tt),
)

backwards : Runs 2 (1 ∷ 0 ∷ [])
backwards = (inside, all)
  where
    inside : (i : ℕ) → Elem i (1 ∷ 0 ∷ []) → i < 2
    inside i (inl e) = omega arith
    inside i (inr (inl e)) = omega arith
    inside i (inr (inr m)) = absurd m

    all : (i : ℕ) → i < 2 → Elem i (1 ∷ 0 ∷ [])
    all zero h = inr (inl refl)
    all (suc zero) h = inl refl
    all (suc (suc i)) h = absurd (omega arith)

abbrev reader_of_two : BlobReader
reader_of_two = record { fd = some 3; blob_store = none; requests = two_requests }

read_all-Filled_example :
    (memory' : Memory) × ((read_all
          (λ task. two_at_most)
          ten_bytes
          (1 ∷ 0 ∷ [])
          reader_of_two
          heap_memory
        ≡ ok (320, memory'))
      ⊎ ((read_all (λ task. two_at_most) ten_bytes (1 ∷ 0 ∷ []) reader_of_two heap_memory
            ≡ ok (0, memory'))
          × Filled ten_bytes two_requests heap_memory memory'))
read_all-Filled_example =
    read_all-Filled (λ task. two_at_most) ten_bytes (λ task. ground arith) (omega arith) wanted
      reader_of_two two_requests-AllFetch (1 ∷ 0 ∷ []) backwards heap_memory

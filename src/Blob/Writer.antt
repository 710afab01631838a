-- ===== src/Blob/Writer.antt =====
-- class BlobWriter of compression/blob_store.h and compression/blob_store.cc.
-- hwy::ThreadPool::Run calls its function once for each task, in an order that is not specified: the
-- order is a parameter, and a task is one step. PrepareWriteRequests frees the header
-- before the tasks write it, so what they read there is a parameter, `freed`.
pub mod Image
pub mod Tasks
pub mod File
use gemma_cpp.Base.{
  ℕ, ◌<◌, ◌≡◌, ok, failed, ◌>>=◌, ◌>>◌, check, Bool, true, false, not, ◌||◌, ◌==◌, List, [], ◌∷◌,
  ◌++◌, length, get_elem?, Option, none, some, ◌⊎◌, if◌then◌else◌,
}
use gemma_cpp.Base.Block.{Block}
use gemma_cpp.Blob.{Run, Fault, U128, Buffer, BlobIo, Span, Pointer, BlobError}
use gemma_cpp.Blob.Io.{Calls, Memory, io_write}
use gemma_cpp.Blob.Store.{Allocator, prepare_write_requests}

pub record BlobWriter : Type 0 where
  pub keys : List U128
  pub blobs : List Span

unfoldable pub add : BlobWriter → U128 → Pointer → ℕ → BlobWriter
add w key ptr size = record {
  keys = w.keys ++ key ∷ [];
  blobs = w.blobs ++ record { ptr = ptr; size = size } ∷ [];
}

-- The element is in the list.
abbrev pub Elem : ℕ → List ℕ → Type 0
Elem i [] = ⊥
Elem i (j ∷ js) = (i ≡ j) ⊎ Elem i js

-- The tasks from 0 up to `n`, and no others.
abbrev pub Runs : ℕ → List ℕ → Type 0
Runs n order = ((i : ℕ) → Elem i order → i < n) × ((i : ℕ) → i < n → Elem i order)

-- What the tasks read through the pointers of the requests.
abbrev pub at_write : Memory → (Block → ℕ → ℕ) → Block → Memory
at_write memory freed header Buffer.header = freed header
at_write memory freed header Buffer.zeros = λ _. 0
at_write memory freed header (Buffer.heap k) = memory (Buffer.heap k)

-- The tasks in the given order: whether one has set `err`, and the file.
unfoldable pub write_tasks :
    (ℕ → Calls) → Memory → List BlobIo → List ℕ → Bool → Block → Run (Bool × Block)
write_tasks calls memory requests [] err file = ok (err, file)
write_tasks calls memory requests (i ∷ order) err file = elim (get_elem? requests i) [
  | none ↦ failed Fault.out_of_bounds
  | some r ↦ do
    (done, file') ← io_write (calls i) memory r.ptr r.size r.offset file
    write_tasks calls memory requests order (err || not done) file'
]

abbrev pub empty_file : Block
empty_file = record { size = 0; byte = λ _. 0 }

-- BlobWriter::WriteAll. `opened` says whether `open` could create or empty the file.
unfoldable pub write_all :
    (ℕ → ℕ → ℕ)
    → Allocator
    → (Block → ℕ → ℕ)
    → (ℕ → Calls)
    → Bool
    → Memory
    → List ℕ
    → BlobWriter
    → Run (BlobError × Option Block)
write_all round_up_to allocator freed calls opened memory order w = do
  check (length w.keys == length w.blobs) (Fault.abort 326)
  (requests, header) ← prepare_write_requests round_up_to allocator w.keys w.blobs
  elim opened [
    | false ↦ ok (334, none)
    | true ↦ do
      (err, file) ← write_tasks calls (at_write memory freed header) requests order false empty_file
      ok (if err then 344 else 0, some file)
  ]

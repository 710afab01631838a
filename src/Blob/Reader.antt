-- ===== src/Blob/Reader.antt =====
-- class BlobReader of compression/blob_store.h and compression/blob_store.cc.
-- What `open` and the calls of pread and lseek return, the bytes of new memory and those of the
-- uninitialised `bs` on the stack are parameters. A file descriptor is `none` if it is negative.
pub mod Open
pub mod Enqueue
pub mod Fetch
use gemma_cpp.Base.{
  ℕ, ◌-◌, ok, failed, ◌>>=◌, ◌>>◌, check, Bool, true, false, not, ◌||◌, ◌==◌, leb, List, [], ◌∷◌,
  get_elem?, Option, none, some, if◌then◌else◌,
}
use gemma_cpp.Base.Block.{Block, slice, store}
use gemma_cpp.Blob.{Run, Fault, U128, Buffer, BlobIo, Pointer, BlobError}
use gemma_cpp.Blob.Chunks.{enqueue_chunk_requests}
use gemma_cpp.Blob.Io.{Calls, Memory, io_file_size, io_read}
use gemma_cpp.Blob.Store.{
  Allocator, store_size, poke, padded_header_size, allocate, check_validity, find_key,
}

pub record BlobReader : Type 0 where
  pub fd : Option ℕ
  pub blob_store : Option Block
  pub requests : List BlobIo

abbrev pub new_reader : BlobReader
new_reader = record { fd = some 0; blob_store = none; requests = [] }

-- `BlobStore bs` on the stack, after the read into it.
abbrev pub first_part : (ℕ → ℕ) → List ℕ → Block
first_part stack got = record { size = store_size; byte = store stack 0 got }

module _ (round_up_to : ℕ → ℕ → ℕ) where
  -- The end of BlobReader::Open, from the allocation of the full header on.
  unfoldable pub open_rest :
      Option Block
      → Calls
      → Option (Option ℕ)
      → Block
      → Block
      → ℕ
      → BlobReader
      → Run (BlobError × BlobReader)
  open_rest none rest end file bs padded_size reader = ok (271, record reader { blob_store = none })
  open_rest (some m₀) rest end file bs padded_size reader = do
    m₁ ← poke m₀ 0 (slice bs.byte 0 store_size)
    (done, got) ← io_read rest file store_size (padded_size - store_size)
    m₂ ← poke m₁ store_size got
    elim done [
      | false ↦ ok (279, record reader { blob_store = some m₂ })
      | true ↦ do
        (error, m₃) ← check_validity round_up_to m₂ (io_file_size end)
        ok (error, record reader { blob_store = some m₃ })
    ]

  -- BlobReader::Open. `first` and `rest` are the calls of pread of the two reads.
  unfoldable pub open_reader :
      Allocator
      → Option ℕ
      → Calls
      → Calls
      → Option (Option ℕ)
      → (ℕ → ℕ)
      → Block
      → BlobReader
      → Run (BlobError × BlobReader)
  open_reader allocator none first rest end stack file reader =
      ok (256, record reader { fd = none })
  open_reader allocator (some fd) first rest end stack file reader = do
    (done, got) ← io_read first file 0 store_size
    elim done [
      | false ↦ ok (265, record reader { fd = some fd })
      | true ↦ do
        padded_size ← padded_header_size round_up_to (first_part stack got)
        check (leb store_size padded_size) (Fault.abort 267)
        allocated ← allocate round_up_to allocator padded_size
        open_rest allocated rest end file (first_part stack got) padded_size
            (record reader { fd = some fd })
    ]

-- BlobReader::~BlobReader. `closed` says whether `close` succeeds.
unfoldable pub close_reader : Bool → BlobReader → Run (Unit {0})
close_reader closed reader = elim reader.fd [
  | none ↦ ok tt
  | some fd ↦ check closed (Fault.abort 287)
]

-- BlobReader::Enqueue
unfoldable pub enqueue : U128 → Pointer → ℕ → BlobReader → Run (BlobError × BlobReader)
enqueue key data_ptr size reader = elim reader.blob_store [
  | none ↦ failed Fault.null_pointer
  | some m ↦ do
    found ← find_key m key
    elim found [
      | none ↦ ok (294, reader)
      | some r ↦ elim (r.1 == size) [
        | false ↦ ok (295, reader)
        | true ↦ do
          requests ← enqueue_chunk_requests r.0 r.1 data_ptr reader.requests
          ok (0, record reader { requests = requests })
      ]
    ]
]

abbrev pub same_buffer : Buffer → Buffer → Bool
same_buffer Buffer.header Buffer.header = true
same_buffer Buffer.zeros Buffer.zeros = true
same_buffer (Buffer.heap j) (Buffer.heap k) = j == k
same_buffer a b = false

-- The memory with the bytes at the pointer.
abbrev pub store_at : Memory → Pointer → List ℕ → Memory
store_at memory ptr bytes b =
    if same_buffer b ptr.buffer then store (memory b) ptr.at bytes else memory b

-- The tasks in the given order: whether one has set `err`, and the memory.
unfoldable pub read_tasks :
    (ℕ → Calls) → Block → List BlobIo → List ℕ → Bool → Memory → Run (Bool × Memory)
read_tasks calls file requests [] err memory = ok (err, memory)
read_tasks calls file requests (i ∷ order) err memory = elim (get_elem? requests i) [
  | none ↦ failed Fault.out_of_bounds
  | some r ↦ do
    (done, got) ← io_read (calls i) file r.offset r.size
    read_tasks calls file requests order (err || not done) (store_at memory r.ptr got)
]

-- BlobReader::ReadAll
unfoldable pub read_all :
    (ℕ → Calls) → Block → List ℕ → BlobReader → Memory → Run (BlobError × Memory)
read_all calls file order reader memory = do
  (err, memory') ← read_tasks calls file reader.requests order false memory
  ok (if err then 320 else 0, memory')

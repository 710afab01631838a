-- ===== src/Blob.antt =====
-- compression/blob_store.h and compression/blob_store.cc: a file of aligned blobs behind a header of
-- keys. The children follow the classes and functions: `Chunks` (EnqueueChunkRequests), `Io` (struct
-- IO), `Store` (class BlobStore), `Writer` and `Reader` (the classes of the header file).
-- Numbers of type uint64_t and size_t are below 2 ^ 64; sums that could wrap are written `add64`.
pub mod Key
pub mod Chunks
pub mod Io
pub mod Store
pub mod Writer
pub mod Reader
pub mod RoundTrip
pub mod Tests
use gemma_cpp.Base.{ℕ, ◌+◌, ◌%◌, ◌^◌, Checked, List}

-- How a run can stop: an HWY_ASSERT or HWY_ABORT at a line of the source, an access outside of an
-- allocation, the use of a null pointer; or a loop of the model has used up its fuel.
pub data Fault : Type 0 where
  abort : ℕ → Fault
  out_of_bounds null_pointer out_of_fuel : Fault

abbrev pub Run {ℓ} : Type ℓ → Type ℓ
Run A = Checked Fault A

-- hwy::uint128_t
pub record U128 : Type 0 where
  pub lo : ℕ
  pub hi : ℕ

-- An allocation that a pointer points into: the header that PrepareWriteRequests allocates, its
-- static `zeros`, or memory of the caller.
pub data Buffer : Type 0 where
  header zeros : Buffer
  heap : ℕ → Buffer

pub record Pointer : Type 0 where
  pub buffer : Buffer
  pub at : ℕ

-- struct BlobIO
pub record BlobIo : Type 0 where
  pub offset : ℕ
  pub size : ℕ
  pub ptr : Pointer
  pub padding : ℕ

-- hwy::Span<uint8_t>
pub record Span : Type 0 where
  pub ptr : Pointer
  pub size : ℕ

-- BlobError: 0, or the line number of the failing check.
abbrev pub BlobError : Type 0
BlobError = ℕ

abbrev pub add64 : ℕ → ℕ → ℕ
add64 a b = (a + b) % 2 ^ 64

-- data + pos
abbrev pub advance : Pointer → ℕ → Pointer
advance p n = record p { at = p.at + n }

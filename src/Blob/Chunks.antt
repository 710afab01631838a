-- ===== src/Blob/Chunks.antt =====
-- EnqueueChunkRequests of compression/blob_store.cc, which splits a blob into requests.
pub mod Tiling
use gemma_cpp.Base.{
  ℕ, zero, suc, ◌+◌, ◌-◌, ◌*◌, ◌/◌, ok, failed, ◌>>=◌, true, false, leb, ◌==◌, if◌then◌else◌, List,
  [], ◌∷◌, ◌++◌,
}
use gemma_cpp.Blob.{Run, Fault, Pointer, BlobIo, add64, advance}

-- kChunkSize
abbrev pub chunk_size : ℕ
chunk_size = 4 * 1024 * 1024

-- `for (; pos <= size - kChunkSize; pos += kChunkSize)`, with the requests so far.
unfoldable pub chunk_loop : ℕ → ℕ → ℕ → Pointer → ℕ → List BlobIo → Run (List BlobIo × ℕ)
chunk_loop zero offset size ptr pos requests = failed Fault.out_of_fuel
chunk_loop (suc fuel) offset size ptr pos requests = elim (leb pos (size - chunk_size)) [
  | true ↦ chunk_loop fuel offset size ptr (add64 pos chunk_size) (
      requests
      ++ record { offset = add64 offset pos; size = chunk_size; ptr = advance ptr pos; padding = 0 }
        ∷ [])
  | false ↦ ok (requests, pos)
]

-- The loop makes size / kChunkSize rounds and one last test.
unfoldable pub enqueue_chunk_requests : ℕ → ℕ → Pointer → List BlobIo → Run (List BlobIo)
enqueue_chunk_requests offset size ptr requests = do
  (requests', pos) ←
      if leb chunk_size size
      then chunk_loop (size / chunk_size + 1) offset size ptr 0 requests
      else ok (requests, 0)
  ok (
      if pos == size
      then requests'
      else requests'
        ++ record {
          offset = add64 offset pos;
          size = size - pos;
          ptr = advance ptr pos;
          padding = 0;
        }
          ∷ [])

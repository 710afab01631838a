-- ===== src/Blob/Tests.antt =====
-- Small files of blobs, and the theorems about them at concrete inputs.
mod Reading
mod Keys
mod Again
use gemma_cpp.Base.{
  zero, suc, inl, inr, ◌⊎◌, ℕ, ◌+◌, ◌-◌, ◌*◌, ◌/◌, ◌^◌, ◌≤◌, ◌<◌, ◌≡◌, refl, arith, ok, failed,
  true, false, List, [], ◌∷◌, ◌++◌, none, some, ◌==◌, inl, inr, length, min, Returns,
}
use native.Mathlib.Nat.{mul-mod_left, lt-div-mul-add, div-mul-le_self}
use gemma_cpp.Base.Block.{Block, slice, le_bytes}
use gemma_cpp.Blob.{Run, Fault, U128, Buffer, Pointer, BlobIo, Span}
use gemma_cpp.Blob.Chunks.{enqueue_chunk_requests}
use gemma_cpp.Blob.Chunks.Tiling.{Tiles, enqueue_chunk_requests-Tiles}
use gemma_cpp.Blob.Io.{Calls, Memory, io_read, io_write}
use gemma_cpp.Blob.Io.Reads.{io_read-prefix, io_read_complete}
use gemma_cpp.Blob.Io.Writes.{Wrote, io_write-Wrote, io_write_complete}
use gemma_cpp.Blob.Store.{RoundsUp, prepare_write_requests, check_validity, find_key}
use gemma_cpp.Blob.Store.{
  allocate, zero_fill_padding, load, poke, poke_key, copy_keys, payload_loop, enqueue_padding,
  fill_loop,
}
use gemma_cpp.Blob.Writer.{BlobWriter, Elem, Runs, at_write, empty_file, write_all}
use gemma_cpp.Blob.Writer.Image.{file_image}
use gemma_cpp.Blob.Writer.File.{IsImage, write_all-IsImage, write_all_complete}
use gemma_cpp.Blob.Store.Layout.{KeysFit, SizesFit, IsHeader, Plan, padded_total}
use gemma_cpp.Blob.Store.Written.{header_request, prepare_write_requests-IsHeader}
use gemma_cpp.Blob.Store.Validity.{check_validity_accepts, check_validity_overruns}
use gemma_cpp.Blob.Store.Find.{first_blob, find_key-first_blob}

abbrev pub round_up : ℕ → ℕ → ℕ
round_up what a = (what + a - 1) / a * a

pub round_up-RoundsUp : RoundsUp round_up
round_up-RoundsUp what a h f =
    let x = what + a - 1 in
    let above : x < x / a * a + a = lt-div-mul-add h in
    let below : x / a * a ≤ x = div-mul-le_self x a in
    (omega arith, omega arith, mul-mod_left (x / a) a)

abbrev at_heap : ℕ → Pointer
at_heap k = record { buffer = Buffer.heap k; at = 0 }

enqueue_chunk_requests-Tiles_example :
    Returns
      (enqueue_chunk_requests 256 10000000 (at_heap 0) [])
      λ rs. (new : List BlobIo) × (rs ≡ [] ++ new) × Tiles 256 10000000 (at_heap 0) new
enqueue_chunk_requests-Tiles_example =
    enqueue_chunk_requests-Tiles 256 10000000 (at_heap 0) (omega arith) []

-- A file of ten bytes, calls that transfer two bytes at most, and memory.
abbrev ten_bytes : Block
ten_bytes = record { size = 10; byte = λ q. q * q }

abbrev two_at_most : Calls
two_at_most i count offset = some (min 2 (min count (10 - offset)))

abbrev heap_memory : Memory
heap_memory buffer q = 7 * q + 1

-- Two keys, with blobs that fill their last block, and with one that does not.
abbrev pub two_keys : List U128
two_keys = record { lo = 1; hi = 0 } ∷ record { lo = 2; hi = 9 } ∷ []

abbrev pub whole_blobs : List Span
whole_blobs = record { ptr = at_heap 0; size = 256 } ∷ record { ptr = at_heap 1; size = 512 } ∷ []

abbrev ragged_blobs : List Span
ragged_blobs = record { ptr = at_heap 0; size = 256 } ∷ record { ptr = at_heap 1; size = 300 } ∷ []

two_keys_fit : KeysFit two_keys
two_keys_fit = (omega arith, omega arith, (omega arith, omega arith, tt))

ragged_fit : SizesFit ragged_blobs
ragged_fit = (omega arith, (omega arith, tt))

prepare_write_requests-IsHeader_example :
    (m : Block) × (rs : List BlobIo) × (prepare_write_requests round_up
        (λ n. some (λ q. 5))
        two_keys
        ragged_blobs
      ≡ ok (header_request 256 ∷ rs, m))
    × IsHeader round_up m two_keys ragged_blobs
    × Plan round_up 256 ragged_blobs rs
prepare_write_requests-IsHeader_example =
    prepare_write_requests-IsHeader round_up round_up-RoundsUp (λ n. some (λ q. 5)) (λ q. 5)
      two_keys ragged_blobs refl refl (omega arith) two_keys_fit ragged_fit (omega arith)

-- The header that the writer fills for the blobs.
abbrev pub Prepared : List Span → Type 0
Prepared blobs =
    (m : Block) × (rs : List BlobIo) × (prepare_write_requests round_up (λ n. some (λ q. 5))
        two_keys blobs
      ≡ ok (header_request 256 ∷ rs, m))
    × IsHeader round_up m two_keys blobs
    × Plan round_up 256 blobs rs

prepared :
    (blobs : List Span)
    → 2 ≡ length blobs
    → SizesFit blobs
    → 256 + padded_total round_up blobs < 2 ^ 64
    → Prepared blobs
prepared blobs same sizes =
    prepare_write_requests-IsHeader round_up round_up-RoundsUp (λ n. some (λ q. 5)) (λ q. 5)
      two_keys blobs refl same (omega arith) two_keys_fit sizes

pub whole : Prepared whole_blobs
whole = prepared whole_blobs refl (omega arith, (omega arith, tt)) (omega arith)

ragged : Prepared ragged_blobs
ragged = prepared ragged_blobs refl ragged_fit (omega arith)

check_validity_accepts_example :
    (m : Block) × (check_validity round_up whole.0 1024 ≡ ok (0, m))
    × IsHeader round_up m two_keys whole_blobs
check_validity_accepts_example =
    check_validity_accepts round_up round_up-RoundsUp whole.0 two_keys whole_blobs whole.3 refl
      (omega arith) (omega arith) (omega arith, (omega arith, tt)) (omega arith) (refl, (refl, tt))

check_validity_overruns_example : check_validity round_up ragged.0 1024 ≡ failed Fault.out_of_bounds
check_validity_overruns_example =
    check_validity_overruns round_up round_up-RoundsUp ragged.0 two_keys ragged_blobs ragged.3 refl
      (omega arith) (omega arith) ragged_fit (omega arith) (inr (inl (λ e. omega arith)))

find_key-first_blob_example : find_key ragged.0 (record { lo = 2; hi = 9 }) ≡ ok (some (512, 300))
unfolding first_blob
find_key-first_blob_example =
    find_key-first_blob round_up ragged.0 two_keys ragged_blobs (record { lo = 2; hi = 9 }) ragged.3
      refl

-- The writer of the two blobs: the header, the blobs and one padding, in some order of tasks.
abbrev writer : BlobWriter
writer = record { keys = two_keys; blobs = ragged_blobs }

abbrev four_requests : List BlobIo
four_requests =
    header_request 256
    ∷ record { offset = 256; size = 256; ptr = at_heap 0; padding = 0 }
    ∷ record { offset = 512; size = 300; ptr = at_heap 1; padding = 0 }
    ∷ record {
      offset = 812;
      size = 212;
      ptr = record { buffer = Buffer.zeros; at = 0 };
      padding = 0;
    }
    ∷ []

abbrev memory_of : Run (List BlobIo × Block) → Block
memory_of (ok r) = r.1
memory_of (failed e) = empty_file

abbrev ragged_header : Block
ragged_header =
    memory_of (prepare_write_requests round_up (λ n. some (λ q. 5)) two_keys ragged_blobs)

ragged_requests :
    prepare_write_requests round_up (λ n. some (λ q. 5)) two_keys ragged_blobs
    ≡ ok (four_requests, ragged_header)
unfolding prepare_write_requests allocate zero_fill_padding load poke poke_key copy_keys
    payload_loop enqueue_padding fill_loop enqueue_chunk_requests le_bytes
ragged_requests = refl

abbrev order : List ℕ
order = 2 ∷ 0 ∷ 3 ∷ 1 ∷ []

order-Runs : Runs 4 order
order-Runs = (inside, all)
  where
    inside : (i : ℕ) → Elem i order → i < 4
    inside i (inl e) = omega arith
    inside i (inr (inl e)) = omega arith
    inside i (inr (inr (inl e))) = omega arith
    inside i (inr (inr (inr (inl e)))) = omega arith
    inside i (inr (inr (inr (inr m)))) = absurd m

    all : (i : ℕ) → i < 4 → Elem i order
    all zero h = inr (inl refl)
    all (suc zero) h = inr (inr (inr (inl refl)))
    all (suc (suc zero)) h = inl refl
    all (suc (suc (suc zero))) h = inr (inr (inl refl))
    all (suc (suc (suc (suc i)))) h = absurd (omega arith)

abbrev one_at_most : ℕ → Calls
one_at_most task i count offset = some (min 1 count)

write_all-IsImage_example :
    (write_all round_up (λ n. some (λ q. 5)) (λ m q. 9) one_at_most false heap_memory order writer
      ≡ ok (334, none))
    × (f : Block) × ((write_all round_up
            (λ n. some (λ q. 5))
            (λ m q. 9)
            one_at_most
            true
            heap_memory
            order
            writer
          ≡ ok (344, some f))
        ⊎ ((write_all round_up
                (λ n. some (λ q. 5))
                (λ m q. 9)
                one_at_most
                true
                heap_memory
                order
                writer
              ≡ ok (0, some f))
            × IsImage 1024
                (file_image round_up
                  (at_write heap_memory (λ m q. 9) ragged_header)
                  256
                  ragged_blobs)
                f))
write_all-IsImage_example =
    write_all-IsImage round_up round_up-RoundsUp (λ n. some (λ q. 5)) (λ q. 5) (λ m q. 9)
      one_at_most heap_memory order writer refl (omega arith) two_keys_fit ragged_fit (omega arith)
      refl (λ task i count offset n e. ground arith) four_requests ragged_header ragged_requests
      order-Runs

write_all_complete_example :
    (f : Block) × (write_all round_up
        (λ n. some (λ q. 5))
        (λ m q. 9)
        one_at_most
        true
        heap_memory
        order
        writer
      ≡ ok (0, some f))
    × IsImage 1024
        (file_image round_up (at_write heap_memory (λ m q. 9) ragged_header) 256 ragged_blobs)
        f
write_all_complete_example =
    write_all_complete round_up round_up-RoundsUp (λ n. some (λ q. 5)) (λ q. 5) (λ m q. 9)
      one_at_most heap_memory order writer refl (omega arith) two_keys_fit ragged_fit (omega arith)
      refl (λ task i count offset n e. ground arith) four_requests ragged_header ragged_requests
      order-Runs 1024 (λ task i count offset. (_, refl, λ a b. omega arith)) (omega arith)

-- ===== src/Blob/Io.antt =====
-- struct IO of compression/blob_store.cc: reads and writes that repeat a system call until all is
-- transferred. How many bytes a call of pread or pwrite transfers is the kernel's choice, and a
-- parameter: `calls i count offset` is the result of the i-th call, `none` for -1. What a
-- call transfers are the bytes of the file from `offset` on.
pub mod Reads
pub mod Writes
use gemma_cpp.Base.{
  ℕ, zero, suc, ◌+◌, ◌-◌, ◌≤◌, ◌<◌, ◌≡◌, ok, failed, ◌>>=◌, ◌>>◌, check, Bool, true, false, leb,
  ◌==◌, List, ◌++◌, max, length, Option, none, some,
}
use gemma_cpp.Base.Block.{Block, slice, store}
use gemma_cpp.Blob.{Run, Fault, Pointer, Buffer, add64, advance}

abbrev pub Calls : Type 0
Calls = ℕ → ℕ → ℕ → Option ℕ

-- pread transfers at most `count` bytes, and none behind the end of the file.
abbrev pub Preads : Calls → ℕ → Type 0
Preads calls size =
    (i count offset n : ℕ) → calls i count offset ≡ some n → (n ≤ count) × (n ≤ size - offset)

-- pwrite transfers at most `count` bytes.
abbrev pub Pwrites : Calls → Type 0
Pwrites calls = (i count offset n : ℕ) → calls i count offset ≡ some n → n ≤ count

-- No call fails, and each transfers a byte where there is one to transfer before `limit`.
abbrev pub Progresses : Calls → ℕ → Type 0
Progresses calls limit =
    (i count offset : ℕ)
    → (n : ℕ) × (calls i count offset ≡ some n) × (0 < count → offset < limit → 0 < n)

-- IO::FileSize: 0 if the file cannot be opened or its end not be found.
unfoldable pub io_file_size : Option (Option ℕ) → ℕ
io_file_size none = 0
io_file_size (some none) = 0
io_file_size (some (some size)) = size

-- The loop of IO::Read, with the bytes that it has stored to `to`.
unfoldable pub read_loop : Calls → (ℕ → ℕ) → ℕ → ℕ → ℕ → ℕ → ℕ → List ℕ → Run (Bool × List ℕ)
read_loop calls file zero i offset size pos got = failed Fault.out_of_fuel
read_loop calls file (suc fuel) i offset size pos got =
    elim (calls i (size - pos) (add64 offset pos)) [
      | none ↦ ok (pos == size, got)
      | some n ↦ elim (n == 0) [
        | true ↦ ok (pos == size, got)
        | false ↦ do
          let pos' = add64 pos n
          let got' = got ++ slice file (add64 offset pos) n
          check (leb pos' size) (Fault.abort 90)
          elim (pos' == size) [
            | true ↦ ok (pos' == size, got')
            | false ↦ read_loop calls file fuel (suc i) offset size pos' got'
          ]
      ]
    ]

-- IO::Read: whether it succeeds, and the bytes from `to` on. Each round but the last reads a byte.
unfoldable pub io_read : Calls → Block → ℕ → ℕ → Run (Bool × List ℕ)
io_read calls file offset size = read_loop calls file.byte (suc size) 0 offset size 0 List.[]

-- What pwrite does to the file.
abbrev pub write_at : Block → ℕ → List ℕ → Block
write_at file offset bytes = record {
  size = max file.size (offset + length bytes);
  byte = store file.byte offset bytes;
}

-- The memory that pointers point into.
abbrev pub Memory : Type 0
Memory = Buffer → ℕ → ℕ

unfoldable pub write_loop :
    Calls → Memory → Pointer → ℕ → ℕ → ℕ → ℕ → ℕ → Block → Run (Bool × Block)
write_loop calls memory from zero i size offset pos file = failed Fault.out_of_fuel
write_loop calls memory from (suc fuel) i size offset pos file =
    elim (calls i (size - pos) (add64 offset pos)) [
      | none ↦ ok (pos == size, file)
      | some n ↦ elim (n == 0) [
        | true ↦ ok (pos == size, file)
        | false ↦ do
          let pos' = add64 pos n
          let file' =
              write_at file (add64 offset pos) (slice (memory from.buffer) (from.at + pos) n)
          check (leb pos' size) (Fault.abort 104)
          elim (pos' == size) [
            | true ↦ ok (pos' == size, file')
            | false ↦ write_loop calls memory from fuel (suc i) size offset pos' file'
          ]
      ]
    ]

-- IO::Write: whether it succeeds, and the file.
unfoldable pub io_write : Calls → Memory → Pointer → ℕ → ℕ → Block → Run (Bool × Block)
io_write calls memory from size offset file =
    write_loop calls memory from (suc size) 0 size offset 0 file

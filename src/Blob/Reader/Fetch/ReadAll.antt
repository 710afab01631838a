-- ===== src/Blob/Reader/Fetch/ReadAll.antt =====
-- BlobReader::ReadAll as a whole.
use gemma_cpp.Base.{
  get_elem?-inside, get_elem?-some, ℕ, ◌+◌, ◌^◌, ◌<◌, ◌≡◌, ◌⊎◌, inl, inr, refl, Bool, false, ok,
  List, ◌∙◌, ap, subst, get_elem?, some, length, Bool-cases, if◌then◌else◌,
}
use gemma_cpp.Base.Block.{Block}
use gemma_cpp.Blob.{Buffer, BlobIo}
use gemma_cpp.Blob.Io.{Calls, Preads, Progresses, Memory}
use gemma_cpp.Blob.Writer.{Runs}
use gemma_cpp.Blob.Reader.{BlobReader, read_tasks, read_all}
use gemma_cpp.Blob.Reader.Fetch.{AllFetch, AllFetch-get, Outside}
use gemma_cpp.Blob.Reader.Fetch.Tasks.{Ended, read_tasks-Ended}

-- The memory after a run of all requests: the bytes of the file where a request wants them, and the
-- old bytes elsewhere.
pub record Filled (file : Block) (requests : List BlobIo) (memory memory' : Memory) : Type 0 where
  pub fetched :
      (i k : ℕ) (r : BlobIo)
      → get_elem? requests i ≡ some r
      → k < r.size
      → memory' r.ptr.buffer (r.ptr.at + k) ≡ file.byte (r.offset + k)
  pub untouched :
      (b : Buffer) (q : ℕ)
      → ((i : ℕ) (r : BlobIo) → get_elem? requests i ≡ some r → Outside r b q)
      → memory' b q ≡ memory b q

module _ (calls : ℕ → Calls) (file : Block) (reads : (i : ℕ) → Preads (calls i) file.size)
    (fits : file.size < 2 ^ 64) (wanted : Memory) (reader : BlobReader)
    (fetch : AllFetch file wanted reader.requests) (order : List ℕ)
    (runs : Runs (length reader.requests) order) (memory : Memory) where
  tasks_run :
      (err : Bool) × (memory' : Memory) × Ended calls file reads fits wanted reader.requests fetch
        order false err memory memory'
  tasks_run =
      read_tasks-Ended calls file reads fits wanted reader.requests fetch order false memory
        (λ i m. get_elem?-inside reader.requests i (runs.0 i m))

  Ended-Filled :
      (memory' : Memory)
      → Ended calls file reads fits wanted reader.requests fetch order false false memory memory'
      → Filled file reader.requests memory memory'
  Ended-Filled memory' t = record {
    fetched = λ i k r e l.
        t.fetched refl i k r (runs.1 i (get_elem?-some reader.requests i r e)) e l
        ∙ (AllFetch-get file wanted reader.requests i r fetch e).bytes k l;
    untouched = t.untouched;
  }

  read_all_run :
      (err : Bool) (memory' : Memory)
      → read_tasks calls file reader.requests order false memory ≡ ok (err, memory')
      → read_all calls file order reader memory ≡ ok (if err then 320 else 0, memory')
  unfolding read_all
  read_all_run err memory' t = rw t

  -- ReadAll stops at no assertion, whatever the order of the tasks and however much a call of pread
  -- transfers. It returns 0 or 320; if it returns 0, every request has its bytes of the file in
  -- memory and nothing else is changed. The requests lie in the file, no two of them
  -- want different bytes at one place, each has its task, and a pread transfers no more than there is.
  pub read_all-Filled :
      (memory' : Memory) × ((read_all calls file order reader memory ≡ ok (320, memory'))
        ⊎ ((read_all calls file order reader memory ≡ ok (0, memory'))
            × Filled file reader.requests memory memory'))
  read_all-Filled =
      let (err, memory', t) = tasks_run in
      let run = read_all_run err memory' t.run in
      elim (Bool-cases err) [
        | inl failing ↦ (memory', inl (run ∙ ap (λ e. ok (if e then 320 else 0, memory')) failing))
        | inr fine ↦ (
          memory',
          inr (
            run ∙ ap (λ e. ok (if e then 320 else 0, memory')) fine,
            Ended-Filled memory' (
                subst
                  (λ e.
                    Ended calls file reads fits wanted reader.requests fetch order false e memory
                      memory')
                  fine t),
          ),
        )
      ]

  -- If the calls of pread also make progress, ReadAll returns 0 with that memory.
  pub read_all_complete :
      ((i : ℕ) → Progresses (calls i) file.size)
      → (memory' : Memory) × (read_all calls file order reader memory ≡ ok (0, memory'))
        × Filled file reader.requests memory memory'
  read_all_complete go =
      let (err, memory', t) = tasks_run in
      let fine : err ≡ false = t.complete go in
      (
        memory',
        read_all_run err memory' t.run ∙ ap (λ e. ok (if e then 320 else 0, memory')) fine,
        Ended-Filled memory' (
            subst
              (λ e.
                Ended calls file reads fits wanted reader.requests fetch order false e memory
                  memory')
              fine t),
      )

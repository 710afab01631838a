-- ===== src/Blob/Writer/File.antt =====
-- The file that BlobWriter::WriteAll leaves.
use gemma_cpp.Base.{
  get_elem?-inside, get_elem?-some, ◌-◌, ℕ, ◌+◌, ◌^◌, ◌≤◌, ◌<◌, ◌≡◌, refl, arith, Bool, true, false,
  ok, List, ◌∷◌, ◌∙◌, ap, none, some, ◌⊎◌, inl, inr, dec_lt, ==_self, if◌then◌else◌, subst, length,
  Bool-cases, lt→ltb, ge→ltb,
}
use gemma_cpp.Base.Block.{Block}
use gemma_cpp.Blob.{BlobIo}
use gemma_cpp.Blob.Io.{Calls, Pwrites, Progresses, Memory}
use gemma_cpp.Blob.Store.{RoundsUp, Allocator, align, header_size, prepare_write_requests}
use gemma_cpp.Blob.Store.Layout.{KeysFit, SizesFit, padded_total}
use gemma_cpp.Blob.Store.Written.{header_request, prepare_write_requests-IsHeader}
use gemma_cpp.Blob.Writer.{BlobWriter, Runs, at_write, write_tasks, empty_file, write_all}
use gemma_cpp.Blob.Writer.Image.{BackToBack, Covers, Plan-Covers, file_image, BackToBack-covers}
use gemma_cpp.Blob.Writer.Tasks.{Ended, write_tasks-Ended}

-- The file has this size, and these bytes.
pub record IsImage (size : ℕ) (image : ℕ → ℕ) (f : Block) : Type 0 where
  pub size_lem : f.size ≡ size
  pub byte_lem : (q : ℕ) → q < size → f.byte q ≡ image q

module _ (calls : ℕ → Calls) (writes : (i : ℕ) → Pwrites (calls i)) (memory : Memory)
    (image : ℕ → ℕ) (end : ℕ) (fits : end < 2 ^ 64) (requests : List BlobIo)
    (covers : Covers memory image 0 end 0 requests end) (order : List ℕ)
    (runs : Runs (length requests) order) where
  -- All tasks have run; without an error every byte is right.
  tasks_of :
      (err : Bool) × (f : Block) × Ended calls writes memory image end fits requests covers.1 order
        false err empty_file f
  tasks_of =
      write_tasks-Ended calls writes memory image end fits requests covers.1 order false empty_file
        (omega arith) (λ i m. get_elem?-inside requests i (runs.0 i m))

  Ended-IsImage :
      (f : Block)
      → Ended calls writes memory image end fits requests covers.1 order false false empty_file f
      → IsImage end image f
  Ended-IsImage f t = record {
    size_lem = elim (dec_lt 0 end) [
      | yes some_bytes ↦ omega (arith, t.size, (all (end - 1) (omega arith)).0)
      | no none_at_all ↦ omega (arith, t.size)
    ];
    byte_lem = λ q h. (all q h).1;
  }
    where
      all : (q : ℕ) → q < end → (q < f.size) × (f.byte q ≡ image q)
      all q h =
          let (i, r, e, l, u) = BackToBack-covers 0 end q requests covers.0 (omega arith) h in
          t.written refl i q r (runs.1 i (get_elem?-some requests i r e)) e (l, u)

module _ (round_up_to : ℕ → ℕ → ℕ) (rounds : RoundsUp round_up_to) (allocator : Allocator)
    (bytes : ℕ → ℕ) (freed : Block → ℕ → ℕ) (calls : ℕ → Calls) (memory : Memory) (order : List ℕ)
    (w : BlobWriter) where
  abbrev padded : ℕ
  padded = round_up_to (header_size (length w.keys)) align

  abbrev total : ℕ
  total = padded + padded_total round_up_to w.blobs

  abbrev image_of : Block → ℕ → ℕ
  image_of header = file_image round_up_to (at_write memory freed header) padded w.blobs

  write_all_run :
      (requests : List BlobIo) (header : Block) (err : Bool) (f : Block)
      → length w.keys ≡ length w.blobs
      → prepare_write_requests round_up_to allocator w.keys w.blobs ≡ ok (requests, header)
      → write_tasks calls (at_write memory freed header) requests order false empty_file
        ≡ ok (err, f)
      → write_all round_up_to allocator freed calls true memory order w
        ≡ ok (if err then 344 else 0, some f)
  unfolding write_all
  write_all_run requests header err f same e t = rw (same, ==_self (length w.blobs), e, t)

  write_all_unopened :
      (requests : List BlobIo) (header : Block)
      → length w.keys ≡ length w.blobs
      → prepare_write_requests round_up_to allocator w.keys w.blobs ≡ ok (requests, header)
      → write_all round_up_to allocator freed calls false memory order w ≡ ok (334, none)
  unfolding write_all
  write_all_unopened requests header same e = rw (same, ==_self (length w.blobs), e) refl

  module _ (same : length w.keys ≡ length w.blobs) (few : length w.keys < 2 ^ 20)
      (keys : KeysFit w.keys) (sizes : SizesFit w.blobs) (fits : total < 2 ^ 64)
      (allocated : allocator padded ≡ some bytes) (writes : (i : ℕ) → Pwrites (calls i))
      (requests : List BlobIo) (header : Block)
      (prepared : prepare_write_requests round_up_to allocator w.keys w.blobs
        ≡ ok (requests, header))
      (runs : Runs (length requests) order) where
    covers : Covers (at_write memory freed header) (image_of header) 0 total 0 requests total
    covers =
        let (m, rs, e, _, plan) =
          prepare_write_requests-IsHeader round_up_to rounds allocator bytes w.keys w.blobs
            allocated same few keys sizes fits in
        let same_requests : header_request padded ∷ rs ≡ requests = cc in
        let behind =
          Plan-Covers round_up_to rounds (at_write memory freed header) (λ q. refl)
            (image_of header) 0 total padded w.blobs rs plan sizes
            (λ q h. rw (ge→ltb q padded h) refl) (omega arith) (omega arith) in
        let r = rounds (header_size (length w.keys)) align (omega arith) (omega arith) in
        subst (λ l. Covers (at_write memory freed header) (image_of header) 0 total 0 l total)
          same_requests
          (
            (refl, subst (λ a. BackToBack a rs total) (omega arith) behind.0),
            (
              record {
                some_bytes = omega arith;
                above = omega arith;
                below = omega arith;
                bytes = λ k lt. rw (lt→ltb (0 + k) padded (omega arith)) refl;
              },
              behind.1,
            ),
          )

    tasks_run :
        (err : Bool) × (f : Block) × Ended calls writes
          (at_write memory freed header)
          (image_of header)
          total
          fits
          requests
          covers.1
          order
          false
          err
          empty_file
          f
    tasks_run =
        tasks_of calls writes (at_write memory freed header) (image_of header) total fits requests
          covers order runs

    -- For a writer with as many keys as blobs and fewer than 2 ^ 20 of them, which WriteAll asserts,
    -- with keys and sizes that fit in 64 bits and a total that does, memory for the header, a task for
    -- each request, and a pwrite that transfers no more than it is asked to: if the file cannot be
    -- opened, WriteAll returns 334 and writes nothing. If it is opened, it stops at no assertion and
    -- returns 0 or 344, whatever the order of the tasks and however much a call of pwrite transfers;
    -- if it returns 0, the file has the planned size, and holds what stood at the place of the freed
    -- header, and then the blobs at their offsets with zeros between them.
    pub write_all-IsImage :
        (write_all round_up_to allocator freed calls false memory order w ≡ ok (334, none))
        × (f : Block) × ((write_all round_up_to allocator freed calls true memory order w
              ≡ ok (344, some f))
            ⊎ ((write_all round_up_to allocator freed calls true memory order w ≡ ok (0, some f))
                × IsImage total (image_of header) f))
    write_all-IsImage =
        let (err, f, t) = tasks_run in
        let run = write_all_run requests header err f same prepared t.run in
        let unopened = write_all_unopened requests header same prepared in
        elim (Bool-cases err) [
          | inl failing ↦
              (unopened, f, inl (run ∙ ap (λ e. ok (if e then 344 else 0, some f)) failing))
          | inr fine ↦ (
            unopened,
            f,
            inr (
              run ∙ ap (λ e. ok (if e then 344 else 0, some f)) fine,
              Ended-IsImage calls writes (at_write memory freed header) (image_of header) total fits
                  requests covers order runs f
                  (subst
                    (λ e.
                      Ended calls writes (at_write memory freed header) (image_of header) total fits
                        requests covers.1 order false e empty_file f)
                    fine t),
            ),
          )
        ]

    -- Under the same conditions, with a file that is opened: if no call of pwrite fails or transfers
    -- nothing, WriteAll returns 0 and leaves a file with that size and these bytes.
    pub write_all_complete :
        (limit : ℕ)
        → ((i : ℕ) → Progresses (calls i) limit)
        → total ≤ limit
        → (f : Block) × (write_all round_up_to allocator freed calls true memory order w
            ≡ ok (0, some f))
          × IsImage total (image_of header) f
    write_all_complete limit go room =
        let (err, f, t) = tasks_run in
        let fine : err ≡ false = t.complete limit go room in
        (
          f,
          write_all_run requests header err f same prepared t.run
              ∙ ap (λ e. ok (if e then 344 else 0, some f)) fine,
          Ended-IsImage calls writes (at_write memory freed header) (image_of header) total fits
              requests covers order runs f
              (subst
                (λ e.
                  Ended calls writes (at_write memory freed header) (image_of header) total fits
                    requests covers.1 order false e empty_file f)
                fine t),
        )

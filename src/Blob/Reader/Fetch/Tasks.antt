-- ===== src/Blob/Reader/Fetch/Tasks.antt =====
-- BlobReader::ReadAll: what its tasks, in some order, leave in memory.
use gemma_cpp.Base.{
  ℕ, ◌+◌, ◌^◌, ◌≤◌, ◌<◌, ◌≡◌, ◌≢◌, ◌⊎◌, inl, inr, refl, arith, Bool, true, false, not, ◌||◌, ◌==◌,
  ok, List, [], ◌∷◌, ◌∙◌, ap, sym, subst, get_elem?, some, ==_self, ==_iff,
}
use gemma_cpp.Base.Block.{Block, slice}
use gemma_cpp.Blob.{Buffer, BlobIo}
use gemma_cpp.Blob.Io.{Calls, Preads, Progresses, Memory, io_read}
use gemma_cpp.Blob.Io.Reads.{io_read_run}
use gemma_cpp.Blob.Writer.{Elem}
use gemma_cpp.Blob.Reader.{store_at, read_tasks}
use gemma_cpp.Blob.Reader.Fetch.{
  AllFetch, AllFetch-get, Outside, after_inside, after_outside, after_keeps,
}

module _ (calls : ℕ → Calls) (file : Block) (reads : (i : ℕ) → Preads (calls i) file.size)
    (fits : file.size < 2 ^ 64) (wanted : Memory) (requests : List BlobIo)
    (fetch : AllFetch file wanted requests) where
  read_tasks_step :
      (i : ℕ) (order : List ℕ) (err done : Bool) (r : BlobIo) (memory : Memory) (got : List ℕ)
      → get_elem? requests i ≡ some r
      → io_read (calls i) file r.offset r.size ≡ ok (done, got)
      → read_tasks calls file requests (i ∷ order) err memory
        ≡ read_tasks calls file requests order (err || not done) (store_at memory r.ptr got)
  unfolding read_tasks
  read_tasks_step i order err done r memory got e run = rw (read_tasks, e, run)

  -- How the tasks of `order` end: `err` and the memory.
  pub record Ended (order : List ℕ) (err err' : Bool) (memory memory' : Memory) : Type 0 where
    pub run : read_tasks calls file requests order err memory ≡ ok (err', memory')
    pub kept : (b : Buffer) (q : ℕ) → memory b q ≡ wanted b q → memory' b q ≡ wanted b q
    pub no_error : err' ≡ false → err ≡ false
    pub fetched :
        err' ≡ false
        → (i k : ℕ) (r : BlobIo) → Elem i order
        → get_elem? requests i ≡ some r
        → k < r.size
        → memory' r.ptr.buffer (r.ptr.at + k) ≡ wanted r.ptr.buffer (r.ptr.at + k)
    pub untouched :
        (b : Buffer) (q : ℕ)
        → ((i : ℕ) (r : BlobIo) → get_elem? requests i ≡ some r → Outside r b q)
        → memory' b q ≡ memory b q
    pub complete : ((i : ℕ) → Progresses (calls i) file.size) → err' ≡ err

  or_false : (a b : Bool) → a || not b ≡ false → (a ≡ false) × (b ≡ true)
  or_false a b e = ground arith

  or_not-true : (a : Bool) → a || not true ≡ a
  or_not-true true = refl
  or_not-true false = refl

  pub read_tasks-Ended :
      (order : List ℕ) (err : Bool) (memory : Memory)
      → ((i : ℕ) → Elem i order → (r : BlobIo) × (get_elem? requests i ≡ some r))
      → (err' : Bool) × (memory' : Memory) × Ended order err err' memory memory'
  read_tasks-Ended [] err memory has = (
    err,
    memory,
    record {
      run = unfold read_tasks in refl;
      kept = λ b q e. e;
      no_error = λ e. e;
      fetched = λ z i k r m e l. absurd m;
      untouched = λ b q o. refl;
      complete = λ go. refl;
    },
  )
  read_tasks-Ended (i ∷ order) err memory has =
      let (r, e) = has i (inl refl) in
      let s = AllFetch-get file wanted requests i r fetch e in
      let room : r.offset + r.size < 2 ^ 64 = omega (arith, s.inside) in
      let (p, small, read_run, all) = io_read_run (calls i) file r.offset r.size room (reads i) in
      let memory₁ = store_at memory r.ptr (slice file.byte r.offset p) in
      let (err', memory', t) =
        read_tasks-Ended order (err || not (p == r.size)) memory₁ (λ j m. has j (inr m)) in
      (
        err',
        memory',
        record {
          run = read_tasks_step i order err (p == r.size) r memory _ e read_run ∙ t.run;
          kept = λ b q right. t.kept b q (after_keeps file wanted r s p q b memory small right);
          no_error = λ z. (or_false err (p == r.size) (t.no_error z)).0;
          fetched = λ z j k r' m e' l. elim m [
            | inl here ↦
                let same : r' ≡ r = cc in
                let full : p ≡ r.size =
                  (==_iff p r.size).0 (or_false err (p == r.size) (t.no_error z)).1 in
                let short : k < r.size = subst (λ (x : BlobIo). k < x.size) same l in
                subst
                  (λ (x : BlobIo).
                    memory' x.ptr.buffer (x.ptr.at + k) ≡ wanted x.ptr.buffer (x.ptr.at + k))
                  (sym same)
                  (t.kept r.ptr.buffer (r.ptr.at + k)
                    (after_inside file wanted r s p k memory small (omega arith)))
            | inr later ↦ t.fetched z j k r' later e' l
          ];
          untouched = λ b q o.
              t.untouched b q o
              ∙ after_outside file wanted r s p q b memory (nearer r p q b small (o i r e));
          complete = λ go.
              t.complete go
              ∙ ap (λ k. err || not (k == r.size)) (all (go i) s.inside)
              ∙ ap (λ b. err || not b) (==_self r.size)
              ∙ or_not-true err;
        },
      )
    where
      nearer :
          (r : BlobIo) (p q : ℕ) (b : Buffer)
          → p ≤ r.size
          → Outside r b q
          → (b ≢ r.ptr.buffer) ⊎ ((q < r.ptr.at) ⊎ (r.ptr.at + p ≤ q))
      nearer r p q b h (inl ne) = inl ne
      nearer r p q b h (inr (inl below)) = inr (inl below)
      nearer r p q b h (inr (inr above)) = inr (inr (omega arith))

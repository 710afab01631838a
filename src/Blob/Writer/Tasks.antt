-- ===== src/Blob/Writer/Tasks.antt =====
-- What the tasks of BlobWriter::WriteAll leave in the file.
use gemma_cpp.Base.{
  ◌-◌, ◌≢◌, ℕ, ◌+◌, ◌^◌, ◌≤◌, ◌<◌, ◌≡◌, refl, arith, Bool, true, false, not, ◌||◌, ok, List, [],
  ◌∷◌, ◌==◌, ◌∙◌, ap, get_elem?, some, inl, inr, dec_lt, ==_self, ==_iff, max, ne→==, subst,
}
use gemma_cpp.Base.Block.{Block}
use gemma_cpp.Blob.{BlobIo}
use gemma_cpp.Blob.Io.{Calls, Pwrites, Progresses, Memory, io_write}
use gemma_cpp.Blob.Io.Writes.{Wrote, io_write_run}
use gemma_cpp.Blob.Writer.{Elem, write_tasks}
use gemma_cpp.Blob.Writer.Image.{Shows, AllShow, AllShow-get}

-- The file holds the byte of the image at `q`.
abbrev pub Right : (ℕ → ℕ) → Block → ℕ → Type 0
Right image f q = (q < f.size) × (f.byte q ≡ image q)

abbrev pub InRange : BlobIo → ℕ → Type 0
InRange r q = (r.offset ≤ q) × (q < r.offset + r.size)

module _ (memory : Memory) (image : ℕ → ℕ) (lo hi : ℕ) (r : BlobIo)
    (shows : Shows memory image lo hi r) where
  Wrote-Right_new :
      (p q : ℕ) (f g : Block)
      → p ≤ r.size
      → Wrote memory r.ptr r.offset 0 p f g
      → r.offset ≤ q
      → q < r.offset + p
      → Right image g q
  Wrote-Right_new p q f g h w l u =
      let k = q - r.offset in
      let back : r.offset + k ≡ q = omega arith in
      let some_written : 0 ≢ p = λ e. omega arith in
      let size : g.size ≡ max f.size (r.offset + p) = w.size ∙ rw (ne→== 0 p some_written) in
      (
        omega arith,
        subst (λ q. g.byte q ≡ image q) back
            (w.written k (omega arith) (omega arith) ∙ shows.bytes k (omega arith)),
      )

  Wrote-grows :
      (p : ℕ) (f g : Block)
      → p ≤ r.size
      → f.size ≤ hi
      → Wrote memory r.ptr r.offset 0 p f g
      → (f.size ≤ g.size) × (g.size ≤ hi)
  Wrote-grows p f g h i w = let below = shows.below in let size = w.size in ground arith

  -- A task keeps what is right.
  Wrote-Right_old :
      (p q : ℕ) (f g : Block)
      → p ≤ r.size
      → f.size ≤ hi
      → Wrote memory r.ptr r.offset 0 p f g
      → Right image f q
      → Right image g q
  Wrote-Right_old p q f g h i w (in_file, e) =
      let grows = (Wrote-grows p f g h i w).0 in
      elim (dec_lt q r.offset) [
        | yes before ↦ (omega arith, w.kept q (inl (omega arith)) ∙ e)
        | no not_before ↦ elim (dec_lt q (r.offset + p)) [
          | yes inside ↦ Wrote-Right_new p q f g h w (omega arith) inside
          | no behind ↦ (omega arith, w.kept q (inr (omega arith)) ∙ e)
        ]
      ]

module _ (calls : ℕ → Calls) (writes : (i : ℕ) → Pwrites (calls i)) (memory : Memory)
    (image : ℕ → ℕ) (hi : ℕ) (fits : hi < 2 ^ 64) (requests : List BlobIo)
    (show : AllShow memory image 0 hi requests) where
  write_tasks_step :
      (i : ℕ) (order : List ℕ) (err done : Bool) (r : BlobIo) (f g : Block)
      → get_elem? requests i ≡ some r
      → io_write (calls i) memory r.ptr r.size r.offset f ≡ ok (done, g)
      → write_tasks calls memory requests (i ∷ order) err f
        ≡ write_tasks calls memory requests order (err || not done) g
  unfolding write_tasks
  write_tasks_step i order err done r f g e run = rw (write_tasks, e, run)

  -- How the tasks of `order` end: `err` and the file.
  pub record Ended (order : List ℕ) (err err' : Bool) (f f' : Block) : Type 0 where
    pub run : write_tasks calls memory requests order err f ≡ ok (err', f')
    pub size : f'.size ≤ hi
    pub kept : (q : ℕ) → Right image f q → Right image f' q
    pub no_error : err' ≡ false → err ≡ false
    pub written :
        err' ≡ false
        → (i q : ℕ) (r : BlobIo) → Elem i order
        → get_elem? requests i ≡ some r
        → InRange r q
        → Right image f' q
    pub complete : (limit : ℕ) → ((i : ℕ) → Progresses (calls i) limit) → hi ≤ limit → err' ≡ err

  or_false : (a b : Bool) → a || not b ≡ false → (a ≡ false) × (b ≡ true)
  or_false a b e = ground arith

  or_not-true : (a : Bool) → a || not true ≡ a
  or_not-true true = refl
  or_not-true false = refl

  pub write_tasks-Ended :
      (order : List ℕ) (err : Bool) (f : Block)
      → f.size ≤ hi
      → ((i : ℕ) → Elem i order → (r : BlobIo) × (get_elem? requests i ≡ some r))
      → (err' : Bool) × (f' : Block) × Ended order err err' f f'
  write_tasks-Ended [] err f h has = (
    err,
    f,
    record {
      run = unfold write_tasks in refl;
      size = h;
      kept = λ q t. t;
      no_error = λ e. e;
      written = λ e i q r m at inside. absurd m;
      complete = λ limit go room. refl;
    },
  )
  write_tasks-Ended (i ∷ order) err f h has =
      let (r, e) = has i (inl refl) in
      let s = AllShow-get memory image 0 hi requests i r show e in
      let room : r.offset + r.size < 2 ^ 64 = omega (arith, s.below) in
      let (p, g, small, wrote_run, wrote, all) =
        io_write_run (calls i) memory r.ptr r.offset r.size room (writes i) f in
      let grows = Wrote-grows memory image 0 hi r s p f g small h wrote in
      let (err', f', t) =
        write_tasks-Ended order (err || not (p == r.size)) g grows.1 (λ j m. has j (inr m)) in
      (
        err',
        f',
        record {
          run = write_tasks_step i order err (p == r.size) r f g e wrote_run ∙ t.run;
          size = t.size;
          kept = λ q right.
              t.kept q (Wrote-Right_old memory image 0 hi r s p q f g small h wrote right);
          no_error = λ z. (or_false err (p == r.size) (t.no_error z)).0;
          written = λ z j q r' m e' inside. elim m [
            | inl here ↦
                let same : r' ≡ r = cc in
                let inside' = subst (λ x. InRange x q) same inside in
                let full : p ≡ r.size =
                  (==_iff p r.size).0 (or_false err (p == r.size) (t.no_error z)).1 in
                t.kept q (
                  Wrote-Right_new memory image 0 hi r s p q f g small wrote inside'.0
                    (omega (arith, inside'.1, full)))
            | inr later ↦ t.written z j q r' later e' inside
          ];
          complete = λ limit go above.
              t.complete limit go above
              ∙ ap (λ k. err || not (k == r.size)) (all limit (go i) (omega (arith, s.below)))
              ∙ ap (λ b. err || not b) (==_self r.size)
              ∙ or_not-true err;
        },
      )

-- ===== src/Blob/Io/Writes.antt =====
-- IO::Write ends, stops at no assertion, and writes a prefix of the bytes to their place.
use gemma_cpp.Base.{
  true, ==_self, subst, ℕ, zero, suc, ◌+◌, ◌-◌, ◌^◌, ◌≤◌, ◌<◌, ◌≡◌, refl, arith, ok, ◌==◌, ◌⊎◌, ◌≢◌,
  none, some, ap, ◌∙◌, inl, inr, Option-cases, ℕ_discrete, max, length, dec_lt, if◌then◌else◌,
}
use gemma_cpp.Base.Block.{
  Block, slice, store, store_outside, store_inside, get_or-slice, length-slice,
}
use gemma_cpp.Blob.{Pointer, add64}
use gemma_cpp.Blob.Io.{Calls, Pwrites, Progresses, Memory, write_at, write_loop, io_write}

-- The bytes from `lo` up to `hi` of a write at `offset` are in the file `g`, and else it is `f`.
pub record Wrote (memory : Memory) (from : Pointer) (offset lo hi : ℕ) (f g : Block) : Type 0 where
  pub written : (k : ℕ) → lo ≤ k → k < hi → g.byte (offset + k) ≡ memory from.buffer (from.at + k)
  pub kept : (q : ℕ) → (q < offset + lo) ⊎ (offset + hi ≤ q) → g.byte q ≡ f.byte q
  pub size : g.size ≡ (if lo == hi then f.size else max f.size (offset + hi))

module _ (memory : Memory) (from : Pointer) (offset : ℕ) where
  Wrote-nothing : (pos : ℕ) (f : Block) → Wrote memory from offset pos pos f f
  Wrote-nothing pos f = record {
    written = λ k a b. absurd (omega arith);
    kept = λ q h. refl;
    size = ground arith;
  }

  put : Block → ℕ → ℕ → Block
  put f pos n = write_at f (offset + pos) (slice (memory from.buffer) (from.at + pos) n)

  Wrote-some :
      (pos n : ℕ) (f : Block) → 0 < n → Wrote memory from offset pos (pos + n) f (put f pos n)
  unfolding put
  Wrote-some pos n f h = record {
    written = λ k a b.
        let i = k - pos in
        let bytes = slice (memory from.buffer) (from.at + pos) n in
        ap (store f.byte (offset + pos) bytes) (omega arith)
        ∙ store_inside f.byte (offset + pos) bytes i (rw length-slice (omega arith))
        ∙ get_or-slice (memory from.buffer) (from.at + pos) n i (omega arith)
        ∙ ap (memory from.buffer) (omega arith);
    kept = λ q o.
        let bytes = slice (memory from.buffer) (from.at + pos) n in
        let len : length bytes ≡ n = length-slice (memory from.buffer) (from.at + pos) n in
        store_outside f.byte (offset + pos) bytes q (omega arith);
    size = rw length-slice (ground arith);
  }

  Wrote-join :
      (a b c : ℕ) (f g h : Block)
      → a < b
      → b ≤ c
      → Wrote memory from offset a b f g
      → Wrote memory from offset b c g h
      → Wrote memory from offset a c f h
  Wrote-join a b c f g h p q u v = record {
    written = λ k lo hi. elim (dec_lt k b) [
      | yes first ↦ v.kept (offset + k) (inl (omega arith)) ∙ u.written k lo first
      | no second ↦ v.written k (omega arith) hi
    ];
    kept = λ r o. v.kept r (omega arith) ∙ u.kept r (omega arith);
    size = ground (arith, u.size, v.size);
  }

module _ (calls : Calls) (memory : Memory) (from : Pointer) (offset size : ℕ)
    (fits : offset + size < 2 ^ 64) where
  module _ (fuel i pos : ℕ) (f : Block) (inside : pos ≤ size) where
    stops_none :
        calls i (size - pos) (add64 offset pos) ≡ none
        → write_loop calls memory from (suc fuel) i size offset pos f ≡ ok (pos == size, f)
    unfolding write_loop
    stops_none e = rw (e, write_loop)

    stops_zero :
        calls i (size - pos) (add64 offset pos) ≡ some 0
        → write_loop calls memory from (suc fuel) i size offset pos f ≡ ok (pos == size, f)
    unfolding write_loop
    stops_zero e = rw (e, write_loop)

    module _ (n : ℕ) (some_written : 0 < n) (room : pos + n ≤ size) where
      no_wrap : (add64 offset pos ≡ offset + pos) × (add64 pos n ≡ pos + n)
      no_wrap = omega arith

      stops_full :
          calls i (size - pos) (add64 offset pos) ≡ some n
          → pos + n ≡ size
          → write_loop calls memory from (suc fuel) i size offset pos f
            ≡ ok (pos + n == size, put memory from offset f pos n)
      unfolding write_loop put
      stops_full e full = ground arith

      goes_on :
          calls i (size - pos) (add64 offset pos) ≡ some n
          → pos + n ≢ size
          → write_loop calls memory from (suc fuel) i size offset pos f
            ≡ write_loop calls memory from fuel
                (suc i)
                size
                offset
                (pos + n)
                (put memory from offset f pos n)
      unfolding write_loop put
      goes_on e more = ground arith

  finished :
      (limit i pos : ℕ)
      → pos ≤ size
      → (calls i (size - pos) (add64 offset pos) ≡ none)
        ⊎ (calls i (size - pos) (add64 offset pos) ≡ some 0)
      → Progresses calls limit
      → offset + size ≤ limit
      → pos ≡ size
  finished limit i pos a (inl e) go h =
      absurd (ground (arith, go i (size - pos) (add64 offset pos)))
  finished limit i pos a (inr e) go h = ground (arith, go i (size - pos) (add64 offset pos))

  -- How a run of the loop ends at `pos`: with the bytes up to `p` written.
  abbrev Ends : ℕ → ℕ → ℕ → Block → Type 0
  Ends fuel i pos f =
      (p : ℕ) × (g : Block) × (pos ≤ p)
      × (p ≤ size)
      × (write_loop calls memory from fuel i size offset pos f ≡ ok (p == size, g))
      × Wrote memory from offset pos p f g
      × ((limit : ℕ) → Progresses calls limit → offset + size ≤ limit → p ≡ size)

  module _ (writes : Pwrites calls) where
    write_loop-Ends :
        (fuel i pos : ℕ) (f : Block) → pos ≤ size → size - pos < fuel → Ends fuel i pos f
    write_loop-Ends zero i pos f a b = absurd (omega arith)
    write_loop-Ends (suc fuel) i pos f a b =
        elim (Option-cases (calls i (size - pos) (add64 offset pos))) [
          | inl e ↦ (
            pos,
            f,
            omega arith,
            a,
            stops_none fuel i pos f a e,
            Wrote-nothing memory from offset pos f,
            λ limit. finished limit i pos a (inl e),
          )
          | inr (zero, e) ↦ (
            pos,
            f,
            omega arith,
            a,
            stops_zero fuel i pos f a e,
            Wrote-nothing memory from offset pos f,
            λ limit. finished limit i pos a (inr e),
          )
          | inr (suc n, e) ↦
              let room : pos + suc n ≤ size = omega (arith, writes _ _ _ _ e) in
              let g = put memory from offset f pos (suc n) in
              let first = Wrote-some memory from offset pos (suc n) f (omega arith) in
              elim (ℕ_discrete (pos + suc n) size) [
                | yes full ↦ (
                  pos + suc n,
                  g,
                  omega arith,
                  room,
                  stops_full fuel i pos f a (suc n) (omega arith) room e full,
                  first,
                  λ _ _ _. full,
                )
                | no more ↦
                    let (p, h, lo, hi, run, rest, all) =
                      write_loop-Ends fuel (suc i) (pos + suc n) g room (omega arith) in
                    (
                      p,
                      h,
                      omega arith,
                      hi,
                      goes_on fuel i pos f a (suc n) (omega arith) room e more ∙ run,
                      Wrote-join memory from offset pos (pos + suc n) p f g h (omega arith) lo first
                          rest,
                      all,
                    )
              ]
        ]

    pub io_write_run :
        (f : Block)
        → (p : ℕ) × (g : Block) × (p ≤ size)
          × (io_write calls memory from size offset f ≡ ok (p == size, g))
          × Wrote memory from offset 0 p f g
          × ((limit : ℕ) → Progresses calls limit → offset + size ≤ limit → p ≡ size)
    unfolding io_write
    io_write_run f =
        let (p, g, _, hi, run, wrote, all) =
          write_loop-Ends (suc size) 0 0 f (omega arith) (omega arith) in
        (p, g, hi, run, wrote, all)

    -- The write ends with no failed assertion. It has written a prefix of the bytes and nothing
    -- else, and reports success exactly if that is all of them. The range ends below 2 ^ 64 and a
    -- pwrite transfers no more than it is asked to.
    pub io_write-Wrote :
        (f : Block)
        → (p : ℕ) × (g : Block) × (p ≤ size)
          × (io_write calls memory from size offset f ≡ ok (p == size, g))
          × Wrote memory from offset 0 p f g
    io_write-Wrote f = let (p, g, hi, run, wrote, _) = io_write_run f in (p, g, hi, run, wrote)

    -- If no call fails or writes nothing, all bytes are written and the write reports success.
    pub io_write_complete :
        (f : Block) (limit : ℕ)
        → Progresses calls limit
        → offset + size ≤ limit
        → (g : Block) × (io_write calls memory from size offset f ≡ ok (true, g))
          × Wrote memory from offset 0 size f g
    io_write_complete f limit go inside =
        let (p, g, _, run, wrote, all) = io_write_run f in
        let full : p ≡ size = all limit go inside in
        (
          g,
          run ∙ ap (λ k. ok (k == size, g)) full ∙ ap (λ b. ok (b, g)) (==_self size),
          subst (λ k. Wrote memory from offset 0 k f g) full wrote,
        )

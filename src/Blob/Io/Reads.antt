-- ===== src/Blob/Io/Reads.antt =====
-- IO::Read ends, stops at no assertion, and stores a prefix of the range asked for.
use gemma_cpp.Base.{
  ℕ, zero, suc, ◌+◌, ◌-◌, ◌^◌, ◌≤◌, ◌<◌, ◌≡◌, arith, ok, true, ==_self, ◌==◌, List, ◌⊎◌, ◌≢◌, none,
  some, ap, ◌∙◌, inl, inr, Option-cases, ℕ_discrete, ◌++◌, sym,
}
use gemma_cpp.Base.Block.{Block, slice, slice-add}
use gemma_cpp.Blob.{add64}
use gemma_cpp.Blob.Io.{Calls, Preads, Progresses, read_loop, io_read}

module _ (calls : Calls) (file : Block) (offset size : ℕ) (fits : offset + size < 2 ^ 64) where
  -- How a run of the loop ends that has `pos` bytes: with `p` bytes of the file.
  abbrev Ends : ℕ → ℕ → ℕ → Type 0
  Ends fuel i pos =
      (p : ℕ) × (p ≤ size)
      × (read_loop calls file.byte fuel i offset size pos (slice file.byte offset pos)
          ≡ ok (p == size, slice file.byte offset p))
      × (Progresses calls file.size → offset + size ≤ file.size → p ≡ size)

  module _ (fuel i pos : ℕ) (got : List ℕ) (inside : pos ≤ size) where
    stops_none :
        calls i (size - pos) (add64 offset pos) ≡ none
        → read_loop calls file.byte (suc fuel) i offset size pos got ≡ ok (pos == size, got)
    unfolding read_loop
    stops_none e = rw (e, read_loop)

    stops_zero :
        calls i (size - pos) (add64 offset pos) ≡ some 0
        → read_loop calls file.byte (suc fuel) i offset size pos got ≡ ok (pos == size, got)
    unfolding read_loop
    stops_zero e = rw (e, read_loop)

    module _ (n : ℕ) (some_read : 0 < n) (room : pos + n ≤ size) where
      no_wrap : (add64 offset pos ≡ offset + pos) × (add64 pos n ≡ pos + n)
      no_wrap = omega arith

      stops_full :
          calls i (size - pos) (add64 offset pos) ≡ some n
          → pos + n ≡ size
          → read_loop calls file.byte (suc fuel) i offset size pos got
            ≡ ok (pos + n == size, got ++ slice file.byte (offset + pos) n)
      unfolding read_loop
      stops_full e full = ground arith

      goes_on :
          calls i (size - pos) (add64 offset pos) ≡ some n
          → pos + n ≢ size
          → read_loop calls file.byte (suc fuel) i offset size pos got
            ≡ read_loop calls file.byte fuel
                (suc i)
                offset
                size
                (pos + n)
                (got ++ slice file.byte (offset + pos) n)
      unfolding read_loop
      goes_on e more = ground arith

  -- What a run of the loop has when it ends, `p` bytes of the file.
  module _ (reads : Preads calls file.size) where
    joined :
        (pos n : ℕ)
        → slice file.byte offset pos ++ slice file.byte (offset + pos) n
          ≡ slice file.byte offset (pos + n)
    joined pos n = sym (slice-add file.byte offset pos n)

    finished :
        (i pos : ℕ)
        → pos ≤ size
        → (calls i (size - pos) (add64 offset pos) ≡ none)
          ⊎ (calls i (size - pos) (add64 offset pos) ≡ some 0)
        → Progresses calls file.size
        → offset + size ≤ file.size
        → pos ≡ size
    finished i pos a (inl e) go h = absurd (ground (arith, go i (size - pos) (add64 offset pos)))
    finished i pos a (inr e) go h = ground (arith, go i (size - pos) (add64 offset pos))

    read_loop-Ends : (fuel i pos : ℕ) → pos ≤ size → size - pos < fuel → Ends fuel i pos
    read_loop-Ends zero i pos a b = absurd (omega arith)
    read_loop-Ends (suc fuel) i pos a b =
        elim (Option-cases (calls i (size - pos) (add64 offset pos))) [
          | inl e ↦ (pos, a, stops_none fuel i pos _ a e, finished i pos a (inl e))
          | inr (zero, e) ↦ (pos, a, stops_zero fuel i pos _ a e, finished i pos a (inr e))
          | inr (suc n, e) ↦
              let room : pos + suc n ≤ size = omega (arith, (reads _ _ _ _ e).0) in
              elim (ℕ_discrete (pos + suc n) size) [
                | yes full ↦ (
                  pos + suc n,
                  room,
                  stops_full fuel i pos _ a (suc n) (omega arith) room e full
                      ∙ ap (λ l. ok (pos + suc n == size, l)) (joined pos (suc n)),
                  λ _ _. full,
                )
                | no more ↦
                    let (p, le, run, all) =
                      read_loop-Ends fuel (suc i) (pos + suc n) room (omega arith) in
                    (
                      p,
                      le,
                      goes_on fuel i pos _ a (suc n) (omega arith) room e more
                          ∙ ap (read_loop calls file.byte fuel (suc i) offset size (pos + suc n))
                              (joined pos (suc n))
                          ∙ run,
                      all,
                    )
              ]
        ]

    pub io_read_run :
        (p : ℕ) × (p ≤ size)
        × (io_read calls file offset size ≡ ok (p == size, slice file.byte offset p))
        × (Progresses calls file.size → offset + size ≤ file.size → p ≡ size)
    unfolding io_read
    io_read_run =
        let (p, le, run, all) = read_loop-Ends (suc size) 0 0 (omega arith) (omega arith) in
        (p, le, unfold slice in run, all)

    -- The read ends with no failed assertion. It has stored a prefix of the range, and reports
    -- success exactly if that is the whole range. The range ends below 2 ^ 64 and a pread
    -- transfers no more than it is asked to and than there is.
    pub io_read-prefix :
        (p : ℕ) × (p ≤ size)
        × (io_read calls file offset size ≡ ok (p == size, slice file.byte offset p))
    io_read-prefix = let (p, le, run, _) = io_read_run in (p, le, run)

    -- If the range lies in the file and no call fails or stops short of its end, the read succeeds
    -- and has stored the whole range.
    pub io_read_complete :
        Progresses calls file.size
        → offset + size ≤ file.size
        → io_read calls file offset size ≡ ok (true, slice file.byte offset size)
    io_read_complete go inside =
        let (p, _, run, all) = io_read_run in
        let full : p ≡ size = all go inside in
        run
        ∙ ap (λ k. ok (k == size, slice file.byte offset k)) full
        ∙ ap (λ b. ok (b, slice file.byte offset size)) (==_self size)

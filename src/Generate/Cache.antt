-- ===== src/Generate/Cache.antt =====
-- Which positions of the KV cache GenerateImpl uses, and what it does with an empty prompt.
use gemma_cpp.Base.{
  ℕ, ◌+◌, ◌≤◌, ◌<◌, ◌≡◌, refl, arith, failed, Returns, Returns-map, Bool, true, false, List, [],
  length, if◌then◌else◌,
}
use gemma_cpp.Generate.{
  Network, Bounds, GenerateFault, prefill_batch_size, generate, prefill_loop, batch_tokens,
  last_index,
}
use gemma_cpp.Generate.Prefill.{Kept}
use gemma_cpp.Generate.Invariant.{generate-Ended}

module _ {S U F : Type 0} (net : Network S U F) where
  -- The operations end normally and keep `Inv` when they are called at positions below the limit.
  pub record Guarded (limit : ℕ) (Inv : S → Type 0) : Type 0 where
    pub by_prefill :
        (tokens : List ℕ) (pos : ℕ) (s : S)
        → length tokens ≤ prefill_batch_size
        → pos + length tokens ≤ limit
        → Inv s
        → Returns (net.prefill tokens pos s) Inv
    pub by_transformer :
        (token pos : ℕ) (s : S) → pos < limit → Inv s → Returns (net.transformer token pos s) Inv
    pub by_logits : (s : S) → Inv s → Inv (net.logits s)

  -- The callback never stops the program.
  abbrev pub Streams : Type 0
  Streams = (token : ℕ) (p : F) (u : U) → Returns (net.stream_token token p u) (λ r. Unit {0})

  -- If max_tokens is at most the limit and the prompt without its last token ends there too, what
  -- the operations, which end normally there, keep at positions below the limit holds at the end of GenerateImpl.
  pub generate_guarded :
      (bounds : Bounds) (prompt : List ℕ) (start limit : ℕ) (Inv : S → Type 0) (s : S) (u : U)
      → Guarded limit Inv
      → Streams
      → 0 < length prompt
      → bounds.max_tokens ≤ limit
      → start + length prompt ≤ limit + 1
      → Inv s
      → Returns (generate net bounds prompt start s u) (λ r. Inv r.0)
  generate_guarded bounds prompt start limit Inv s u guarded streams h tokens fits inv =
      let kept : Kept net bounds prompt start (λ k s u. Inv s) = record {
        by_prefill = λ k tokens s u small inside its i.
            guarded.by_prefill tokens (start + k) s small (omega arith) i;
        by_transformer = λ k token s u early past source i.
            guarded.by_transformer token (start + k) s (omega arith) i;
        by_logits = λ k s u i. guarded.by_logits s i;
        by_sample = λ k s u i. i;
        by_stream = λ k token p s u its sampled i. Returns-map (λ r t. i) (streams token p u);
      } in
      Returns-map (λ r ended. ended.holds)
        (generate-Ended net bounds prompt start (λ k s u. Inv s) kept s u h inv)

  -- On an empty prompt GenerateImpl fails at the assertion on the first batch in a debug build, and
  -- else reads outside the prompt, whatever the network and the position.
  pub generate_empty :
      (bounds : Bounds) (start : ℕ) (s : S) (u : U)
      → generate net bounds [] start s u
        ≡ failed
            (if bounds.debug then GenerateFault.batch_assertion else GenerateFault.read_outside)
  unfolding generate prefill_loop last_index batch_tokens
  generate_empty bounds start s u = empty bounds.debug refl
    where
      empty :
          (debug : Bool)
          → bounds.debug ≡ debug
          → generate net bounds [] start s u
            ≡ failed (if debug then GenerateFault.batch_assertion else GenerateFault.read_outside)
      empty true e = rw (generate, prefill_loop, last_index, e) refl
      empty false e = rw (generate, prefill_loop, last_index, e) refl

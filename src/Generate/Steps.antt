-- ===== src/Generate/Steps.antt =====
-- The loops of GenerateImpl, iteration by iteration.
use gemma_cpp.Base.{
  debug_check-true, ℕ, suc, ◌+◌, ◌-◌, ◌≤◌, ◌<◌, min, ◌≡◌, refl, arith, ok, ◌>>=◌, true, false, ◌&&◌,
  ltb, ◌==◌, List, length, take, drop, some, get_elem?, lt→ltb, ge→ltb, ==_iff,
}
use gemma_cpp.Generate.{
  Network, Bounds, GenerateFault, prefill_batch_size, eos_id, last_index, batch_tokens, at,
  stream_batch, Prefilled, prefill_loop, Decoded, decode, stream_decoded, gen_loop, generate,
}

pub last_index-pos : (prompt : List ℕ) → 0 < length prompt → last_index prompt ≡ length prompt - 1
unfolding last_index
last_index-pos prompt h = ground arith

-- What is read for a batch is a part of the prompt.
pub batch_tokens-some :
    (prompt : List ℕ) (k m : ℕ)
    → k + m ≤ length prompt
    → batch_tokens prompt k m ≡ ok (take m (drop k prompt))
unfolding batch_tokens
batch_tokens-some prompt k m h = ground arith

pub at-some :
    (prompt : List ℕ) (k token : ℕ) → get_elem? prompt k ≡ some token → at prompt k ≡ ok token
unfolding at
at-some prompt k token e = rw (e, at) refl

-- The length of the next batch.
abbrev pub batch_size : List ℕ → ℕ → ℕ
batch_size prompt k = min prefill_batch_size (length prompt - 1 - k)

module _ {S U F : Type 0} (net : Network S U F) (bounds : Bounds) (prompt : List ℕ) where
  pub prefill_loop_done :
      (fuel pos : ℕ) (s : S) (u : U)
      → 0 < length prompt
      → prefill_loop net bounds prompt (suc fuel) (length prompt - 1) pos s u
        ≡ ok (record { pos_offset = length prompt - 1; pos = pos; state = s; user = u })
  unfolding prefill_loop
  prefill_loop_done fuel pos s u h =
      let stop : ltb (length prompt - 1) (length prompt - 1) ≡ false = ge→ltb _ _ (omega arith) in
      rw (prefill_loop, last_index-pos prompt h, stop) refl

  pub prefill_loop_step :
      (fuel k pos : ℕ) (s s1 : S) (u u1 : U)
      → k < length prompt - 1
      → let m : ℕ = batch_size prompt k in
        let tokens : List ℕ = take m (drop k prompt) in
        net.prefill tokens pos s ≡ ok s1
        → stream_batch net bounds prompt tokens u ≡ ok u1
        → prefill_loop net bounds prompt (suc fuel) k pos s u
          ≡ prefill_loop net bounds prompt fuel (k + m) (pos + m) s1 u1
  unfolding prefill_loop
  prefill_loop_step fuel k pos s s1 u u1 h filled streamed =
      let last : last_index prompt ≡ length prompt - 1 = last_index-pos prompt (omega (arith, h)) in
      let more : ltb k (length prompt - 1) ≡ true = lt→ltb _ _ h in
      let short : ltb (batch_size prompt k) (length prompt) ≡ true = lt→ltb _ _ (omega arith) in
      let inside : k + batch_size prompt k ≤ length prompt = omega arith in
      rw
        (
          prefill_loop,
          last,
          more,
          last,
          short,
          debug_check-true bounds.debug GenerateFault.batch_assertion,
          ◌>>=◌,
          batch_tokens-some prompt k (batch_size prompt k) inside,
          filled,
          streamed,
        )
        refl

  -- The loop has reached one of its bounds.
  pub gen_loop_done :
      (fuel token pos pos_offset g : ℕ) (s : S) (u : U)
      → (ltb pos bounds.max_tokens && ltb g bounds.max_generated_tokens) ≡ false
      → gen_loop net bounds prompt (suc fuel) token pos pos_offset g s u ≡ ok (s, u)
  unfolding gen_loop
  gen_loop_done fuel token pos pos_offset g s u e = rw (gen_loop, e) refl

  pub gen_loop_break :
      (fuel token pos pos_offset g : ℕ) (s : S) (u : U) (d : Decoded net bounds prompt)
      (next : ℕ × U)
      → (ltb pos bounds.max_tokens && ltb g bounds.max_generated_tokens) ≡ true
      → decode net bounds prompt token pos pos_offset s u ≡ ok d
      → stream_decoded net bounds prompt d ≡ ok next
      → (next.0 == eos_id) ≡ true
      → gen_loop net bounds prompt (suc fuel) token pos pos_offset g s u ≡ ok (d.state, next.1)
  unfolding gen_loop
  gen_loop_break fuel token pos pos_offset g s u d next e decoded streamed stop =
      rw (gen_loop, e, decoded, ◌>>=◌, streamed, stop) refl

  pub gen_loop_step :
      (fuel token pos pos_offset g : ℕ) (s : S) (u : U) (d : Decoded net bounds prompt)
      (next : ℕ × U)
      → (ltb pos bounds.max_tokens && ltb g bounds.max_generated_tokens) ≡ true
      → decode net bounds prompt token pos pos_offset s u ≡ ok d
      → stream_decoded net bounds prompt d ≡ ok next
      → (next.0 == eos_id) ≡ false
      → gen_loop net bounds prompt (suc fuel) token pos pos_offset g s u
        ≡ gen_loop net bounds prompt fuel next.0 (pos + 1) (pos_offset + 1) (g + 1) d.state next.1
  unfolding gen_loop
  gen_loop_step fuel token pos pos_offset g s u d next e decoded streamed go =
      rw (gen_loop, e, decoded, ◌>>=◌, streamed, go) refl

  -- Behind the prefill loop the decode loop starts with the last token of the prompt.
  pub generate_decodes :
      (start token : ℕ) (s : S) (u : U) (p : Prefilled net bounds prompt)
      → prefill_loop net bounds prompt (length prompt + 1) 0 start s u ≡ ok p
      → p.pos_offset ≡ last_index prompt
      → get_elem? prompt p.pos_offset ≡ some token
      → generate net bounds prompt start s u
        ≡ gen_loop net bounds prompt
            (bounds.max_generated_tokens + 1)
            token
            p.pos
            p.pos_offset
            0
            p.state
            p.user
  unfolding generate
  generate_decodes start token s u p loop offset last =
      let same : (p.pos_offset == last_index prompt) ≡ true = (==_iff _ _).1 offset in
      rw
        (
          generate,
          loop,
          ◌>>=◌,
          same,
          debug_check-true bounds.debug GenerateFault.prefill_assertion,
          at-some prompt p.pos_offset token last,
        )
        refl

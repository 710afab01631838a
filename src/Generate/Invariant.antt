-- ===== src/Generate/Invariant.antt =====
-- What holds of the network and of the caller's state at the end of GenerateImpl.
use gemma_cpp.Base.{
  ℕ, zero, suc, ◌+◌, ◌-◌, ◌≤◌, ◌<◌, ◌≡◌, ◌⊎◌, inl, inr, refl, sym, ◌∙◌, subst, arith, ◌>>=◌,
  Returns, false, ◌&&◌, ltb, leb, ◌==◌, if◌then◌else◌, List, length, some, get_elem?,
  get_elem?-inside, Bool-cases, &&-eq-true, ltb→lt, leb→le, le→leb, true, ==_iff,
}
use gemma_cpp.Generate.Steps.{
  gen_loop_done, gen_loop_break, gen_loop_step, generate_decodes, last_index-pos,
}
use gemma_cpp.Generate.{
  Network, Bounds, eos_id, last_index, Prefilled, prefill_loop, Decoded, decode, stream_decoded,
  gen_loop, generate,
}
use gemma_cpp.Generate.Prefill.{Sampled, Source, Kept, Ready, prefill_loop-Ready}

module _ {S U F : Type 0} (net : Network S U F) (bounds : Bounds) (prompt : List ℕ)
    (start : ℕ) where
  -- The states at the end, after `count` calls of the callback.
  pub record Ended (P : ℕ → S → U → Type 0) (r : S × U) : Type 0 where
    pub count : ℕ
    pub holds : P count r.0 r.1
    pub past_prompt : length prompt ≤ count + 1
    pub few : count < length prompt + bounds.max_generated_tokens
    pub within : (count + 1 ≡ length prompt) ⊎ (start + count ≤ bounds.max_tokens)

  module _ (P : ℕ → S → U → Type 0) (kept : Kept net bounds prompt start P) where
    -- Where the token of a step comes from, and its states.
    record Origin (k : ℕ) (d : Decoded net bounds prompt) : Type 0 where
      prompted : k < length prompt → get_elem? prompt k ≡ some d.token
      sampled : length prompt ≤ k → Sampled net bounds prompt start d.token
      source : Source net bounds prompt start d.token
      holds : P k d.state d.user

    -- A step of the decode loop up to its callback.
    decode-kept :
        (token k : ℕ) (s : S) (u : U)
        → start + k < bounds.max_tokens
        → length prompt ≤ k + 1
        → (k < length prompt → get_elem? prompt k ≡ some token)
        → Source net bounds prompt start token
        → P k s u
        → Returns (decode net bounds prompt token (start + k) k s u) (Origin k)
    unfolding decode
    decode-kept token k s u below past its from p =
        let (s1, run, p1) = kept.by_transformer k token s u below past from p in
        elim (Bool-cases (leb (length prompt) k)) [
          | inl e ↦
              let s2 = net.logits s1 in
              (
                record { token = (net.sample s2 u).0; state = s2; user = (net.sample s2 u).1 },
                rw (decode, run, ◌>>=◌, e) refl,
                record {
                  prompted = λ h. absurd (omega (arith, leb→le _ _ e, h));
                  sampled = λ h. (s2, u, refl);
                  source = inr (s2, u, refl);
                  holds = kept.by_sample k _ u (kept.by_logits k s1 u p1);
                },
              )
          | inr e ↦ (
            record { token = token; state = s1; user = u },
            rw (decode, run, ◌>>=◌, e) refl,
            record {
              prompted = its;
              sampled = λ h. absurd (let e1 : leb (length prompt) k ≡ true = le→leb _ _ h in cc);
              source = from;
              holds = p1;
            },
          )
        ]

    stream_decoded-kept :
        (k : ℕ) (d : Decoded net bounds prompt)
        → Origin k d
        → Returns
            (stream_decoded net bounds prompt d)
            (λ next. ((next.0 ≡ d.token) ⊎ (next.0 ≡ eos_id)) × P (k + 1) d.state next.1)
    unfolding stream_decoded
    stream_decoded-kept k d o =
        let (r, e, q) =
          kept.by_stream k d.token (net.logit d.state d.token) d.state d.user o.prompted o.sampled
            o.holds in
        (
          (if r.0 then d.token else eos_id, r.1),
          rw (e, ◌>>=◌) refl,
          (elim (Bool-cases r.0) [ inl go ↦ rw go (inl refl) | inr stop ↦ rw stop (inr refl) ], q),
        )

    -- The token of the next step is the one that was streamed.
    next_source :
        (token next : ℕ)
        → Source net bounds prompt start token
        → (next ≡ token) ⊎ (next ≡ eos_id)
        → (next == eos_id) ≡ false
        → Source net bounds prompt start next
    next_source token next from (inl e) go = rw e from
    next_source token next from (inr e) go =
        absurd (let stop : (next == eos_id) ≡ true = (==_iff _ _).1 e in cc)

    gen_loop-Ended :
        (fuel g token k : ℕ) (s : S) (u : U)
        → bounds.max_generated_tokens < fuel + g
        → g ≤ bounds.max_generated_tokens
        → k + 1 ≡ length prompt + g
        → (g ≡ 0) ⊎ (start + k ≤ bounds.max_tokens)
        → (k < length prompt → get_elem? prompt k ≡ some token)
        → Source net bounds prompt start token
        → P k s u
        → Returns (gen_loop net bounds prompt fuel token (start + k) k g s u) (Ended P)
    gen_loop-Ended zero g token k s u enough few count within its from p = absurd (omega arith)
    gen_loop-Ended (suc fuel) g token k s u enough few count within its from p =
        elim (Bool-cases (ltb (start + k) bounds.max_tokens && ltb g bounds.max_generated_tokens)) [
          | inr stop ↦ (
            (s, u),
            gen_loop_done net bounds prompt fuel token (start + k) k g s u stop,
            record {
              count = k;
              holds = p;
              past_prompt = omega arith;
              few = omega arith;
              within = ground arith;
            },
          )
          | inl go ↦
              let below = &&-eq-true (ltb (start + k) bounds.max_tokens) _ go in
              let early : start + k < bounds.max_tokens = ltb→lt _ _ below.0 in
              let room : g < bounds.max_generated_tokens = ltb→lt _ _ below.1 in
              let (d, e0, origin) = decode-kept token k s u early (omega arith) its from p in
              let (next, e1, (kind, streamed)) = stream_decoded-kept k d origin in
              let position : start + (k + 1) ≡ (start + k) + 1 = omega arith in
              elim (Bool-cases (next.0 == eos_id)) [
                | inl e ↦ (
                  (d.state, next.1),
                  gen_loop_break net bounds prompt fuel token (start + k) k g s u d next go e0 e1 e,
                  record {
                    count = k + 1;
                    holds = streamed;
                    past_prompt = omega arith;
                    few = omega arith;
                    within = inr (omega arith);
                  },
                )
                | inr e ↦
                    rw
                      (
                        gen_loop_step net bounds prompt fuel token (start + k) k g s u d next go e0
                            e1 e,
                        ← position,
                      )
                      (gen_loop-Ended fuel (g + 1) next.0 (k + 1) d.state next.1 (omega arith)
                        (omega arith) (omega arith) (inr (omega arith)) (λ h. absurd (omega arith))
                        (next_source d.token next.0 origin.source kind e) streamed)
              ]
        ]

    -- If the operations end normally and keep `P`, where they are called with the tokens and at the
    -- positions of `Kept`, GenerateImpl on a prompt that is not empty ends normally, with
    -- the states that `P` allows after `count` calls of the callback; these are at least one for
    -- each token of the prompt but the last, and the bounds of the arguments hold.
    pub generate-Ended :
        (s : S) (u : U)
        → 0 < length prompt
        → P 0 s u
        → Returns (generate net bounds prompt start s u) (Ended P)
    generate-Ended s u h p =
        let zero_pos : start + 0 ≡ start = omega arith in
        let result =
          subst
            (λ n.
              Returns (prefill_loop net bounds prompt (length prompt + 1) 0 n s u)
                (Ready net bounds prompt start P kept))
            zero_pos
            (prefill_loop-Ready net bounds prompt start P kept (length prompt + 1) 0 s u h
              (omega arith) p) in
        let r : Prefilled net bounds prompt = result.0 in
        let its : Ready net bounds prompt start P kept r = result.2 in
        let last = get_elem?-inside prompt (length prompt - 1) (omega arith) in
        let found : get_elem? prompt r.pos_offset ≡ some last.0 = rw its.offset last.1 in
        let at_end : r.pos_offset ≡ last_index prompt =
          its.offset ∙ sym (last_index-pos prompt h) in
        rw
          (
            generate_decodes net bounds prompt start last.0 s u r result.1 at_end found,
            its.offset,
            its.position,
          )
          (gen_loop-Ended (bounds.max_generated_tokens + 1) 0 last.0 (length prompt - 1) r.state
            r.user (omega arith) (omega arith) (omega arith) (inl refl) (λ _. last.1)
            (inl (length prompt - 1, last.1)) its.holds)

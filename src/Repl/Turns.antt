-- ===== src/Repl/Turns.antt =====
-- Turns of the loop: where the positions stand, and that no assertion stops the program.
use gemma_cpp.Base.{
  ℕ, zero, suc, get_elem?, dec_lt, subst, ◌+◌, ◌≤◌, ◌<◌, ◌≡◌, ◌⊎◌, inl, inr, refl, arith, Returns,
  Returns-map, ap, sym, ◌∙◌, true, ltb, ◌==◌, if◌then◌else◌, List, [], ◌∷◌, ◌++◌, length, some,
  Text, text, ℤ, Bool-cases,
}
use gemma_cpp.Args.{reaches}
use gemma_cpp.Args.Inference.{InferenceArgs, seq_len}
use gemma_cpp.Generate.{eos_id, prefill_batch_size}
use gemma_cpp.Generate.Prefill.{Kept, Source}
use gemma_cpp.Generate.Invariant.{generate-Ended}
use gemma_cpp.Repl.{
  Given, Chat, prompt_text, end_of_turn, print_token, stream_token, network, bounds, turn,
}

-- The prompt with the token for the beginning of a dialogue.
abbrev pub with_bos : ℕ → List ℕ → List ℕ
with_bos start tokens = if start == 0 then 2 ∷ tokens else tokens

-- All tokens are below `n`.
abbrev pub Below : ℕ → List ℕ → Type 0
Below n tokens = (i token : ℕ) → get_elem? tokens i ≡ some token → token < n

with_bos-Below :
    (n start : ℕ) (tokens : List ℕ) → 2 < n → Below n tokens → Below n (with_bos start tokens)
with_bos-Below n start tokens h b = elim (Bool-cases (start == 0)) [
  | inl e ↦ rw e (in_front n tokens h b)
  | inr e ↦ rw e b
]
  where
    in_front : (n : ℕ) (tokens : List ℕ) → 2 < n → Below n tokens → Below n (2 ∷ tokens)
    in_front n tokens h b zero token e = let same : 2 ≡ token = cc in omega (arith, same, h)
    in_front n tokens h b (suc i) token e = b i token e

module _ {S G F : Type 0} (given : Given S G F) (args : InferenceArgs F) (verbosity : ℤ) where
  -- Token ids below the size of the vocabulary: the tokenizer has a text for each, it and the
  -- sampling give no others, and the token for the beginning of a dialogue is one. On these the
  -- operations of the network run at the positions of the KV cache; behind it they need not.
  pub record Documented (vocab_size : ℕ) : Type 0 where
    pub decodes :
        (token : ℕ) → token < vocab_size → (t : Text) × (given.decode (token ∷ []) ≡ some t)
    pub encodes :
        (line : Text) (tokens : List ℕ) → given.encode line ≡ some tokens → Below vocab_size tokens
    pub samples : (s : S) (g : G) → (given.sample s g).0 < vocab_size
    pub has_bos : 2 < vocab_size
    pub prefill_runs :
        (tokens : List ℕ) (pos : ℕ) (s : S)
        → length tokens ≤ prefill_batch_size
        → pos + length tokens ≤ seq_len
        → Below vocab_size tokens
        → Returns (given.prefill tokens pos s) (λ s1. Unit {0})
    pub transformer_runs :
        (token pos : ℕ) (s : S)
        → token < vocab_size
        → pos < seq_len
        → Returns (given.transformer token pos s) (λ s1. Unit {0})

  -- What one call of the callback does to the positions.
  pub record Advanced (c c1 : Chat G) : Type 0 where
    pub size : c1.prompt_size ≡ c.prompt_size
    pub current : c1.current_pos ≡ c.current_pos + 1
    pub position : args.multiturn ≡ true → c1.abs_pos ≡ c.abs_pos + 1

  module _ (vocab_size : ℕ) (its : Documented vocab_size) where
    -- The positions as the callback counts them first.
    counted : Chat G → Chat G
    counted c = record c { abs_pos = c.abs_pos + 1; current_pos = c.current_pos + 1 }

    print_token-Advanced :
        (n : ℕ) (c : Chat G) (t : Text)
        → Advanced c (print_token given args verbosity n (counted c) t)
    unfolding print_token counted
    print_token-Advanced n c t = elim (Bool-cases (n == c.prompt_size + 1)) [
      | inl e ↦ rw e (record { size = refl; current = refl; position = λ _. refl })
      | inr e ↦ rw e (record { size = refl; current = refl; position = λ _. refl })
    ]

    end_of_turn-Advanced :
        (c : Chat G) (t : Text)
        → let ended : Chat G = end_of_turn given args verbosity (counted c) in
          Advanced c (record ended { out = t })
    unfolding end_of_turn counted
    end_of_turn-Advanced c t = elim (Bool-cases args.multiturn) [
      | inl e ↦ rw e (record { size = refl; current = refl; position = λ _. refl })
      | inr e ↦ rw e (record { size = refl; current = refl; position = λ multi. cc })
    ]

    stream_token-Advanced :
        (token : ℕ) (c : Chat G)
        → (c.prompt_size ≤ c.current_pos + 1 → token < vocab_size)
        → Returns (stream_token given args verbosity token c) (λ r. Advanced c r.1)
    unfolding stream_token counted
    stream_token-Advanced token c valid =
        elim (Bool-cases (ltb (c.current_pos + 1) c.prompt_size)) [
          | inl e ↦ (
            (true, record (counted c) { err = c.err ++ text "." }),
            rw (stream_token, e) refl,
            record { size = refl; current = refl; position = λ _. refl },
          )
          | inr e ↦ elim (Bool-cases (token == eos_id)) [
            | inl end ↦
                let ended = end_of_turn given args verbosity (counted c) in
                let t = ended.out ++ (if reaches verbosity 2 then text "\n[ End ]\n" else []) in
                (
                  (true, record ended { out = t }),
                  rw (stream_token, e, end) refl,
                  end_of_turn-Advanced c t,
                )
            | inr go ↦
                let late : c.prompt_size ≤ c.current_pos + 1 = ground arith in
                let (t, found) = its.decodes token (valid late) in
                (
                  (true, print_token given args verbosity (c.current_pos + 1) (counted c) t),
                  rw (stream_token, e, go, found) refl,
                  print_token-Advanced (c.current_pos + 1) c t,
                )
          ]
        ]

    module _ (prompt : List ℕ) (start : ℕ) (below : Below vocab_size prompt)
        (fits : start + length prompt ≤ seq_len + 1) (limit : args.max_tokens ≤ seq_len) where
      -- Every token that is streamed or decoded is one of the vocabulary.
      source-below :
          (token : ℕ)
          → Source (network given args verbosity) (bounds given args verbosity) prompt start token
          → token < vocab_size
      unfolding network
      source-below token (inl (i, e)) = below i token e
      source-below token (inr (s, u, e)) = subst (λ t. t < vocab_size) e (its.samples s u.gen)

      -- What holds after `k` calls of the callback in a turn.
      During : ℕ → S → Chat G → Type 0
      During k s c =
          (c.current_pos ≡ k)
          × (c.prompt_size ≡ length prompt)
          × (args.multiturn ≡ true → c.abs_pos ≡ start + k)

      During-next :
          (k : ℕ) (s : S) (c c1 : Chat G) → Advanced c c1 → During k s c → During (k + 1) s c1
      unfolding During
      During-next k s c c1 a h = (
        a.current ∙ ap (◌+ 1) h.0,
        a.size ∙ h.1,
        λ multi. a.position multi ∙ (ap (◌+ 1) (h.2 multi) ∙ omega arith),
      )

      During-Kept :
          Kept (network given args verbosity) (bounds given args verbosity) prompt start During
      unfolding During network
      During-Kept = record {
        by_prefill = λ k tokens s u small inside of_prompt p.
            Returns-map (λ s1 t. p)
              (its.prefill_runs tokens (start + k) s small (omega arith)
                (λ i token e. below (k + i) token (of_prompt i token e)));
        by_transformer = λ k token s u early past source p.
            Returns-map (λ s1 t. p)
              (its.transformer_runs token (start + k) s (source-below token source) (omega arith));
        by_logits = λ k s u p. p;
        by_sample = λ k s u p. p;
        by_stream = λ k token p s u of_prompt sampled h.
            Returns-map (λ r a. During-next k s u r.1 a h)
              (stream_token-Advanced token u (λ _. elim (dec_lt k (length prompt)) [
                | yes early ↦ below k token (of_prompt early)
                | no late ↦ source-below token (inr (sampled (omega arith)))
              ]));
      }

  -- A turn on a prompt of `size` tokens, from the position `start` on.
  pub record Turned (start size : ℕ) (c : Chat G) : Type 0 where
    pub position : args.multiturn ≡ true → c.abs_pos ≡ start + c.current_pos
    pub whole_prompt : size ≤ c.current_pos + 1
    pub few : c.current_pos < size + args.max_generated_tokens
    pub within : args.multiturn ≡ true → (c.current_pos + 1 ≡ size) ⊎ (c.abs_pos ≤ args.max_tokens)

  -- A turn that starts with current_pos 0 on a prompt that is not empty ends normally, if the prompt
  -- without its last token ends within the KV cache, max_tokens is at most its length, the tokenizer
  -- has tokens for the line, and tokenizer, sampling and network behave as documented on the tokens
  -- of the vocabulary and the positions of the cache. All of the prompt but at most its last token is
  -- then streamed, and at most max_generated_tokens more; with multiturn abs_pos advances by the
  -- tokens that were streamed, and stays within max_tokens if any was decoded.
  pub turn-Turned :
      (vocab_size : ℕ) (line : Text) (tokens : List ℕ) (s : S) (c : Chat G)
      → Documented vocab_size
      → given.encode (prompt_text given.training c.abs_pos line) ≡ some tokens
      → 0 < length (with_bos c.abs_pos tokens)
      → c.abs_pos + length (with_bos c.abs_pos tokens) ≤ seq_len + 1
      → args.max_tokens ≤ seq_len
      → c.current_pos ≡ 0
      → Returns
          (turn given args verbosity line s c)
          (λ r. Turned c.abs_pos (length (with_bos c.abs_pos tokens)) r.1)
  unfolding During turn
  turn-Turned vocab_size line tokens s c its e h fits limit at_start =
      let prompt = with_bos c.abs_pos tokens in
      let c1 = record c {
        prompt_size = length prompt;
        err = c.err ++ text "\n[ Reading prompt ] ";
      } in
      let below = with_bos-Below vocab_size c.abs_pos tokens its.has_bos (its.encodes _ tokens e) in
      let (r, gen, ended) =
        generate-Ended (network given args verbosity) (bounds given args verbosity) prompt c.abs_pos
          (During vocab_size its prompt c.abs_pos below fits limit)
          (During-Kept vocab_size its prompt c.abs_pos below fits limit) s c1 h
          (at_start, refl, λ _. omega arith) in
      let (current, size, position) = ended.holds in
      let shown = record r.1 {
        out =
            r.1.out
            ++ ((if reaches verbosity 2 then given.statistics r.1.current_pos r.1.abs_pos else [])
                ++ text "\n\n");
      } in
      (
        (r.0, shown),
        rw (turn, e, gen) refl,
        record {
          position = λ multi. position multi ∙ ap (c.abs_pos +◌) (sym current);
          whole_prompt = rw current ended.past_prompt;
          few = rw current ended.few;
          within = λ multi. rw (current, position multi) ended.within;
        },
      )

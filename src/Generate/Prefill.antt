-- ===== src/Generate/Prefill.antt =====
-- The prefill loop of GenerateImpl, and what its operations are to keep throughout a run.
use gemma_cpp.Base.{
  ℕ, zero, suc, ◌+◌, ◌-◌, ◌≤◌, ◌<◌, ◌≡◌, ◌⊎◌, refl, sym, ◌∙◌, ap, subst, arith, ◌>>=◌, Returns,
  List, [], ◌∷◌, length, take, drop, some, get_elem?, get_elem?-take, get_elem?-drop, length-take,
  length-drop, dec_lt,
}
use gemma_cpp.Generate.Steps.{batch_size, prefill_loop_done, prefill_loop_step}
use gemma_cpp.Generate.{Network, Bounds, prefill_batch_size, stream_batch, Prefilled, prefill_loop}

module _ {S U F : Type 0} (net : Network S U F) (bounds : Bounds) (prompt : List ℕ)
    (start : ℕ) where
  -- A token that SampleTopK returns in some state.
  abbrev pub Sampled : ℕ → Type 0
  Sampled token = (s : S) × (u : U) × ((net.sample s u).0 ≡ token)

  -- A token of the prompt, or one that was sampled.
  abbrev pub Source : ℕ → Type 0
  Source token = ((i : ℕ) × (get_elem? prompt i ≡ some token)) ⊎ Sampled token

  -- After `k` calls of the callback, each operation is called at the position start + k, ends
  -- normally and keeps what `P` says of the states; the token of call number k is the prompt's, if
  -- it has one there, and else one that was sampled.
  pub record Kept (P : ℕ → S → U → Type 0) : Type 0 where
    pub by_prefill :
        (k : ℕ) (tokens : List ℕ) (s : S) (u : U)
        → length tokens ≤ prefill_batch_size
        → k + length tokens < length prompt
        → ((i t : ℕ) → get_elem? tokens i ≡ some t → get_elem? prompt (k + i) ≡ some t)
        → P k s u
        → Returns (net.prefill tokens (start + k) s) (λ s1. P k s1 u)
    pub by_transformer :
        (k token : ℕ) (s : S) (u : U)
        → start + k < bounds.max_tokens
        → length prompt ≤ k + 1
        → Source token
        → P k s u
        → Returns (net.transformer token (start + k) s) (λ s1. P k s1 u)
    pub by_logits : (k : ℕ) (s : S) (u : U) → P k s u → P k (net.logits s) u
    pub by_sample : (k : ℕ) (s : S) (u : U) → P k s u → P k s (net.sample s u).1
    pub by_stream :
        (k token : ℕ) (p : F) (s : S) (u : U)
        → (k < length prompt → get_elem? prompt k ≡ some token)
        → (length prompt ≤ k → Sampled token)
        → P k s u
        → Returns (net.stream_token token p u) (λ r. P (k + 1) s r.1)

  module _ (P : ℕ → S → U → Type 0) (kept : Kept P) where
    stream_batch-kept :
        (tokens : List ℕ) (k : ℕ) (s : S) (u : U)
        → ((i t : ℕ) → get_elem? tokens i ≡ some t → get_elem? prompt (k + i) ≡ some t)
        → k + length tokens ≤ length prompt
        → P k s u
        → Returns (stream_batch net bounds prompt tokens u) (λ u1. P (k + length tokens) s u1)
    unfolding stream_batch
    stream_batch-kept [] k s u inside short p =
        let index : k ≡ k + 0 = omega arith in (u, refl, subst (λ n. P n s u) index p)
    stream_batch-kept (token ∷ tokens) k s u inside short p =
        let index : (k + 1) + length tokens ≡ k + suc (length tokens) = omega arith in
        let first : k + 0 ≡ k = omega arith in
        let (r, e, q) =
          kept.by_stream k token net.no_probability s u
            (λ _. subst (λ n. get_elem? prompt n ≡ some token) first (inside 0 token refl))
            (λ late. absurd (omega (arith, short, late))) p in
        let (u1, e1, q1) =
          stream_batch-kept tokens (k + 1) s r.1
            (λ i t at_i.
              let shifted : k + suc i ≡ (k + 1) + i = omega arith in
              subst (λ n. get_elem? prompt n ≡ some t) shifted (inside (suc i) t at_i))
            (omega (arith, short)) q in
        (u1, rw (e, ◌>>=◌, e1) refl, subst (λ n. P n s u1) index q1)

    batch_length : (k m : ℕ) → k + m ≤ length prompt → length (take m (drop k prompt)) ≡ m
    batch_length k m h = length-take m (drop k prompt) (omega (arith, length-drop k prompt))

    batch_inside :
        (k m i t : ℕ)
        → get_elem? (take m (drop k prompt)) i ≡ some t
        → get_elem? prompt (k + i) ≡ some t
    batch_inside k m i t e =
        sym (get_elem?-drop k prompt i) ∙ get_elem?-take m (drop k prompt) i t e

    -- The states behind the prefill loop.
    pub record Ready (p : Prefilled net bounds prompt) : Type 0 where
      pub holds : P (length prompt - 1) p.state p.user
      pub offset : p.pos_offset ≡ length prompt - 1
      pub position : p.pos ≡ start + (length prompt - 1)

    ready :
        (fuel : ℕ) (s : S) (u : U)
        → 0 < length prompt
        → P (length prompt - 1) s u
        → Returns
            (prefill_loop net bounds prompt
              (suc fuel)
              (length prompt - 1)
              (start + (length prompt - 1))
              s
              u)
            Ready
    ready fuel s u h p = (
      record {
        pos_offset = length prompt - 1;
        pos = start + (length prompt - 1);
        state = s;
        user = u;
      },
      prefill_loop_done net bounds prompt fuel (start + (length prompt - 1)) s u h,
      record { holds = p; offset = refl; position = refl },
    )

    pub prefill_loop-Ready :
        (fuel k : ℕ) (s : S) (u : U)
        → k < length prompt
        → length prompt < fuel + k + 1
        → P k s u
        → Returns (prefill_loop net bounds prompt fuel k (start + k) s u) Ready
    prefill_loop-Ready zero k s u below enough p = absurd (omega arith)
    prefill_loop-Ready (suc fuel) k s u below enough p = elim (dec_lt k (length prompt - 1)) [
      | yes more ↦
          let m = batch_size prompt k in
          let tokens = take m (drop k prompt) in
          let size : length tokens ≡ m = batch_length k m (omega arith) in
          let index : k + length tokens ≡ k + m = ap (k +◌) size in
          let position : start + (k + m) ≡ (start + k) + m = omega arith in
          let (s1, e0, filled) =
            kept.by_prefill k tokens s u (omega arith) (omega arith) (batch_inside k m) p in
          let (u1, e1, q1) =
            stream_batch-kept tokens k s1 u (batch_inside k m) (omega arith) filled in
          let streamed : P (k + m) s1 u1 = subst (λ n. P n s1 u1) index q1 in
          rw
            (
              prefill_loop_step net bounds prompt fuel k (start + k) s s1 u u1 more e0 e1,
              ← position,
            )
            (prefill_loop-Ready fuel (k + m) s1 u1 (omega arith) (omega arith) streamed)
      | no more ↦
          let last : length prompt - 1 ≡ k = omega arith in
          subst
            (λ i.
              P i s u → Returns (prefill_loop net bounds prompt (suc fuel) i (start + i) s u) Ready)
            last (ready fuel s u (omega arith)) p
    ]

-- ===== src/Layers/Generated.antt =====
-- GenerateImpl over Prefill and Transformer of the layers.
use gemma_cpp.Base.{
  ℕ, suc, ◌+◌, ◌*◌, ◌≤◌, ◌<◌, ◌≡◌, inl, inr, refl, subst, arith, ok, failed, ◌>>=◌, Checked,
  Returns, Returns-map, Bool, List, [], ◌∷◌, length, some, get_elem?, dec_lt,
}
use gemma_cpp.Weights.{Config}
use gemma_cpp.Generate.{Network, Bounds, GenerateFault, prefill_batch_size, generate}
use gemma_cpp.Generate.Prefill.{Kept, Source}
use gemma_cpp.Generate.Invariant.{generate-Ended}
use gemma_cpp.Layers.{prefill, transformer}
use gemma_cpp.Layers.Arrays.{
  Array, Kernels, NetworkWeights, Activations, LayerFault, cache_pos_size,
}
use gemma_cpp.Layers.Extents.{Fitting}
use gemma_cpp.Layers.Heads.{Framed, Framed-refl, Framed-trans, Framed-wider, AllBelow}
use gemma_cpp.Layers.Frame.{prefill-Framed, transformer-Framed}
use native.Mathlib.Nat.{mul-le-mul_right}

-- gemma.state, which has the KV cache here, gemma.prefill, and the logits of the state.
pub record GemmaState (F : Type 0) : Type 0 where
  pub state : Activations F
  pub prefill : Activations F
  pub logits : Array F

-- Both work on the one KV cache.
unfoldable pub share_cache : {F : Type 0} → Activations F → Activations F → Activations F
share_cache from to = record to { key_cache = from.key_cache; value_cache = from.value_cache }

abbrev pub or_network : {A : Type 0} → Checked LayerFault A → Checked GenerateFault A
or_network (ok a) = ok a
or_network (failed f) = failed GenerateFault.network_fault

module _ {F M U : Type 0} (kernels : Kernels F M) (config : Config) (debug : Bool) (order : List ℕ)
    (weights : NetworkWeights F M) (top_k : Array F → U → ℕ × U)
    (stream : ℕ → F → U → Checked GenerateFault (Bool × U)) where
  -- What GenerateImpl calls, over the layers. SampleTopK and the callback are parameters.
  unfoldable pub layer_network : Network (GemmaState F) U F
  layer_network = record {
    prefill = λ tokens pos s. do
      a ← or_network (
          prefill kernels config prefill_batch_size debug order weights pos tokens (length tokens)
            (share_cache s.state s.prefill))
      ok (record s { state = share_cache a s.state; prefill = a });
    transformer = λ token pos s. do
      a ← or_network (transformer kernels config 1 debug order weights pos token s.state)
      ok (record s { state = a });
    logits = λ s. record s {
      logits =
          kernels.softmax
            (kernels.mat_vec weights.embedder_input_embedding config.vocab_size config.model_dim 0
              s.state.x)
            config.vocab_size;
    };
    sample = λ s u. top_k s.logits u;
    logit = λ s token. s.logits token;
    no_probability = kernels.zero_f;
    stream_token = stream;
  }

  module _ (fitting : Fitting config) (heads : AllBelow config.heads order)
      (samples : (logits : Array F) (u : U) → (top_k logits u).0 < config.vocab_size)
      (streams : (token : ℕ) (p : F) (u : U)
        → token < config.vocab_size
        → Returns (stream token p u) (λ r. Unit {0}))
      (bounds : Bounds) (prompt : List ℕ) (start : ℕ)
      (below : (i token : ℕ) → get_elem? prompt i ≡ some token → token < config.vocab_size) where
    -- A part of the caches between the start of the turn and the end of the cache.
    TurnFramed : GemmaState F → GemmaState F → Type 0
    TurnFramed s s1 =
        Framed (start * cache_pos_size config) (config.seq_len * cache_pos_size config) s.state
          s1.state

    source-below :
        (token : ℕ) → Source layer_network bounds prompt start token → token < config.vocab_size
    unfolding layer_network
    source-below token (inl (i, e)) = below i token e
    source-below token (inr (s, u, e)) = subst (λ t. t < config.vocab_size) e (samples s.logits u)

    all_below :
        (k : ℕ) (tokens : List ℕ)
        → ((i t : ℕ) → get_elem? tokens i ≡ some t → get_elem? prompt (k + i) ≡ some t)
        → AllBelow config.vocab_size tokens
    all_below k [] inside = tt
    all_below k (token ∷ tokens) inside = (
      below (k + 0) token (inside 0 token refl),
      all_below (k + 1) tokens
          λ i t e. subst (λ n. get_elem? prompt n ≡ some t) (omega arith) (inside (suc i) t e),
    )

    -- From the start of the turn to the end of the cache.
    wider :
        (k n : ℕ) {a b : Activations F}
        → start + k + n ≤ config.seq_len
        → Framed ((start + k) * cache_pos_size config) ((start + k + n) * cache_pos_size config) a b
        → Framed (start * cache_pos_size config) (config.seq_len * cache_pos_size config) a b
    wider k n h f =
        Framed-wider _ _ _ _ (mul-le-mul_right (cache_pos_size config) (omega arith))
          (mul-le-mul_right (cache_pos_size config) h) f

    prefill-Kept :
        (k : ℕ) (tokens : List ℕ) (s : GemmaState F)
        → length tokens ≤ prefill_batch_size
        → start + k + length tokens ≤ config.seq_len
        → AllBelow config.vocab_size tokens
        → Returns (layer_network.prefill tokens (start + k) s) (TurnFramed s)
    unfolding layer_network share_cache TurnFramed
    prefill-Kept k tokens s small room all =
        let (a, run, f) =
          prefill-Framed kernels config prefill_batch_size fitting debug order heads weights
            (start + k) (length tokens) small room tokens (share_cache s.state s.prefill)
            (omega arith) all in
        let g = wider k (length tokens) room f in
        (
          record s { state = share_cache a s.state; prefill = a },
          rw (run, ◌>>=◌) refl,
          record { keys = g.keys; values = g.values },
        )

    transformer-Kept :
        (k token : ℕ) (s : GemmaState F)
        → token < config.vocab_size
        → start + k < config.seq_len
        → Returns (layer_network.transformer token (start + k) s) (TurnFramed s)
    unfolding layer_network TurnFramed
    transformer-Kept k token s v early =
        let (a, run, f) =
          transformer-Framed kernels config 1 fitting debug order heads weights (start + k)
            (omega arith) early token s.state v in
        (record s { state = a }, rw (run, ◌>>=◌) refl, wider k 1 (omega arith) f)

    -- GenerateImpl over the layers, for a model in which each head has a part of the KV cache and a
    -- query is not longer than a row of scores, on a prompt of tokens of the vocabulary that is not
    -- empty and without its last token ends within the cache, with max_tokens at most kSeqLen, a
    -- SampleTopK that gives tokens of the vocabulary and a callback that stops the program at none of
    -- these: it ends normally. No assertion fails, Prefill and Transformer access no array outside of
    -- its extent, and the cache of all positions before the start, so of the earlier turns, is as it
    -- was.
    pub generate-Framed :
        (s : GemmaState F) (u : U)
        → 0 < length prompt
        → start + length prompt ≤ config.seq_len + 1
        → bounds.max_tokens ≤ config.seq_len
        → Returns (generate layer_network bounds prompt start s u) (λ r.
          Framed
            (start * cache_pos_size config)
            (config.seq_len * cache_pos_size config)
            s.state
            r.0.state)
    unfolding layer_network TurnFramed
    generate-Framed s u h fits limit =
        let kept : Kept layer_network bounds prompt start (λ k s1 u1. TurnFramed s s1) = record {
          by_prefill = λ k tokens s1 u1 small inside of_prompt f.
              Returns-map (λ s2 g. Framed-trans f g)
                (prefill-Kept k tokens s1 small (omega arith) (all_below k tokens of_prompt));
          by_transformer = λ k token s1 u1 early past source f.
              Returns-map (λ s2 g. Framed-trans f g)
                (transformer-Kept k token s1 (source-below token source) (omega arith));
          by_logits = λ k s1 u1 f. record { keys = f.keys; values = f.values };
          by_sample = λ k s1 u1 f. f;
          by_stream = λ k token p s1 u1 of_prompt sampled f.
              Returns-map (λ r t. f)
                (streams token p u1 (elim (dec_lt k (length prompt)) [
                  | yes early ↦ below k token (of_prompt early)
                  | no late ↦ source-below token (inr (sampled (omega arith)))
                ]));
        } in
        Returns-map (λ r ended. ended.holds)
          (generate-Ended layer_network bounds prompt start (λ k s1 u1. TurnFramed s s1) kept s u h
            (Framed-refl _ _ s.state))

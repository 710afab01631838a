-- ===== src/Layers/Overrun.antt =====
-- Prefill at positions behind the KV cache.
use gemma_cpp.Base.{
  ℕ, zero, suc, ◌+◌, ◌*◌, ◌≤◌, ◌<◌, ◌≡◌, refl, arith, failed, ◌>>=◌, ◌>>◌, Checked, Returns, Bool,
  true, false, ltb, leb, lt→ltb, le→leb, gt→leb, List, ◌∷◌, length, dec_lt, debug_check-true,
}
use gemma_cpp.Weights.{Config}
use gemma_cpp.Layers.Arrays.{
  Kernels, LayerWeights, NetworkWeights, Activations, LayerFault, inside, cache_pos_size,
}
use gemma_cpp.Layers.Attention.{project, attention_head, head_tasks, attention}
use gemma_cpp.Layers.{attention_loop, layers_loop, prefill}
use gemma_cpp.Layers.Extents.{Fitting, row_inside, q_inside}
use gemma_cpp.Layers.Heads.{AllBelow}
use gemma_cpp.Layers.Frame.{attention-Framed, embed_loop-Framed}
use gemma_cpp.Layers.Tokens.{pre_attention-Framed}
use native.Mathlib.Nat.{mul-le-mul_right}

inside_stops :
    {A : Type 0} (k : Checked LayerFault A) (at n size : ℕ)
    → size < at + n
    → (inside at n size >> k) ≡ failed LayerFault.outside_array
unfolding inside
inside_stops k at n size h = let test : leb (at + n) size ≡ false = gt→leb _ _ h in rw test refl

inside_goes :
    {A : Type 0} {r : Checked LayerFault A} (k : Checked LayerFault A) (at n size : ℕ)
    → at + n ≤ size
    → k ≡ r
    → (inside at n size >> k) ≡ r
unfolding inside
inside_goes k at n size h e = let test : leb (at + n) size ≡ true = le→leb _ _ h in rw test e

-- A part that returns, before one that stops, and the other way round.
then_stops :
    {A B : Type 0} {P : A → Type 0} {r : Checked LayerFault A} {f : A → Checked LayerFault B}
    {e : LayerFault}
    → Returns r P
    → ((a : A) → f a ≡ failed e)
    → (r >>= f) ≡ failed e
then_stops (a, run, p) h = rw (run, ◌>>=◌) (h a)

stops_first :
    {A B : Type 0} {r : Checked LayerFault A} {e : LayerFault} (f : A → Checked LayerFault B)
    → r ≡ failed e
    → (r >>= f) ≡ failed e
stops_first f h = rw (h, ◌>>=◌) refl

module _ {F M : Type 0} (kernels : Kernels F M) (config : Config) (batch_size : ℕ)
    (fitting : Fitting config) (debug : Bool) (head : ℕ) (tasks : List ℕ)
    (heads : AllBelow config.heads (head ∷ tasks)) (some_values : 0 < config.qkv_dim) where
  project_stops :
      (pos batch_idx layer : ℕ) (weights : LayerWeights F M) (a : Activations F)
      → batch_idx < batch_size
      → config.seq_len ≤ pos
      → project kernels config batch_size pos batch_idx layer weights head a
        ≡ failed LayerFault.outside_array
  unfolding project
  project_stops pos batch_idx layer weights a b late =
      let behind : config.seq_len * cache_pos_size config ≤ pos * cache_pos_size config =
        mul-le-mul_right (cache_pos_size config) late in
      inside_goes _ _ _ _ (row_inside config batch_size batch_idx b) (
        inside_goes _ _ _ _ (q_inside config batch_size head batch_idx heads.0 b)
          (inside_stops _ _ _ _ (omega (arith, behind, some_values))))

  attention_stops :
      (pos batch_idx layer : ℕ) (weights : LayerWeights F M) (a : Activations F)
      → batch_idx < batch_size
      → config.seq_len ≤ pos
      → attention kernels config batch_size pos batch_idx layer weights debug (head ∷ tasks) a
        ≡ failed LayerFault.outside_array
  unfolding attention head_tasks attention_head
  attention_stops pos batch_idx layer weights a b late =
      let test : ltb batch_idx batch_size ≡ true = lt→ltb batch_idx batch_size b in
      rw (test, debug_check-true debug LayerFault.batch_assertion)
        (stops_first _
          (stops_first _ (stops_first _ (project_stops pos batch_idx layer weights a b late))))

  module _ (weights : NetworkWeights F M) (pos n : ℕ) (fits : n ≤ batch_size)
      (behind_cache : config.seq_len < pos + n) where
    -- The tokens at positions inside of the cache get through, and the first one behind it stops.
    attention_loop_stops :
        (layer left token_idx : ℕ) (a : Activations F)
        → layer < config.layers
        → 0 < left
        → token_idx + left ≡ n
        → attention_loop kernels config batch_size debug
            (head ∷ tasks)
            weights
            pos
            layer
            left
            token_idx
            a
          ≡ failed LayerFault.outside_array
    unfolding attention_loop
    attention_loop_stops layer zero token_idx a l some_left count = absurd (omega arith)
    attention_loop_stops layer (suc left) token_idx a l some_left count =
        then_stops
          (pre_attention-Framed kernels config batch_size debug 0 0 token_idx (omega arith)
            (weights.layer layer) a)
          λ a0. elim (dec_lt (pos + token_idx) config.seq_len) [
            | yes early ↦
                then_stops
                  (attention-Framed kernels config batch_size fitting debug (head ∷ tasks) heads
                    (pos + token_idx) token_idx layer (weights.layer layer) a0 (omega arith) l
                    early)
                  λ a1.
                    attention_loop_stops layer left (token_idx + 1) a1 l (omega arith) (omega arith)
            | no late ↦ stops_first _ (
                attention_stops (pos + token_idx) token_idx layer (weights.layer layer) a0
                  (omega arith) (omega arith))
          ]

    -- For a model as in the theorem on Prefill within the cache, with a layer and a head: Prefill of
    -- the first `n` of the tokens, which are in the vocabulary, with n at least 1 and at most
    -- kBatchSize, accesses memory outside of an array if pos + n is greater than kSeqLen, whatever the
    -- kernels compute.
    pub prefill_overruns :
        (tokens : List ℕ) (a : Activations F)
        → 0 < n
        → 0 < config.layers
        → n ≤ length tokens
        → AllBelow config.vocab_size tokens
        → prefill kernels config batch_size debug (head ∷ tasks) weights pos tokens n a
          ≡ failed LayerFault.outside_array
    unfolding prefill layers_loop
    prefill_overruns tokens a some_token some_layer room all =
        then_stops
          (embed_loop-Framed kernels config batch_size fitting debug (head ∷ tasks) heads weights
            pos n 0 0 fits tokens n 0 a room all (omega arith))
          λ a0. stops_first _ (first_layer a0 config.layers some_layer (omega arith))
      where
        first_layer :
            (a0 : Activations F) (left : ℕ)
            → 0 < left
            → left ≤ config.layers
            → layers_loop kernels config batch_size debug (head ∷ tasks) weights pos n left 0 a0
              ≡ failed LayerFault.outside_array
        first_layer a0 zero h l = absurd (omega arith)
        first_layer a0 (suc left) h l =
            stops_first _ (attention_loop_stops 0 n 0 a0 (omega arith) some_token (omega arith))

-- ===== src/Layers/Heads.antt =====
-- What the heads of Attention write to the KV cache.
use gemma_cpp.Base.{
  ℕ, zero, suc, ◌+◌, ◌-◌, ◌*◌, ◌<◌, ◌≤◌, ◌≡◌, ◌⊎◌, inl, inr, refl, ◌∙◌, ap, arith, ◌==◌, Bool-cases,
  List, [], ◌∷◌, ◌>>=◌, Checked, Returns, Returns-map, Returns-bind,
}
use gemma_cpp.Weights.{Config}
use gemma_cpp.Layers.Arrays.{
  Array, put, Kernels, LayerWeights, Activations, LayerFault, cache_offset, q_size, att_size,
  kv_cache_size,
}
use gemma_cpp.Layers.Attention.{
  project, rotate, score_loop, sum_loop, soften, project_back, attention_head, accumulate,
}
use gemma_cpp.Layers.Extents.{
  Fitting, inside_then, row_inside, post_inside, q_inside, att_inside, cache_inside,
}

put_outside :
    {F : Type 0} (a : Array F) (at n : ℕ) (values : Array F) (i : ℕ)
    → (i < at) ⊎ (at + n ≤ i)
    → put a at n values i ≡ a i
unfolding put
put_outside a at n values i h = ground arith

-- Outside of the indices from `lo` up to `hi` both caches are as before.
pub record Framed {F : Type 0} (lo hi : ℕ) (a b : Activations F) : Type 0 where
  pub keys : (i : ℕ) → (i < lo) ⊎ (hi ≤ i) → b.key_cache i ≡ a.key_cache i
  pub values : (i : ℕ) → (i < lo) ⊎ (hi ≤ i) → b.value_cache i ≡ a.value_cache i

pub Framed-refl : {F : Type 0} (lo hi : ℕ) (a : Activations F) → Framed lo hi a a
Framed-refl lo hi a = record { keys = λ i h. refl; values = λ i h. refl }

pub Framed-trans :
    {F : Type 0} {lo hi : ℕ} {a b c : Activations F}
    → Framed lo hi a b
    → Framed lo hi b c
    → Framed lo hi a c
Framed-trans f g = record {
  keys = λ i h. g.keys i h ∙ f.keys i h;
  values = λ i h. g.values i h ∙ f.values i h;
}

pub Framed-wider :
    {F : Type 0} (lo hi lo' hi' : ℕ) {a b : Activations F}
    → lo' ≤ lo
    → hi ≤ hi'
    → Framed lo hi a b
    → Framed lo' hi' a b
Framed-wider lo hi lo' hi' low high f = record {
  keys = λ i h. f.keys i (ground arith);
  values = λ i h. f.values i (ground arith);
}

-- Nothing is written to the caches.
pub untouched :
    {F : Type 0} (lo hi : ℕ) {a b : Activations F}
    → b.key_cache ≡ a.key_cache
    → b.value_cache ≡ a.value_cache
    → Framed lo hi a b
untouched lo hi k v = record { keys = λ i h. ap (λ c. c i) k; values = λ i h. ap (λ c. c i) v }

-- One framed part of the program after another.
pub then-Framed :
    {F : Type 0} {lo hi : ℕ} {a : Activations F} {r : Checked LayerFault (Activations F)}
    {f : Activations F → Checked LayerFault (Activations F)}
    → Returns r (Framed lo hi a)
    → ((b : Activations F) → Returns (f b) (Framed lo hi b))
    → Returns (r >>= f) (Framed lo hi a)
then-Framed r f = Returns-bind r (λ b fb. Returns-map (λ c fc. Framed-trans fb fc) (f b))

-- A change that leaves the caches, and then the rest.
pub after_untouched :
    {F : Type 0} {lo hi : ℕ} {r : Checked LayerFault (Activations F)} (a b : Activations F)
    → b.key_cache ≡ a.key_cache
    → b.value_cache ≡ a.value_cache
    → Returns r (Framed lo hi b)
    → Returns r (Framed lo hi a)
after_untouched {lo} {hi} a b k v r = Returns-map (λ c fc. Framed-trans (untouched lo hi k v) fc) r

module _ {F M : Type 0} (kernels : Kernels F M) (config : Config) (batch_size : ℕ)
    (fitting : Fitting config) (pos batch_idx layer : ℕ) (weights : LayerWeights F M)
    (b : batch_idx < batch_size) (l : layer < config.layers) (p : pos < config.seq_len) where
  pub accumulate-Framed :
      (lo hi left head : ℕ) (a : Activations F)
      → left ≤ config.heads - head
      → Returns
          (accumulate kernels config batch_size pos batch_idx layer weights left head a)
          (Framed lo hi a)
  unfolding accumulate
  accumulate-Framed lo hi zero head a h = (a, refl, Framed-refl lo hi a)
  accumulate-Framed lo hi (suc left) head a h =
      inside_then _ _ _ (post_inside config batch_size head batch_idx (omega arith) b) (
        inside_then _ _ _ (row_inside config batch_size batch_idx b)
          (after_untouched a _ refl refl (accumulate-Framed lo hi left (head + 1) _ (omega arith))))

  module _ (head : ℕ) (h : head < config.heads) where
    -- The part of the cache of a head.
    abbrev head_start : ℕ
    head_start = cache_offset config pos layer head

    abbrev head_end : ℕ
    head_end = head_start + config.qkv_dim

    q_fits :
        head * config.qkv_dim + batch_idx * config.heads * config.qkv_dim + config.qkv_dim
        ≤ q_size config batch_size
    q_fits = q_inside config batch_size head batch_idx h b

    cache_fits :
        (pos2 : ℕ)
        → pos2 ≤ pos
        → cache_offset config pos2 layer head + config.qkv_dim ≤ kv_cache_size config
    cache_fits pos2 early =
        cache_inside config pos2 layer head l (omega (arith, fitting.caches, h))
          (omega (arith, early, p))

    att_fits :
        (pos2 : ℕ)
        → pos2 ≤ pos
        → head * config.seq_len + batch_idx * config.heads * config.qkv_dim + (pos2 + 1)
          ≤ att_size config batch_size
    att_fits pos2 early =
        att_inside config batch_size head batch_idx pos2 fitting h b (omega (arith, early, p))

    project-Framed :
        (a : Activations F)
        → Returns
            (project kernels config batch_size pos batch_idx layer weights head a)
            (Framed head_start head_end a)
    unfolding project
    project-Framed a = inside_then _ _ _ (row_inside config batch_size batch_idx b) (
        inside_then _ _ _ q_fits (
          inside_then _ _ _ (cache_fits pos (omega arith)) (
            _,
            refl,
            record {
              keys = λ i out. put_outside a.key_cache head_start config.qkv_dim _ i out;
              values = λ i out. put_outside a.value_cache head_start config.qkv_dim _ i out;
            },
          )))

    rotate-Framed :
        (a : Activations F)
        → Returns
            (rotate kernels config batch_size pos batch_idx layer weights head a)
            (Framed head_start head_end a)
    unfolding rotate
    rotate-Framed a = inside_then _ _ _ q_fits (
        inside_then _ _ _ (cache_fits pos (omega arith)) (
          _,
          refl,
          record {
            keys = λ i out. put_outside a.key_cache head_start config.qkv_dim _ i out;
            values = λ i out. refl;
          },
        ))

    score_loop-Framed :
        (left pos2 : ℕ) (a : Activations F)
        → pos2 + left ≤ pos + 1
        → Returns
            (score_loop kernels config batch_size pos batch_idx layer weights head left pos2 a)
            (Framed head_start head_end a)
    unfolding score_loop
    score_loop-Framed zero pos2 a early = (a, refl, Framed-refl _ _ a)
    score_loop-Framed (suc left) pos2 a early = inside_then _ _ _ q_fits (
        inside_then _ _ _ (cache_fits pos2 (omega arith)) (
          inside_then _ _ _ (omega (arith, att_fits pos2 (omega arith)))
            (after_untouched a _ refl refl (score_loop-Framed left (pos2 + 1) _ (omega arith)))))

    soften-Framed :
        (a : Activations F)
        → Returns
            (soften kernels config batch_size pos batch_idx layer weights head a)
            (Framed head_start head_end a)
    unfolding soften
    soften-Framed a =
        inside_then _ _ _ (att_fits pos (omega arith))
          (inside_then _ _ _ q_fits (_, refl, untouched _ _ refl refl))

    sum_loop-Framed :
        (left pos2 : ℕ) (a : Activations F)
        → pos2 + left ≤ pos + 1
        → Returns
            (sum_loop kernels config batch_size pos batch_idx layer weights head left pos2 a)
            (Framed head_start head_end a)
    unfolding sum_loop
    sum_loop-Framed zero pos2 a early = (a, refl, Framed-refl _ _ a)
    sum_loop-Framed (suc left) pos2 a early =
        inside_then _ _ _ (omega (arith, att_fits pos2 (omega arith))) (
          inside_then _ _ _ (cache_fits pos2 (omega arith)) (
            inside_then _ _ _ q_fits
              (after_untouched a _ refl refl (sum_loop-Framed left (pos2 + 1) _ (omega arith)))))

    project_back-Framed :
        (a : Activations F)
        → Returns
            (project_back kernels config batch_size pos batch_idx layer weights head a)
            (Framed head_start head_end a)
    unfolding project_back
    project_back-Framed a = inside_then _ _ _ q_fits (elim (Bool-cases (head == 0)) [
      | inl first ↦ rw first (
          inside_then _ _ _ (row_inside config batch_size batch_idx b)
            (_, refl, untouched _ _ refl refl))
      | inr other ↦ rw other (
          inside_then _ _ _ (post_inside config batch_size head batch_idx h b)
            (_, refl, untouched _ _ refl refl))
    ])

    -- The task of a head ends normally and writes to the caches only at its part.
    pub attention_head-Framed :
        (a : Activations F)
        → Returns
            (attention_head kernels config batch_size pos batch_idx layer weights head a)
            (Framed head_start head_end a)
    unfolding attention_head
    attention_head-Framed a = then-Framed (project-Framed a) λ a1.
        then-Framed (rotate-Framed a1) λ a2.
          then-Framed (score_loop-Framed (pos + 1) 0 a2 (omega arith)) λ a3.
            then-Framed (soften-Framed a3)
              λ a4. then-Framed (sum_loop-Framed (pos + 1) 0 a4 (omega arith)) project_back-Framed

-- The tasks are those of heads of the model.
abbrev pub AllBelow : ℕ → List ℕ → Type 0
AllBelow n [] = Unit {0}
AllBelow n (i ∷ is) = (i < n) × AllBelow n is

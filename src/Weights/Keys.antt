-- ===== src/Weights/Keys.antt =====
-- The keys of the tensors: CacheKey accepts each name, and no two tensors share a key.
use gemma_cpp.Base.{
  ℕ, zero, suc, ◌≤◌, ◌<◌, ◌^◌, ◌≡◌, refl, ap, sym, ◌∙◌, arith, ok, Bool, true, false, not, ◌&&◌,
  leb, leb→le, &&-eq-true, Bool-cases, inl, inr, if◌then◌else◌, List, [], ◌∷◌, map, length, some,
  get_elem?, Text, same_text, same_text_self,
}
use gemma_cpp.Blob.{U128}
use gemma_cpp.Blob.Key.Distinct.{IsText, make_key_short, make_key_injective, make_key_fits}
use gemma_cpp.Args.Loader.{Model}
use gemma_cpp.Weights.{MatT, Tensor, config_of, key_prefix, cache_key, layer_name, decimal}
use gemma_cpp.Weights.Walk.{all_tensors}

-- Bytes other than zero.
abbrev pub is_text : Text → Bool
is_text [] = true
is_text (c ∷ t) = (leb 1 c && leb c 255) && is_text t

abbrev pub has : Text → List Text → Bool
has t [] = false
has t (u ∷ us) = if same_text t u then true else has t us

-- The names are short, without zero bytes, and all different.
abbrev pub good_names : List Text → Bool
good_names [] = true
good_names (t ∷ ts) = leb (length t) 15 && (is_text t && (not (has t ts) && good_names ts))

abbrev pub names : List Tensor → List Text
names = map (λ t. t.name)

abbrev pub names_of : MatT → Model → List Text
names_of w model = names (all_tensors w (config_of model))

names_of-good : (w : MatT) (model : Model) → good_names (names_of w model) ≡ true
unfolding layer_name decimal
names_of-good w Model.gemma_2b = refl
names_of-good w Model.gemma_7b = refl

is_text-IsText : (t : Text) → is_text t ≡ true → IsText t
is_text-IsText [] e = tt
is_text-IsText (c ∷ t) e =
    let (low_high, rest) = &&-eq-true (leb 1 c && leb c 255) (is_text t) e in
    let (low, high) = &&-eq-true (leb 1 c) (leb c 255) low_high in
    let l = leb→le 1 c low in
    let h = leb→le c 255 high in (omega (arith, l), omega (arith, h), is_text-IsText t rest)

get_elem?-has : (ts : List Text) (i : ℕ) (t : Text) → get_elem? ts i ≡ some t → has t ts ≡ true
get_elem?-has [] i t e = cc
get_elem?-has (u ∷ ts) zero t e = let same : u ≡ t = cc in rw (same, same_text_self t) refl
get_elem?-has (u ∷ ts) (suc i) t e = elim (Bool-cases (same_text t u)) [
  | inl h ↦ rw h refl
  | inr h ↦ rw h (get_elem?-has ts i t e)
]

-- The parts of the test, at the head and behind it.
good_names-cons :
    (t : Text) (ts : List Text)
    → good_names (t ∷ ts) ≡ true
    → (length t ≤ 15) × IsText t × (has t ts ≡ false) × (good_names ts ≡ true)
good_names-cons t ts e =
    let (short, e1) = &&-eq-true (leb (length t) 15) _ e in
    let (chars, e2) = &&-eq-true (is_text t) _ e1 in
    let (new, rest) = &&-eq-true (not (has t ts)) _ e2 in
    (leb→le (length t) 15 short, is_text-IsText t chars, not-true (has t ts) new, rest)
  where
    not-true : (b : Bool) → not b ≡ true → b ≡ false
    not-true true e = sym e
    not-true false e = refl

good_names-get_elem? :
    (ts : List Text) (i : ℕ) (t : Text)
    → good_names ts ≡ true
    → get_elem? ts i ≡ some t
    → (length t ≤ 15) × IsText t
good_names-get_elem? [] i t good e = cc
good_names-get_elem? (u ∷ ts) zero t good e =
    let (short, chars, new, rest) = good_names-cons u ts good in
    let same : u ≡ t = cc in rw (← same) (short, chars)
good_names-get_elem? (u ∷ ts) (suc i) t good e =
    good_names-get_elem? ts i t (good_names-cons u ts good).3 e

-- The name at the head does not come again.
head_again :
    (u : Text) (ts : List Text) (t : Text) (j : ℕ)
    → good_names (u ∷ ts) ≡ true
    → some u ≡ some t
    → get_elem? ts j ≡ some t
    → ⊥
head_again u ts t j good e e' =
    let same : u ≡ t = cc in
    let here : has t ts ≡ true = get_elem?-has ts j t e' in
    let new : has u ts ≡ false = (good_names-cons u ts good).2 in
    let both : has t ts ≡ false = ap (λ v. has v ts) (sym same) ∙ new in cc

good_names_injective :
    (ts : List Text) (i j : ℕ) (t : Text)
    → good_names ts ≡ true
    → get_elem? ts i ≡ some t
    → get_elem? ts j ≡ some t
    → i ≡ j
good_names_injective [] i j t good e e' = cc
good_names_injective (u ∷ ts) zero zero t good e e' = refl
good_names_injective (u ∷ ts) zero (suc j) t good e e' = absurd (head_again u ts t j good e e')
good_names_injective (u ∷ ts) (suc i) zero t good e e' = absurd (head_again u ts t i good e' e)
good_names_injective (u ∷ ts) (suc i) (suc j) t good e e' =
    ap suc (good_names_injective ts i j t (good_names-cons u ts good).3 e e')

-- The memory of a key's text, without the zero byte at its end.
abbrev pub key_text : Tensor → Text
key_text t = key_prefix t.mat ∷ t.name

key_prefix_range : (w : MatT) → (0 < key_prefix w) × (key_prefix w < 256)
key_prefix_range MatT.f32 = (omega arith, omega arith)
key_prefix_range MatT.bf16 = (omega arith, omega arith)
key_prefix_range MatT.sfp = (omega arith, omega arith)
key_prefix_range MatT.nuq = (omega arith, omega arith)

names-get_elem? :
    (ts : List Tensor) (i : ℕ) (t : Tensor)
    → get_elem? ts i ≡ some t
    → get_elem? (names ts) i ≡ some t.name
names-get_elem? [] i t e = cc
names-get_elem? (u ∷ ts) zero t e = let same : u ≡ t = cc in ap (λ v. some v.name) same
names-get_elem? (u ∷ ts) (suc i) t e = names-get_elem? ts i t e

module _ (weight_t : MatT) (model : Model) where
  abbrev tensors : List Tensor
  tensors = all_tensors weight_t (config_of model)

  key_text-IsText :
      (i : ℕ) (t : Tensor)
      → get_elem? tensors i ≡ some t
      → IsText (key_text t) × (length (key_text t) ≤ 16)
  key_text-IsText i t e =
      let (short, chars) =
        good_names-get_elem? (names_of weight_t model) i t.name (names_of-good weight_t model)
          (names-get_elem? tensors i t e) in
      let (low, high) = key_prefix_range t.mat in ((low, high, chars), omega (arith, short))

  -- CacheKey stops the program at no tensor that ForEachTensor visits for the model.
  pub cache_key_returns :
      (i : ℕ) (t : Tensor)
      → get_elem? tensors i ≡ some t
      → (key : U128) × (cache_key t.mat t.name ≡ ok key)
  unfolding cache_key
  cache_key_returns i t e =
      let (chars, short) = key_text-IsText i t e in (_, make_key_short (key_text t) [] chars short)

  -- Tensors at different places of the walk have different keys, for each type of weights and each
  -- of the two models.
  pub cache_key_injective :
      (i j : ℕ) (t u : Tensor)
      → get_elem? tensors i ≡ some t
      → get_elem? tensors j ≡ some u
      → cache_key t.mat t.name ≡ cache_key u.mat u.name
      → i ≡ j
  unfolding cache_key
  cache_key_injective i j t u e e' same =
      let (chars, short) = key_text-IsText i t e in
      let (chars', short') = key_text-IsText j u e' in
      let texts =
        make_key_injective (key_text t) (key_text u) [] [] chars chars' short short' same in
      let equal : t.name ≡ u.name = cc in
      good_names_injective (names_of weight_t model) i j t.name (names_of-good weight_t model)
        (names-get_elem? tensors i t e) (names-get_elem? tensors j u e' ∙ ap some (sym equal))

  -- The halves of the keys fit in 64 bits.
  pub cache_key_fits :
      (i : ℕ) (t : Tensor) (key : U128)
      → get_elem? tensors i ≡ some t
      → cache_key t.mat t.name ≡ ok key
      → (key.lo < 2 ^ 64) × (key.hi < 2 ^ 64)
  unfolding cache_key
  cache_key_fits i t key e run =
      let (chars, short) = key_text-IsText i t e in
      make_key_fits (key_text t) [] key chars short run

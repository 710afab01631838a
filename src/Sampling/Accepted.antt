-- ===== src/Sampling/Accepted.antt =====
-- SampleTopK returns accepted tokens only.
use gemma_cpp.Base.{
  ℕ, zero, suc, ◌+◌, ◌<◌, ◌≤◌, ◌≡◌, ◌⊎◌, inl, inr, refl, ap, subst, ◌∙◌, arith, Returns, Bool, true,
  ◌&&◌, &&-eq-true, Bool-cases, List, [], ◌∷◌, map, length, replicate, length-replicate, some,
  get_elem?, get_elem?-inside,
}
use gemma_cpp.Sampling.{
  Floats, Entry, create_distribution, shift_in, insert_loop, last_probability, top_k_loop,
  sample_top_k,
}

length-map : {A B : Type 0} (f : A → B) (xs : List A) → length (map f xs) ≡ length xs
length-map f [] = refl
length-map f (x ∷ xs) = ap suc (length-map f xs)

module _ {F : Type 0} (floats : Floats F) (accept_token : ℕ → Bool) (vocab_size : ℕ) where
  -- A token below the size of the vocabulary that was accepted, or the token 0 of an entry that
  -- was never filled.
  abbrev pub Allowed : ℕ → Type 0
  Allowed token = ((accept_token token ≡ true) × (token < vocab_size)) ⊎ (token ≡ 0)

  AllAllowed : List (Entry floats) → Type 0
  AllAllowed [] = Unit {0}
  AllAllowed (e ∷ es) = Allowed e.index × AllAllowed es

  shift_in-AllAllowed :
      (new : Entry floats) (es : List (Entry floats))
      → Allowed new.index
      → AllAllowed es
      → AllAllowed (shift_in floats new es) × (length (shift_in floats new es) ≡ length es)
  unfolding AllAllowed shift_in
  shift_in-AllAllowed new [] a all = (tt, refl)
  shift_in-AllAllowed new (e ∷ es) a (b, all) =
      let (rest, size) = shift_in-AllAllowed e es b all in ((a, rest), ap suc size)

  insert_loop-AllAllowed :
      (p : F) (i : ℕ) (es : List (Entry floats))
      → i < vocab_size
      → AllAllowed es
      → AllAllowed (insert_loop floats accept_token p i es)
        × (length (insert_loop floats accept_token p i es) ≡ length es)
  unfolding AllAllowed insert_loop
  insert_loop-AllAllowed p i [] h all = (tt, refl)
  insert_loop-AllAllowed p i (e ∷ es) h (b, all) =
      elim (Bool-cases (floats.less e.probability p && accept_token i)) [
        | inl go ↦
            let accepted = (&&-eq-true (floats.less e.probability p) (accept_token i) go).1 in
            rw (insert_loop, go)
              (shift_in-AllAllowed (record { probability = p; index = i }) (e ∷ es)
                (inl (accepted, h)) (b, all))
        | inr stay ↦
            let (rest, size) = insert_loop-AllAllowed p i es h all in
            rw (insert_loop, stay) ((b, rest), ap suc size)
      ]

  top_k_loop-AllAllowed :
      (ps : List F) (i : ℕ) (top : List (Entry floats))
      → i + length ps ≤ vocab_size
      → AllAllowed top
      → AllAllowed (top_k_loop floats accept_token ps i top)
        × (length (top_k_loop floats accept_token ps i top) ≡ length top)
  unfolding top_k_loop
  top_k_loop-AllAllowed [] i top h all = (all, refl)
  top_k_loop-AllAllowed (p ∷ ps) i top h all =
      elim (Bool-cases
        (floats.less p (last_probability floats accept_token top) && accept_token i)) [
          | inl skip ↦
              rw (top_k_loop, skip) (top_k_loop-AllAllowed ps (i + 1) top (omega arith) all)
          | inr go ↦
              let (all1, size1) = insert_loop-AllAllowed p i top (omega arith) all in
              let (all2, size2) =
                top_k_loop-AllAllowed ps (i + 1) (insert_loop floats accept_token p i top)
                  (omega arith) all1 in
              rw (top_k_loop, go) (all2, size2 ∙ size1)
        ]

  empty_entries : (k : ℕ) (p : F) → AllAllowed (replicate k (record { probability = p; index = 0 }))
  unfolding AllAllowed
  empty_entries zero p = tt
  empty_entries (suc k) p = (inr refl, empty_entries k p)

  Allowed-get_elem? :
      (es : List (Entry floats)) (j : ℕ) (e : Entry floats)
      → AllAllowed es
      → get_elem? es j ≡ some e
      → Allowed e.index
  unfolding AllAllowed
  Allowed-get_elem? [] j e all found = cc
  Allowed-get_elem? (d ∷ es) zero e (a, all) found =
      let same : d ≡ e = cc in subst (λ v. Allowed v.index) same a
  Allowed-get_elem? (d ∷ es) (suc j) e (a, all) found = Allowed-get_elem? es j e all found

length-create_distribution :
    {F : Type 0} (floats : Floats F) (temperature : F) (top_k : List F)
    → length (create_distribution floats temperature top_k) ≡ length top_k
unfolding create_distribution
length-create_distribution floats temperature top_k =
    length-map _ (map (λ p. floats.tempered p temperature) top_k) ∙ length-map _ top_k

-- SampleTopK ends normally, with a token of the vocabulary that was accepted or with token 0, if
-- the distribution draws the place of one of its weights and `k` is not zero.
pub sample_top_k-Allowed :
    {F G : Type 0} (floats : Floats F) (accept_token : ℕ → Bool) (k : ℕ) (draw : List F → G → ℕ × G)
    (temperature : F) (probabilities : List F) (gen : G)
    → 0 < k
    → ((weights : List F) (g : G) → 0 < length weights → (draw weights g).0 < length weights)
    → Returns
        (sample_top_k floats accept_token k draw temperature probabilities gen)
        (λ r. Allowed floats accept_token (length probabilities) r.0)
unfolding sample_top_k
sample_top_k-Allowed floats accept_token k draw temperature probabilities gen some_k draws =
    let start : List (Entry floats) =
      replicate k (record { probability = floats.zero_f; index = 0 }) in
    let top = top_k_loop floats accept_token probabilities 0 start in
    let (all, size) =
      top_k_loop-AllAllowed floats accept_token (length probabilities) probabilities 0 start
        (omega arith) (empty_entries floats accept_token (length probabilities) k floats.zero_f) in
    let weights = create_distribution floats temperature (map (λ e. e.probability) top) in
    let many : length weights ≡ length top =
      length-create_distribution floats temperature (map (λ e. e.probability) top)
      ∙ length-map _ top in
    let entries : length top ≡ k = size ∙ length-replicate k _ in
    let drawn = draws weights gen (omega arith) in
    let (e, found) = get_elem?-inside top (draw weights gen).0 (omega arith) in
    (
      (e.index, (draw weights gen).1),
      rw (sample_top_k, found) refl,
      Allowed-get_elem? floats accept_token (length probabilities) top (draw weights gen).0 e all
          found,
    )

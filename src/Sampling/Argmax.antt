-- ===== src/Sampling/Argmax.antt =====
-- SampleArgmax returns the place of a greatest probability.
use gemma_cpp.Base.{
  ℕ, suc, ◌+◌, ◌-◌, ◌<◌, ◌≡◌, refl, sym, ◌∙◌, subst, arith, Returns, true, false, Bool-cases, inl,
  inr, List, [], ◌∷◌, Option, some, none, dec_lt, get_elem?,
}
use gemma_cpp.Sampling.{Floats, argmax_loop, sample_argmax}

module _ {F : Type 0} (floats : Floats F) where
  -- No probability in the list is greater than the one at the place.
  pub record Greatest (ps : List F) (place : ℕ) : Type 0 where
    pub value : F
    pub at_place : get_elem? ps place ≡ some value
    pub most : (j : ℕ) (q : F) → get_elem? ps j ≡ some q → floats.less value q ≡ false

  -- Of < on floats, NaN included.
  pub record StrictOrder : Type 0 where
    pub irreflexive : (a : F) → floats.less a a ≡ false
    pub transitive :
        (a b c : F) → floats.less a b ≡ true → floats.less b c ≡ true → floats.less a c ≡ true

  module _ (order : StrictOrder) (whole : List F) where
    -- No probability before `i` is greater than `value`.
    NoneBefore : ℕ → F → Type 0
    NoneBefore i value =
        (j : ℕ) (q : F) → j < i → get_elem? whole j ≡ some q → floats.less value q ≡ false

    one_more :
        (i : ℕ) (value p : F)
        → get_elem? whole i ≡ some p
        → floats.less value p ≡ false
        → NoneBefore i value
        → NoneBefore (i + 1) value
    unfolding NoneBefore
    one_more i value p at_i h most j q below e = elim (dec_lt j i) [
      | yes before ↦ most j q before e
      | no behind ↦
          let here : i ≡ j = omega arith in
          let at_j : get_elem? whole j ≡ some p =
            subst (λ n. get_elem? whole n ≡ some p) here at_i in
          let pq : ◌≡◌ {A = Option F} (some p) (some q) = sym at_j ∙ e in
          let same : p ≡ q = cc in subst (λ v. floats.less value v ≡ false) same h
    ]

    -- A greater value has none before it that is greater still.
    greater_still :
        (i : ℕ) (value p : F) → floats.less value p ≡ true → NoneBefore i value → NoneBefore i p
    unfolding NoneBefore
    greater_still i value p up most j q below e = elim (Bool-cases (floats.less p q)) [
      | inl over ↦
          let both : floats.less value q ≡ true = order.transitive value p q up over in
          let none_over = most j q below e in absurd cc
      | inr fine ↦ fine
    ]

    argmax_loop-Greatest :
        (ps : List F) (i max_index : ℕ) (max_prob : F)
        → ((j : ℕ) → get_elem? whole (i + j) ≡ get_elem? ps j)
        → get_elem? whole max_index ≡ some max_prob
        → NoneBefore i max_prob
        → Greatest whole (argmax_loop floats ps i max_index max_prob)
    unfolding argmax_loop NoneBefore
    argmax_loop-Greatest [] i max_index max_prob suffix at_max most = record {
      value = max_prob;
      at_place = at_max;
      most = λ j q e. elim (dec_lt j i) [
        | yes before ↦ most j q before e
        | no behind ↦
            let index : i + (j - i) ≡ j = omega arith in
            let gone : get_elem? whole j ≡ none =
              subst (λ n. get_elem? whole n ≡ none) index (suffix (j - i)) in
            absurd cc
      ];
    }
    argmax_loop-Greatest (p ∷ ps) i max_index max_prob suffix at_max most =
        let first : i + 0 ≡ i = omega arith in
        let at_i : get_elem? whole i ≡ some p =
          subst (λ n. get_elem? whole n ≡ some p) first (suffix 0) in
        let rest : (j : ℕ) → get_elem? whole ((i + 1) + j) ≡ get_elem? ps j = λ j.
          let index : i + suc j ≡ (i + 1) + j = omega arith in
          subst (λ n. get_elem? whole n ≡ get_elem? ps j) index (suffix (suc j)) in
        elim (Bool-cases (floats.less max_prob p)) [
          | inl up ↦
              rw (argmax_loop, up)
                (argmax_loop-Greatest ps (i + 1) i p rest at_i
                  (one_more i p p at_i (order.irreflexive p) (greater_still i max_prob p up most)))
          | inr down ↦
              rw (argmax_loop, down)
                (argmax_loop-Greatest ps (i + 1) max_index max_prob rest at_max
                  (one_more i max_prob p at_i down most))
        ]

  -- On probabilities of which there is at least one, SampleArgmax returns the place of one that no
  -- other exceeds, if < on floats is a strict order.
  pub sample_argmax-Greatest :
      (order : StrictOrder) (p : F) (ps : List F)
      → Returns (sample_argmax floats (p ∷ ps)) (Greatest (p ∷ ps))
  unfolding sample_argmax NoneBefore
  sample_argmax-Greatest order p ps = (
    argmax_loop floats ps 1 0 p,
    refl,
    argmax_loop-Greatest order (p ∷ ps) ps 1 0 p (λ j. one_behind j) refl
        (λ j q below e.
          let here : 0 ≡ j = omega arith in
          let at_j : get_elem? (p ∷ ps) j ≡ some p =
            subst (λ n. get_elem? (p ∷ ps) n ≡ some p) here refl in
          let pq : ◌≡◌ {A = Option F} (some p) (some q) = sym at_j ∙ e in
          let same : p ≡ q = cc in subst (λ v. floats.less p v ≡ false) same (order.irreflexive p)),
  )
    where
      one_behind : (j : ℕ) → get_elem? (p ∷ ps) (1 + j) ≡ get_elem? ps j
      one_behind j =
          let index : suc j ≡ 1 + j = omega arith in
          subst (λ n. get_elem? (p ∷ ps) n ≡ get_elem? ps j) index refl

-- ===== src/Sampling.antt =====
-- SampleArgmax, create_distribution and SampleTopK of ops.h. `F` stands for float, with the operations
-- that the code uses; std::discrete_distribution with the generator is a parameter.
pub mod Accepted
pub mod Argmax
mod Tests
use gemma_cpp.Base.{
  ℕ, zero, suc, ◌+◌, ◌-◌, ok, failed, ◌>>=◌, Checked, Bool, true, false, ◌&&◌, ltb, ◌==◌,
  if◌then◌else◌, List, [], ◌∷◌, map, length, replicate, get_or, get_elem?, Option, some, none,
}

-- exp(log(x) / temperature), +, 1 / x, * and < of floats.
pub record Floats (F : Type 0) : Type 0 where
  pub zero_f : F
  pub less : F → F → Bool
  pub tempered : F → F → F
  pub plus : F → F → F
  pub inverse : F → F
  pub times : F → F → F

-- A read of a float outside of the array.
pub data OutOfRange : Type 0 where
  out_of_range : OutOfRange

module _ {F : Type 0} (floats : Floats F) where
  -- The loop of SampleArgmax over the probabilities from `i` on.
  unfoldable pub argmax_loop : List F → ℕ → ℕ → F → ℕ
  argmax_loop [] i max_index max_prob = max_index
  argmax_loop (p ∷ ps) i max_index max_prob = elim (floats.less max_prob p) [
    | true ↦ argmax_loop ps (i + 1) i p
    | false ↦ argmax_loop ps (i + 1) max_index max_prob
  ]

  -- SampleArgmax; the first probability is read before the loop.
  unfoldable pub sample_argmax : List F → Checked OutOfRange ℕ
  sample_argmax [] = failed OutOfRange.out_of_range
  sample_argmax (p ∷ ps) = ok (argmax_loop ps 1 0 p)

  unfoldable pub sum_from : F → List F → F
  sum_from denominator [] = denominator
  sum_from denominator (p ∷ ps) = sum_from (floats.plus denominator p) ps

  -- The weights of create_distribution.
  unfoldable pub create_distribution : F → List F → List F
  create_distribution temperature top_k =
      let tempered = map (λ p. floats.tempered p temperature) top_k in
      let denominator = floats.inverse (sum_from floats.zero_f tempered) in
      map (λ p. floats.times p denominator) tempered

  -- An entry of the arrays top_k and indices.
  pub record Entry : Type 0 where
    pub probability : F
    pub index : ℕ

  -- The entries behind the place of insertion move by one, and the last one is dropped.
  unfoldable pub shift_in : Entry → List Entry → List Entry
  shift_in new [] = []
  shift_in new (e ∷ es) = new ∷ shift_in e es

  module _ (accept_token : ℕ → Bool) where
    -- The loop over j: the first entry that is smaller is where the token goes.
    unfoldable pub insert_loop : F → ℕ → List Entry → List Entry
    insert_loop p i [] = []
    insert_loop p i (e ∷ es) = elim (floats.less e.probability p && accept_token i) [
      | true ↦ shift_in (record { probability = p; index = i }) (e ∷ es)
      | false ↦ e ∷ insert_loop p i es
    ]

    -- top_k[k - 1]
    unfoldable pub last_probability : List Entry → F
    last_probability [] = floats.zero_f
    last_probability (e ∷ []) = e.probability
    last_probability (e ∷ e' ∷ es) = last_probability (e' ∷ es)

    -- The loop over the probabilities from `i` on.
    unfoldable pub top_k_loop : List F → ℕ → List Entry → List Entry
    top_k_loop [] i top = top
    top_k_loop (p ∷ ps) i top = elim (floats.less p (last_probability top) && accept_token i) [
      | true ↦ top_k_loop ps (i + 1) top
      | false ↦ top_k_loop ps (i + 1) (insert_loop p i top)
    ]

    -- SampleTopK: `draw` is the distribution of some weights with the generator, and returns the
    -- place of one of them. `k` is not zero.
    unfoldable pub sample_top_k :
        {G : Type 0} → ℕ → (List F → G → ℕ × G) → F → List F → G → Checked OutOfRange (ℕ × G)
    sample_top_k k draw temperature probabilities gen =
        let empty : Entry = record { probability = floats.zero_f; index = 0 } in
        let top = top_k_loop probabilities 0 (replicate k empty) in
        let drawn = draw (create_distribution temperature (map (λ e. e.probability) top)) gen in
        elim (get_elem? top drawn.0) [
          | none ↦ failed OutOfRange.out_of_range
          | some e ↦ ok (e.index, drawn.1)
        ]

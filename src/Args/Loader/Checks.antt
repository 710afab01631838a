-- ===== src/Args/Loader/Checks.antt =====
-- What LoaderArgs::Validate accepts, and what its messages say.
use gemma_cpp.Base.{
  ◌≡◌, ◌≢◌, arith, false, [], ◌∷◌, none, some, inl, inr, Text, text, same_text, same_text-eq,
  is_empty, Bool-cases,
}
use gemma_cpp.Args.Loader.{
  Model, ModelTraining, LoaderArgs, LoaderError, to_lower, model_type_of, model_training_of,
  validate_loader,
}

-- The name of a variant.
abbrev pub variant_name : Model → ModelTraining → Text
variant_name Model.gemma_2b ModelTraining.gemma_pt = text "2b-pt"
variant_name Model.gemma_2b ModelTraining.gemma_it = text "2b-it"
variant_name Model.gemma_7b ModelTraining.gemma_pt = text "7b-pt"
variant_name Model.gemma_7b ModelTraining.gemma_it = text "7b-it"

-- The tests of one text against the four names.
pub data Named (lc : Text) : Type 0 where
  is_2b_pt : lc ≡ text "2b-pt" → Named lc
  is_2b_it : lc ≡ text "2b-it" → Named lc
  is_7b_pt : lc ≡ text "7b-pt" → Named lc
  is_7b_it : lc ≡ text "7b-it" → Named lc
  other :
      same_text lc (text "2b-pt") ≡ false
      → same_text lc (text "2b-it") ≡ false
      → same_text lc (text "7b-pt") ≡ false
      → same_text lc (text "7b-it") ≡ false
      → Named lc

named : (lc : Text) → Named lc
named lc = elim (Bool-cases (same_text lc (text "2b-pt"))) [
  | inl a ↦ Named.is_2b_pt (same_text-eq lc _ a)
  | inr a ↦ elim (Bool-cases (same_text lc (text "2b-it"))) [
    | inl b ↦ Named.is_2b_it (same_text-eq lc _ b)
    | inr b ↦ elim (Bool-cases (same_text lc (text "7b-pt"))) [
      | inl c ↦ Named.is_7b_pt (same_text-eq lc _ c)
      | inr c ↦ elim (Bool-cases (same_text lc (text "7b-it"))) [
        | inl d ↦ Named.is_7b_it (same_text-eq lc _ d)
        | inr d ↦ Named.other a b c d
      ]
    ]
  ]
]

-- Arguments that Validate accepts name the variant that ModelType and ModelTraining return, and
-- have a tokenizer and a file of compressed weights.
pub validate_loader_sound :
    (a : LoaderArgs)
    → validate_loader a ≡ none
    → (to_lower a.model_type ≡ variant_name (model_type_of a) (model_training_of a))
      × (is_empty a.tokenizer ≡ false)
      × (is_empty a.cache ≡ false)
unfolding validate_loader model_type_of model_training_of
validate_loader_sound a h = elim (named (to_lower a.model_type)) [
  | Named.is_2b_pt e ↦ ground (arith, e)
  | Named.is_2b_it e ↦ ground (arith, e)
  | Named.is_7b_pt e ↦ ground (arith, e)
  | Named.is_7b_it e ↦ ground (arith, e)
  | Named.other p q r s ↦ ground arith
]

-- The check for a missing model is never reached: an empty model type is an unknown one.
pub validate_loader-ne-missing_model :
    (a : LoaderArgs) → validate_loader a ≢ some LoaderError.missing_model
unfolding validate_loader to_lower
validate_loader-ne-missing_model a h = missing a.model_type a.tokenizer a.cache h
  where
    missing :
        (t tok cache : Text)
        → validate_loader
            (record { tokenizer = tok; model = a.model; cache = cache; model_type = t })
          ≡ some LoaderError.missing_model
        → ⊥
    missing [] tok cache e = cc
    missing (c ∷ t) tok cache e = ground arith

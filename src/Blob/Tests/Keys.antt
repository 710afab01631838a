-- ===== src/Blob/Tests/Keys.antt =====
-- Keys of strings, and the theorems about them at concrete inputs.
use gemma_cpp.Base.{◌≡◌, refl, arith, ok, List, [], ◌∷◌, ◌∙◌, sym, ℕ, ◌+◌, ◌*◌}
use gemma_cpp.Base.Block.{slice, store, le_value}
use gemma_cpp.Blob.Key.{key_length, take_bytes, make_key}
use gemma_cpp.Blob.Key.Distinct.{IsText, make_key_short, make_key_injective}

abbrev ab : List ℕ
ab = 97 ∷ 98 ∷ []

ab-IsText : IsText ab
ab-IsText = (omega arith, omega arith, (omega arith, omega arith, tt))

-- The first character is the lowest byte.
make_key_ab : make_key (97 ∷ 98 ∷ 0 ∷ []) ≡ ok (record { lo = 97 + 256 * 98; hi = 0 })
unfolding make_key key_length take_bytes le_value slice store
make_key_ab = refl

make_key_injective_example : ab ≡ ab
make_key_injective_example =
    make_key_injective ab ab (1 ∷ []) (2 ∷ []) ab-IsText ab-IsText (omega arith) (omega arith) (
      make_key_short ab (1 ∷ []) ab-IsText (omega arith)
      ∙ sym (make_key_short ab (2 ∷ []) ab-IsText (omega arith)))

-- Seventeen characters.
abbrev too_long : List ℕ
too_long = 1 ∷ 2 ∷ 3 ∷ 4 ∷ 5 ∷ 6 ∷ 7 ∷ 8 ∷ 9 ∷ 10 ∷ 11 ∷ 12 ∷ 13 ∷ 14 ∷ 15 ∷ 16 ∷ 17 ∷ []

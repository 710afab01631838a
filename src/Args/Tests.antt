-- ===== src/Args/Tests.antt =====
-- Command lines, and the theorems on arguments at them.
use gemma_cpp.Base.{◌≡◌, refl, false, List, [], ◌∷◌, none, Text, text, is_empty}
use gemma_cpp.Args.{set_text, parse_visit}
use gemma_cpp.Args.Parsing.{Visited, parse_visit-Visited}
use gemma_cpp.Args.Loader.{LoaderArgs, to_lower, model_type_of, model_training_of, validate_loader}
use gemma_cpp.Args.Loader.Checks.{variant_name, validate_loader_sound}

abbrev command_line : List Text
command_line = text "--model" ∷ text "2B-it" ∷ text "--weights" ∷ []

abbrev small_tuned : LoaderArgs
small_tuned = record {
  tokenizer = text "t.spm";
  model = [];
  cache = text "w.sbs";
  model_type = text "2B-it";
}

parse_visit-Visited_example :
    Visited set_text
      (text "model")
      []
      command_line
      (parse_visit set_text (text "model") (text "gemma" ∷ command_line) [])
parse_visit-Visited_example =
    parse_visit-Visited set_text (text "model") (text "gemma") command_line []

small_tuned-valid : validate_loader small_tuned ≡ none
unfolding validate_loader to_lower
small_tuned-valid = refl

validate_loader_sound_example :
    (to_lower small_tuned.model_type
      ≡ variant_name (model_type_of small_tuned) (model_training_of small_tuned))
    × (is_empty small_tuned.tokenizer ≡ false)
    × (is_empty small_tuned.cache ≡ false)
validate_loader_sound_example = validate_loader_sound small_tuned small_tuned-valid

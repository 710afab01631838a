-- ===== src/Args/Loader.antt =====
-- LoaderArgs and the model variants of gemma.h.
pub mod Checks
use gemma_cpp.Base.{
  ok, ◌>>=◌, Checked, Bool, ◌&&◌, ◌||◌, not, List, [], ◌∷◌, ◌++◌, map, Option, none, some,
  if◌then◌else◌, Text, text, same_text, lower, is_empty, ℤ,
}
use gemma_cpp.Args.{ArgFault, shortened, help_line, print_line, set_text, parse_visit}

pub data Model : Type 0 where
  gemma_2b gemma_7b : Model

pub data ModelTraining : Type 0 where
  gemma_it gemma_pt : ModelTraining

-- The members that ForEach visits; the type Path is its `path`.
pub record LoaderArgs : Type 0 where
  pub tokenizer : Text
  pub model : Text
  pub cache : Text
  pub model_type : Text

-- Init: every default is empty.
abbrev pub loader_defaults : LoaderArgs
loader_defaults = record { tokenizer = []; model = []; cache = []; model_type = [] }

-- The constructor: Init and then Parse, in the order of ForEach.
unfoldable pub loader_args : List Text → Checked ArgFault LoaderArgs
loader_args argv = do
  tokenizer ← parse_visit set_text (text "tokenizer") argv loader_defaults.tokenizer
  cache ← parse_visit set_text (text "compressed_weights") argv loader_defaults.cache
  model_type ← parse_visit set_text (text "model") argv loader_defaults.model_type
  model ← parse_visit set_text (text "weights") argv loader_defaults.model
  ok (record { tokenizer = tokenizer; model = model; cache = cache; model_type = model_type })

-- Help and Print.
unfoldable pub loader_help : Text
loader_help =
    help_line (text "tokenizer") (text "Path name of tokenizer model file. (required)")
    ++ (help_line (text "compressed_weights") (
          text
            "Path name of compressed weights file, regenerated from `--weights` file if the compressed weights file does not exist. (required)")
        ++ (help_line (text "model") (
              text
                "Model type - can be 2b-it (2B parameters, instruction-tuned), 2b-pt (2B parameters, pretrained), 7b-it (7B parameters, instruction-tuned), or 7b-pt (7B parameters, pretrained). (required)")
            ++ help_line (text "weights") (
                text
                  "Path name of model weights (.sbs) file. Only required if compressed_weights file is not present and needs to be regenerated. Otherwise, not needed")))

unfoldable pub loader_print : LoaderArgs → ℤ → List Text
loader_print a verbosity =
    print_line verbosity 0 (text "tokenizer") (shortened a.tokenizer)
    ++ (print_line verbosity 0 (text "compressed_weights") (shortened a.cache)
        ++ (print_line verbosity 0 (text "model") a.model_type
            ++ print_line verbosity 0 (text "weights") (shortened a.model)))

-- ToLower, on ASCII as in the C locale.
unfoldable pub to_lower : Text → Text
to_lower = map lower

unfoldable pub model_type_of : LoaderArgs → Model
unfolding to_lower
model_type_of a =
    let lc = to_lower a.model_type in
    if same_text lc (text "2b-pt") || same_text lc (text "2b-it")
    then Model.gemma_2b
    else Model.gemma_7b

unfoldable pub model_training_of : LoaderArgs → ModelTraining
unfolding to_lower
model_training_of a =
    let lc = to_lower a.model_type in
    if same_text lc (text "7b-pt") || same_text lc (text "2b-pt")
    then ModelTraining.gemma_pt
    else ModelTraining.gemma_it

-- The messages of Validate.
pub data LoaderError : Type 0 where
  unknown_model_type missing_tokenizer missing_model missing_compressed_weights : LoaderError

unfoldable pub validate_loader : LoaderArgs → Option LoaderError
unfolding to_lower
validate_loader a =
    let lc = to_lower a.model_type in
    if not (same_text lc (text "2b-pt"))
      && not (same_text lc (text "7b-pt"))
      && not (same_text lc (text "2b-it"))
      && not (same_text lc (text "7b-it"))
    then some LoaderError.unknown_model_type
    else if is_empty a.tokenizer
    then some LoaderError.missing_tokenizer
    else if is_empty a.model_type
    then some LoaderError.missing_model
    else if is_empty a.cache
    then some LoaderError.missing_compressed_weights
    else none

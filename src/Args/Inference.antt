-- ===== src/Args/Inference.antt =====
-- InferenceArgs of gemma.h, and the lengths of configs.h. `F` stands for float.
use gemma_cpp.Base.{
  ℕ, ok, ◌>>=◌, Checked, Bool, true, false, List, ◌++◌, Option, none, some, if◌then◌else◌, ltb,
  Text, text, ℤ,
}
use gemma_cpp.Args.{ArgFault, help_line, print_line, set_size, set_float, set_bool, parse_visit}

abbrev pub seq_len : ℕ
seq_len = 7168

pub record InferenceArgs (F : Type 0) : Type 0 where
  pub max_tokens : ℕ
  pub max_generated_tokens : ℕ
  pub temperature : F
  pub deterministic : Bool
  pub multiturn : Bool

-- Init, where `one` is 1.0f.
abbrev pub inference_defaults : {F : Type 0} → F → InferenceArgs F
inference_defaults one = record {
  max_tokens = 3072;
  max_generated_tokens = 2048;
  temperature = one;
  deterministic = false;
  multiturn = true;
}

-- The constructor: Init and then Parse, in the order of ForEach.
unfoldable pub inference_args :
    {F : Type 0}
    → (Text → Option ℤ)
    → (Text → Option F)
    → F
    → List Text
    → Checked ArgFault (InferenceArgs F)
inference_args stoi stof one argv = do
  let init = inference_defaults one
  max_tokens ← parse_visit (set_size stoi) (text "max_tokens") argv init.max_tokens
  max_generated_tokens ←
      parse_visit (set_size stoi) (text "max_generated_tokens") argv init.max_generated_tokens
  temperature ← parse_visit (set_float stof) (text "temperature") argv init.temperature
  deterministic ← parse_visit set_bool (text "deterministic") argv init.deterministic
  multiturn ← parse_visit set_bool (text "multiturn") argv init.multiturn
  ok (record {
    max_tokens = max_tokens;
    max_generated_tokens = max_generated_tokens;
    temperature = temperature;
    deterministic = deterministic;
    multiturn = multiturn;
  })

unfoldable pub inference_help : Text
inference_help =
    help_line (text "max_tokens") (text "Maximum number of tokens in prompt + generation.")
    ++ (help_line (text "max_generated_tokens") (text "Maximum number of tokens to generate.")
        ++ (help_line (text "temperature") (text "Temperature for top-K")
            ++ (help_line (text "deterministic") (text "Make top-k sampling deterministic")
                ++ help_line (text "multiturn") (
                    text
                      "Multiturn mode (if 0, this clears the KV cache after every interaction without quitting)"))))

-- Print, where std::to_string of each type is a parameter.
unfoldable pub inference_print :
    {F : Type 0} → (ℕ → Text) → (F → Text) → (Bool → Text) → InferenceArgs F → ℤ → List Text
inference_print show_size show_float show_bool a verbosity =
    print_line verbosity 0 (text "max_tokens") (show_size a.max_tokens)
    ++ (print_line verbosity 0 (text "max_generated_tokens") (show_size a.max_generated_tokens)
        ++ (print_line verbosity 2 (text "temperature") (show_float a.temperature)
            ++ (print_line verbosity 2 (text "deterministic") (show_bool a.deterministic)
                ++ print_line verbosity 2 (text "multiturn") (show_bool a.multiturn))))

pub data InferenceError : Type 0 where
  max_tokens_too_large max_generated_tokens_too_large : InferenceError

unfoldable pub validate_inference : {F : Type 0} → InferenceArgs F → Option InferenceError
validate_inference a =
    if ltb seq_len a.max_tokens
    then some InferenceError.max_tokens_too_large
    else if ltb a.max_tokens a.max_generated_tokens
    then some InferenceError.max_generated_tokens_too_large
    else none

-- ===== src/Program/Tests.antt =====
-- A start of the program at whose end the input is empty, and the theorem on main at it.
use gemma_cpp.Base.{ℕ, ◌≡◌, refl, ok, Checked, true, List, [], ◌∷◌, none, some, Text, text, pos}
use gemma_cpp.Args.{parse_visit, parse_loop, take_value, set_text, set_int, has_help, help_loop}
use gemma_cpp.Args.Loader.{
  Model, ModelTraining, LoaderArgs, loader_args, validate_loader, to_lower, model_type_of,
  model_training_of,
}
use gemma_cpp.Args.Inference.{inference_args, validate_inference}
use gemma_cpp.Args.App.{app_args, choose_num_threads, clamp, minus_two}
use gemma_cpp.Repl.{Given, Chat, ReplEnd, repl_gemma, repl_loop, ask}
use gemma_cpp.Program.{System, Finished, main, run, pinned_cores}
use gemma_cpp.Program.Start.{Accepted, main-talked}

abbrev system : System ℕ
system = record {
  stoi = λ t. some (pos 0);
  stof = λ t. none;
  one = 1;
  concurrency = 8;
  show_int = λ n. [];
  show_size = λ n. [];
  show_float = λ x. [];
  show_bool = λ b. [];
  hardware = [];
}

abbrev given : Given ℕ ℕ ℕ
given = record {
  encode = λ t. some t;
  decode = λ tokens. some tokens;
  seed_42 = 42;
  seed_random = 17;
  prefill = λ tokens pos s. ok s;
  transformer = λ token pos s. ok s;
  logits = λ s. s;
  sample = λ s g. (1, g);
  logit = λ s token. token;
  no_probability = 0;
  statistics = λ current abs. [];
  show_size = λ n. [];
  training = ModelTraining.gemma_it;
  debug = true;
}

abbrev load : LoaderArgs → Model → ModelTraining → ℕ → List ℕ → Checked ℕ (Given ℕ ℕ ℕ × ℕ)
load loader model training threads cores = ok (given, 0)

abbrev argv : List Text
argv =
    text "gemma"
    ∷ text "--tokenizer"
    ∷ text "t"
    ∷ text "--compressed_weights"
    ∷ text "w"
    ∷ text "--model"
    ∷ text "2b-it"
    ∷ text "--verbosity"
    ∷ text "0"
    ∷ []

abbrev ending : ReplEnd × ℕ × Chat ℕ
ending = (
  ReplEnd.quit,
  0,
  record { abs_pos = 0; current_pos = 0; prompt_size = 0; gen = 17; out = []; err = [] },
)

argv_talks : main system load [] argv ≡ ok (Finished.talked [] ending)
unfolding main run loader_args inference_args app_args parse_visit parse_loop take_value set_text
    has_help help_loop validate_loader to_lower model_type_of model_training_of validate_inference
    choose_num_threads clamp minus_two repl_gemma repl_loop ask pinned_cores set_int
argv_talks = refl

main-talked_example : Accepted system load [] argv
main-talked_example = main-talked system load [] argv [] ending argv_talks

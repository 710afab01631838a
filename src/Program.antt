-- ===== src/Program.antt =====
-- Run and main of run.cc. Loading the model and pinning threads are parameters; the banner and
-- the two configuration lines of the hardware are texts of theirs.
pub mod Start
mod Tests
use gemma_cpp.Base.{
  ℕ, zero, suc, ◌+◌, ◌-◌, ok, failed, ◌>>=◌, Checked, Bool, true, false, ltb, if◌then◌else◌, List,
  [], ◌∷◌, ◌++◌, Option, none, some, Text, text, ℤ,
}
use gemma_cpp.Args.{ArgFault, has_help, reaches}
use gemma_cpp.Args.Loader.{
  Model, ModelTraining, LoaderArgs, LoaderError, loader_args, loader_help, loader_print,
  model_type_of, model_training_of, validate_loader,
}
use gemma_cpp.Args.Inference.{
  InferenceArgs, InferenceError, inference_args, inference_help, inference_print,
  validate_inference,
}
use gemma_cpp.Args.App.{AppArgs, app_args, app_help, app_print}
use gemma_cpp.Repl.{Given, Chat, ReplFault, ReplEnd, repl_gemma}

-- ShowHelp
unfoldable pub show_help : Text
show_help =
    text
      "\ngemma.cpp\n---------\n\nTo run gemma.cpp, you need to specify 3 required model loading arguments: --tokenizer, --compressed_weights, and --model.\n\nModel Loading Arguments\n\n"
    ++ (loader_help
        ++ (text "\nInference Arguments\n\n"
            ++ (inference_help
                ++ (text "\nApplication Arguments\n\n" ++ (app_help ++ text "\n\n")))))

-- What the system gives: std::stoi and std::stof with 1.0f, the number of hardware threads,
-- std::to_string, and the lines about the build and the hardware.
pub record System (F : Type 0) : Type 0 where
  pub stoi : Text → Option ℤ
  pub stof : Text → Option F
  pub one : F
  pub concurrency : ℕ
  pub show_int : ℤ → Text
  pub show_size : ℕ → Text
  pub show_float : F → Text
  pub show_bool : Bool → Text
  pub hardware : List Text

-- ShowConfig
unfoldable pub show_config :
    {F : Type 0} → System F → LoaderArgs → InferenceArgs F → AppArgs → List Text
show_config system loader inference app =
    loader_print loader app.verbosity
    ++ (inference_print system.show_size system.show_float system.show_bool inference app.verbosity
        ++ (app_print system.show_int system.show_size app app.verbosity
            ++ (if reaches app.verbosity 2 then system.hardware else [])))

-- How the program stops before the loop: at a parsed argument, at a failed load of the model, at
-- an invalid argument, or in the loop.
pub data Stop (L : Type 0) : Type 0 where
  parsing : ArgFault → Stop L
  loading : L → Stop L
  invalid_loader : LoaderError → Stop L
  invalid_inference : InferenceError → Stop L
  looping : ReplFault → Stop L

-- How it ends normally: after the help, or after the loop, with what was shown before it.
pub data Finished (S G : Type 0) : Type 0 where
  helped : Text → Finished S G
  talked : List Text → ReplEnd × S × Chat G → Finished S G

-- The lift of a part's faults.
abbrev pub or_stop : {L E A : Type 0} → (E → Stop L) → Checked E A → Checked (Stop L) A
or_stop stop (ok a) = ok a
or_stop stop (failed e) = failed (stop e)

-- The cores to which the main thread and then the threads of the pool are pinned.
abbrev pub cores_below : ℕ → List ℕ
cores_below zero = []
cores_below (suc n) = cores_below n ++ (n ∷ [])

unfoldable pub pinned_cores : ℕ → List ℕ
pinned_cores num_threads =
    if ltb 10 num_threads then (num_threads - 1) ∷ cores_below num_threads else []

module _ {S G F L : Type 0} (system : System F)
    (load : LoaderArgs → Model → ModelTraining → ℕ → List ℕ → Checked L (Given S G F × S))
    (lines : List Text) where
  -- Run: the model is loaded before the arguments of the inference are looked at.
  unfoldable pub run : LoaderArgs → InferenceArgs F → AppArgs → Checked (Stop L) (Finished S G)
  run loader inference app = do
    loaded ← or_stop Stop.loading (
        load loader (model_type_of loader) (model_training_of loader) app.num_threads
          (pinned_cores app.num_threads))
    elim (validate_inference inference) [
      | some error ↦ failed (Stop.invalid_inference error)
      | none ↦ do
        let shown = if reaches app.verbosity 1 then show_config system loader inference app else []
        ended ← or_stop Stop.looping (repl_gemma loaded.0 inference app.verbosity lines loaded.1)
        ok (Finished.talked shown ended)
    ]

  -- main
  unfoldable pub main : List Text → Checked (Stop L) (Finished S G)
  main argv = do
    loader ← or_stop Stop.parsing (loader_args argv)
    inference ← or_stop Stop.parsing (inference_args system.stoi system.stof system.one argv)
    app ← or_stop Stop.parsing (app_args system.stoi system.concurrency argv)
    elim (has_help argv) [
      | true ↦ ok (Finished.helped show_help)
      | false ↦ elim (validate_loader loader) [
        | some error ↦ failed (Stop.invalid_loader error)
        | none ↦ run loader inference app
      ]
    ]

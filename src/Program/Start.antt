-- ===== src/Program/Start.antt =====
-- When the program comes to talk to the user.
use gemma_cpp.Base.{
  ℕ, ◌≡◌, refl, ok, failed, ◌>>=◌, Checked, false, List, none, Text, Bool-cases, Option-cases, inl,
  inr,
}
use gemma_cpp.Args.{ArgFault, has_help}
use gemma_cpp.Args.Loader.{
  Model, ModelTraining, LoaderArgs, loader_args, validate_loader, model_type_of, model_training_of,
}
use gemma_cpp.Args.Inference.{InferenceArgs, inference_args, validate_inference}
use gemma_cpp.Args.App.{AppArgs, app_args}
use gemma_cpp.Repl.{Given, Chat, ReplEnd}
use gemma_cpp.Program.{System, Finished, pinned_cores, run, main}

module _ {S G F L : Type 0} (system : System F)
    (load : LoaderArgs → Model → ModelTraining → ℕ → List ℕ → Checked L (Given S G F × S))
    (lines : List Text) where
  -- Arguments that were parsed from argv without a call for help and passed both checks.
  pub record Accepted (argv : List Text) : Type 0 where
    pub loader : LoaderArgs
    pub inference : InferenceArgs F
    pub loader_parsed : loader_args argv ≡ ok loader
    pub inference_parsed : inference_args system.stoi system.stof system.one argv ≡ ok inference
    pub no_help : has_help argv ≡ false
    pub loader_valid : validate_loader loader ≡ none
    pub inference_valid : validate_inference inference ≡ none

  run-talked :
      (loader : LoaderArgs) (inference : InferenceArgs F) (app : AppArgs) (shown : List Text)
      (ended : ReplEnd × S × Chat G)
      → run system load lines loader inference app ≡ ok (Finished.talked shown ended)
      → validate_inference inference ≡ none
  unfolding run
  run-talked loader inference app shown ended e =
      by_load
        (load loader (model_type_of loader) (model_training_of loader) app.num_threads
          (pinned_cores app.num_threads))
        refl
    where
      by_load :
          (r : Checked L (Given S G F × S))
          → load loader
              (model_type_of loader)
              (model_training_of loader)
              app.num_threads
              (pinned_cores app.num_threads)
            ≡ r
          → validate_inference inference ≡ none
      by_load (failed l) p = absurd (let e1 = rw (run, p) at e in cc)
      by_load (ok loaded) p = elim (Option-cases (validate_inference inference)) [
        | inl none_found ↦ none_found
        | inr found ↦ absurd (let e1 = rw (run, p, ◌>>=◌, found.1) at e in cc)
      ]

  -- The loop with the user is only entered, and ended, with arguments that parse from argv, do not
  -- ask for help, and pass the checks of LoaderArgs and of InferenceArgs.
  pub main-talked :
      (argv shown : List Text) (ended : ReplEnd × S × Chat G)
      → main system load lines argv ≡ ok (Finished.talked shown ended)
      → Accepted argv
  unfolding main
  main-talked argv shown ended e =
      by_parse (loader_args argv) (inference_args system.stoi system.stof system.one argv)
        (app_args system.stoi system.concurrency argv) refl refl refl
    where
      by_parse :
          (r1 : Checked ArgFault LoaderArgs) (r2 : Checked ArgFault (InferenceArgs F))
          (r3 : Checked ArgFault AppArgs)
          → loader_args argv ≡ r1
          → inference_args system.stoi system.stof system.one argv ≡ r2
          → app_args system.stoi system.concurrency argv ≡ r3
          → Accepted argv
      by_parse (failed f) r2 r3 p q r = absurd (let e1 = rw (main, p) at e in cc)
      by_parse (ok loader) (failed f) r3 p q r = absurd (let e1 = rw (main, p, ◌>>=◌, q) at e in cc)
      by_parse (ok loader) (ok inference) (failed f) p q r =
          absurd (let e1 = rw (main, p, ◌>>=◌, q, r) at e in cc)
      by_parse (ok loader) (ok inference) (ok app) p q r = elim (Bool-cases (has_help argv)) [
        | inl h ↦ absurd (let e1 = rw (main, p, ◌>>=◌, q, r, h) at e in cc)
        | inr h ↦ elim (Option-cases (validate_loader loader)) [
          | inr found ↦ absurd (let e1 = rw (main, p, ◌>>=◌, q, r, h, found.1) at e in cc)
          | inl valid ↦
              let e1 = rw (main, p, ◌>>=◌, q, r, h, valid) at e in
              record {
                loader = loader;
                inference = inference;
                loader_parsed = p;
                inference_parsed = q;
                no_help = h;
                loader_valid = valid;
                inference_valid = run-talked loader inference app shown ended e1;
              }
        ]
      ]

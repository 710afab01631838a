-- ===== src/Repl/Tests.antt =====
-- A dialogue with a tokenizer of bytes, and the theorems on ReplGemma at it.
use gemma_cpp.Base.{
  ℕ, zero, suc, subst, Text, ◌%◌, ◌≡◌, ok, refl, arith, Returns, true, List, [], ◌∷◌, length, some,
  text, pos,
}
use gemma_cpp.Args.Loader.{ModelTraining}
use gemma_cpp.Args.Inference.{InferenceArgs, inference_defaults}
use gemma_cpp.Repl.{Given, Chat, prompt_text, turn}
use gemma_cpp.Repl.Turns.{Documented, Below, Turned, turn-Turned, with_bos}

abbrev byte_tokens : Text → List ℕ
byte_tokens [] = []
byte_tokens (c ∷ t) = (c % 256) ∷ byte_tokens t

byte_tokens-Below : (t : Text) → Below 256 (byte_tokens t)
byte_tokens-Below [] i token e = cc
byte_tokens-Below (c ∷ t) zero token e = let same : c % 256 ≡ token = cc in omega (arith, same)
byte_tokens-Below (c ∷ t) (suc i) token e = byte_tokens-Below t i token e

-- The network answers with the end of text at once.
abbrev bytes : Given ℕ ℕ ℕ
bytes = record {
  encode = λ t. some (byte_tokens t);
  decode = λ tokens. some tokens;
  seed_42 = 42;
  seed_random = 17;
  prefill = λ tokens pos s. ok s;
  transformer = λ token pos s. ok s;
  logits = λ s. s;
  sample = λ s g. (1, g);
  logit = λ s token. token;
  no_probability = 0;
  statistics = λ current abs. [];
  show_size = λ n. [];
  training = ModelTraining.gemma_it;
  debug = true;
}

abbrev defaults : InferenceArgs ℕ
defaults = inference_defaults 1

abbrev second_turn : Chat ℕ
second_turn = record { abs_pos = 40; current_pos = 0; prompt_size = 0; gen = 5; out = []; err = [] }

abbrev hello : List ℕ
hello = byte_tokens (prompt_text ModelTraining.gemma_it 40 (text "hello"))

bytes-Documented : Documented bytes defaults (pos 1) 256
bytes-Documented = record {
  decodes = λ token h. (token ∷ [], refl);
  encodes = λ line tokens e.
      let same : byte_tokens line ≡ tokens = cc in subst (Below 256) same (byte_tokens-Below line);
  samples = λ s g. omega arith;
  has_bos = omega arith;
  prefill_runs = λ tokens pos s small inside below. (s, refl, tt);
  transformer_runs = λ token pos s below inside. (s, refl, tt);
}

turn-Turned_example :
    Returns
      (turn bytes defaults (pos 1) (text "hello") 0 second_turn)
      (λ r. Turned bytes defaults (pos 1) 40 (length (with_bos 40 hello)) r.1)
unfolding prompt_text
turn-Turned_example =
    turn-Turned bytes defaults (pos 1) 256 (text "hello") hello 0 second_turn bytes-Documented refl
      (omega arith) (omega arith) (omega arith) refl

-- ===== src/Repl.antt =====
-- ReplGemma of run.cc: the loop over the lines of input, and the callback for each token. The
-- tokenizer, the random generator and the clock are parameters, and so is the network, whose
-- loops are in Generate. `S` is the state of the network, `G` the generator, `F` stands for float.
pub mod Turns
mod Tests
use gemma_cpp.Base.{
  ℕ, ◌+◌, ok, failed, ◌>>=◌, Checked, Bool, true, false, ◌||◌, not, ltb, leb, ◌==◌, if◌then◌else◌,
  List, [], ◌∷◌, ◌++◌, length, Option, none, some, Text, text, same_text, ℤ,
}
use gemma_cpp.Args.{reaches}
use gemma_cpp.Args.Loader.{ModelTraining}
use gemma_cpp.Args.Inference.{InferenceArgs}
use gemma_cpp.Generate.{Network, Bounds, GenerateFault, eos_id, generate}

-- What the program is given: SentencePiece (none is a status that is not OK), the generator after
-- seed(42) and after the seed of the hardware, the operations of the network, the line with the
-- time that a turn took, and std::to_string.
pub record Given (S G F : Type 0) : Type 0 where
  pub encode : Text → Option (List ℕ)
  pub decode : List ℕ → Option Text
  pub seed_42 : G
  pub seed_random : G
  pub prefill : List ℕ → ℕ → S → Checked GenerateFault S
  pub transformer : ℕ → ℕ → S → Checked GenerateFault S
  pub logits : S → S
  pub sample : S → G → ℕ × G
  pub logit : S → ℕ → F
  pub no_probability : F
  pub statistics : ℕ → ℕ → Text
  pub show_size : ℕ → Text
  pub training : ModelTraining
  pub debug : Bool

-- The variables that the callback captures, with what stands on std::cout and std::cerr.
pub record Chat (G : Type 0) : Type 0 where
  pub abs_pos : ℕ
  pub current_pos : ℕ
  pub prompt_size : ℕ
  pub gen : G
  pub out : Text
  pub err : Text

pub data ReplFault : Type 0 where
  encode_assertion : ReplFault
  generation : GenerateFault → ReplFault

-- How the loop ends: at the end of input or %q, or with no position left.
pub data ReplEnd : Type 0 where
  quit exceeded : ReplEnd

-- token_text.erase(0, token_text.find_first_not_of(" \t\n"))
unfoldable pub without_front_space : Text → Text
without_front_space [] = []
without_front_space (c ∷ t) =
    let rest = without_front_space t in
    if c == b' ' || c == b'\t' || c == b'\n' then rest else c ∷ t

abbrev pub is_quit : Text → Bool
is_quit line = same_text line (text "%q") || same_text line (text "%Q")

abbrev pub is_clear : Text → Bool
is_clear line = same_text line (text "%c") || same_text line (text "%C")

-- The control tokens of the instruction-tuned models.
unfoldable pub prompt_text : ModelTraining → ℕ → Text → Text
prompt_text ModelTraining.gemma_pt abs_pos line = line
prompt_text ModelTraining.gemma_it abs_pos line =
    let wrapped =
      text "<start_of_turn>user\n" ++ (line ++ text "<end_of_turn>\n<start_of_turn>model\n") in
    if ltb 0 abs_pos then text "<end_of_turn>\n" ++ wrapped else wrapped

module _ {S G F : Type 0} (given : Given S G F) (args : InferenceArgs F) (verbosity : ℤ) where
  -- At the end of a turn without multiturn.
  unfoldable pub end_of_turn : Chat G → Chat G
  end_of_turn c =
      if args.multiturn
      then c
      else record c { abs_pos = 0; gen = if args.deterministic then given.seed_42 else c.gen }

  unfoldable pub print_token : ℕ → Chat G → Text → Chat G
  print_token current_pos c token_text =
      if current_pos == c.prompt_size + 1
      then record c {
        out =
            c.out
            ++ ((if reaches verbosity 1 then text "\n\n" else [])
                ++ without_front_space token_text);
      }
      else record c { out = c.out ++ token_text }

  -- The callback.
  unfoldable pub stream_token : ℕ → Chat G → Checked GenerateFault (Bool × Chat G)
  stream_token token c0 =
      let c = record c0 { abs_pos = c0.abs_pos + 1; current_pos = c0.current_pos + 1 } in
      if ltb c.current_pos c.prompt_size
      then ok (true, record c { err = c.err ++ text "." })
      else if token == eos_id
      then (let ended = end_of_turn c in
          ok (
            true,
            record ended {
              out = ended.out ++ (if reaches verbosity 2 then text "\n[ End ]\n" else []);
            },
          ))
      else elim (given.decode (token ∷ [])) [
        | none ↦ failed GenerateFault.callback_assertion
        | some token_text ↦ ok (true, print_token c.current_pos c token_text)
      ]

  -- What GenerateGemma is called with.
  unfoldable pub network : Network S (Chat G) F
  network = record {
    prefill = given.prefill;
    transformer = given.transformer;
    logits = given.logits;
    sample = λ s c. let r = given.sample s c.gen in (r.0, record c { gen = r.1 });
    logit = given.logit;
    no_probability = given.no_probability;
    stream_token = λ token p c. stream_token token c;
  }

  abbrev pub bounds : Bounds
  bounds = record {
    max_tokens = args.max_tokens;
    max_generated_tokens = args.max_generated_tokens;
    debug = given.debug;
  }

  -- A turn: from the line of input to the end of the answer.
  unfoldable pub turn : Text → S → Chat G → Checked ReplFault (S × Chat G)
  turn line s c = elim (given.encode (prompt_text given.training c.abs_pos line)) [
    | none ↦ failed ReplFault.encode_assertion
    | some tokens ↦
        let prompt = if c.abs_pos == 0 then 2 ∷ tokens else tokens in
        let c1 = record c {
          prompt_size = length prompt;
          err = c.err ++ text "\n[ Reading prompt ] ";
        } in
        elim (generate network bounds prompt c1.abs_pos s c1) [
          | failed fault ↦ failed (ReplFault.generation fault)
          | ok (s2, c2) ↦ ok (
            s2,
            record c2 {
              out =
                  c2.out
                  ++ ((if reaches verbosity 2
                        then given.statistics c2.current_pos c2.abs_pos
                        else [])
                      ++ text "\n\n");
            },
          )
        ]
  ]

  -- The prompt of the loop.
  unfoldable pub ask : Chat G → Chat G
  ask c = record c {
    current_pos = 0;
    out = c.out ++ (if reaches verbosity 1 then text "> " else []);
  }

  unfoldable pub exceeded_message : Chat G → Chat G
  exceeded_message c = record c {
    out =
        c.out
        ++ (text "max_tokens ("
            ++ (given.show_size args.max_tokens
                ++ text
                    ") exceeded. Use a larger value if desired using the --max_tokens command line flag.\n"));
  }

  -- The loop over the lines that std::getline reads.
  unfoldable pub repl_loop : List Text → S → Chat G → Checked ReplFault (ReplEnd × S × Chat G)
  repl_loop [] s c =
      if ltb c.abs_pos args.max_tokens
      then ok (ReplEnd.quit, s, ask c)
      else ok (ReplEnd.exceeded, s, exceeded_message c)
  repl_loop (line ∷ lines) s c = elim (ltb c.abs_pos args.max_tokens) [
    | false ↦ ok (ReplEnd.exceeded, s, exceeded_message c)
    | true ↦ elim (is_quit line) [
      | true ↦ ok (ReplEnd.quit, s, ask c)
      | false ↦ elim (is_clear line) [
        | true ↦ repl_loop lines s (record (ask c) { abs_pos = 0 })
        | false ↦ do r ← turn line s (ask c); repl_loop lines r.0 r.1
      ]
    ]
  ]

  -- ReplGemma.
  unfoldable pub repl_gemma : List Text → S → Checked ReplFault (ReplEnd × S × Chat G)
  repl_gemma lines s = repl_loop lines s (record {
    abs_pos = 0;
    current_pos = 0;
    prompt_size = 0;
    gen = if args.deterministic then given.seed_42 else given.seed_random;
    out = [];
    err = [];
  })

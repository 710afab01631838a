-- ===== src/Args.antt =====
-- util/args.h: command line arguments. A class of arguments visits each of its members with a
-- visitor that sets it to its default, prints it or its help, or parses it from argv. std::stoi
-- and std::stof are parameters: `none` stands for the exception that they throw.
pub mod Parsing
pub mod Loader
pub mod Inference
pub mod App
mod Tests
use gemma_cpp.Base.{
  ℕ, suc, ◌+◌, ◌-◌, ◌/◌, ◌^◌, ok, failed, ◌>>=◌, Checked, Bool, true, false, ◌||◌, ltb, leb, ◌==◌,
  List, [], ◌∷◌, ◌++◌, map, length, take, drop, replicate, Option, none, some, if◌then◌else◌, Text,
  text, same_text, lower, is_empty, ℤ, pos, negsuc, to_u64,
}

-- How the parsing of the arguments can stop the program.
pub data ArgFault : Type 0 where
  missing_value : Text → ArgFault
  invalid_value : Text → Text → ArgFault
  not_a_number : ArgFault

-- Path::Shortened
abbrev pub max_len : ℕ
max_len = 48

abbrev pub cut_point : ℕ
cut_point = max_len / 2 - 5

unfoldable pub shortened : Text → Text
shortened path =
    if ltb max_len (length path)
    then take cut_point path ++ (text " ... " ++ drop (length path - cut_point) path)
    else if is_empty path
    then text "[no path specified]"
    else path

-- HelpVisitor and PrintVisitor: the line that goes to stderr, if any.
unfoldable pub help_line : Text → Text → Text
help_line name help = text "  --" ++ (name ++ (text " : " ++ (help ++ text "\n")))

-- `verbosity >= print_verbosity` on int.
abbrev pub reaches : ℤ → ℕ → Bool
reaches (pos verbosity) print_verbosity = leb print_verbosity verbosity
reaches (negsuc n) print_verbosity = false

unfoldable pub print_line : ℤ → ℕ → Text → Text → List Text
print_line verbosity print_verbosity name shown =
    if reaches verbosity print_verbosity
    then (name ++ (replicate (30 - length name) b' ' ++ (text ": " ++ (shown ++ text "\n")))) ∷ []
    else []

-- ParseVisitor::SetValue for each of the types: false is `none`.
abbrev pub Setter : Type 0 → Type 0
Setter T = Text → Checked ArgFault (Option T)

unfoldable pub set_int : (Text → Option ℤ) → Setter ℤ
set_int stoi value = elim (stoi value) [
  | none ↦ failed ArgFault.not_a_number
  | some n ↦ ok (some n)
]

-- An int that is assigned to a size_t.
unfoldable pub set_size : (Text → Option ℤ) → Setter ℕ
set_size stoi value = elim (stoi value) [
  | none ↦ failed ArgFault.not_a_number
  | some n ↦ ok (some (to_u64 n))
]

unfoldable pub set_float : {F : Type 0} → (Text → Option F) → Setter F
set_float stof value = elim (stof value) [
  | none ↦ failed ArgFault.not_a_number
  | some x ↦ ok (some x)
]

unfoldable pub set_text : Setter Text
set_text value = ok (some value)

unfoldable pub set_bool : Setter Bool
set_bool string =
    let value = map lower string in
    ok (
      if same_text value (text "true") || same_text value (text "on") || same_text value (text "1")
      then some true
      else if same_text value (text "false")
          || same_text value (text "off")
          || same_text value (text "0")
      then some false
      else none)

module _ {T : Type 0} (set_value : Setter T) (name : Text) where
  -- The flag has been found, and `rest` stands behind it.
  unfoldable pub take_value : List Text → Checked ArgFault T
  take_value [] = failed (ArgFault.missing_value name)
  take_value (value ∷ rest) = do
    result ← set_value value
    elim result [ none ↦ failed (ArgFault.invalid_value name value) | some t ↦ ok t ]

  -- The loop of ParseVisitor over argv from 1 on; `t` stays if the flag is not there.
  unfoldable pub parse_loop : List Text → T → Checked ArgFault T
  parse_loop [] t = ok t
  parse_loop (arg ∷ rest) t = elim (same_text arg (text "--" ++ name)) [
    | true ↦ take_value rest
    | false ↦ parse_loop rest t
  ]

  -- ParseVisitor::operator(). argv[0] is the program.
  unfoldable pub parse_visit : List Text → T → Checked ArgFault T
  parse_visit [] t = ok t
  parse_visit (program ∷ args) t = parse_loop args t

-- HasHelp
unfoldable pub help_loop : List Text → Bool
help_loop [] = false
help_loop (arg ∷ rest) = if same_text arg (text "--help") then true else help_loop rest

unfoldable pub has_help : List Text → Bool
has_help [] = false
has_help (program ∷ args) = if length args + 1 == 1 then true else help_loop args

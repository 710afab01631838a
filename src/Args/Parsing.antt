-- ===== src/Args/Parsing.antt =====
-- What ParseVisitor finds in argv, for each kind of member, and the length of a printed path.
use gemma_cpp.Base.{
  ◌≡◌, refl, sym, arith, ok, failed, ◌>>=◌, Checked, Bool, true, false, not, ◌&&◌, Bool-cases, List,
  [], ◌∷◌, ◌++◌, length, take, drop, Option, none, some, Text, text, same_text, same_text-eq, inl,
  inr, ◌≤◌, ◌<◌, subst, ltb→lt, length-append, length-take, length-drop, ltb, ◌-◌,
}
use gemma_cpp.Args.{
  ArgFault, Setter, take_value, parse_loop, parse_visit, max_len, cut_point, shortened,
}

abbrev pub flag : Text → Text
flag name = text "--" ++ name

-- No argument is the flag.
abbrev pub lacks : Text → List Text → Bool
lacks name [] = true
lacks name (a ∷ args) = not (same_text a (flag name)) && lacks name args

module _ {T : Type 0} (set_value : Setter T) (name : Text) where
  -- The result for the arguments behind the program: the first flag decides, and the argument
  -- behind it is the value whatever it is.
  pub data Visited (t : T) : List Text → Checked ArgFault T → Type 0 where
    kept : (args : List Text) → lacks name args ≡ true → Visited t args (ok t)
    no_value :
        (before : List Text)
        → lacks name before ≡ true
        → Visited t (before ++ (flag name ∷ [])) (failed (ArgFault.missing_value name))
    parsed :
        (before : List Text) (value : Text) (after : List Text) (x : T)
        → lacks name before ≡ true
        → set_value value ≡ ok (some x)
        → Visited t (before ++ (flag name ∷ value ∷ after)) (ok x)
    refused :
        (before : List Text) (value : Text) (after : List Text)
        → lacks name before ≡ true
        → set_value value ≡ ok none
        → Visited t
            (before ++ (flag name ∷ value ∷ after))
            (failed (ArgFault.invalid_value name value))
    thrown :
        (before : List Text) (value : Text) (after : List Text) (e : ArgFault)
        → lacks name before ≡ true
        → set_value value ≡ failed e
        → Visited t (before ++ (flag name ∷ value ∷ after)) (failed e)

  lacks-cons :
      (a : Text) (args : List Text)
      → same_text a (flag name) ≡ false
      → lacks name args ≡ true
      → lacks name (a ∷ args) ≡ true
  lacks-cons a args e h = rw (e, h) refl

  -- An argument that is not the flag changes nothing.
  Visited-cons :
      {t : T} {args : List Text} {r : Checked ArgFault T} (a : Text)
      → same_text a (flag name) ≡ false
      → Visited t args r
      → Visited t (a ∷ args) r
  Visited-cons a e (Visited.kept args h) = Visited.kept (a ∷ args) (lacks-cons a args e h)
  Visited-cons a e (Visited.no_value before h) =
      Visited.no_value (a ∷ before) (lacks-cons a before e h)
  Visited-cons a e (Visited.parsed before value after x h s) =
      Visited.parsed (a ∷ before) value after x (lacks-cons a before e h) s
  Visited-cons a e (Visited.refused before value after h s) =
      Visited.refused (a ∷ before) value after (lacks-cons a before e h) s
  Visited-cons a e (Visited.thrown before value after f h s) =
      Visited.thrown (a ∷ before) value after f (lacks-cons a before e h) s

  take_value-Visited :
      (t : T) (args : List Text) → Visited t (flag name ∷ args) (take_value set_value name args)
  unfolding take_value
  take_value-Visited t [] = Visited.no_value [] refl
  take_value-Visited t (value ∷ after) = by_result (set_value value) refl
    where
      by_result :
          (r : Checked ArgFault (Option T))
          → set_value value ≡ r
          → Visited t (flag name ∷ value ∷ after) (take_value set_value name (value ∷ after))
      by_result (ok (some x)) e = rw (e, take_value, ◌>>=◌) (Visited.parsed [] value after x refl e)
      by_result (ok none) e = rw (e, take_value, ◌>>=◌) (Visited.refused [] value after refl e)
      by_result (failed f) e = rw (e, take_value, ◌>>=◌) (Visited.thrown [] value after f refl e)

  parse_loop-Visited :
      (args : List Text) (t : T) → Visited t args (parse_loop set_value name args t)
  unfolding parse_loop
  parse_loop-Visited [] t = Visited.kept [] refl
  parse_loop-Visited (arg ∷ rest) t = elim (Bool-cases (same_text arg (flag name))) [
    | inl e ↦
        subst
          (λ b. Visited t (arg ∷ rest) (elim b [
            | true ↦ take_value set_value name rest
            | false ↦ parse_loop set_value name rest t
          ]))
          (sym e)
          (subst (λ a. Visited t (a ∷ rest) (take_value set_value name rest))
            (sym (same_text-eq arg (flag name) e)) (take_value-Visited t rest))
    | inr e ↦
        subst
          (λ b. Visited t (arg ∷ rest) (elim b [
            | true ↦ take_value set_value name rest
            | false ↦ parse_loop set_value name rest t
          ]))
          (sym e) (Visited-cons arg e (parse_loop-Visited rest t))
  ]

  -- A member keeps its default if no argument behind the program is its flag; else the argument
  -- behind the first such flag is its value, and the program stops if that is missing or refused.
  pub parse_visit-Visited :
      (program : Text) (args : List Text) (t : T)
      → Visited t args (parse_visit set_value name (program ∷ args) t)
  unfolding parse_visit
  parse_visit-Visited program args t = parse_loop-Visited args t

-- A path is printed with at most 48 characters.
pub length-shortened : (path : Text) → length (shortened path) ≤ max_len
unfolding shortened
length-shortened path = elim (Bool-cases (ltb max_len (length path))) [
  | inl e ↦ rw e (cut path (ltb→lt max_len (length path) e))
  | inr e ↦ ground (arith, e)
]
  where
    cut :
        (p : Text)
        → max_len < length p
        → length (take cut_point p ++ (text " ... " ++ drop (length p - cut_point) p)) ≤ max_len
    cut p h = omega (
      arith,
      length-append (take cut_point p) (text " ... " ++ drop (length p - cut_point) p),
      length-append (text " ... ") (drop (length p - cut_point) p),
      length-take cut_point p (omega (arith, h)),
      length-drop (length p - cut_point) p,
    )

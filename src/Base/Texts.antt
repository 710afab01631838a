-- ===== src/Base/Texts.antt =====
-- Texts as the bytes of a std::string or of a C string before its terminating zero.
use Prim.Native.Nat.{ℕ, ◌+◌}
use Prim.Native.String.{String}
use Prim.Native.Char.{code}
use mathlib.Core.Path.{◌≡◌, refl, ap₂}
use mathlib.Core.Bool.{Bool, true, false, ◌&&◌}
use mathlib.Core.List.{List, [], ◌∷◌}
use gemma_cpp.Base.Tests.{leb, ◌==◌, if◌then◌else◌, ==_iff, ==_self, &&-eq-true}

abbrev pub Text : Type 0
Text = List ℕ

abbrev pub text : String → Text
text String.[] = []
text (String.◌∷◌ c s) = code c ∷ text s

abbrev pub same_text : Text → Text → Bool
same_text [] [] = true
same_text [] (d ∷ t) = false
same_text (c ∷ s) [] = false
same_text (c ∷ s) (d ∷ t) = c == d && same_text s t

pub same_text-eq : (s t : Text) → same_text s t ≡ true → s ≡ t
same_text-eq [] [] e = refl
same_text-eq [] (d ∷ t) e = cc
same_text-eq (c ∷ s) [] e = cc
same_text-eq (c ∷ s) (d ∷ t) e =
    let (head, tail) = &&-eq-true (c == d) (same_text s t) e in
    ap₂ ◌∷◌ ((==_iff c d).0 head) (same_text-eq s t tail)

pub same_text_self : (s : Text) → same_text s s ≡ true
same_text_self [] = refl
same_text_self (c ∷ s) = rw (==_self c) (same_text_self s)

-- An ASCII letter in lower case.
abbrev pub lower : ℕ → ℕ
lower c = if leb b'A' c && leb c b'Z' then c + 32 else c

abbrev pub is_empty : Text → Bool
is_empty [] = true
is_empty (c ∷ s) = false

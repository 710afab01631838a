-- ===== src/Base/Results.antt =====
-- Results of code that checks itself. `failed c` is a program stopped by the check `c`
-- (HWY_ASSERT, HWY_ABORT, or HWY_DASSERT in a debug build).
use mathlib.Core.Path.{◌≡◌, refl}
use mathlib.Core.Logic.{◌⊎◌, inl, inr}
use mathlib.Core.Bool.{Bool, true, false}

pub data Checked {ℓ} (E : Type 0) (A : Type ℓ) : Type ℓ where
  ok : A → Checked E A
  failed : E → Checked E A

infixl 5 ◌>>=◌ ◌>>◌
abbrev pub ◌>>=◌ {ℓ κ} :
    {E : Type 0} {A : Type ℓ} {B : Type κ} → Checked E A → (A → Checked E B) → Checked E B
ok a >>= f = f a
failed e >>= f = failed e

abbrev pub ◌>>◌ {ℓ} : {E : Type 0} {B : Type ℓ} → Checked E (Unit {0}) → Checked E B → Checked E B
m >> k = m >>= λ _. k

-- HWY_ASSERT: in every build.
abbrev pub check : {E : Type 0} → Bool → E → Checked E (Unit {0})
check true e = ok tt
check false e = failed e

-- HWY_DASSERT: only in a debug build.
abbrev pub debug_check : {E : Type 0} → Bool → Bool → E → Checked E (Unit {0})
debug_check true b e = check b e
debug_check false b e = ok tt

pub debug_check-true : {E : Type 0} (debug : Bool) (e : E) → debug_check debug true e ≡ ok tt
debug_check-true true e = refl
debug_check-true false e = refl

pub debug_check-ends :
    {E : Type 0} (debug b : Bool) (e : E)
    → (debug_check debug b e ≡ ok tt) ⊎ (debug_check debug b e ≡ failed e)
debug_check-ends true true e = inl refl
debug_check-ends true false e = inr refl
debug_check-ends false b e = inl refl

-- The run ends normally, in a value that satisfies `P`.
abbrev pub Returns {ℓ κ} : {E : Type 0} {A : Type ℓ} → Checked E A → (A → Type κ) → Type (ℓ ⊔ κ)
Returns {A} r P = (a : A) × (r ≡ ok a) × P a

-- The same as a test.
abbrev pub returns {ℓ} : {E : Type 0} {A : Type ℓ} → Checked E A → (A → Bool) → Bool
returns (ok a) p = p a
returns (failed e) p = false

pub returns→Returns {ℓ} :
    {E : Type 0} {A : Type ℓ} (r : Checked E A) (p : A → Bool)
    → returns r p ≡ true
    → Returns r (λ a. p a ≡ true)
returns→Returns (ok a) p h = (a, refl, h)
returns→Returns (failed e) p h = cc

pub Returns-map {ℓ κ η} :
    {E : Type 0} {A : Type ℓ} {P : A → Type κ} {Q : A → Type η} {r : Checked E A}
    → ((a : A) → P a → Q a)
    → Returns r P
    → Returns r Q
Returns-map f (a, e, p) = (a, e, f a p)

pub Returns-bind {ℓ κ η θ} :
    {E : Type 0} {A : Type ℓ} {B : Type κ} {P : A → Type η} {Q : B → Type θ} {r : Checked E A}
    {f : A → Checked E B}
    → Returns r P
    → ((a : A) → P a → Returns (f a) Q)
    → Returns (r >>= f) Q
Returns-bind (a, e, p) g = rw (e, ◌>>=◌) (g a p)

-- The laws of a sequence of checked runs.
pub bind_ok {ℓ} : {E : Type 0} {A : Type ℓ} (m : Checked E A) → (m >>= ok) ≡ m
bind_ok (ok a) = refl
bind_ok (failed e) = refl

pub bind_assoc {ℓ κ η} :
    {E : Type 0} {A : Type ℓ} {B : Type κ} {C : Type η} (m : Checked E A) (f : A → Checked E B)
    (g : B → Checked E C)
    → ((m >>= f) >>= g) ≡ (m >>= λ a. f a >>= g)
bind_assoc (ok a) f g = refl
bind_assoc (failed e) f g = refl

pub bind_ext {ℓ κ} :
    {E : Type 0} {A : Type ℓ} {B : Type κ} (m : Checked E A) {f g : A → Checked E B}
    → ((a : A) → f a ≡ g a)
    → (m >>= f) ≡ (m >>= g)
bind_ext (ok a) h = h a
bind_ext (failed e) h = refl

pub ok_injective {ℓ} :
    {E : Type 0} {A : Type ℓ} {a b : A} → ◌≡◌ {A = Checked E A} (ok a) (ok b) → a ≡ b
ok_injective e = cc

pub Checked-cases {ℓ} :
    {E : Type 0} {A : Type ℓ} (r : Checked E A)
    → ((a : A) × (r ≡ ok a)) ⊎ ((e : E) × (r ≡ failed e))
Checked-cases (ok a) = inl (a, refl)
Checked-cases (failed e) = inr (e, refl)

-- ===== src/Base/Chunks.antt =====
-- Loops over an array in steps, with a remainder, and stores of several values.
use Prim.Native.Nat.{ℕ, zero, suc, ◌+◌, ◌-◌, ◌*◌, ◌≤◌, ◌<◌}
use mathlib.Core.Path.{◌≡◌, subst, refl}
use mathlib.Core.Bool.{◌&&◌}
use mathlib.Core.Logic.{inl, inr}
use native.Mathlib.Omega.{arith}
use native.Mathlib.Nat.{suc-mul, zero-mul}
use gemma_cpp.Base.Tests.{ge→ltb, lt→ltb, ltb, leb, if◌then◌else◌, Bool-cases, leb→le}
use gemma_cpp.Base.Results.{Checked, ok, ◌>>=◌, Returns, Returns-bind}

-- The array with `n` new values from an index on.
unfoldable pub splice : {A : Type 0} → (ℕ → A) → ℕ → ℕ → (ℕ → A) → ℕ → A
splice a at n values i = if leb at i && ltb i (at + n) then values (i - at) else a i

-- The array from an index on.
abbrev pub from : {A : Type 0} → (ℕ → A) → ℕ → ℕ → A
from a at i = a (at + i)

module _ {E St : Type 0} (step : ℕ) (body : ℕ → St → Checked E St) where
  -- `for (; i <= num - step; i += step)`, at most `fuel` times: the last `i` and the state.
  unfoldable pub chunks : ℕ → ℕ → ℕ → St → Checked E (ℕ × St)
  chunks zero num i st = ok (i, st)
  chunks (suc fuel) num i st =
      if leb (i + step) num then body i st >>= chunks fuel num (i + step) else ok (i, st)

  -- An invariant of the loop; it ends with less than a step to go.
  pub chunks-Returns :
      (P : ℕ → St → Type 0) (num : ℕ)
      → 0 < step
      → ((i : ℕ) (st : St) → i + step ≤ num → P i st → Returns (body i st) (P (i + step)))
      → (fuel i : ℕ) (st : St) → num < i + fuel
      → i ≤ num
      → P i st
      → Returns (chunks fuel num i st) (λ r. (r.0 ≤ num) × (num < r.0 + step) × P (r.0) (r.1))
  unfolding chunks
  chunks-Returns P num pos each zero i st enough h p = absurd (omega arith)
  chunks-Returns P num pos each (suc fuel) i st enough h p =
      elim (Bool-cases (leb (i + step) num)) [
        | inl e ↦ rw (e) (
            Returns-bind (each i st (leb→le _ _ e) p) λ st' q.
              chunks-Returns P num pos each fuel (i + step) st' (omega arith) (leb→le _ _ e) q)
        | inr e ↦ rw (e) ((i, st), refl, (h, ground arith, p))
      ]

module _ {E St : Type 0} (step : ℕ) (body : ℕ → St → Checked E St) where
  -- `for (; i < limit; i += step)`, at most `fuel` times.
  unfoldable pub rounds : ℕ → ℕ → ℕ → St → Checked E St
  rounds zero limit i st = ok st
  rounds (suc fuel) limit i st =
      if ltb i limit then body i st >>= rounds fuel limit (i + step) else ok st

  -- An invariant of the loop, with `q` rounds to go.
  pub rounds-Returns :
      (P : ℕ → St → Type 0) (limit : ℕ)
      → 0 < step
      → ((i : ℕ) (st : St) → i + step ≤ limit → P i st → Returns (body i st) (P (i + step)))
      → (q fuel i : ℕ) (st : St) → q < fuel
      → i + q * step ≡ limit
      → P i st
      → Returns (rounds fuel limit i st) (P limit)
  unfolding rounds
  rounds-Returns P limit pos each q zero i st enough e p = absurd (omega arith)
  rounds-Returns P limit pos each zero (suc fuel) i st enough e p =
      let done : i ≡ limit = omega (arith, e, zero-mul step) in
      rw (ge→ltb i limit (omega (arith, done))) (st, refl, subst (λ k. P k st) done p)
  rounds-Returns P limit pos each (suc q) (suc fuel) i st enough e p =
      let next : i + step + q * step ≡ limit = omega (arith, e, suc-mul q step) in
      rw (lt→ltb i limit (omega (arith, next))) (
        Returns-bind (each i st (omega (arith, next)) p)
          λ st' p'. rounds-Returns P limit pos each q fuel (i + step) st' (omega arith) next p')

-- ===== src/Base/Block.antt =====
-- A block of bytes, in memory or on disk: its size and the byte at each position.
-- A store of bytes at a position, the bytes of a range, and numbers in little-endian order.
use Prim.Native.Nat.{ℕ, zero, suc, ◌+◌, ◌-◌, ◌*◌, ◌/◌, ◌%◌, ◌^◌, ◌≤◌, ◌<◌}
use mathlib.Core.Path.{◌≡◌, refl, ap, ap₂, ◌∙◌}
use mathlib.Core.Bool.{◌&&◌}
use mathlib.Core.List.{List, [], ◌∷◌, ◌++◌}
use mathlib.Core.Logic.{◌⊎◌, inl, inr}
use native.Mathlib.Omega.{arith}
use native.Mathlib.Nat.{pow-suc}
use gemma_cpp.Base.Tests.{ltb, leb, if◌then◌else◌}
use gemma_cpp.Base.Lists.{length, get_or}

pub record Block : Type 0 where
  pub size : ℕ
  pub byte : ℕ → ℕ

-- The `n` bytes from `at` on.
unfoldable pub slice : (ℕ → ℕ) → ℕ → ℕ → List ℕ
slice f at zero = []
slice f at (suc n) = f at ∷ slice f (suc at) n

-- The bytes `bs` at `at`, and elsewhere what was there.
unfoldable pub store : (ℕ → ℕ) → ℕ → List ℕ → ℕ → ℕ
store f at bs p = if leb at p && ltb p (at + length bs) then get_or bs (p - at) 0 else f p

pub length-slice : (f : ℕ → ℕ) (at n : ℕ) → length (slice f at n) ≡ n
unfolding slice
length-slice f at zero = refl
length-slice f at (suc n) = ap suc (length-slice f (suc at) n)

pub slice_congr :
    (f g : ℕ → ℕ) (at n : ℕ)
    → ((p : ℕ) → at ≤ p → p < at + n → f p ≡ g p)
    → slice f at n ≡ slice g at n
unfolding slice
slice_congr f g at zero h = refl
slice_congr f g at (suc n) h =
    ap₂ ◌∷◌ (h at (omega arith) (omega arith))
      (slice_congr f g (suc at) n λ p lo hi. h p (omega arith) (omega arith))

suc_add : (n m : ℕ) → suc n + m ≡ suc (n + m)
suc_add n m = omega arith

pub slice-add : (f : ℕ → ℕ) (at n m : ℕ) → slice f at (n + m) ≡ slice f at n ++ slice f (at + n) m
unfolding slice
slice-add f at zero m = ap₂ (slice f) (omega arith) (omega arith)
slice-add f at (suc n) m = rw (suc_add n m) (ap (◌∷◌ (f at)) (slice-add f (suc at) n m ∙ shift))
  where
    shift :
        slice f (suc at) n ++ slice f (suc at + n) m ≡ slice f (suc at) n ++ slice f (at + suc n) m
    shift = ap (λ k. slice f (suc at) n ++ slice f k m) (omega arith)

pub get_or-slice : (f : ℕ → ℕ) (at n i : ℕ) → i < n → get_or (slice f at n) i 0 ≡ f (at + i)
unfolding slice
get_or-slice f at zero i h = absurd (omega arith)
get_or-slice f at (suc n) zero h = ap f (omega arith)
get_or-slice f at (suc n) (suc i) h = get_or-slice f (suc at) n i (omega arith) ∙ ap f (omega arith)

pub store_inside :
    (f : ℕ → ℕ) (at : ℕ) (bs : List ℕ) (i : ℕ)
    → i < length bs
    → store f at bs (at + i) ≡ get_or bs i 0
unfolding store
store_inside f at bs i h = rw (add-sub at i) (ground arith)
  where
    add-sub : (a b : ℕ) → a + b - a ≡ b
    add-sub a b = omega arith

pub store_outside :
    (f : ℕ → ℕ) (at : ℕ) (bs : List ℕ) (p : ℕ)
    → (p < at) ⊎ (at + length bs ≤ p)
    → store f at bs p ≡ f p
unfolding store
store_outside f at bs p (inl h) = ground arith
store_outside f at bs p (inr h) = ground arith

slice_of_bytes :
    (f : ℕ → ℕ) (at : ℕ) (bs : List ℕ)
    → ((i : ℕ) → i < length bs → f (at + i) ≡ get_or bs i 0)
    → slice f at (length bs) ≡ bs
unfolding slice
slice_of_bytes f at [] h = refl
slice_of_bytes f at (b ∷ bs) h =
    ap₂ ◌∷◌ (ap f (omega arith) ∙ h 0 (omega arith))
      (slice_of_bytes f (suc at) bs λ i lt. ap f (omega arith) ∙ h (suc i) (omega arith))

pub slice-store_self :
    (f : ℕ → ℕ) (at : ℕ) (bs : List ℕ) → slice (store f at bs) at (length bs) ≡ bs
slice-store_self f at bs = slice_of_bytes (store f at bs) at bs λ i h. store_inside f at bs i h

pub slice-store_apart :
    (f : ℕ → ℕ) (at : ℕ) (bs : List ℕ) (from n : ℕ)
    → (from + n ≤ at) ⊎ (at + length bs ≤ from)
    → slice (store f at bs) from n ≡ slice f from n
slice-store_apart f at bs from n (inl h) =
    slice_congr _ _ from n λ p lo hi. store_outside f at bs p (inl (omega arith))
slice-store_apart f at bs from n (inr h) =
    slice_congr _ _ from n λ p lo hi. store_outside f at bs p (inr (omega arith))

-- A number of `w` bytes, the lowest first.
unfoldable pub le_bytes : ℕ → ℕ → List ℕ
le_bytes zero v = []
le_bytes (suc w) v = (v % 256) ∷ le_bytes w (v / 256)

unfoldable pub le_value : List ℕ → ℕ
le_value [] = 0
le_value (b ∷ bs) = b + 256 * le_value bs

pub length-le_bytes : (w v : ℕ) → length (le_bytes w v) ≡ w
unfolding le_bytes
length-le_bytes zero v = refl
length-le_bytes (suc w) v = ap suc (length-le_bytes w (v / 256))

pub le_value-le_bytes : (w v : ℕ) → v < 256 ^ w → le_value (le_bytes w v) ≡ v
unfolding le_bytes le_value
le_value-le_bytes zero v h = omega arith
le_value-le_bytes (suc w) v h =
    omega (arith, le_value-le_bytes w (v / 256) (omega (arith, pow-suc 256 w)))

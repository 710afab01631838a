-- ===== src/Blob/Key/Distinct.antt =====
-- Strings of at most 16 characters have distinct keys.
use gemma_cpp.Base.{
  ℕ, zero, suc, ◌+◌, ◌<◌, ◌≤◌, ◌^◌, ◌≡◌, inr, refl, arith, ok, failed, le→leb, gt→leb, List, [],
  ◌∷◌, ◌++◌, length, ◌∙◌, ap, ap₂, sym, dec_lt, subst, get_or,
}
use native.Mathlib.Nat.{pow-suc}
use gemma_cpp.Base.Block.{slice, le_value, store_inside, store_outside}
use gemma_cpp.Blob.{Fault, U128}
use gemma_cpp.Blob.Key.{key_length, take_bytes, key_bytes, make_key}

-- Characters of a string: bytes other than zero.
abbrev pub IsText : List ℕ → Type 0
IsText [] = Unit {0}
IsText (c ∷ cs) = (0 < c) × (c < 256) × IsText cs

key_length-text :
    (n : ℕ) (s : List ℕ) (rest : List ℕ)
    → IsText s
    → key_length n (s ++ 0 ∷ rest) ≡ ok (n + length s)
unfolding key_length
key_length-text n [] rest t = ap ok (omega arith)
key_length-text n (zero ∷ cs) rest (a, b, t) = absurd (omega arith)
key_length-text n (suc c ∷ cs) rest (a, b, t) =
    key_length-text (suc n) cs rest t ∙ ap ok (omega arith)

key_length_start : (s rest : List ℕ) → IsText s → key_length 0 (s ++ 0 ∷ rest) ≡ ok (length s)
key_length_start s rest t = key_length-text 0 s rest t ∙ ap ok (omega arith)

take_bytes-append : (s rest : List ℕ) → take_bytes (length s) (s ++ rest) ≡ ok s
unfolding take_bytes
take_bytes-append [] rest = refl
take_bytes-append (c ∷ s) rest = rw (take_bytes-append s rest)

abbrev key_of : List ℕ → U128
key_of s = record {
  lo = le_value (slice (key_bytes s) 0 8);
  hi = le_value (slice (key_bytes s) 8 8);
}

pub make_key_short :
    (s rest : List ℕ) → IsText s → length s ≤ 16 → make_key (s ++ 0 ∷ rest) ≡ ok (key_of s)
unfolding make_key
make_key_short s rest t h =
    rw (key_length_start s rest t, le→leb (length s) 16 h, take_bytes-append s (0 ∷ rest))

-- MakeKey aborts on a text of more than 16 characters that ends in a zero byte.
pub make_key_long :
    (s rest : List ℕ)
    → IsText s
    → 16 < length s
    → make_key (s ++ 0 ∷ rest) ≡ failed (Fault.abort 41)
unfolding make_key
make_key_long s rest t h = rw (key_length_start s rest t, gt→leb (length s) 16 h)

-- Numbers of equally many bytes are equal only if the bytes are.
le_value-slice_injective :
    (f g : ℕ → ℕ) (at n : ℕ)
    → ((q : ℕ) → f q < 256)
    → ((q : ℕ) → g q < 256)
    → le_value (slice f at n) ≡ le_value (slice g at n)
    → (q : ℕ) → at ≤ q
    → q < at + n
    → f q ≡ g q
unfolding le_value slice
le_value-slice_injective f g at zero bf bg e q l u = absurd (omega arith)
le_value-slice_injective f g at (suc n) bf bg e q l u =
    let same_byte : f at ≡ g at = omega (arith, bf at, bg at) in
    let same_rest : le_value (slice f (suc at) n) ≡ le_value (slice g (suc at) n) =
      omega (arith, bf at, bg at) in
    elim (dec_lt at q) [
      | yes later ↦ le_value-slice_injective f g (suc at) n bf bg same_rest q later (omega arith)
      | no here ↦ let same : at ≡ q = omega arith in subst (λ q. f q ≡ g q) same same_byte
    ]

get_or_behind : (s : List ℕ) (q : ℕ) → length s ≤ q → get_or s q 0 ≡ 0
get_or_behind [] q h = refl
get_or_behind (c ∷ s) zero h = absurd (omega arith)
get_or_behind (c ∷ s) (suc q) h = get_or_behind s q (omega arith)

get_or-text : (s : List ℕ) (q : ℕ) → IsText s → get_or s q 0 < 256
get_or-text [] q t = omega arith
get_or-text (c ∷ s) zero (a, b, t) = b
get_or-text (c ∷ s) (suc q) (a, b, t) = get_or-text s q t

key_bytes-get_or : (s : List ℕ) (q : ℕ) → key_bytes s q ≡ get_or s q 0
key_bytes-get_or s q = elim (dec_lt q (length s)) [
  | yes inside ↦ ap (key_bytes s) (omega arith) ∙ store_inside (λ q. 0) 0 s q inside
  | no behind ↦
      store_outside (λ q. 0) 0 s q (inr (omega arith)) ∙ sym (get_or_behind s q (omega arith))
]

texts_eq :
    (n : ℕ) (s s' : List ℕ)
    → IsText s
    → IsText s'
    → length s ≤ n
    → length s' ≤ n
    → ((q : ℕ) → q < n → get_or s q 0 ≡ get_or s' q 0)
    → s ≡ s'
texts_eq n [] [] t t' l l' e = refl
texts_eq n [] (c ∷ s') t (a, b, t') l l' e = absurd (omega (arith, e 0 (omega arith)))
texts_eq n (c ∷ s) [] (a, b, t) t' l l' e = absurd (omega (arith, e 0 (omega arith)))
texts_eq zero (c ∷ s) (d ∷ s') t t' l l' e = absurd (omega arith)
texts_eq (suc n) (c ∷ s) (d ∷ s') (a, b, t) (a', b', t') l l' e =
    ap₂ ◌∷◌ (e 0 (omega arith))
      (texts_eq n s s' t t' (omega arith) (omega arith) λ q h. e (suc q) (omega arith))

-- Texts of at most 16 characters that MakeKey gives the same result are the same.
pub make_key_injective :
    (s s' rest rest' : List ℕ)
    → IsText s
    → IsText s'
    → length s ≤ 16
    → length s' ≤ 16
    → make_key (s ++ 0 ∷ rest) ≡ make_key (s' ++ 0 ∷ rest')
    → s ≡ s'
make_key_injective s s' rest rest' t t' h h' e =
    let same : ok (key_of s) ≡ ok (key_of s') =
      sym (make_key_short s rest t h) ∙ e ∙ make_key_short s' rest' t' h' in
    let keys : key_of s ≡ key_of s' = cc in
    texts_eq 16 s s' t t' h h' λ q l.
      sym (key_bytes-get_or s q)
      ∙ elim (dec_lt q 8) [
        | yes low ↦
            le_value-slice_injective (key_bytes s) (key_bytes s') 0 8 (small s t) (small s' t')
              (ap (λ k. k.lo) keys) q (omega arith) (omega arith)
        | no high ↦
            le_value-slice_injective (key_bytes s) (key_bytes s') 8 8 (small s t) (small s' t')
              (ap (λ k. k.hi) keys) q (omega arith) (omega arith)
      ]
      ∙ key_bytes-get_or s' q
  where
    small : (s : List ℕ) → IsText s → (q : ℕ) → key_bytes s q < 256
    small s t q = rw (key_bytes-get_or s q) (get_or-text s q t)

le_value-slice_bound :
    (f : ℕ → ℕ) (at n : ℕ) → ((q : ℕ) → f q < 256) → le_value (slice f at n) < 256 ^ n
unfolding le_value slice
le_value-slice_bound f at zero small = omega arith
le_value-slice_bound f at (suc n) small =
    omega (arith, small at, le_value-slice_bound f (suc at) n small, pow-suc 256 n)

-- The halves of a key fit in 64 bits.
pub make_key_fits :
    (s rest : List ℕ) (key : U128)
    → IsText s
    → length s ≤ 16
    → make_key (s ++ 0 ∷ rest) ≡ ok key
    → (key.lo < 2 ^ 64) × (key.hi < 2 ^ 64)
make_key_fits s rest key t h e =
    let same : ok (key_of s) ≡ ok key = sym (make_key_short s rest t h) ∙ e in
    let equal : key_of s ≡ key = cc in
    let small : (q : ℕ) → key_bytes s q < 256 =
      λ q. rw (key_bytes-get_or s q) (get_or-text s q t) in
    rw (← equal) (
      omega (arith, le_value-slice_bound (key_bytes s) 0 8 small),
      omega (arith, le_value-slice_bound (key_bytes s) 8 8 small),
    )

-- ===== src/Sfp/Stream/Loops.antt =====
-- The loops of Enc and Dec of compression/sfp-inl.h, for any codec of a round.
use gemma_cpp.Base.{
  ℕ, ◌+◌, ◌-◌, ◌≤◌, ◌<◌, ◌≡◌, refl, ap, ◌∙◌, Bool, inl, inr, Checked, ok, ◌>>=◌, debug_check-true,
  debug_check, ◌>>◌, lt→ltb, le→leb, arith, subst, ltb, leb, ◌==◌, Bool-cases, Returns, Returns-map,
  Returns-bind, if◌then◌else◌,
}
use gemma_cpp.Base.Chunks.{splice, from, chunks-Returns}
use gemma_cpp.Sfp.Simd.{Lanes}
use gemma_cpp.Sfp.Stream.{Wide, StreamFault, padded, enc_stream, dec_stream}

-- The first `num` entries are those of `values`, and the others are those of `before`.
pub record Filled {A : Type 0} (values before : ℕ → A) (num : ℕ) (after : ℕ → A) : Type 0 where
  pub inside : (p : ℕ) → p < num → after p ≡ values p
  pub outside : (p : ℕ) → num ≤ p → after p ≡ before p

pub splice-Filled :
    {A : Type 0} (values before after new : ℕ → A) (i n : ℕ)
    → Filled values before i after
    → ((k : ℕ) → k < n → new k ≡ values (i + k))
    → Filled values before (i + n) (splice after i n new)
unfolding splice
splice-Filled values before after new i n f e = record {
  inside = λ p lt. elim (Bool-cases (leb i p)) [
    | inl e ↦ ground (arith, e_at p)
    | inr e ↦ ground (arith, f.inside p)
  ];
  outside = λ p le. ground (arith, f.outside p);
}
  where
    e_at : (p : ℕ) → i ≤ p → p < i + n → new (p - i) ≡ values p
    e_at p lo hi = e (p - i) (omega arith) ∙ ap values (omega arith)

splice_start : {A : Type 0} (a new : ℕ → A) (n k : ℕ) → k < n → splice a 0 n new k ≡ new k
unfolding splice
splice_start a new n k lt =
    rw (le→leb 0 k (omega arith), lt→ltb k (0 + n) (omega arith)) (ap new (omega arith))

-- What follows the loop: the values that remain.
remainder-Filled :
    {B V : Type 0} (debug : Bool) (step : ℕ) (values out st : ℕ → B) (num i : ℕ)
    (last : Checked StreamFault V) (read : V → ℕ → B)
    → (i ≤ num) × (num < i + step) × Filled values out i st
    → Returns last (λ v. (k : ℕ) → k < num - i → read v k ≡ values (i + k))
    → Returns
        (debug_check debug (ltb (num - i) step) StreamFault.too_many_remaining
          >> (if num - i == 0 then ok st else last >>= (λ v. ok (splice st i (num - i) (read v)))))
        (Filled values out num)
remainder-Filled debug step values out st num i last read (le, lt, f) rest =
    rw
      (
        lt→ltb (num - i) step (omega arith),
        debug_check-true debug StreamFault.too_many_remaining,
        ◌>>=◌,
      )
      (elim (Bool-cases (num - i == 0)) [
        | inl e ↦
            let done : i ≡ num = ground arith in
            rw (e) (st, refl, subst (λ k. Filled values out k st) done f)
        | inr e ↦
            let whole : i + (num - i) ≡ num = omega arith in
            rw (e) (
              Returns-bind rest λ v q. (
                _,
                refl,
                subst (λ k. Filled values out k (splice st i (num - i) (read v))) whole
                    (splice-Filled values out st (read v) i (num - i) f q),
              ))
      ])

pub nothing-Filled : {B : Type 0} (values out : ℕ → B) → Filled values out 0 out
nothing-Filled values out = record { inside = λ p lt. absurd (omega arith); outside = λ p le. refl }

module _ (h : Lanes) (debug : Bool) {F : Type 0} (w : Wide F) {A : Type 0} (step : ℕ)
    (pos : 0 < step) where
  module _ (encode : (ℕ → A) → Checked StreamFault (ℕ → ℕ)) (none : A) where
    -- Enc writes the codes of the values, if each round does.
    pub enc_stream-Filled :
        (values : ℕ → A) (codes : ℕ → ℕ) (num : ℕ) (out : ℕ → ℕ)
        → ((i : ℕ)
            → i + step ≤ num
            → Returns
                (encode (from values i))
                (λ packed. (k : ℕ) → k < step → packed k ≡ codes (i + k)))
        → ((i : ℕ)
            → i ≤ num
            → num < i + step
            → Returns
                (encode (padded none (from values i) (num - i)))
                (λ packed. (k : ℕ) → k < num - i → packed k ≡ codes (i + k)))
        → Returns (enc_stream h debug w step encode none values num out) (Filled codes out num)
    unfolding enc_stream
    enc_stream-Filled values codes num out round rest =
        Returns-bind
          (chunks-Returns step _ (λ i st. Filled codes out i st) num pos
            (λ i st lt f.
              Returns-bind (round i lt)
                λ packed e. (_, refl, splice-Filled codes out st packed i step f e))
            (num + 1) 0 out (omega arith) (omega arith) (nothing-Filled codes out))
          λ r q.
            remainder-Filled debug step codes out (r.1) num (r.0) _ (λ packed. packed) q
              (rest (r.0) (q.0) (q.1))

  module _ {V : Type 0} (decode : (ℕ → ℕ) → Checked StreamFault V) (store : (ℕ → A) → ℕ → V → ℕ → A)
      (lane : V → ℕ → A)
      (stores : (a : ℕ → A) (i : ℕ) (v : V) → store a i v ≡ splice a i step (lane v)) where
    -- Dec writes the values of the codes, if each round does.
    pub dec_stream-Filled :
        (uninitialised values : ℕ → A) (packed : ℕ → ℕ) (num : ℕ) (out : ℕ → A)
        → ((i : ℕ)
            → i + step ≤ num
            → Returns
                (decode (from packed i))
                (λ v. (k : ℕ) → k < step → lane v k ≡ values (i + k)))
        → ((i : ℕ)
            → i ≤ num
            → num < i + step
            → Returns
                (decode (padded 0 (from packed i) (num - i)))
                (λ v. (k : ℕ) → k < num - i → lane v k ≡ values (i + k)))
        → Returns
            (dec_stream h debug w step decode store uninitialised packed num out)
            (Filled values out num)
    unfolding dec_stream
    dec_stream-Filled uninitialised values packed num out round rest =
        Returns-bind
          (chunks-Returns step _ (λ i st. Filled values out i st) num pos
            (λ i st lt f. Returns-bind (round i lt) λ v e.
              (_, refl, rw (stores st i v) (splice-Filled values out st (lane v) i step f e)))
            (num + 1) 0 out (omega arith) (omega arith) (nothing-Filled values out))
          λ r q.
            remainder-Filled debug step values out (r.1) num (r.0) _ (λ v. store uninitialised 0 v)
              q
              (Returns-map
                (λ v e k lt.
                  ap (λ a. a k) (stores uninitialised 0 v)
                  ∙ splice_start uninitialised (lane v) step k (omega (arith, q.1))
                  ∙ e k lt)
                (rest (r.0) (q.0) (q.1)))

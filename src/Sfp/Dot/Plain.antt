-- ===== src/Sfp/Dot/Plain.antt =====
-- SfpCodec::Dot of compression/sfp-inl.h against the product with values that are decoded already.
use gemma_cpp.Base.{
  ℕ, zero, suc, ◌+◌, ◌-◌, ◌*◌, ◌≤◌, ◌<◌, ◌≡◌, refl, ap, ◌∙◌, subst, Bool, ok, ◌>>=◌, arith, ltb,
  ◌==◌, Bool-cases, inl, inr, Returns, Returns-bind, if◌then◌else◌, lt→ltb, ge→ltb,
}
use native.Mathlib.Nat.{zero-mul, suc-mul}
use gemma_cpp.Base.Chunks.{from, chunks-Returns}
use gemma_cpp.Sfp.{dec_bytes}
use gemma_cpp.Sfp.Simd.{Lanes, IsDocumented}
use gemma_cpp.Sfp.Stream.{Wide, padded, dec_4f}
use gemma_cpp.Sfp.Stream.Rounds.{IsWide, value, lane_4, dec_4f-ok}
use gemma_cpp.Sfp.Stream.Codec.{padded_bytes, dec_padded}
use gemma_cpp.Sfp.Dot.{Sums, Products, accumulate_f32, dot_f32}

-- MulAdd acts on each lane.
pub record IsLanewise {F : Type 0} (o : Products F) (fma : F → F → F → F) : Type 0 where
  pub mul_add_lem : (a b c : ℕ → F) (l : ℕ) → o.mul_add a b c l ≡ fma (a l) (b l) (c l)

module _ {F : Type 0} where
  -- The first `n` lanes agree.
  pub record Agree (n : ℕ) (s t : Sums F) : Type 0 where
    pub lane0 : (l : ℕ) → l < n → s.sum0 l ≡ t.sum0 l
    pub lane1 : (l : ℕ) → l < n → s.sum1 l ≡ t.sum1 l
    pub lane2 : (l : ℕ) → l < n → s.sum2 l ≡ t.sum2 l
    pub lane3 : (l : ℕ) → l < n → s.sum3 l ≡ t.sum3 l

  abbrev pub four : ℕ → (ℕ → F) → (ℕ → F) × (ℕ → F) × (ℕ → F) × (ℕ → F)
  four n x = (from x (n * 0), from x (n * 1), from x (n * 2), from x (n * 3))

module _ {F : Type 0} (o : Products F) (n : ℕ) where
  -- The product with decoded values: whole rounds, and a last one that is padded.
  unfoldable pub plain_rounds : (ℕ → F) → (ℕ → F) → Sums F → ℕ → Sums F
  plain_rounds values vec sums zero = sums
  plain_rounds values vec sums (suc r) =
      accumulate_f32 o n (four n (from values (r * (4 * n)))) (from vec (r * (4 * n)))
        (plain_rounds values vec sums r)

  unfoldable pub plain_dot : F → F → (ℕ → F) → (ℕ → F) → Sums F → ℕ → ℕ → Sums F
  plain_dot no_value zero_f values vec sums num r =
      let i = r * (4 * n) in
      let whole = plain_rounds values vec sums r in
      if num - i == 0
      then whole
      else accumulate_f32 o n (four n (padded no_value (from values i) (num - i)))
          (padded zero_f (from vec i) (num - i)) whole

module _ {F : Type 0} (o : Products F) {fma : F → F → F → F} (law : IsLanewise o fma) (n : ℕ) where
  accumulate-Agree :
      (f g : (ℕ → F) × (ℕ → F) × (ℕ → F) × (ℕ → F)) (v : ℕ → F) (s t : Sums F)
      → ((l : ℕ) → l < n → (f.0 l ≡ g.0 l) × (f.1 l ≡ g.1 l) × (f.2 l ≡ g.2 l) × (f.3 l ≡ g.3 l))
      → Agree n s t
      → Agree n (accumulate_f32 o n f v s) (accumulate_f32 o n g v t)
  unfolding accumulate_f32
  accumulate-Agree f g v s t e a = record {
    lane0 = λ l lt.
        rw
          (
            law.mul_add_lem (f.0) (from v (n * 0)) s.sum0 l,
            law.mul_add_lem (g.0) (from v (n * 0)) t.sum0 l,
            (e l lt).0,
            a.lane0 l lt,
          )
          refl;
    lane1 = λ l lt.
        rw
          (
            law.mul_add_lem (f.1) (from v (n * 1)) s.sum1 l,
            law.mul_add_lem (g.1) (from v (n * 1)) t.sum1 l,
            (e l lt).1,
            a.lane1 l lt,
          )
          refl;
    lane2 = λ l lt.
        rw
          (
            law.mul_add_lem (f.2) (from v (n * 2)) s.sum2 l,
            law.mul_add_lem (g.2) (from v (n * 2)) t.sum2 l,
            (e l lt).2,
            a.lane2 l lt,
          )
          refl;
    lane3 = λ l lt.
        rw
          (
            law.mul_add_lem (f.3) (from v (n * 3)) s.sum3 l,
            law.mul_add_lem (g.3) (from v (n * 3)) t.sum3 l,
            (e l lt).3,
            a.lane3 l lt,
          )
          refl;
  }

module _ (h : Lanes) (documented : IsDocumented h) (debug : Bool) {F : Type 0} (w : Wide F) where
  module _ {demote : F → ℕ} {promote : ℕ → F} (d : IsWide w demote promote) where
    -- The lanes of the four vectors from those of the array.
    four_lanes :
        (n : ℕ) (f : (ℕ → F) × (ℕ → F) × (ℕ → F) × (ℕ → F)) (x : ℕ → F)
        → ((k : ℕ) → k < 4 * n → lane_4 h debug w d n f k ≡ x k)
        → (l : ℕ) → l < n
        → (f.0 l ≡ x (n * 0 + l))
          × (f.1 l ≡ x (n * 1 + l))
          × (f.2 l ≡ x (n * 2 + l))
          × (f.3 l ≡ x (n * 3 + l))
    four_lanes n f x e l lt =
        let b1 : n + l - n ≡ l = omega arith in
        let b2 : 2 * n + l - 2 * n ≡ l = omega arith in
        let b3 : 3 * n + l - 3 * n ≡ l = omega arith in
        let e0 = e l (omega arith) in
        let e1 = e (n + l) (omega arith) in
        let e2 = e (2 * n + l) (omega arith) in
        let e3 = e (3 * n + l) (omega arith) in
        (
          (rw (lt→ltb l n lt) at e0) ∙ ap x (omega arith),
          (rw (ge→ltb (n + l) n (omega arith), lt→ltb (n + l) (2 * n) (omega arith), b1) at e1)
              ∙ ap x (omega arith),
          (rw
                (
                  ge→ltb (2 * n + l) n (omega arith),
                  ge→ltb (2 * n + l) (2 * n) (omega arith),
                  lt→ltb (2 * n + l) (3 * n) (omega arith),
                  b2,
                )
                at e2)
              ∙ ap x (omega arith),
          (rw
                (
                  ge→ltb (3 * n + l) n (omega arith),
                  ge→ltb (3 * n + l) (2 * n) (omega arith),
                  ge→ltb (3 * n + l) (3 * n) (omega arith),
                  b3,
                )
                at e3)
              ∙ ap x (omega arith),
        )

    module _ (o : Products F) {fma : F → F → F → F} (law : IsLanewise o fma) where
      module _ (n : ℕ) (some_lane : 0 < n) (codes : ℕ → ℕ) (bytes : ℕ → ℕ × ℕ) (num : ℕ) where
        abbrev pub values : ℕ → F
        values p = promote (value h debug (bytes p))

        -- Dot with f32 values has the accumulators, lane by lane, of a product with the decoded
        -- values in rounds of four vectors, the last one padded, if DecBytes decodes the codes.
        pub dot_f32-Agree :
            (vec : ℕ → F) (sums : Sums F)
            → ((p : ℕ) → p < num → dec_bytes h debug (codes p) ≡ ok (bytes p))
            → Returns (dot_f32 o h debug w n codes num vec sums) (λ s.
              (r : ℕ) × (r * (4 * n) ≤ num)
              × (num < r * (4 * n) + 4 * n)
              × Agree n s (plain_dot o n (promote 0) w.zero_f values vec sums num r))
        unfolding dot_f32 plain_dot plain_rounds padded_bytes
        dot_f32-Agree vec sums each =
            Returns-bind
              (chunks-Returns (4 * n) _
                (λ i s.
                  (r : ℕ) × (i ≡ r * (4 * n)) × Agree n s (plain_rounds o n (values) vec sums r))
                num (omega arith)
                (λ i s lt q.
                  Returns-bind
                    (dec_4f-ok h debug w d n (from codes i) (from bytes i)
                      λ k q. each (i + k) (omega arith))
                    λ f e. (
                      _,
                      refl,
                      (
                        suc (q.0),
                        omega (arith, q.1, suc-mul (q.0) (4 * n)),
                        subst
                            (λ j. Agree n (accumulate_f32 o n f (from vec i) s) (
                              accumulate_f32 o n (four n (from values j)) (from vec j)
                                (plain_rounds o n values vec sums (q.0))))
                            (q.1)
                            (accumulate-Agree o law n f (four n (from values i)) (from vec i) s _
                              (four_lanes n f (from values i) e) (q.2)),
                      ),
                    ))
                (num + 1) 0 sums (omega arith) (omega arith)
                (
                  0,
                  omega (arith, zero-mul (4 * n)),
                  record {
                    lane0 = λ l lt. refl;
                    lane1 = λ l lt. refl;
                    lane2 = λ l lt. refl;
                    lane3 = λ l lt. refl;
                  },
                ))
              λ r q. last (r.0) (r.1) (q.0) (q.1) (q.2.0) (q.2.1) (q.2.2)
          where
            last :
                (i : ℕ) (s : Sums F)
                → i ≤ num
                → num < i + 4 * n
                → (r : ℕ) → i ≡ r * (4 * n)
                → Agree n s (plain_rounds o n values vec sums r)
                → Returns
                    (if num - i == 0
                      then ok s
                      else dec_4f h debug w n (padded 0 (from codes i) (num - i)) >>= (λ f.
                        ok (accumulate_f32 o n f (padded w.zero_f (from vec i) (num - i)) s)))
                    (λ s.
                      (r : ℕ) × (r * (4 * n) ≤ num)
                      × (num < r * (4 * n) + 4 * n)
                      × Agree n s (plain_dot o n (promote 0) w.zero_f values vec sums num r))
            last i s le lt r e agree = elim (Bool-cases (num - i == 0)) [
              | inl z ↦ rw (z) (s, refl, (r, omega (arith, e), omega (arith, e), rw (← e, z) agree))
              | inr z ↦ rw (z) (
                  Returns-bind
                    (dec_4f-ok h debug w d n _ (padded_bytes h documented debug bytes num i)
                      λ k q. dec_padded h documented debug codes bytes num i k each)
                    λ f p. (
                      _,
                      refl,
                      (
                        r,
                        omega (arith, e),
                        omega (arith, e),
                        rw (← e, z)
                            (accumulate-Agree o law n f
                              (four n (padded (promote 0) (from values i) (num - i)))
                              (padded w.zero_f (from vec i) (num - i)) s _
                              (four_lanes n f (padded (promote 0) (from values i) (num - i)) λ k q.
                                p k q ∙ elim (Bool-cases (ltb k (num - i))) [
                                  | inl y ↦ rw (y) refl
                                  | inr y ↦ rw (y) refl
                                ])
                              agree),
                      ),
                    ))
            ]

-- ===== src/Sfp/Stream/Rounds.antt =====
-- A round of the loops of Enc and Dec of compression/sfp-inl.h: Enc2B, Enc4F, Dec2B and Dec4F.
use gemma_cpp.Base.{
  ℕ, zero, suc, ◌+◌, ◌-◌, ◌*◌, ◌/◌, ◌%◌, ◌<◌, ◌≡◌, refl, ap, ap₂, ◌∙◌, sym, Bool, inl, inr, ok,
  ◌>>=◌, arith, ltb, ◌==◌, Bool-cases, ==_iff, Returns, Returns-map, Returns-bind, if◌then◌else◌,
  ltb→lt, fun_ext,
}
use gemma_cpp.Base.Chunks.{splice, from}
use gemma_cpp.Sfp.Simd.{Lanes}
use gemma_cpp.Sfp.{enc_bytes, dec_bytes}
use gemma_cpp.Sfp.Stream.{
  Wide, enc_lanes, dec_lanes, enc_2u, enc_2b, enc_4f, dec_2u, dec_4f, store_2, store_4,
}

-- What the manual of Highway says of the operations, with the conversions of one lane.
pub record IsWide {F : Type 0} (w : Wide F) (demote : F → ℕ) (promote : ℕ → F) : Type 0 where
  pub bytes_of_even : (a : ℕ → ℕ) (i : ℕ) → w.bytes_of a (2 * i) ≡ a i % 256
  pub bytes_of_odd : (a : ℕ → ℕ) (i : ℕ) → w.bytes_of a (2 * i + 1) ≡ a i / 256
  pub u16_of_lem : (a : ℕ → ℕ) (i : ℕ) → w.u16_of a i ≡ a (2 * i) + 256 * a (2 * i + 1)
  pub concat_even_lem :
      (n : ℕ) (hi lo : ℕ → ℕ) (i : ℕ)
      → w.concat_even n hi lo i ≡ (if ltb i (n / 2) then lo (2 * i) else hi (2 * (i - n / 2)))
  pub concat_odd_lem :
      (n : ℕ) (hi lo : ℕ → ℕ) (i : ℕ)
      → w.concat_odd n hi lo i
        ≡ (if ltb i (n / 2) then lo (2 * i + 1) else hi (2 * (i - n / 2) + 1))
  pub lower_even : (n : ℕ) (a b : ℕ → ℕ) (i : ℕ) → w.interleave_whole_lower n a b (2 * i) ≡ a i
  pub lower_odd : (n : ℕ) (a b : ℕ → ℕ) (i : ℕ) → w.interleave_whole_lower n a b (2 * i + 1) ≡ b i
  pub upper_even :
      (n : ℕ) (a b : ℕ → ℕ) (i : ℕ) → w.interleave_whole_upper n a b (2 * i) ≡ a (n / 2 + i)
  pub upper_odd :
      (n : ℕ) (a b : ℕ → ℕ) (i : ℕ) → w.interleave_whole_upper n a b (2 * i + 1) ≡ b (n / 2 + i)
  pub ordered_demote_2_to_lem :
      (n : ℕ) (a b : ℕ → F) (i : ℕ)
      → w.ordered_demote_2_to n a b i
        ≡ (if ltb i (n / 2) then demote (a i) else demote (b (i - n / 2)))
  pub promote_lower_to_lem : (n : ℕ) (a : ℕ → ℕ) (i : ℕ) → w.promote_lower_to n a i ≡ promote (a i)
  pub promote_upper_to_lem :
      (n : ℕ) (a : ℕ → ℕ) (i : ℕ) → w.promote_upper_to n a i ≡ promote (a (n / 2 + i))
  pub demote_zero : demote w.zero_f ≡ 0

module _ (h : Lanes) (debug : Bool) where
  -- The code of a bf16, and the two bytes of one.
  abbrev pub IsCode : ℕ → ℕ → Type 0
  IsCode v c = enc_bytes h debug (v % 256) (v / 256) ≡ ok c

  abbrev pub value : ℕ × ℕ → ℕ
  value b = b.0 + 256 * b.1

  enc_lanes-ok :
      (codes lo hi : ℕ → ℕ) (n : ℕ)
      → ((k : ℕ) → k < n → enc_bytes h debug (lo k) (hi k) ≡ ok (codes k))
      → Returns (enc_lanes h debug n lo hi) (λ packed. (k : ℕ) → k < n → packed k ≡ codes k)
  unfolding enc_lanes
  enc_lanes-ok codes lo hi zero each = (_, refl, λ k lt. absurd (omega arith))
  enc_lanes-ok codes lo hi (suc n) each =
      Returns-bind (enc_lanes-ok codes lo hi n (λ k lt. each k (omega arith))) λ before p.
        rw (each n (omega arith), ◌>>=◌)
          (
            _,
            refl,
            λ k lt. elim (Bool-cases (k == n)) [
              | inl e ↦ rw (e) (ap codes (sym ((==_iff k n).0 e)))
              | inr e ↦ rw (e) (p k (ground arith))
            ],
          )

  dec_lanes-ok :
      (packed : ℕ → ℕ) (bytes : ℕ → ℕ × ℕ) (n : ℕ)
      → ((k : ℕ) → k < n → dec_bytes h debug (packed k) ≡ ok (bytes k))
      → Returns
          (dec_lanes h debug n packed)
          (λ b. (k : ℕ) → k < n → (b.0 k ≡ (bytes k).0) × (b.1 k ≡ (bytes k).1))
  unfolding dec_lanes
  dec_lanes-ok packed bytes zero each = (_, refl, λ k lt. absurd (omega arith))
  dec_lanes-ok packed bytes (suc n) each =
      Returns-bind (dec_lanes-ok packed bytes n (λ k lt. each k (omega arith))) λ before p.
        rw (each n (omega arith), ◌>>=◌)
          (
            _,
            refl,
            λ k lt. elim (Bool-cases (k == n)) [
              | inl e ↦
                  let same : n ≡ k = sym ((==_iff k n).0 e) in
                  rw (e) (ap (λ i. (bytes i).0) same, ap (λ i. (bytes i).1) same)
              | inr e ↦ rw (e) (p k (ground arith))
            ],
          )

  module _ {F : Type 0} (w : Wide F) {demote : F → ℕ} {promote : ℕ → F}
      (d : IsWide w demote promote) where
    enc_2u-ok :
        (n : ℕ) (w0 w1 v codes : ℕ → ℕ)
        → ((k : ℕ) → k < n → w0 k ≡ v k)
        → ((k : ℕ) → k < n → w1 k ≡ v (n + k))
        → ((k : ℕ) → k < 2 * n → IsCode (v k) (codes k))
        → Returns (enc_2u h debug w n w0 w1) (λ packed. (k : ℕ) → k < 2 * n → packed k ≡ codes k)
    unfolding enc_2u
    enc_2u-ok n w0 w1 v codes lower upper each =
        enc_lanes-ok codes _ _ (2 * n) λ k lt. rw (lo k lt, hi k lt) (each k lt)
      where
        half : 2 * n / 2 ≡ n
        half = omega arith

        lo :
            (k : ℕ)
            → k < 2 * n
            → w.concat_even (2 * n) (w.bytes_of w1) (w.bytes_of w0) k ≡ v k % 256
        lo k lt = d.concat_even_lem (2 * n) _ _ k ∙ elim (Bool-cases (ltb k n)) [
          | inl e ↦ rw (half, e) (d.bytes_of_even w0 k ∙ ap (λ x. x % 256) (lower k (ltb→lt k n e)))
          | inr e ↦
              rw (half, e)
                (d.bytes_of_even w1 (k - n)
                  ∙ ap (λ x. x % 256) (upper (k - n) (ground arith) ∙ ap v (ground arith)))
        ]

        hi :
            (k : ℕ) → k < 2 * n → w.concat_odd (2 * n) (w.bytes_of w1) (w.bytes_of w0) k ≡ v k / 256
        hi k lt = d.concat_odd_lem (2 * n) _ _ k ∙ elim (Bool-cases (ltb k n)) [
          | inl e ↦ rw (half, e) (d.bytes_of_odd w0 k ∙ ap (λ x. x / 256) (lower k (ltb→lt k n e)))
          | inr e ↦
              rw (half, e)
                (d.bytes_of_odd w1 (k - n)
                  ∙ ap (λ x. x / 256) (upper (k - n) (ground arith) ∙ ap v (ground arith)))
        ]

    pub enc_2b-ok :
        (n : ℕ) (values codes : ℕ → ℕ)
        → ((k : ℕ) → k < 2 * n → IsCode (values k) (codes k))
        → Returns (enc_2b h debug w n values) (λ packed. (k : ℕ) → k < 2 * n → packed k ≡ codes k)
    unfolding enc_2b
    enc_2b-ok n values codes each =
        enc_2u-ok n _ _ values codes (λ k lt. ap values (omega arith)) (λ k lt. refl) each

    demoted :
        (n p q : ℕ) (values : ℕ → F) (k x : ℕ)
        → q ≡ p + n
        → k < 2 * n
        → p + k ≡ x
        → w.ordered_demote_2_to (2 * n) (from values p) (from values q) k ≡ demote (values x)
    demoted n p q values k x e lt at =
        let half : 2 * n / 2 ≡ n = omega arith in
        d.ordered_demote_2_to_lem (2 * n) _ _ k ∙ elim (Bool-cases (ltb k n)) [
          | inl b ↦ rw (half, b) (ap (λ i. demote (values i)) at)
          | inr b ↦ rw (half, b) (ap (λ i. demote (values i)) (ground arith))
        ]

    pub enc_4f-ok :
        (n : ℕ) (values : ℕ → F) (codes : ℕ → ℕ)
        → ((k : ℕ) → k < 4 * n → IsCode (demote (values k)) (codes k))
        → Returns (enc_4f h debug w n values) (λ packed. (k : ℕ) → k < 4 * n → packed k ≡ codes k)
    unfolding enc_4f
    enc_4f-ok n values codes each =
        Returns-map (λ packed p k lt. p k (omega arith))
          (enc_2u-ok (2 * n) _ _ (λ k. demote (values k)) codes
            (λ k lt. demoted n (n * 0) (n * 1) values k k (omega arith) lt (omega arith))
            (λ k lt. demoted n (n * 2) (n * 3) values k (2 * n + k) (omega arith) lt (omega arith))
            (λ k lt. each k (omega arith)))

    -- The values that the two vectors of Dec2U stand for.
    abbrev pub lane_2 : {A : Type 0} → ℕ → (ℕ → A) × (ℕ → A) → ℕ → A
    lane_2 n v k = if ltb k n then v.0 k else v.1 (k - n)

    pub store_2-splice :
        {A : Type 0} (n : ℕ) (a : ℕ → A) (i : ℕ) (v : (ℕ → A) × (ℕ → A))
        → store_2 h debug w n a i v ≡ splice a i (2 * n) (lane_2 n v)
    unfolding splice
    store_2-splice n a i v =
        fun_ext λ p. let e : p - (i + n) ≡ p - i - n = omega arith in rw (e) (ground arith)

    pub dec_2u-ok :
        (n : ℕ) (packed : ℕ → ℕ) (bytes : ℕ → ℕ × ℕ)
        → ((k : ℕ) → k < 2 * n → dec_bytes h debug (packed k) ≡ ok (bytes k))
        → Returns (dec_2u h debug w n packed) (λ v.
          ((k : ℕ) → k < n → v.0 k ≡ value (bytes k))
          × ((k : ℕ) → k < n → v.1 k ≡ value (bytes (n + k))))
    unfolding dec_2u
    dec_2u-ok n packed bytes each = Returns-bind (dec_lanes-ok packed bytes (2 * n) each) λ b p. (
      _,
      refl,
      (
        λ k lt.
            d.u16_of_lem _ k
            ∙ ap₂ (λ x y. x + 256 * y) (d.lower_even (2 * n) _ _ k ∙ (p k (omega arith)).0)
                (d.lower_odd (2 * n) _ _ k ∙ (p k (omega arith)).1),
        λ k lt.
            d.u16_of_lem _ k
            ∙ rw (d.upper_even (2 * n) (b.0) (b.1) k, d.upper_odd (2 * n) (b.0) (b.1) k, half)
                (ap₂ (λ x y. x + 256 * y) ((p (n + k) (omega arith)).0)
                  ((p (n + k) (omega arith)).1)),
      ),
    )
      where
        half : 2 * n / 2 ≡ n
        half = omega arith

    pub dec_2u-lane_2 :
        (n : ℕ) (packed : ℕ → ℕ) (bytes : ℕ → ℕ × ℕ)
        → ((k : ℕ) → k < 2 * n → dec_bytes h debug (packed k) ≡ ok (bytes k))
        → Returns
            (dec_2u h debug w n packed)
            (λ v. (k : ℕ) → k < 2 * n → lane_2 n v k ≡ value (bytes k))
    dec_2u-lane_2 n packed bytes each =
        Returns-map
          (λ v p k lt. elim (Bool-cases (ltb k n)) [
            | inl e ↦ rw (e) (p.0 k (ltb→lt k n e))
            | inr e ↦ rw (e) (p.1 (k - n) (ground arith) ∙ ap (λ i. value (bytes i)) (ground arith))
          ])
          (dec_2u-ok n packed bytes each)

    -- The values of the four vectors of Dec4F.
    abbrev pub lane_4 : ℕ → (ℕ → F) × (ℕ → F) × (ℕ → F) × (ℕ → F) → ℕ → F
    lane_4 n v k =
        if ltb k n
        then v.0 k
        else if ltb k (2 * n)
        then v.1 (k - n)
        else if ltb k (3 * n)
        then v.2 (k - 2 * n)
        else v.3 (k - 3 * n)

    pub store_4-splice :
        (n : ℕ) (a : ℕ → F) (i : ℕ) (v : (ℕ → F) × (ℕ → F) × (ℕ → F) × (ℕ → F))
        → store_4 h debug w n a i v ≡ splice a i (4 * n) (lane_4 n v)
    unfolding splice
    store_4-splice n a i v = fun_ext λ p.
        let e0 : p - (i + n * 0) ≡ p - i = omega arith in
        let e1 : p - (i + n * 1) ≡ p - i - n = omega arith in
        let e2 : p - (i + n * 2) ≡ p - i - 2 * n = omega arith in
        let e3 : p - (i + n * 3) ≡ p - i - 3 * n = omega arith in rw (e0, e1, e2, e3) (ground arith)

    pub dec_4f-ok :
        (n : ℕ) (packed : ℕ → ℕ) (bytes : ℕ → ℕ × ℕ)
        → ((k : ℕ) → k < 4 * n → dec_bytes h debug (packed k) ≡ ok (bytes k))
        → Returns
            (dec_4f h debug w n packed)
            (λ v. (k : ℕ) → k < 4 * n → lane_4 n v k ≡ promote (value (bytes k)))
    unfolding dec_4f
    dec_4f-ok n packed bytes each =
        Returns-bind (dec_2u-ok (2 * n) packed bytes (λ k lt. each k (omega arith))) λ b p. (
          _,
          refl,
          λ k lt. elim (Bool-cases (ltb k n)) [
            | inl e ↦
                rw (e) (d.promote_lower_to_lem (2 * n) (b.0) k ∙ ap promote (p.0 k (ground arith)))
            | inr e ↦ elim (Bool-cases (ltb k (2 * n))) [
              | inl e' ↦
                  rw (e, e')
                    (d.promote_upper_to_lem (2 * n) (b.0) (k - n)
                      ∙ rw (half)
                          (ap promote (p.0 (n + (k - n)) (ground arith)) ∙ at (ground arith)))
              | inr e' ↦ elim (Bool-cases (ltb k (3 * n))) [
                | inl e'' ↦
                    rw (e, e', e'')
                      (d.promote_lower_to_lem (2 * n) (b.1) (k - 2 * n)
                        ∙ ap promote (p.1 (k - 2 * n) (ground arith))
                        ∙ at (ground arith))
                | inr e'' ↦
                    rw (e, e', e'')
                      (d.promote_upper_to_lem (2 * n) (b.1) (k - 3 * n)
                        ∙ rw (half)
                            (ap promote (p.1 (n + (k - 3 * n)) (ground arith)) ∙ at (ground arith)))
              ]
            ]
          ],
        )
      where
        half : 2 * n / 2 ≡ n
        half = omega arith

        at : {i j : ℕ} → i ≡ j → promote (value (bytes i)) ≡ promote (value (bytes j))
        at e = ap (λ i. promote (value (bytes i))) e

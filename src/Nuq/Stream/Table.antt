-- ===== src/Nuq/Stream/Table.antt =====
-- The tables of NuqCodec of compression/nuq-inl.h, and the lookups of a round.
use gemma_cpp.Base.{
  ℕ, ◌+◌, ◌-◌, ◌*◌, ◌/◌, ◌%◌, ◌≤◌, ◌<◌, ◌≡◌, refl, sym, subst, ap, ◌∙◌, Bool, true, false, inl, inr,
  ◌⊎◌, Checked, ok, ◌>>=◌, debug_check-true, arith, ltb, leb, ◌==◌, ◌||◌, ◌&&◌, not, Bool-cases,
  Returns, Returns-bind, le→leb, ltb→lt,
}
use gemma_cpp.Base.Chunks.{from}
use gemma_cpp.Sfp.{dec_bytes}
use gemma_cpp.Sfp.Simd.{Lanes, IsDocumented}
use gemma_cpp.Sfp.Stream.{Wide, StreamFault}
use gemma_cpp.Sfp.Stream.Rounds.{IsWide, value, lane_2}
use gemma_cpp.Sfp.Stream.Codec.{dec_bf16-Filled}
use gemma_cpp.Nuq.Nibbles.{Vectors, NibbleFault, ordered_unpack_u16}
use gemma_cpp.Nuq.Nibbles.Documented
use gemma_cpp.Nuq.Nibbles.Unpack.{nibble, IsWidth, ordered_unpack_u16-nibble}
use gemma_cpp.Nuq.Stream.{
  NuqFault, in_centers, in_nibbles, Target, num_tables, load_table, table_lookups,
}

-- A target of fixed vector length whose rounds divide a group.
pub record IsTarget (t : Target) : Type 0 where
  pub fixed : t.scalable ≡ false
  pub width : IsWidth t.cheap_permute t.lanes
  pub some_lane : 0 < t.table_lanes
  pub table_fits : (leb t.table_lanes t.lanes || num_tables t == 2) ≡ true
  pub size : (t.lanes ≡ 8) ⊎ (16 ≤ t.lanes)
  pub rounds : ℕ
  pub fill : rounds * (2 * t.lanes) ≡ 256

pub nibble-lt : (packed : ℕ → ℕ) (i : ℕ) → packed (i / 2) < 256 → nibble packed i < 16
nibble-lt packed i lt = elim (Bool-cases (i % 2 == 0)) [
  | inl e ↦ rw (e) (omega arith)
  | inr e ↦ rw (e) (omega arith)
]

pub eight_lanes : {n : ℕ} → (n ≡ 8) ⊎ (16 ≤ n) → 8 ≤ n
eight_lanes (inl e) = omega (arith, e)
eight_lanes (inr e) = omega arith

-- The nibbles behind some bytes.
pub nibble-from :
    (packed : ℕ → ℕ) (a i k : ℕ) → 2 * a + i ≡ k → nibble (from packed a) i ≡ nibble packed k
nibble-from packed a i k e =
    let parity : k % 2 ≡ i % 2 = omega (arith, e) in
    let byte : k / 2 ≡ a + i / 2 = omega (arith, e) in rw (parity, byte) refl

pub in_centers-Returns :
    {A : Type 0} {r : Checked StreamFault A} {P : A → Type 0}
    → Returns r P
    → Returns (in_centers r) P
in_centers-Returns (a, e, p) = rw (e) (a, refl, p)

pub in_nibbles-Returns :
    {A : Type 0} {r : Checked NibbleFault A} {P : A → Type 0}
    → Returns r P
    → Returns (in_nibbles r) P
in_nibbles-Returns (a, e, p) = rw (e) (a, refl, p)

module _ {F : Type 0} (h : Lanes) (documented : IsDocumented h) (debug : Bool) (w : Wide F) where
  module _ {demote : F → ℕ} {promote : ℕ → F} (wide : IsWide w demote promote) where
    module _ (v : Vectors) (d : Documented.IsDocumented v) (t : Target) (target : IsTarget t) where
      -- The tables hold the values of the centers.
      pub Loaded : (ℕ → ℕ × ℕ) → (ℕ → ℕ) × (ℕ → ℕ) → Type 0
      Loaded bytes tbl =
          ((k : ℕ) → k < 16 → tbl.0 k ≡ value h debug (bytes k))
          × ((num_tables t == 2) ≡ true → (k : ℕ) → k < 8 → tbl.1 k ≡ value h debug (bytes (8 + k)))

      pub load_table-Loaded :
          (centers : ℕ → ℕ) (bytes : ℕ → ℕ × ℕ)
          → ((k : ℕ) → k < 16 → dec_bytes h debug (centers k) ≡ ok (bytes k))
          → Returns (load_table h debug w v t centers) (Loaded bytes)
      unfolding load_table Loaded
      load_table-Loaded centers bytes each =
          rw (target.table_fits, debug_check-true debug NuqFault.table_too_large, ◌>>=◌)
            (Returns-bind
              (in_centers-Returns (
                dec_bf16-Filled h documented debug w wide t.table_lanes target.some_lane 16 (λ k. 0)
                  centers bytes v.uninitialised each))
              λ table f.
                rw
                  (
                    le→leb 8 t.lanes (eight_lanes target.size),
                    debug_check-true debug NuqFault.vector_too_small,
                    ◌>>=◌,
                  )
                  (_, refl, (f.inside, λ two k lt. rw (two) (f.inside (8 + k) (omega arith)))))

      unpacked :
          (packed : ℕ → ℕ)
          → ((j : ℕ) → packed j < 256)
          → Returns
              (in_nibbles (ordered_unpack_u16 v debug t.scalable t.cheap_permute t.lanes packed))
              (λ u. (i : ℕ) → i < t.lanes → u i ≡ nibble packed i)
      unpacked packed below =
          subst
            (λ s.
              Returns (in_nibbles (ordered_unpack_u16 v debug s t.cheap_permute t.lanes packed))
                (λ u. (i : ℕ) → i < t.lanes → u i ≡ nibble packed i))
            (sym target.fixed)
            (in_nibbles-Returns (
              ordered_unpack_u16-nibble v d debug packed below t.cheap_permute t.lanes
                target.width))

      two_tables : (num_tables t == 1) ≡ false → (num_tables t == 2) ≡ true
      unfolding num_tables
      two_tables e = elim (Bool-cases (not t.scalable && leb 32 (2 * t.lanes))) [
        | inl c ↦ absurd (let e' = rw (c) at e in cc)
        | inr c ↦ rw (c) refl
      ]

      module _ (bytes : ℕ → ℕ × ℕ) (tbl : (ℕ → ℕ) × (ℕ → ℕ)) (loaded : Loaded bytes tbl) where
        one_table :
            (idx : ℕ → ℕ) (i : ℕ)
            → idx i < 16
            → v.table_lookup_lanes (tbl.0) idx i ≡ value h debug (bytes (idx i))
        unfolding Loaded
        one_table idx i lt = d.table_lookup_lanes_lem (tbl.0) idx i ∙ loaded.0 (idx i) lt

        both_tables :
            (num_tables t == 1) ≡ false
            → (idx : ℕ → ℕ) (i : ℕ) → idx i < 16
            → v.two_tables_lookup_lanes t.lanes (tbl.0) (tbl.1) idx i
              ≡ value h debug (bytes (idx i))
        unfolding Loaded
        both_tables e idx i lt =
            d.two_tables_lookup_lanes_lem t.lanes (tbl.0) (tbl.1) idx i
            ∙ elim (Bool-cases (ltb (idx i) t.lanes)) [
              | inl low ↦ rw (low) (loaded.0 (idx i) lt)
              | inr high ↦ rw (high) (upper target.size high)
            ]
          where
            upper :
                (t.lanes ≡ 8) ⊎ (16 ≤ t.lanes)
                → ltb (idx i) t.lanes ≡ false
                → tbl.1 (idx i - t.lanes) ≡ value h debug (bytes (idx i))
            upper (inl eight) high =
                let small : idx i - t.lanes < 8 = omega (arith, eight) in
                let back : 8 + (idx i - t.lanes) ≡ idx i = ground (arith, eight) in
                loaded.1 (two_tables e) (idx i - t.lanes) small
                ∙ ap (λ k. value h debug (bytes k)) back
            upper (inr wide') high = absurd (ground arith)

        -- The values of the nibbles in the lanes of a round.
        pub table_lookups-value :
            (packed : ℕ → ℕ)
            → ((j : ℕ) → packed j < 256)
            → Returns (table_lookups h debug w v t tbl packed) (λ c.
              (k : ℕ)
              → k < 2 * t.lanes
              → lane_2 h debug w wide t.lanes c k ≡ value h debug (bytes (nibble packed k)))
        unfolding table_lookups
        table_lookups-value packed below = Returns-bind (unpacked packed below) λ idx0 p0.
            Returns-bind (unpacked (from packed (t.lanes / 2)) (λ j. below (t.lanes / 2 + j)))
              λ idx1 p1. elim (Bool-cases (num_tables t == 1)) [
                | inl e ↦
                    rw (e) (_, refl, lanes_of idx0 idx1 p0 p1 _ _ (one_table idx0) (one_table idx1))
                | inr e ↦ rw (e) (
                  _,
                  refl,
                  lanes_of idx0 idx1 p0 p1 _ _ (both_tables e idx0) (both_tables e idx1),
                )
              ]
          where
            lanes_of :
                (idx0 idx1 : ℕ → ℕ)
                → ((i : ℕ) → i < t.lanes → idx0 i ≡ nibble packed i)
                → ((i : ℕ) → i < t.lanes → idx1 i ≡ nibble (from packed (t.lanes / 2)) i)
                → (c0 c1 : ℕ → ℕ) → ((i : ℕ) → idx0 i < 16 → c0 i ≡ value h debug (bytes (idx0 i)))
                → ((i : ℕ) → idx1 i < 16 → c1 i ≡ value h debug (bytes (idx1 i)))
                → (k : ℕ) → k < 2 * t.lanes
                → lane_2 h debug w wide t.lanes (c0, c1) k ≡ value h debug (bytes (nibble packed k))
            lanes_of idx0 idx1 p0 p1 c0 c1 q0 q1 k lt = elim (Bool-cases (ltb k t.lanes)) [
              | inl e ↦
                  let at : idx0 k ≡ nibble packed k = p0 k (ltb→lt k t.lanes e) in
                  rw (e) (
                    q0 k (rw (at) (nibble-lt packed k (below (k / 2))))
                    ∙ ap (λ i. value h debug (bytes i)) at)
              | inr e ↦
                  let at : idx1 (k - t.lanes) ≡ nibble packed k =
                    p1 (k - t.lanes) (ground arith)
                    ∙ nibble-from packed (t.lanes / 2) (k - t.lanes) k
                        (ground (arith, target.width.four)) in
                  rw (e) (
                    q1 (k - t.lanes) (rw (at) (nibble-lt packed k (below (k / 2))))
                    ∙ ap (λ i. value h debug (bytes i)) at)
            ]

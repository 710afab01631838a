-- ===== src/Nuq/Stream/Decoded.antt =====
-- NuqCodec::Dec of compression/nuq-inl.h: the values that it writes.
use gemma_cpp.Base.{
  ℕ, zero, suc, ◌+◌, ◌-◌, ◌*◌, ◌/◌, ◌%◌, ◌≤◌, ◌<◌, ◌≡◌, refl, subst, ap, ◌∙◌, Bool, ok, ◌>>=◌,
  debug_check-true, arith, ltb, Returns, Returns-map, Returns-bind, le→leb, ==_iff, Bool-cases, inl,
  inr, lt→ltb, ge→ltb,
}
use native.Mathlib.Nat.{mul_comm, mul-le-mul_right}
use gemma_cpp.Base.Chunks.{splice, from, rounds-Returns}
use gemma_cpp.Weights.{packed_start}
use gemma_cpp.Sfp.{dec_bytes}
use gemma_cpp.Sfp.Simd.{Lanes, IsDocumented}
use gemma_cpp.Sfp.Stream.{Wide, store_2, store_4}
use gemma_cpp.Sfp.Stream.Loops.{Filled, splice-Filled, nothing-Filled}
use gemma_cpp.Sfp.Stream.Rounds.{IsWide, value, lane_2, store_2-splice, lane_4, store_4-splice}
use gemma_cpp.Nuq.Nibbles.{Vectors}
use gemma_cpp.Nuq.Nibbles.Documented
use gemma_cpp.Nuq.Nibbles.Unpack.{nibble}
use gemma_cpp.Nuq.Stream.{
  NuqFault, Target, dec_group, dec_groups, dec_values, nuq_dec_bf16, nuq_dec_f32, promoted,
}
use gemma_cpp.Nuq.Stream.Table.{
  IsTarget, load_table-Loaded, table_lookups-value, nibble-from, eight_lanes,
}

-- What the assertions of Dec ask of its caller.
pub record InGroups (in_capacity in_ofs num : ℕ) : Type 0 where
  pub inside : in_ofs + num ≤ in_capacity
  pub capacity_whole : in_capacity % 256 ≡ 0
  pub offset_whole : in_ofs % 256 ≡ 0
  pub num_whole : num % 256 ≡ 0

-- The bf16 at a position: the center of its group that its nibble names.
unfoldable pub center_at : Lanes → Bool → (ℕ → ℕ × ℕ) → (ℕ → ℕ) → ℕ → ℕ
center_at h debug bytes packed p = value h debug (bytes (p / 256 * 16 + nibble packed p))

module _ {F : Type 0} (h : Lanes) (documented : IsDocumented h) (debug : Bool) (w : Wide F) where
  module _ {demote : F → ℕ} {promote : ℕ → F} (wide : IsWide w demote promote) where
    module _ (v : Vectors) (d : Documented.IsDocumented v) (t : Target) (target : IsTarget t) where
      -- Stores of two vectors that convert each lane.
      record IsStore {A : Type 0} (store : (ℕ → A) → ℕ → (ℕ → ℕ) × (ℕ → ℕ) → ℕ → A)
          (convert : ℕ → A) : Type 0 where
        lane : (ℕ → ℕ) × (ℕ → ℕ) → ℕ → A
        stores :
            (a : ℕ → A) (i : ℕ) (c : (ℕ → ℕ) × (ℕ → ℕ))
            → store a i c ≡ splice a i (2 * t.lanes) (lane c)
        converts :
            (c : (ℕ → ℕ) × (ℕ → ℕ)) (k : ℕ)
            → k < 2 * t.lanes
            → lane c k ≡ convert (lane_2 h debug w wide t.lanes c k)

      module _ {A : Type 0} (store : (ℕ → A) → ℕ → (ℕ → ℕ) × (ℕ → ℕ) → ℕ → A) (convert : ℕ → A)
          (is : IsStore store convert) where
        module _ (bytes : ℕ → ℕ × ℕ) (tables packed : ℕ → ℕ)
            (below : (j : ℕ) → packed j < 256) where
          abbrev values : ℕ → A
          values p = convert (center_at h debug bytes packed p)

          few : target.rounds < 257
          few =
              let bound : 1 * target.rounds ≤ 2 * t.lanes * target.rounds =
                mul-le-mul_right target.rounds (omega (arith, eight_lanes target.size)) in
              let same : target.rounds * (2 * t.lanes) ≡ 2 * t.lanes * target.rounds =
                mul_comm target.rounds (2 * t.lanes) in
              omega (arith, target.fill, bound, same)

          stored :
              (g : ℕ) (before st : ℕ → A) (i : ℕ)
              → i % 2 ≡ 0
              → i + 2 * t.lanes ≤ 256
              → Filled values before (g * 256 + i) st
              → (tbl c : (ℕ → ℕ) × (ℕ → ℕ))
              → ((k : ℕ)
                  → k < 2 * t.lanes
                  → lane_2 h debug w wide t.lanes c k
                    ≡ value h debug
                        (from bytes (g * 16) (nibble (from (from packed (g * 256 / 2)) (i / 2)) k)))
              → Filled values before (g * 256 + (i + 2 * t.lanes)) (store st (g * 256 + i) c)
          unfolding center_at
          stored g before st i even lt f tbl c e =
              subst (λ k. Filled values before k (store st (g * 256 + i) c)) next
                (rw (is.stores st (g * 256 + i) c) (
                  splice-Filled values before st (is.lane c) (g * 256 + i) (2 * t.lanes) f λ k q.
                    is.converts c k q
                    ∙ ap convert (e k q ∙ ap (value h debug) (ap bytes (place k q)))))
            where
              next : g * 256 + i + 2 * t.lanes ≡ g * 256 + (i + 2 * t.lanes)
              next = omega arith

              place :
                  (k : ℕ)
                  → k < 2 * t.lanes
                  → g * 16 + nibble (from (from packed (g * 256 / 2)) (i / 2)) k
                    ≡ (g * 256 + i + k) / 256 * 16 + nibble packed (g * 256 + i + k)
              place k q =
                  let group : (g * 256 + i + k) / 256 ≡ g = omega arith in
                  let same : nibble (from (from packed (g * 256 / 2)) (i / 2)) k
                      ≡ nibble packed (g * 256 + i + k) =
                    nibble-from (from packed (g * 256 / 2)) (i / 2) k (i + k) (omega (arith, even))
                    ∙ nibble-from packed (g * 256 / 2) (i + k) (g * 256 + i + k) (omega arith) in
                  rw (group, same) refl

          dec_group-Filled :
              (g : ℕ) (before st : ℕ → A)
              → ((k : ℕ)
                  → k < 16
                  → dec_bytes h debug (tables (g * 16 + k)) ≡ ok (bytes (g * 16 + k)))
              → Filled values before (g * 256) st
              → Returns
                  (dec_group h debug w v t store
                    (from tables (g * 16))
                    (from packed (g * 256 / 2))
                    (g * 256)
                    st)
                  (Filled values before (g * 256 + 256))
          unfolding dec_group
          dec_group-Filled g before st each f =
              Returns-bind
                (load_table-Loaded h documented debug w wide v d t target (from tables (g * 16))
                  (from bytes (g * 16)) each)
                λ tbl loaded.
                  Returns-map (λ st' q. q.1)
                    (rounds-Returns (2 * t.lanes) _
                      (λ i st. (i % 2 ≡ 0) × Filled values before (g * 256 + i) st) 256
                      (omega (arith, eight_lanes target.size))
                      (λ i st' lt q.
                        Returns-bind
                          (table_lookups-value h documented debug w wide v d t target
                            (from bytes (g * 16)) tbl loaded _ (λ j. below _))
                          λ c e. (
                            _,
                            refl,
                            (omega (arith, q.0), stored g before st' i q.0 lt q.1 tbl c e),
                          ))
                      target.rounds 257 0 st few (omega (arith, target.fill))
                      (refl, subst (λ k. Filled values before k st) (omega arith) f))

          -- The groups from `g` on.
          dec_groups-Filled :
              (left g : ℕ) (before st : ℕ → A)
              → ((k : ℕ) → k < (g + left) * 16 → dec_bytes h debug (tables k) ≡ ok (bytes k))
              → Filled values before (g * 256) st
              → Returns
                  (dec_groups h debug w v t store tables packed left g st)
                  (Filled values before ((g + left) * 256))
          unfolding dec_groups
          dec_groups-Filled zero g before st each f =
              (st, refl, subst (λ k. Filled values before (k * 256) st) (omega arith) f)
          dec_groups-Filled (suc left) g before st each f =
              Returns-bind
                (dec_group-Filled g before st (λ k lt. each (g * 16 + k) (omega arith)) f)
                λ st' f'.
                  Returns-map (λ r q. subst (λ k. Filled values before (k * 256) r) (omega arith) q)
                    (dec_groups-Filled left (suc g) before st' (λ k lt. each k (omega arith))
                      (subst (λ k. Filled values before k st') (omega arith) f'))

        -- Dec of `num` values from the offset `in_ofs` on.
        dec_values-Filled :
            (most : ℕ) (round_up_to : ℕ → ℕ → ℕ) (in_capacity : ℕ) (stream : ℕ → ℕ) (in_ofs : ℕ)
            (out : ℕ → A) (num : ℕ) (bytes : ℕ → ℕ × ℕ)
            → most ≤ 256
            → InGroups in_capacity in_ofs num
            → ((j : ℕ) → stream j < 256)
            → ((k : ℕ)
                → k < num / 256 * 16
                → dec_bytes h debug (stream (in_ofs / 256 * 16 + k)) ≡ ok (bytes k))
            → Returns
                (dec_values h debug w v t store most round_up_to in_capacity stream in_ofs out num)
                (Filled
                  (λ p. convert (
                    center_at h debug bytes
                      (from stream (packed_start round_up_to in_capacity + in_ofs / 256 * 256 / 2))
                      p))
                  out
                  num)
        unfolding dec_values
        dec_values-Filled most round_up_to in_capacity stream in_ofs out num bytes fits groups below
              each =
            rw
              (
                le→leb most 256 fits,
                debug_check-true debug NuqFault.group_too_small,
                ◌>>=◌,
                le→leb (in_ofs + num) in_capacity groups.inside,
                debug_check-true debug NuqFault.outside_capacity,
                ◌>>=◌,
                (==_iff (in_capacity % 256) 0).1 groups.capacity_whole,
                debug_check-true debug NuqFault.capacity_partial,
                ◌>>=◌,
                (==_iff (in_ofs % 256) 0).1 groups.offset_whole,
                debug_check-true debug NuqFault.offset_partial,
                ◌>>=◌,
                (==_iff (num % 256) 0).1 groups.num_whole,
                debug_check-true debug NuqFault.num_partial,
                ◌>>=◌,
              )
              (Returns-map
                (λ r q.
                  subst (λ k. Filled (λ p. convert (center_at h debug bytes packed p)) out k r)
                    whole q)
                (dec_groups-Filled bytes (from stream (in_ofs / 256 * 16)) _ (λ j. below _)
                  (num / 256) 0 out out (λ k lt. each k (omega arith)) (nothing-Filled _ out)))
          where
            packed : ℕ → ℕ
            packed = from stream (packed_start round_up_to in_capacity + in_ofs / 256 * 256 / 2)

            whole : (0 + num / 256) * 256 ≡ num
            whole = omega (arith, groups.num_whole)

      bf16-IsStore : IsStore (store_2 h debug w t.lanes) (λ b. b)
      bf16-IsStore = record {
        lane = lane_2 h debug w wide t.lanes;
        stores = λ a i c. store_2-splice h debug w wide t.lanes a i c;
        converts = λ c k lt. refl;
      }

      f32-IsStore :
          IsStore
            (λ out i c. store_4 h debug w (t.lanes / 2) out i (promoted h debug w v t c))
            promote
      unfolding promoted
      f32-IsStore = record {
        lane = λ c. lane_4 h debug w wide half (promoted h debug w v t c);
        stores = λ a i c.
            store_4-splice h debug w wide half a i (promoted h debug w v t c)
            ∙ ap (λ n. splice a i n (lane_4 h debug w wide half (promoted h debug w v t c)))
                two_halves;
        converts = converts;
      }
        where
          half : ℕ
          half = t.lanes / 2

          two_halves : 4 * (t.lanes / 2) ≡ 2 * t.lanes
          two_halves = omega (arith, target.width.four)

          converts :
              (c : (ℕ → ℕ) × (ℕ → ℕ)) (k : ℕ)
              → k < 2 * t.lanes
              → lane_4 h debug w wide (t.lanes / 2) (promoted h debug w v t c) k
                ≡ promote (lane_2 h debug w wide t.lanes c k)
          converts c k lt = elim (Bool-cases (ltb k (t.lanes / 2))) [
            | inl e ↦
                rw (e, lt→ltb k t.lanes (ground arith)) (wide.promote_lower_to_lem t.lanes (c.0) k)
            | inr e ↦ elim (Bool-cases (ltb k (2 * (t.lanes / 2)))) [
              | inl e' ↦
                  rw (e, e', lt→ltb k t.lanes (ground arith))
                    (wide.promote_upper_to_lem t.lanes (c.0) (k - t.lanes / 2)
                      ∙ ap (λ i. promote (c.0 i)) (ground arith))
              | inr e' ↦ elim (Bool-cases (ltb k (3 * (t.lanes / 2)))) [
                | inl e'' ↦
                    rw (e, e', e'', ge→ltb k t.lanes (ground (arith, two_halves)))
                      (wide.promote_lower_to_lem t.lanes (c.1) (k - 2 * (t.lanes / 2))
                        ∙ ap (λ i. promote (c.1 i)) (omega (arith, two_halves)))
                | inr e'' ↦
                    rw (e, e', e'', ge→ltb k t.lanes (ground (arith, two_halves)))
                      (wide.promote_upper_to_lem t.lanes (c.1) (k - 3 * (t.lanes / 2))
                        ∙ ap (λ i. promote (c.1 i)) (ground (arith, two_halves)))
              ]
            ]
          ]

      module _ (round_up_to : ℕ → ℕ → ℕ) (in_capacity : ℕ) (stream : ℕ → ℕ) (in_ofs num : ℕ)
          (bytes : ℕ → ℕ × ℕ) (groups : InGroups in_capacity in_ofs num)
          (below : (j : ℕ) → stream j < 256)
          (each : (k : ℕ)
            → k < num / 256 * 16
            → dec_bytes h debug (stream (in_ofs / 256 * 16 + k)) ≡ ok (bytes k)) where
        -- The packed indices of the values from `in_ofs` on.
        abbrev pub indices_from : ℕ → ℕ
        indices_from = from stream (packed_start round_up_to in_capacity + in_ofs / 256 * 256 / 2)

        pub nuq_dec_bf16-Filled :
            4 * t.lanes ≤ 256
            → (out : ℕ → ℕ)
            → Returns
                (nuq_dec_bf16 h debug w v t round_up_to in_capacity stream in_ofs out num)
                (Filled (center_at h debug bytes indices_from) out num)
        unfolding nuq_dec_bf16
        nuq_dec_bf16-Filled fits out =
            dec_values-Filled _ (λ b. b) bf16-IsStore (4 * t.lanes) round_up_to in_capacity stream
              in_ofs out num bytes fits groups below each

        -- Dec to f32 of whole groups stops at no assertion and writes to each value the center of its
        -- group that its nibble names, and nothing else, on every target of fixed vector length
        -- whose rounds divide a group, if DecBytes decodes the centers.
        pub nuq_dec_f32-Filled :
            4 * (t.lanes / 2) ≤ 256
            → (out : ℕ → F)
            → Returns
                (nuq_dec_f32 h debug w v t round_up_to in_capacity stream in_ofs out num)
                (Filled (λ p. promote (center_at h debug bytes indices_from p)) out num)
        unfolding nuq_dec_f32
        nuq_dec_f32-Filled fits out =
            dec_values-Filled _ promote f32-IsStore (4 * (t.lanes / 2)) round_up_to in_capacity
              stream in_ofs out num bytes fits groups below each

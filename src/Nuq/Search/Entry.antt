-- ===== src/Nuq/Search/Entry.antt =====
-- An entry of the dynamic program of ClusterExactL2 in compression/nuq-inl.h.
use gemma_cpp.Base.{
  ℕ, zero, suc, ◌+◌, ◌-◌, ◌≤◌, ◌<◌, ◌≡◌, refl, subst, ◌⊎◌, inl, inr, Bool, true, false, ok, ◌>>=◌,
  debug_check-true, lt→ltb, ltb→lt, Bool-cases, ◌==◌, ==_iff, ne→==, arith, Returns, Returns-map,
  ltb, if◌then◌else◌,
}
use gemma_cpp.Nuq.Payload.{group_size, Floats, ClusterFault}
use gemma_cpp.Nuq.Search.{
  lane_cost, cluster_cost, cluster_dyn_prog, least_from, next_entry, first_entry,
}

module _ {F : Type 0} (f : Floats F) where
  -- The order of floats that are not NaN, and the monotony of a rounded sum.
  pub record IsOrdered : Type 0 where
    pub irreflexive : (a : F) → f.lt a a ≡ false
    pub asymmetric : (a b : F) → f.lt a b ≡ true → f.lt b a ≡ false
    pub le_trans : (a b c : F) → f.lt b a ≡ false → f.lt c b ≡ false → f.lt c a ≡ false
    pub add_mono : (a b c : F) → f.lt b a ≡ false → f.lt (f.add b c) (f.add a c) ≡ false

  abbrev pub AtMost : F → F → Type 0
  AtMost a b = f.lt b a ≡ false

  module _ (sorted : ℕ → F) where
    -- No cost of a single cluster is above 1E38.
    abbrev pub IsBounded : Type 0
    IsBounded = (m : ℕ) → AtMost (lane_cost f sorted 0 m) f.max_cost

    -- The entry `s` for the last value `m`, once the clusters that start below `j` are tried;
    -- `d` is the row before.
    pub record Least (d : ℕ → F) (m j : ℕ) (s : F × ℕ) : Type 0 where
      pub at_most : AtMost s.0 (lane_cost f sorted 0 m)
      pub within : s.1 ≤ m
      pub source :
          ((s.1 ≡ 0) × (s.0 ≡ lane_cost f sorted 0 m))
          ⊎ ((i : ℕ) × (s.1 ≡ suc i) × (i < m) × (s.0 ≡ f.add (d i) (lane_cost f sorted (suc i) m)))
      pub beats :
          (i : ℕ) → suc i < j → i < m → AtMost s.0 (f.add (d i) (lane_cost f sorted (suc i) m))

    module _ (debug : Bool) (d : ℕ → F) (base lane : ℕ) (inside : base < group_size) where
      cluster_cost-ok :
          (first : ℕ)
          → first < group_size
          → cluster_cost f debug sorted first base lane
            ≡ ok (lane_cost f sorted first (base + lane))
      unfolding cluster_cost
      cluster_cost-ok first lt =
          rw
            (
              lt→ltb first group_size lt,
              lt→ltb base group_size inside,
              debug_check-true debug ClusterFault.first_outside,
              debug_check-true debug ClusterFault.last_outside,
              ◌>>=◌,
            )
            refl

      candidate : ℕ → F
      candidate i =
          if ltb i (base + lane)
          then f.add (d i) (lane_cost f sorted (suc i) (base + lane))
          else f.max_cost

      cluster_dyn_prog-ok :
          (i : ℕ)
          → suc i < group_size
          → cluster_dyn_prog f debug sorted d base lane (suc i) ≡ ok (candidate i)
      unfolding cluster_dyn_prog candidate
      cluster_dyn_prog-ok i lt =
          rw
            (
              lt→ltb (suc i) group_size lt,
              ne→== (suc i) 0 (λ e. absurd (omega arith)),
              lt→ltb base group_size inside,
              debug_check-true debug ClusterFault.last_outside,
              ◌>>=◌,
              debug_check-true debug ClusterFault.start_outside,
              ◌>>=◌,
              debug_check-true debug ClusterFault.first_outside,
              ◌>>=◌,
              before,
            )
            refl
        where
          before : suc i - 1 ≡ i
          before = omega arith

      module _ (order : IsOrdered) (bounded : IsBounded) where
        abbrev m : ℕ
        m = base + lane

        sum_of : ℕ → F
        sum_of i = f.add (d i) (lane_cost f sorted (suc i) m)

        -- The cost `sum_of i` is less than what stands, or not, or it is no candidate.
        taken :
            (i : ℕ) (s : F × ℕ)
            → i < m
            → f.lt (sum_of i) s.0 ≡ true
            → Least d m (suc i) s
            → Least d m (suc (suc i)) (sum_of i, suc i)
        unfolding sum_of
        taken i s lt less p = record {
          at_most = order.le_trans _ _ _ below p.at_most;
          within = omega arith;
          source = inr (i, refl, lt, refl);
          beats = λ k h q. beats k h q;
        }
          where
            below : f.lt s.0 (sum_of i) ≡ false
            below = order.asymmetric _ _ less

            beats : (k : ℕ) → suc k < suc (suc i) → k < m → f.lt (sum_of k) (sum_of i) ≡ false
            beats k h q = elim (Bool-cases (k == i)) [
              | inl e ↦ rw ((==_iff k i).0 e) (order.irreflexive (sum_of i))
              | inr e ↦ order.le_trans _ _ _ below (p.beats k (ground arith) q)
            ]

        kept :
            (i : ℕ) (s : F × ℕ)
            → (i < m → f.lt (sum_of i) s.0 ≡ false)
            → Least d m (suc i) s
            → Least d m (suc (suc i)) s
        unfolding sum_of
        kept i s more p = record {
          at_most = p.at_most;
          within = p.within;
          source = p.source;
          beats = λ k h q. elim (Bool-cases (k == i)) [
            | inl e ↦ let k_i : k ≡ i = (==_iff k i).0 e in rw (k_i) (more (omega (arith, k_i)))
            | inr e ↦ p.beats k (ground arith) q
          ];
        }

        step-Least :
            (i : ℕ) (s : F × ℕ)
            → Least d m (suc i) s
            → Least d m (suc (suc i)) (
              if f.lt (candidate i) s.0 then candidate i else s.0,
              if f.lt (candidate i) s.0 then suc i else s.1,
            )
        unfolding candidate sum_of
        step-Least i s p = elim (Bool-cases (ltb i m)) [
          | inl valid ↦ elim (Bool-cases (f.lt (sum_of i) s.0)) [
            | inl less ↦ rw (valid, less) (taken i s (ltb→lt i m valid) less p)
            | inr more ↦ rw (valid, more) (kept i s (λ _. more) p)
          ]
          | inr outside ↦
              let above : f.lt f.max_cost s.0 ≡ false =
                order.le_trans _ _ _ p.at_most (bounded m) in
              rw (outside, above) (kept i s (λ q. absurd (ground arith)) p)
        ]

        least_from-Least :
            (n i : ℕ) (s : F × ℕ)
            → i + n < group_size
            → Least d m (suc i) s
            → Returns (least_from f debug sorted d base lane n (suc i) s) (Least d m (suc (i + n)))
        unfolding least_from
        least_from-Least zero i s h p = (s, refl, subst (λ k. Least d m k s) (omega arith) p)
        least_from-Least (suc n) i s h p =
            rw (cluster_dyn_prog-ok i (omega arith), ◌>>=◌)
              (Returns-map (λ r q. subst (λ k. Least d m k r) (omega arith) q)
                (least_from-Least n (suc i) _ (omega arith) (step-Least i s p)))

        start-Least : Least d m 1 (lane_cost f sorted 0 m, 0)
        start-Least = record {
          at_most = order.irreflexive _;
          within = omega arith;
          source = inl (refl, refl);
          beats = λ i h q. absurd (omega arith);
        }

        -- The entry of a lane, with `n` lanes of which this is one.
        pub next_entry-Least :
            (n : ℕ)
            → lane < n
            → base + n ≤ group_size
            → Returns (next_entry f debug sorted n d base lane) (Least d m (base + n))
        unfolding next_entry
        next_entry-Least n lt fits =
            rw (cluster_cost-ok 0 (omega arith), ◌>>=◌)
              (Returns-map (λ r q. subst (λ k. Least d m k r) (omega arith) q)
                (least_from-Least (base + n - 1) 0 _ (omega arith) start-Least))

        pub first_entry-ok : first_entry f debug sorted base lane ≡ ok (lane_cost f sorted 0 m, 0)
        unfolding first_entry
        first_entry-ok = rw (cluster_cost-ok 0 (omega arith), ◌>>=◌) refl

-- ===== src/Nuq/Cluster/Backtrack.antt =====
-- The backtracking loop of ClusterExactL2 in compression/nuq-inl.h, along the starts of a split.
use gemma_cpp.Base.{
  ℕ, zero, suc, ◌+◌, ◌-◌, ◌%◌, ◌^◌, ◌≤◌, ◌<◌, ◌≡◌, ◌≢◌, refl, subst, sym, ◌∙◌, inl, inr, Bool,
  ◌>>=◌, debug_check-true, lt→ltb, Bool-cases, ltb, ◌==◌, ==_iff, ==_self, ne→==, arith, Returns,
  Returns-map, Returns-bind, if◌then◌else◌, pos, le→leb,
}
use gemma_cpp.Nuq.Payload.{group_size, Floats, ClusterFault, get}
use gemma_cpp.Nuq.Search.{sum_of_sorted}
use gemma_cpp.Nuq.Search.Optimal.{Split, Traced}
use gemma_cpp.Nuq.Cluster.{
  write, Clustered, write_indices, zero_centers, backtrack_round, backtrack,
}

-- The cluster of a sorted value, and the number of the first cluster.
unfoldable pub label : (k m : ℕ) → Split k m → ℕ → ℕ
label k m Split.whole p = k
label (suc k) m (Split.cut j h s) p = if ltb j p then suc k else label k j s p

unfoldable pub first_cluster : (k m : ℕ) → Split k m → ℕ
first_cluster k m Split.whole = k
first_cluster (suc k) m (Split.cut j h s) = first_cluster k j s

pub label-le : (k m : ℕ) (s : Split k m) (p : ℕ) → label k m s p ≤ k
unfolding label
label-le k m Split.whole p = omega arith
label-le (suc k) m (Split.cut j h s) p = ground (arith, label-le k j s p)

module _ {F : Type 0} (f : Floats F) (sorted : ℕ → F) where
  abbrev pub mean : ℕ → ℕ → F
  mean start last = f.div (sum_of_sorted f sorted start last) (f.of_int (pos (last + 1 - start)))

  -- The mean of a cluster, and 0 for an unused one.
  unfoldable pub mean_of : (k m : ℕ) → Split k m → ℕ → F
  mean_of k m Split.whole c = if c == k then mean 0 m else f.of_int (pos 0)
  mean_of (suc k) m (Split.cut j h s) c = if c == suc k then mean (suc j) m else mean_of k j s c

  -- No two sorted values carry the same index.
  pub record IsIndexed : Type 0 where
    pub below : (p : ℕ) → p < group_size → get f (sorted p) < group_size
    pub apart :
        (p q : ℕ) → p < group_size → q < group_size → get f (sorted p) ≡ get f (sorted q) → p ≡ q

  record Written (k start n : ℕ) (indices indices' : ℕ → ℕ) : Type 0 where
    labels : (p : ℕ) → start ≤ p → p < start + n → indices' (get f (sorted p)) ≡ k
    others :
        (idx : ℕ)
        → ((p : ℕ) → start ≤ p → p < start + n → get f (sorted p) ≢ idx)
        → indices' idx ≡ indices idx

  module _ (debug : Bool) (indexed : IsIndexed) where
    write_indices-Written :
        (k n start : ℕ) (indices : ℕ → ℕ)
        → k < 2 ^ 16
        → start + n ≤ group_size
        → Returns (write_indices f debug sorted k n start indices) (Written k start n indices)
    unfolding write_indices
    write_indices-Written k zero start indices small h =
        (indices, refl, record { labels = λ p lo hi. absurd (omega arith); others = λ idx e. refl })
    write_indices-Written k (suc n) start indices small h =
        rw
          (
            lt→ltb (get f (sorted start)) group_size (indexed.below start (omega arith)),
            debug_check-true debug ClusterFault.index_outside,
            ◌>>=◌,
          )
          (Returns-map step (write_indices-Written k n (suc start) _ small (omega arith)))
      where
        step :
            (indices' : ℕ → ℕ)
            → Written k (suc start) n (write indices (get f (sorted start)) (k % 2 ^ 16)) indices'
            → Written k start (suc n) indices indices'
        step indices' w = record {
          labels = λ p lo hi. elim (Bool-cases (p == start)) [
            | inl e ↦ subst (λ q. indices' (get f (sorted q)) ≡ k) (sym ((==_iff p start).0 e)) here
            | inr e ↦ w.labels p (ground arith) (omega arith)
          ];
          others = λ idx e.
              w.others idx (λ q lo hi. e q (omega arith) (omega arith))
              ∙ rw
                  (ne→== idx (get f (sorted start))
                    (λ same. e start (omega arith) (omega arith) (sym same)))
                  refl;
        }
          where
            here : indices' (get f (sorted start)) ≡ k
            here =
                w.others (get f (sorted start)) (λ q lo hi same.
                  let e : q ≡ start = indexed.apart q start (omega arith) (omega arith) same in
                  absurd (omega (arith, e)))
                ∙ rw (==_self (get f (sorted start))) (omega arith)

    -- What the loop leaves, from the cluster `k` and the last value `m` on.
    pub record Found (k m : ℕ) (s : Split k m) (centers : ℕ → F) (indices : ℕ → ℕ) (r : Clustered F)
        : Type 0 where
      pub unused : r.unused ≡ first_cluster k m s
      pub labels : (p : ℕ) → p ≤ m → r.indices (get f (sorted p)) ≡ label k m s p
      pub others :
          (idx : ℕ) → ((p : ℕ) → p ≤ m → get f (sorted p) ≢ idx) → r.indices idx ≡ indices idx
      pub means : (c : ℕ) → c ≤ k → r.centers c ≡ mean_of k m s c
      pub later : (c : ℕ) → k < c → r.centers c ≡ centers c

    zero_centers-lem :
        (n c : ℕ) (centers : ℕ → F)
        → zero_centers f debug n centers c ≡ (if ltb c n then f.of_int (pos 0) else centers c)
    unfolding zero_centers
    zero_centers-lem zero c centers = ground arith
    zero_centers-lem (suc n) c centers = ground (arith, zero_centers-lem n c centers)

    backtrack_round-ok :
        (start k m : ℕ) (centers : ℕ → F) (indices : ℕ → ℕ)
        → start ≤ m
        → m < group_size
        → k < 2 ^ 16
        → Returns (backtrack_round f debug sorted start k m centers indices) (λ r.
          (r.0 ≡ write centers k (mean start m)) × Written k start (m + 1 - start) indices (r.1))
    unfolding backtrack_round
    backtrack_round-ok start k m centers indices lo hi small =
        rw
          (
            le→leb start (m + 1) (omega arith),
            lt→ltb 0 (m + 1 - start) (omega arith),
            le→leb (m + 1 - start) group_size (omega arith),
            debug_check-true debug ClusterFault.size_outside,
            ◌>>=◌,
          )
          (Returns-bind (write_indices-Written k (m + 1 - start) start indices small (omega arith))
            λ indices' w. (_, refl, (refl, w)))

    one_Found :
        (k m : ℕ) (centers : ℕ → F) (indices indices' : ℕ → ℕ)
        → Written k 0 (m + 1 - 0) indices indices'
        → Found k m Split.whole centers indices (record {
          unused = k;
          centers = zero_centers f debug k (write centers k (mean 0 m));
          indices = indices';
        })
    unfolding first_cluster label mean_of
    one_Found k m centers indices indices' w = record {
      unused = refl;
      labels = λ p h. w.labels p (omega arith) (omega arith);
      others = λ idx e. w.others idx λ p lo hi. e p (omega arith);
      means = λ c h. ground (arith, zero_centers-lem k c (write centers k (mean 0 m)));
      later = λ c h. ground (arith, zero_centers-lem k c (write centers k (mean 0 m)));
    }

    more_Found :
        (k m j : ℕ) (h : j < m) (s : Split k j) (centers : ℕ → F) (indices indices' : ℕ → ℕ)
        (r : Clustered F)
        → m < group_size
        → Written (suc k) (suc j) (m + 1 - suc j) indices indices'
        → Found k j s (write centers (suc k) (mean (suc j) m)) indices' r
        → Found (suc k) m (Split.cut j h s) centers indices r
    unfolding first_cluster label mean_of
    more_Found k m j h s centers indices indices' r lt w found = record {
      unused = found.unused;
      labels = λ p q. elim (Bool-cases (ltb j p)) [
        | inl e ↦
            found.others (get f (sorted p)) (λ i hi same.
              let e' : i ≡ p = indexed.apart i p (omega arith) (omega arith) same in
              absurd (ground arith))
            ∙ w.labels p (ground arith) (omega arith)
            ∙ rw (e) refl
        | inr e ↦ found.labels p (ground arith) ∙ rw (e) refl
      ];
      others = λ idx e.
          found.others idx (λ p q. e p (omega arith)) ∙ w.others idx λ p lo hi. e p (omega arith);
      means = λ c q. elim (Bool-cases (c == suc k)) [
        | inl e ↦
            let e' : c ≡ suc k = (==_iff c (suc k)).0 e in
            found.later c (omega (arith, e')) ∙ rw (e) refl
        | inr e ↦ found.means c (ground arith) ∙ rw (e) refl
      ];
      later = λ c q.
          found.later c (omega arith) ∙ rw (ne→== c (suc k) (λ e. absurd (omega arith))) refl;
    }

    -- The loop along the starts of a split stops at no assertion.
    pub backtrack-Found :
        (t : ℕ → ℕ → ℕ) (k m : ℕ) (s : Split k m) (centers : ℕ → F) (indices : ℕ → ℕ)
        → k < 2 ^ 16
        → m < group_size
        → Traced t k m s
        → Returns (backtrack f debug sorted t k m centers indices) (Found k m s centers indices)
    unfolding backtrack zero_centers
    backtrack-Found t zero m Split.whole centers indices small lt (Traced.one e) = rw (e) (
        Returns-bind (backtrack_round-ok 0 0 m centers indices (omega arith) lt small)
          λ r w. (_, refl, rw (w.0) (one_Found 0 m centers indices (r.1) (w.1))))
    backtrack-Found t (suc k) m Split.whole centers indices small lt (Traced.one e) = rw (e) (
        Returns-bind (backtrack_round-ok 0 (suc k) m centers indices (omega arith) lt small)
          λ r w. (_, refl, rw (w.0) (one_Found (suc k) m centers indices (r.1) (w.1))))
    backtrack-Found t (suc k) m (Split.cut j h s) centers indices small lt (Traced.more _ e p) =
        rw (e) (
          Returns-bind (backtrack_round-ok (suc j) (suc k) m centers indices (omega arith) lt small)
            λ r w.
              rw
                (
                  ne→== (suc j) 0 (λ z. absurd (omega arith)),
                  before,
                  lt→ltb j group_size (omega arith),
                  debug_check-true debug ClusterFault.last_wrapped,
                  ◌>>=◌,
                  w.0,
                )
                (Returns-map (λ c q. more_Found k m j h s centers indices (r.1) c lt (w.1) q)
                  (backtrack-Found t k j s _ (r.1) (omega arith) (omega arith) p)))
      where
        before : suc j - 1 ≡ j
        before = omega arith

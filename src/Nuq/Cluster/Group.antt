-- ===== src/Nuq/Cluster/Group.antt =====
-- ClusterExactL2 of compression/nuq-inl.h on a group of values.
use gemma_cpp.Base.{
  ℕ, zero, suc, ◌+◌, ◌-◌, ◌≤◌, ◌<◌, ◌≡◌, refl, sym, ap, ◌∙◌, ◌⊎◌, inl, inr, Bool, Checked, ok,
  failed, ◌>>=◌, Bool-cases, ◌==◌, ==_iff, arith, Returns, Returns-map, Returns-bind, List,
  debug_check-ends,
}
use gemma_cpp.Nuq.Payload.{group_size, Floats, IsBitCast, ClusterFault, get, clear, set-Payload}
use gemma_cpp.Nuq.Search.{t_of, fill_rows}
use gemma_cpp.Nuq.Search.Entry.{IsOrdered, AtMost, IsBounded}
use gemma_cpp.Nuq.Search.Optimal.{Split, price, IsLanes, Cheapest, fill_rows-Cheapest}
use gemma_cpp.Nuq.Cluster.{Clustered, with_indices, check_ascending, cluster_exact_l2, backtrack}
use gemma_cpp.Nuq.Cluster.Backtrack.{
  label, first_cluster, mean_of, IsIndexed, Found, backtrack-Found,
}

module _ {F : Type 0} where
  -- What hn::VQSortStatic does with 256 values: it moves each to another place.
  pub record IsSort (sort : (ℕ → F) → ℕ → F) : Type 0 where
    pub origin : (ℕ → F) → ℕ → ℕ
    pub rank : (ℕ → F) → ℕ → ℕ
    pub origin_below : (xs : ℕ → F) (p : ℕ) → p < group_size → origin xs p < group_size
    pub rank_below : (xs : ℕ → F) (i : ℕ) → i < group_size → rank xs i < group_size
    pub moved : (xs : ℕ → F) (p : ℕ) → p < group_size → sort xs p ≡ xs (origin xs p)
    pub origin-rank : (xs : ℕ → F) (i : ℕ) → i < group_size → origin xs (rank xs i) ≡ i
    pub rank-origin : (xs : ℕ → F) (p : ℕ) → p < group_size → rank xs (origin xs p) ≡ p

module _ {F : Type 0} (f : Floats F) (cast : IsBitCast f) (debug : Bool) where
  -- The first `n` values carry their indices.
  pub record Marked (x : ℕ → F) (n : ℕ) (xs : ℕ → F) : Type 0 where
    pub payload : (i : ℕ) → i < n → get f (xs i) ≡ i
    pub value : (i : ℕ) → i < n → clear f (xs i) ≡ clear f (x i)

  with_indices-Marked :
      (x uninitialised : ℕ → F) (n : ℕ)
      → n ≤ group_size
      → Returns (with_indices f debug x uninitialised n) (Marked x n)
  unfolding with_indices
  with_indices-Marked x u zero h = (
    u,
    refl,
    record { payload = λ i p. absurd (omega arith); value = λ i p. absurd (omega arith) },
  )
  with_indices-Marked x u (suc n) h = Returns-bind (with_indices-Marked x u n (omega arith)) λ xs p.
      Returns-bind (set-Payload f cast debug (x n) n (omega arith)) λ y q. (
        _,
        refl,
        record {
          payload = λ i lt. elim (Bool-cases (i == n)) [
            | inl e ↦ rw (e) (q.payload ∙ sym ((==_iff i n).0 e))
            | inr e ↦ rw (e) (p.payload i (ground arith))
          ];
          value = λ i lt. elim (Bool-cases (i == n)) [
            | inl e ↦ rw (e) (q.value ∙ ap (λ k. clear f (x k)) (sym ((==_iff i n).0 e)))
            | inr e ↦ rw (e) (p.value i (ground arith))
          ];
        },
      )

  get-sort :
      (sort : (ℕ → F) → ℕ → F) (s : IsSort sort) (x xs : ℕ → F)
      → Marked x group_size xs
      → (p : ℕ) → p < group_size
      → get f (sort xs p) ≡ s.origin xs p
  get-sort sort s x xs m p lt =
      ap (get f) (s.moved xs p lt) ∙ m.payload (s.origin xs p) (s.origin_below xs p lt)

  sort-IsIndexed :
      (sort : (ℕ → F) → ℕ → F) (s : IsSort sort) (x xs : ℕ → F)
      → Marked x group_size xs
      → IsIndexed f (sort xs)
  sort-IsIndexed sort s x xs m = record {
    below = λ p lt. rw (get-sort sort s x xs m p lt) (s.origin_below xs p lt);
    apart = λ p q lt lt' e.
        let same : s.origin xs p ≡ s.origin xs q =
          sym (get-sort sort s x xs m p lt) ∙ e ∙ get-sort sort s x xs m q lt' in
        sym (s.rank-origin xs p lt) ∙ ap (s.rank xs) same ∙ s.rank-origin xs q lt';
  }

  -- The values with their indices, and the clusters of a cheapest split of them in sorted order:
  -- each value has the number of its cluster, each center is the mean of its cluster or 0, and
  -- all but the clusters of the split are unused.
  pub record Grouped (sort : (ℕ → F) → ℕ → F) (s : IsSort sort) (x : ℕ → F) (r : Clustered F)
      : Type 0 where
    pub marked : ℕ → F
    pub indexed : Marked x group_size marked
    pub split : Split 15 255
    pub least :
        (other : Split 15 255)
        → AtMost f (price f (sort marked) 15 255 split) (price f (sort marked) 15 255 other)
    pub unused : r.unused ≡ first_cluster 15 255 split
    pub labels : (i : ℕ) → i < group_size → r.indices i ≡ label 15 255 split (s.rank marked i)
    pub centers : (c : ℕ) → c ≤ 15 → r.centers c ≡ mean_of f (sort marked) 15 255 split c

  -- A debug build may find that the centers do not ascend; else the run returns.
  abbrev pub Outcome : (Clustered F → Type 0) → Checked ClusterFault (Clustered F) → Type 0
  Outcome P r = (r ≡ failed ClusterFault.centers_descend) ⊎ Returns r P

  check_ascending-ends :
      (centers : ℕ → F) (n i : ℕ)
      → (check_ascending f debug centers n i ≡ ok tt)
        ⊎ (check_ascending f debug centers n i ≡ failed ClusterFault.centers_descend)
  unfolding check_ascending
  check_ascending-ends centers zero i = inl refl
  check_ascending-ends centers (suc n) i =
      elim (debug_check-ends debug (f.ge (centers i) (centers (i - 1)))
        ClusterFault.centers_descend) [
          | inl e ↦ rw (e, ◌>>=◌) (check_ascending-ends centers n (suc i))
          | inr e ↦ rw (e, ◌>>=◌) (inr refl)
        ]

  -- ClusterExactL2 stops at no assertion, except that a debug build may find centers that do not
  -- ascend; its clusters are those of a cheapest split of the sorted values. This holds if the sort
  -- only moves values, the lanes divide a group, costs are ordered and none of a single cluster
  -- is above 1E38.
  pub cluster_exact_l2-Grouped :
      (n : ℕ) (sort : (ℕ → F) → ℕ → F) (s : IsSort sort) (uninitialised x centers : ℕ → F)
      (indices : ℕ → ℕ)
      → IsLanes n
      → IsOrdered f
      → ((xs : ℕ → F) → Marked x group_size xs → IsBounded f (sort xs))
      → Outcome (Grouped sort s x) (cluster_exact_l2 f debug n sort uninitialised x centers indices)
  unfolding cluster_exact_l2
  cluster_exact_l2-Grouped n sort s u x centers indices lanes order bounded =
      finish (with_indices-Marked x u group_size (omega arith))
    where
      finish :
          Returns (with_indices f debug x u group_size) (Marked x group_size)
          → Outcome (Grouped sort s x) (cluster_exact_l2 f debug n sort u x centers indices)
      finish (xs, e, m) = from_rows (
          Returns-map (λ rows c. c 15 255 (omega arith) (omega arith))
            (fill_rows-Cheapest f debug n (sort xs) lanes order (bounded xs m) 15))
        where
          from_loop :
              (rows : ℕ → List (F × ℕ)) (c : Cheapest f (sort xs) rows 15 255)
              → fill_rows f debug n (sort xs) 15 ≡ ok rows
              → Returns
                  (backtrack f debug (sort xs) (λ k. t_of f (rows k)) 15 255 centers indices)
                  (Found f
                    (sort xs)
                    debug
                    (sort-IsIndexed sort s x xs m)
                    15
                    255
                    c.split
                    centers
                    indices)
              → Outcome (Grouped sort s x) (cluster_exact_l2 f debug n sort u x centers indices)
          from_loop rows c e1 (r, e2, found) =
              elim (check_ascending-ends r.centers (15 - r.unused) (r.unused + 1)) [
                | inl e3 ↦ inr (
                  r,
                  rw (e, ◌>>=◌, e1, ◌>>=◌, e2, ◌>>=◌, e3, ◌>>=◌) refl,
                  record {
                    marked = xs;
                    indexed = m;
                    split = c.split;
                    least = c.least;
                    unused = found.unused;
                    labels = λ i lt.
                        let place : ℕ = s.rank xs i in
                        let inside : place < group_size = s.rank_below xs i lt in
                        let same : get f (sort xs place) ≡ i =
                          get-sort sort s x xs m place inside ∙ s.origin-rank xs i lt in
                        ap r.indices (sym same) ∙ found.labels place (omega arith);
                    centers = found.means;
                  },
                )
                | inr e3 ↦ inl (rw (e, ◌>>=◌, e1, ◌>>=◌, e2, ◌>>=◌, e3, ◌>>=◌) refl)
              ]

          from_rows :
              Returns (fill_rows f debug n (sort xs) 15) (λ rows. Cheapest f (sort xs) rows 15 255)
              → Outcome (Grouped sort s x) (cluster_exact_l2 f debug n sort u x centers indices)
          from_rows (rows, e1, c) = from_loop rows c e1 (
              backtrack-Found f (sort xs) debug (sort-IsIndexed sort s x xs m)
                (λ k. t_of f (rows k)) 15 255 c.split centers indices (omega arith) (omega arith)
                c.traced)

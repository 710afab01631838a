-- ===== src/Nuq/Search/Optimal.antt =====
-- The rows of the dynamic program of ClusterExactL2 in compression/nuq-inl.h against all ways to
-- split a group into clusters.
use gemma_cpp.Base.{
  ℕ, zero, suc, ◌+◌, ◌*◌, ◌/◌, ◌%◌, ◌≤◌, ◌<◌, ◌≡◌, refl, subst, inl, inr, Bool, false, Checked,
  Bool-cases, ◌==◌, ==_iff, ==_self, ne→==, arith, Returns, Returns-map, Returns-bind, List, get_or,
  if◌then◌else◌, sym, ap, ◌∙◌,
}
use native.Mathlib.Nat.{
  mod-lt, div-mul-le_self, mod-eq-sub-div-mul, div-lt_iff_lt-mul, mul-le-mul_right,
}
use gemma_cpp.Nuq.Payload.{group_size, Floats, ClusterFault}
use gemma_cpp.Nuq.Search.{lane_cost, next_entry, first_entry, fill_row, d_of, t_of, fill_rows}
use gemma_cpp.Nuq.Search.Entry.{
  IsOrdered, AtMost, IsBounded, Least, next_entry-Least, first_entry-ok,
}

-- A way to split the values 0..m into at most k + 1 clusters: one cluster, or a last cluster that
-- starts at j + 1 and a way to split 0..j.
pub data Split : ℕ → ℕ → Type 0 where
  whole : {k m : ℕ} → Split k m
  cut : {k m : ℕ} (j : ℕ) → j < m → Split k j → Split (suc k) m

-- The split is the one that the starts of the last clusters in `t` lead to.
pub data Traced (t : ℕ → ℕ → ℕ) : (k m : ℕ) → Split k m → Type 0 where
  one : {k m : ℕ} → t k m ≡ 0 → Traced t k m Split.whole
  more :
      {k m j : ℕ} (h : j < m) {s : Split k j}
      → t (suc k) m ≡ suc j
      → Traced t k j s
      → Traced t (suc k) m (Split.cut j h s)

module _ {F : Type 0} (f : Floats F) (sorted : ℕ → F) where
  -- The cost of a split, summed from the left.
  unfoldable pub price : (k m : ℕ) → Split k m → F
  price k m Split.whole = lane_cost f sorted 0 m
  price (suc k) m (Split.cut j h s) = f.add (price k j s) (lane_cost f sorted (suc j) m)

  -- `D` and `T` hold the cost of a cheapest split, and how to find it.
  pub record Cheapest (rows : ℕ → List (F × ℕ)) (k m : ℕ) : Type 0 where
    pub split : Split k m
    pub traced : Traced (λ k m. t_of f (rows k) m) k m split
    pub cost : d_of f (rows k) m ≡ price k m split
    pub least : (s : Split k m) → AtMost f (price k m split) (price k m s)

  -- What the rows up to `k` hold.
  abbrev pub AllCheapest : (ℕ → List (F × ℕ)) → ℕ → Type 0
  AllCheapest rows k = (i m : ℕ) → i ≤ k → m < group_size → Cheapest rows i m

Traced-congr :
    {t u : ℕ → ℕ → ℕ} {k m : ℕ} {s : Split k m}
    → ((i n : ℕ) → i ≤ k → t i n ≡ u i n)
    → Traced t k m s
    → Traced u k m s
Traced-congr h (Traced.one e) = Traced.one (sym (h _ _ (omega arith)) ∙ e)
Traced-congr h (Traced.more lt e p) =
    Traced.more lt (sym (h _ _ (omega arith)) ∙ e) (Traced-congr (λ i n q. h i n (omega arith)) p)

module _ {F : Type 0} (f : Floats F) (n : ℕ) (entry : ℕ → ℕ → Checked ClusterFault (F × ℕ)) where
  fill_row-All :
      (P : ℕ → F × ℕ → Type 0)
      → ((i : ℕ) → i < group_size → Returns (entry (i / n * n) (i % n)) (P i))
      → (left i : ℕ) → i + left ≤ group_size
      → Returns
          (fill_row f n entry left i)
          (λ row. (p : ℕ) → p < left → P (i + p) (get_or row p (f.max_cost, 0)))
  unfolding fill_row
  fill_row-All P each zero i h = (_, refl, λ p q. absurd (omega arith))
  fill_row-All P each (suc left) i h = Returns-bind (each i (omega arith)) λ here q.
      Returns-bind (fill_row-All P each left (suc i) (omega arith)) λ rest r. (
        _,
        refl,
        elim [
          | zero ↦ λ lt. subst (λ k. P k here) (omega arith) q
          | suc p ↦ λ lt.
              subst (λ k. P k (get_or rest p (f.max_cost, 0))) (omega arith) (r p (omega arith))
        ],
      )

  whole_row :
      (P : ℕ → F × ℕ → Type 0)
      → ((i : ℕ) → i < group_size → Returns (entry (i / n * n) (i % n)) (P i))
      → Returns
          (fill_row f n entry group_size 0)
          (λ row. (p : ℕ) → p < group_size → P p (get_or row p (f.max_cost, 0)))
  whole_row P each =
      Returns-map
        (λ row q p h. subst (λ k. P k (get_or row p (f.max_cost, 0))) (omega arith) (q p h))
        (fill_row-All P each group_size 0 (omega arith))

-- The lanes divide the group, so that no batch ends behind it.
pub record IsLanes (n : ℕ) : Type 0 where
  pub some_lane : 0 < n
  pub batches : ℕ
  pub fill : batches * n ≡ group_size

module _ (n : ℕ) (lanes : IsLanes n) (i : ℕ) (inside : i < group_size) where
  batch_lane : i / n * n + i % n ≡ i
  batch_lane = omega (arith, div-mul-le_self i n, mod-eq-sub-div-mul i n)

  lane-lt : i % n < n
  lane-lt = mod-lt i lanes.some_lane

  batch_fits : i / n * n + n ≤ group_size
  batch_fits =
      let bound : i < lanes.batches * n = rw (lanes.fill) inside in
      let q : i / n < lanes.batches = (div-lt_iff_lt-mul lanes.some_lane).1 bound in
      let r : suc (i / n) * n ≤ lanes.batches * n = mul-le-mul_right n q in
      grind (arith, r, lanes.fill)

module _ {F : Type 0} (f : Floats F) (debug : Bool) (n : ℕ) (sorted : ℕ → F) where
  module _ (lanes : IsLanes n) (order : IsOrdered f) (bounded : IsBounded f sorted) where
    first_row : Returns (fill_row f n (first_entry f debug sorted) group_size 0) (λ row.
        (m : ℕ) → m < group_size → get_or row m (f.max_cost, 0) ≡ (lane_cost f sorted 0 m, 0))
    first_row =
        whole_row f n _ (λ m s. s ≡ (lane_cost f sorted 0 m, 0))
          λ i h. (
            _,
            first_entry-ok f sorted debug (λ k. f.max_cost) (i / n * n) (i % n)
                (omega (arith, batch_lane n lanes i h)) order bounded,
            rw (batch_lane n lanes i h) refl,
          )

    next_row :
        (d : ℕ → F)
        → Returns (fill_row f n (next_entry f debug sorted n d) group_size 0) (λ row.
          (m : ℕ)
          → m < group_size
          → Least f sorted d m (m / n * n + n) (get_or row m (f.max_cost, 0)))
    next_row d =
        whole_row f n _ (λ m s. Least f sorted d m (m / n * n + n) s)
          λ i h.
            Returns-map
              (λ r q. subst (λ m. Least f sorted d m (i / n * n + n) r) (batch_lane n lanes i h) q)
              (next_entry-Least f sorted debug d (i / n * n) (i % n)
                (omega (arith, batch_lane n lanes i h)) order bounded n (lane-lt n lanes i h)
                (batch_fits n lanes i h))

    first-Cheapest :
        (row : List (F × ℕ)) (m : ℕ)
        → get_or row m (f.max_cost, 0) ≡ (lane_cost f sorted 0 m, 0)
        → Cheapest f sorted (λ k. row) 0 m
    unfolding price
    first-Cheapest row m e = record {
      split = Split.whole;
      traced = Traced.one (ap (λ s. s.1) e);
      cost = ap (λ s. s.0) e;
      least = least;
    }
      where
        least : (s : Split 0 m) → f.lt (price f sorted 0 m s) (lane_cost f sorted 0 m) ≡ false
        least Split.whole = order.irreflexive _

    older :
        (rows : ℕ → List (F × ℕ)) (k : ℕ) (row : List (F × ℕ)) (i n : ℕ)
        → i ≤ k
        → t_of f (rows i) n ≡ t_of f (if i == suc k then row else rows i) n
    older rows k row i n h = rw (ne→== i (suc k) (λ e. absurd (omega arith))) refl

    kept :
        (rows : ℕ → List (F × ℕ)) (k i m : ℕ) (row : List (F × ℕ))
        → i ≤ k
        → Cheapest f sorted rows i m
        → Cheapest f sorted (λ x. if x == suc k then row else rows x) i m
    kept rows k i m row h p = record {
      split = p.split;
      traced = Traced-congr (λ j n q. older rows k row j n (omega arith)) p.traced;
      cost = rw (ne→== i (suc k) (λ e. absurd (omega arith))) p.cost;
      least = p.least;
    }

    next-Cheapest :
        (rows : ℕ → List (F × ℕ)) (k m : ℕ) (row : List (F × ℕ))
        → AllCheapest f sorted rows k
        → m < group_size
        → Least f sorted (d_of f (rows k)) m (m / n * n + n) (get_or row m (f.max_cost, 0))
        → Cheapest f sorted (λ i. if i == suc k then row else rows i) (suc k) m
    unfolding price
    next-Cheapest rows k m row before lt p = elim (p.source) [
      | inl (start, cost) ↦ record {
        split = Split.whole;
        traced = Traced.one (rw (==_self (suc k)) start);
        cost = rw (==_self (suc k)) cost;
        least = λ s. rw (← cost) (least s);
      }
      | inr (i, start, below, cost) ↦
          let prior : Cheapest f sorted rows k i = before k i (omega arith) (omega arith) in
          let total : (get_or row m (f.max_cost, 0)).0
              ≡ f.add (price f sorted k i prior.split) (lane_cost f sorted (suc i) m) =
            cost ∙ ap (λ c. f.add c (lane_cost f sorted (suc i) m)) prior.cost in
          record {
            split = Split.cut i below prior.split;
            traced =
                Traced.more below (rw (==_self (suc k)) start)
                  (Traced-congr (older rows k row) prior.traced);
            cost = rw (==_self (suc k)) total;
            least = λ s. rw (← total) (least s);
          }
    ]
      where
        least :
            (s : Split (suc k) m)
            → AtMost f (get_or row m (f.max_cost, 0)).0 (price f sorted (suc k) m s)
        least Split.whole = p.at_most
        least (Split.cut j h s) =
            let prior : Cheapest f sorted rows k j = before k j (omega arith) (omega arith) in
            order.le_trans _ _ _
              (p.beats j (omega (arith, batch_lane n lanes m lt, lane-lt n lanes m lt)) h)
              (order.add_mono _ _ (lane_cost f sorted (suc j) m) (rw (prior.cost) (prior.least s)))

    -- With an order of the costs, none of which is above 1E38, ClusterDynProg stops at no
    -- assertion, `D[k][m]` is the cost of a cheapest split of the values 0..m into at most k + 1
    -- clusters, and the starts in `T` lead to such a split.
    pub fill_rows-Cheapest :
        (k : ℕ) → Returns (fill_rows f debug n sorted k) (λ rows. AllCheapest f sorted rows k)
    unfolding fill_rows
    fill_rows-Cheapest zero = Returns-bind first_row λ row q. (
      _,
      refl,
      λ i m h lt.
          subst (λ i. Cheapest f sorted (λ k. row) i m) (omega arith)
            (first-Cheapest row m (q m lt)),
    )
    fill_rows-Cheapest (suc k) = Returns-bind (fill_rows-Cheapest k) λ rows before.
        Returns-bind (next_row (d_of f (rows k))) λ row q. (
          _,
          refl,
          λ i m h lt. elim (Bool-cases (i == suc k)) [
            | inl e ↦
                subst (λ i. Cheapest f sorted (λ x. if x == suc k then row else rows x) i m)
                  (sym ((==_iff i (suc k)).0 e)) (next-Cheapest rows k m row before lt (q m lt))
            | inr e ↦ kept rows k i m row (ground arith) (before i m (ground arith) lt)
          ],
        )

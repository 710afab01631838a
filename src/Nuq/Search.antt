-- ===== src/Nuq/Search.antt =====
-- compression/nuq-inl.h: NuqClustering::ClusterCost, ClusterDynProg and the dynamic program of
-- ClusterExactL2. Vectors of `n` floats are written one lane at a time: `base` is the first of the
-- `n` values of `last`, and `base + lane` is the value of a lane. A lane with last < first, whose
-- cost the caller ignores, gets the cost of length 0.
pub mod Entry
pub mod Optimal
use gemma_cpp.Base.{
  ℕ, zero, suc, ◌+◌, ◌-◌, ◌*◌, ◌/◌, ◌%◌, Bool, Checked, ok, ◌>>=◌, ◌>>◌, debug_check, ltb, ◌==◌,
  not, ◌&&◌, if◌then◌else◌, List, [], ◌∷◌, get_or, pos,
}
use gemma_cpp.Nuq.Payload.{group_size, Floats, ClusterFault, clear}

module _ {F : Type 0} (f : Floats F) where
  -- The members of ClusterCost, from the sorted values.
  unfoldable pub cumsum : (ℕ → F) → ℕ → F
  unfolding clear
  cumsum sorted zero = f.of_int (pos 0)
  cumsum sorted (suc i) = f.add (clear f (sorted i)) (cumsum sorted i)

  unfoldable pub cumsum2 : (ℕ → F) → ℕ → F
  unfolding clear
  cumsum2 sorted zero = f.of_int (pos 0)
  cumsum2 sorted (suc i) = let x = clear f (sorted i) in f.add (f.mul x x) (cumsum2 sorted i)

  unfoldable pub inv_len : ℕ → F
  inv_len i = f.div (f.of_int (pos 1)) (f.of_int (pos i))

  unfoldable pub sum_of_sorted : (ℕ → F) → ℕ → ℕ → F
  sum_of_sorted sorted first last = f.sub (cumsum sorted (last + 1)) (cumsum sorted first)

  -- A lane of the cost of first..last.
  unfoldable pub lane_cost : (ℕ → F) → ℕ → ℕ → F
  lane_cost sorted first last =
      let len : ℕ = last + 1 - first in
      let vlen : F = f.of_int (pos len) in
      let u_lo : F = cumsum sorted first in
      let u_lo2 : F = cumsum2 sorted first in
      let hi : F = cumsum sorted (last + 1) in
      let hi2 : F = cumsum2 sorted (last + 1) in
      let sum : F = f.sub hi u_lo in
      let sum2 : F = f.sub hi2 u_lo2 in
      let mu : F = f.mul sum (inv_len len) in
      let mu2 : F = f.mul mu mu in
      let two_mu : F = f.add mu mu in f.neg_mul_add two_mu sum (f.mul_add vlen mu2 sum2)

  module _ (debug : Bool) (sorted : ℕ → F) where
    unfoldable pub cluster_cost : ℕ → ℕ → ℕ → Checked ClusterFault F
    unfolding lane_cost
    cluster_cost first base lane = do
      debug_check debug (ltb first group_size) ClusterFault.first_outside
      debug_check debug (ltb base group_size) ClusterFault.last_outside
      ok (lane_cost sorted first (base + lane))

    -- ClusterDynProg, where `d` is the row of `D` before the one that is filled.
    unfoldable pub cluster_dyn_prog : (ℕ → F) → ℕ → ℕ → ℕ → Checked ClusterFault F
    unfolding cluster_cost
    cluster_dyn_prog d base lane j = do
      debug_check debug (ltb base group_size) ClusterFault.last_outside
      debug_check debug (not (j == 0) && ltb j group_size) ClusterFault.start_outside
      let valid : Bool = ltb (j - 1) (base + lane)
      let vd : F = d (j - 1)
      cost ← cluster_cost j base lane
      ok (if valid then f.add vd cost else f.max_cost)

    -- The loop over j, on `n` more values: the least cost and the j that caused it.
    unfoldable pub least_from : (ℕ → F) → ℕ → ℕ → ℕ → ℕ → F × ℕ → Checked ClusterFault (F × ℕ)
    unfolding cluster_dyn_prog
    least_from d base lane zero j (min, arg) = ok (min, arg)
    least_from d base lane (suc n) j (min, arg) = do
      c ← cluster_dyn_prog d base lane j
      let less : Bool = f.lt c min
      least_from d base lane n (suc j) (if less then c else min, if less then j else arg)

    -- The entries of `D` and `T` in the first row, and in the later ones.
    unfoldable pub first_entry : ℕ → ℕ → Checked ClusterFault (F × ℕ)
    unfolding cluster_cost
    first_entry base lane = do cost ← cluster_cost 0 base lane; ok (cost, 0)

    unfoldable pub next_entry : ℕ → (ℕ → F) → ℕ → ℕ → Checked ClusterFault (F × ℕ)
    unfolding cluster_cost least_from
    next_entry n d base lane = do
      min ← cluster_cost 0 base lane
      least_from d base lane (base + n - 1) 1 (min, 0)

  -- A row: the batches from position `i` on, `left` positions in all.
  unfoldable pub fill_row :
      ℕ → (ℕ → ℕ → Checked ClusterFault (F × ℕ)) → ℕ → ℕ → Checked ClusterFault (List (F × ℕ))
  fill_row n entry zero i = ok []
  fill_row n entry (suc left) i = do
    here ← entry (i / n * n) (i % n)
    rest ← fill_row n entry left (suc i)
    ok (here ∷ rest)

  abbrev pub d_of : List (F × ℕ) → ℕ → F
  d_of row last = (get_or row last (f.max_cost, 0)).0

  abbrev pub t_of : List (F × ℕ) → ℕ → ℕ
  t_of row last = (get_or row last (f.max_cost, 0)).1

  -- The rows of `D` and `T` up to the given one.
  unfoldable pub fill_rows : Bool → ℕ → (ℕ → F) → ℕ → Checked ClusterFault (ℕ → List (F × ℕ))
  unfolding first_entry next_entry fill_row
  fill_rows debug n sorted zero = do
    row ← fill_row n (first_entry debug sorted) group_size 0
    ok (λ k. row)
  fill_rows debug n sorted (suc num_clusters) = do
    rows ← fill_rows debug n sorted num_clusters
    row ← fill_row n (next_entry debug sorted n (d_of (rows num_clusters))) group_size 0
    ok (λ k. if k == suc num_clusters then row else rows k)

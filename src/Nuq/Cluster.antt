-- ===== src/Nuq/Cluster.antt =====
-- compression/nuq-inl.h: NuqClustering::ClusterExactL2. Arrays are functions from their indices; `sort`
-- is hn::VQSortStatic on the 256 values.
pub mod Backtrack
pub mod Group
use gemma_cpp.Base.{
  ℕ, zero, suc, ◌+◌, ◌-◌, ◌%◌, ◌^◌, Bool, Checked, ok, ◌>>=◌, ◌>>◌, debug_check, ltb, leb, ◌==◌,
  ◌&&◌, if◌then◌else◌, ℤ, pos, negsuc,
}
use gemma_cpp.Nuq.Payload.{clusters, group_size, Floats, ClusterFault, set, get}
use gemma_cpp.Nuq.Search.{sum_of_sorted, t_of, fill_rows}

-- `static_cast<int>(last) - static_cast<int>(start) + 1`
abbrev pub int_size : ℕ → ℕ → ℤ
int_size last start =
    if leb start (last + 1) then pos (last + 1 - start) else negsuc (start - last - 2)

-- `0 < size && size <= kGroupSize`
abbrev pub size_fits : ℤ → Bool
size_fits (pos n) = ltb 0 n && leb n group_size
size_fits (negsuc n) = Bool.false

abbrev pub write : {A : Type 0} → (ℕ → A) → ℕ → A → ℕ → A
write a at v i = if i == at then v else a i

-- The number of unused clusters, and the two arrays that the caller passes.
pub record Clustered (F : Type 0) : Type 0 where
  pub unused : ℕ
  pub centers : ℕ → F
  pub indices : ℕ → ℕ

module _ {F : Type 0} (f : Floats F) (debug : Bool) where
  -- The first `n` of the values with their indices.
  unfoldable pub with_indices : (ℕ → F) → (ℕ → F) → ℕ → Checked ClusterFault (ℕ → F)
  with_indices x uninitialised zero = ok uninitialised
  with_indices x uninitialised (suc i) = do
    before ← with_indices x uninitialised i
    value ← set f debug (x i) i
    ok (write before i value)

  -- The indices of `n` sorted values from position `i` on.
  unfoldable pub write_indices : (ℕ → F) → ℕ → ℕ → ℕ → (ℕ → ℕ) → Checked ClusterFault (ℕ → ℕ)
  write_indices sorted k zero i indices = ok indices
  write_indices sorted k (suc n) i indices = do
    let idx_x : ℕ = get f (sorted i)
    debug_check debug (ltb idx_x group_size) ClusterFault.index_outside
    write_indices sorted k n (suc i) (write indices idx_x (k % 2 ^ 16))

  unfoldable pub zero_centers : ℕ → (ℕ → F) → ℕ → F
  zero_centers zero centers = centers
  zero_centers (suc cluster) centers =
      write (zero_centers cluster centers) cluster (f.of_int (pos 0))

  -- One round of the loop that backtracks, up to its exit.
  unfoldable pub backtrack_round :
      (ℕ → F) → ℕ → ℕ → ℕ → (ℕ → F) → (ℕ → ℕ) → Checked ClusterFault ((ℕ → F) × (ℕ → ℕ))
  backtrack_round sorted start k last centers indices = do
    let sum : F = sum_of_sorted f sorted start last
    let size : ℤ = int_size last start
    debug_check debug (size_fits size) ClusterFault.size_outside
    indices' ← write_indices sorted k (last + 1 - start) start indices
    ok (write centers k (f.div sum (f.of_int size)), indices')

  -- The loop from the cluster `k` down, where `t` is the matrix T.
  unfoldable pub backtrack :
      (ℕ → F) → (ℕ → ℕ → ℕ) → ℕ → ℕ → (ℕ → F) → (ℕ → ℕ) → Checked ClusterFault (Clustered F)
  backtrack sorted t zero last centers indices = do
    let start : ℕ = t 0 last
    r ← backtrack_round sorted start 0 last centers indices
    let finished : Clustered F = record { unused = 0; centers = r.0; indices = r.1 }
    if start == 0
        then ok finished
        else debug_check debug (ltb (start - 1) group_size) ClusterFault.last_wrapped >> ok finished
  backtrack sorted t (suc k) last centers indices = do
    let start : ℕ = t (suc k) last
    r ← backtrack_round sorted start (suc k) last centers indices
    let rest : Checked ClusterFault (Clustered F) = backtrack sorted t k (start - 1) (r.0) (r.1)
    if start == 0
        then ok (record { unused = suc k; centers = zero_centers (suc k) (r.0); indices = r.1 })
        else debug_check debug (ltb (start - 1) group_size) ClusterFault.last_wrapped >> rest

  -- The check of a debug build that the centers from `i` on, `n` in number, are in order.
  unfoldable pub check_ascending : (ℕ → F) → ℕ → ℕ → Checked ClusterFault (Unit {0})
  check_ascending centers zero i = ok tt
  check_ascending centers (suc n) i = do
    debug_check debug (f.ge (centers i) (centers (i - 1))) ClusterFault.centers_descend
    check_ascending centers n (suc i)

  -- ClusterExactL2. `n` is the number of lanes.
  unfoldable pub cluster_exact_l2 :
      ℕ
      → ((ℕ → F) → ℕ → F)
      → (ℕ → F)
      → (ℕ → F)
      → (ℕ → F)
      → (ℕ → ℕ)
      → Checked ClusterFault (Clustered F)
  cluster_exact_l2 n sort uninitialised x centers indices = do
    sorted_and_i ← with_indices x uninitialised group_size
    let sorted : ℕ → F = sort sorted_and_i
    rows ← fill_rows f debug n sorted (clusters - 1)
    r ← backtrack sorted (λ k. t_of f (rows k)) (clusters - 1) (group_size - 1) centers indices
    check_ascending r.centers (clusters - 1 - r.unused) (r.unused + 1)
    ok r

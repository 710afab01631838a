-- ===== src/Batches/Cover.antt =====
-- The batches of a tensor cover it, each value once.
use gemma_cpp.Base.{ℕ, ◌+◌, ◌*◌, ◌/◌, ◌≤◌, ◌<◌, ◌≡◌, arith}
use gemma_cpp.Batches.{batch, num_batches, batch_num}

-- The value is one of those of the task.
pub record InBatch (num i idx : ℕ) : Type 0 where
  pub is_task : idx < num_batches num
  pub from : idx * batch ≤ i
  pub before : i < idx * batch + batch_num num idx

-- One task has the value, and no other.
pub record OneBatch (num i : ℕ) : Type 0 where
  pub idx : ℕ
  pub has : InBatch num i idx
  pub only : (other : ℕ) → InBatch num i other → other ≡ idx

in_batch : (num i : ℕ) → i < num → InBatch num i (i / batch)
unfolding num_batches batch_num
in_batch num i h = record { is_task = omega arith; from = omega arith; before = ground arith }

only_batch : (num i other : ℕ) → InBatch num i other → other ≡ i / batch
unfolding num_batches batch_num
only_batch num i other o = let t = o.is_task in let f = o.from in let b = o.before in ground arith

-- A task stays inside the tensor.
pub batch_num_inside :
    (num idx : ℕ)
    → idx < num_batches num
    → (idx * batch + batch_num num idx ≤ num) × (batch_num num idx ≤ batch)
unfolding num_batches batch_num
batch_num_inside num idx h = ground arith

-- Each value of a tensor belongs to exactly one task.
pub batches-OneBatch : (num i : ℕ) → i < num → OneBatch num i
batches-OneBatch num i h = record {
  idx = i / batch;
  has = in_batch num i h;
  only = only_batch num i;
}

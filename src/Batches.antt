-- ===== src/Batches.antt =====
-- Compress and Decompress of compression/compress-inl.h: the batches of a tensor. The codec's Compress
-- and Decompress on a batch are parameters, and tasks run one after the other in any order.
pub mod Cover
mod Tests
use gemma_cpp.Base.{
  ℕ, ◌+◌, ◌-◌, ◌*◌, ◌/◌, ◌%◌, ◌^◌, ok, failed, ◌>>=◌, ◌>>◌, Checked, debug_check, Bool, leb, ◌==◌,
  if◌then◌else◌, List, [], ◌∷◌,
}

pub data BatchFault : Type 0 where
  outside_capacity : BatchFault

abbrev pub batch : ℕ
batch = 8192

-- hwy::DivCeil(num, kBatch)
unfoldable pub num_batches : ℕ → ℕ
num_batches num = (num + batch - 1) / batch

unfoldable pub batch_num : ℕ → ℕ → ℕ
batch_num num idx_batch =
    let in_ofs = idx_batch * batch in
    if idx_batch == num_batches num - 1 then num - in_ofs else batch

-- The number of values of a task of the Decompress with threads: the `num` of the last task is
-- the variable that it initialises, so its value there is a parameter.
unfoldable pub shadowed_num : (ℕ → ℕ) → ℕ → ℕ → ℕ
shadowed_num indeterminate num idx_batch =
    let ofs = idx_batch * batch in
    if idx_batch == num_batches num - 1
    then (indeterminate idx_batch + 2 ^ 64 - ofs) % 2 ^ 64
    else batch

module _ {St : Type 0} where
  unfoldable pub run_tasks : (ℕ → St → St) → List ℕ → St → St
  run_tasks task [] st = st
  run_tasks task (idx ∷ order) st = run_tasks task order (task idx st)

  -- Compress, where `codec in_ofs num out_ofs` is Traits::Compress.
  unfoldable pub compress :
      (ℕ → ℕ → ℕ → St → St) → Bool → ℕ → ℕ → ℕ → List ℕ → St → Checked BatchFault St
  compress codec debug num out_capacity out_ofs order st = do
    debug_check debug (leb (out_ofs + num) out_capacity) BatchFault.outside_capacity
    ok (run_tasks (λ idx. codec (idx * batch) (batch_num num idx) (out_ofs + idx * batch)) order st)

  -- Compress of a whole array.
  unfoldable pub compress_array :
      (ℕ → ℕ → ℕ → St → St) → Bool → ℕ → List ℕ → St → Checked BatchFault St
  compress_array codec debug capacity order st = compress codec debug capacity capacity 0 order st

  -- Decompress, where `codec in_ofs out_ofs num` is Traits::Decompress.
  unfoldable pub decompress : (ℕ → ℕ → ℕ → St → St) → Bool → ℕ → ℕ → ℕ → St → Checked BatchFault St
  decompress codec debug capacity compressed_ofs num st = do
    debug_check debug (leb (compressed_ofs + num) capacity) BatchFault.outside_capacity
    ok (codec compressed_ofs 0 num st)

  -- Decompress with threads.
  unfoldable pub decompress_pool :
      (ℕ → ℕ → ℕ → St → St) → (ℕ → ℕ) → Bool → ℕ → ℕ → ℕ → List ℕ → St → Checked BatchFault St
  decompress_pool codec indeterminate debug capacity compressed_ofs num order st = do
    debug_check debug (leb (compressed_ofs + num) capacity) BatchFault.outside_capacity
    ok (
        run_tasks
          (λ idx.
            codec (compressed_ofs + idx * batch) (idx * batch) (shadowed_num indeterminate num idx))
          order st)

-- ===== src/Sfp/Dot.antt =====
-- compression/sfp-inl.h: SfpCodec::Dot, the product of a stream with a vector of bf16 or f32.
pub mod Plain
use gemma_cpp.Base.{ℕ, ◌+◌, ◌-◌, ◌*◌, Bool, Checked, ok, ◌>>=◌, ◌==◌, if◌then◌else◌}
use gemma_cpp.Base.Chunks.{from, chunks}
use gemma_cpp.Sfp.Simd.{Lanes}
use gemma_cpp.Sfp.Stream.{Wide, StreamFault, padded, dec_2u, dec_4f}

-- The accumulators of the caller, and the vector operations of Highway on them.
pub record Sums (F : Type 0) : Type 0 where
  pub sum0 : ℕ → F
  pub sum1 : ℕ → F
  pub sum2 : ℕ → F
  pub sum3 : ℕ → F

pub record Products (F : Type 0) : Type 0 where
  pub mul_add : (ℕ → F) → (ℕ → F) → (ℕ → F) → ℕ → F
  pub reorder_widen_mul_accumulate : (ℕ → ℕ) → (ℕ → ℕ) → (ℕ → F) → (ℕ → F) → (ℕ → F) × (ℕ → F)

module _ {F : Type 0} (o : Products F) where
  -- A round, where `v` starts at the values of the round.
  unfoldable pub accumulate_f32 :
      ℕ → (ℕ → F) × (ℕ → F) × (ℕ → F) × (ℕ → F) → (ℕ → F) → Sums F → Sums F
  accumulate_f32 n f v s = record {
    sum0 = o.mul_add (f.0) (from v (n * 0)) s.sum0;
    sum1 = o.mul_add (f.1) (from v (n * 1)) s.sum1;
    sum2 = o.mul_add (f.2) (from v (n * 2)) s.sum2;
    sum3 = o.mul_add (f.3) (from v (n * 3)) s.sum3;
  }

  unfoldable pub accumulate_bf16 : ℕ → (ℕ → ℕ) × (ℕ → ℕ) → (ℕ → ℕ) → Sums F → Sums F
  accumulate_bf16 n bf v s =
      let a = o.reorder_widen_mul_accumulate (bf.0) (from v 0) s.sum0 s.sum1 in
      let b = o.reorder_widen_mul_accumulate (bf.1) (from v n) s.sum2 s.sum3 in
      record { sum0 = a.0; sum1 = a.1; sum2 = b.0; sum3 = b.1 }

  module _ (h : Lanes) (debug : Bool) (w : Wide F) where
    unfoldable pub dot_f32 : ℕ → (ℕ → ℕ) → ℕ → (ℕ → F) → Sums F → Checked StreamFault (Sums F)
    dot_f32 n packed num vec sums = do
      r ←
          chunks (4 * n)
            (λ i s. do
              f ← dec_4f h debug w n (from packed i)
              ok (accumulate_f32 n f (from vec i) s))
            (num + 1) num 0 sums
      let i : ℕ = r.0
      let remaining : ℕ = num - i
      if remaining == 0
          then ok (r.1)
          else dec_4f h debug w n (padded 0 (from packed i) remaining)
            >>= (λ f. ok (accumulate_f32 n f (padded w.zero_f (from vec i) remaining) (r.1)))

    unfoldable pub dot_bf16 : ℕ → (ℕ → ℕ) → ℕ → (ℕ → ℕ) → Sums F → Checked StreamFault (Sums F)
    dot_bf16 n packed num vec sums = do
      r ←
          chunks (2 * n)
            (λ i s. do
              bf ← dec_2u h debug w n (from packed i)
              ok (accumulate_bf16 n bf (from vec i) s))
            (num + 1) num 0 sums
      let i : ℕ = r.0
      let remaining : ℕ = num - i
      if remaining == 0
          then ok (r.1)
          else dec_2u h debug w n (padded 0 (from packed i) remaining)
            >>= (λ bf. ok (accumulate_bf16 n bf (padded 0 (from vec i) remaining) (r.1)))

-- ===== src/Sampling/Tests.antt =====
-- Sampling with numbers in place of floats, and the theorems about it.
use gemma_cpp.Base.{ℕ, ◌+◌, ◌*◌, arith, Returns, ltb, leb, [], ◌∷◌, lt→ltb, ltb→lt, ge→ltb}
use gemma_cpp.Sampling.{Floats, sample_argmax, sample_top_k}
use gemma_cpp.Sampling.Argmax.{Greatest, StrictOrder, sample_argmax-Greatest}
use gemma_cpp.Sampling.Accepted.{Allowed, sample_top_k-Allowed}

abbrev numbers : Floats ℕ
numbers = record {
  zero_f = 0;
  less = ltb;
  tempered = λ p t. p;
  plus = λ a b. a + b;
  inverse = λ a. 1;
  times = λ a b. a * b;
}

numbers-StrictOrder : StrictOrder numbers
numbers-StrictOrder = record {
  irreflexive = λ a. ge→ltb a a (omega arith);
  transitive = λ a b c h k.
      let low = ltb→lt a b h in let high = ltb→lt b c k in lt→ltb a c (omega (arith, low, high));
}

sample_argmax-Greatest_example :
    Returns (sample_argmax numbers (3 ∷ 9 ∷ 4 ∷ 9 ∷ [])) (Greatest numbers (3 ∷ 9 ∷ 4 ∷ 9 ∷ []))
sample_argmax-Greatest_example =
    sample_argmax-Greatest numbers numbers-StrictOrder 3 (9 ∷ 4 ∷ 9 ∷ [])

abbrev generator : ℕ
generator = 5

sample_top_k-Allowed_example :
    Returns
      (sample_top_k numbers (λ i. leb i 2) 2 (λ weights g. (0, g)) 1 (3 ∷ 9 ∷ 4 ∷ 9 ∷ []) generator)
      (λ r. Allowed numbers (λ i. leb i 2) 4 r.0)
sample_top_k-Allowed_example =
    sample_top_k-Allowed numbers (λ i. leb i 2) 2 (λ weights g. (0, g)) 1 (3 ∷ 9 ∷ 4 ∷ 9 ∷ [])
      generator (omega arith) (λ weights g h. h)

-- ===== src/Generate/Tests.antt =====
-- A network that writes down the positions, and the theorems on GenerateImpl at it.
use gemma_cpp.Base.{
  ℕ, ◌+◌, ◌≤◌, ◌≡◌, refl, arith, ok, failed, Returns, true, List, [], ◌∷◌, length, ltb,
  if◌then◌else◌,
}
use gemma_cpp.Generate.{
  Network, Bounds, GenerateFault, generate, prefill_loop, gen_loop, decode, stream_decoded,
  stream_batch, last_index, batch_tokens, at,
}
use gemma_cpp.Generate.Prefill.{Kept}
use gemma_cpp.Generate.Invariant.{Ended, generate-Ended}
use gemma_cpp.Generate.Cache.{Guarded, generate_guarded, generate_empty}

-- The state is the highest position that was written, plus one; the callback keeps its tokens, and
-- the network samples token 7 twice and then the end of text.
abbrev writer : Network ℕ (List ℕ) ℕ
writer = record {
  prefill = λ tokens pos s. ok (pos + length tokens);
  transformer = λ token pos s. ok (pos + 1);
  logits = λ s. s;
  sample = λ s u. (if ltb (length u) 5 then 7 else 1, u);
  logit = λ s token. token;
  no_probability = 0;
  stream_token = λ token p u. ok (true, token ∷ u);
}

abbrev small : Bounds
small = record { max_tokens = 20; max_generated_tokens = 8; debug = true }

abbrev prompt : List ℕ
prompt = 2 ∷ 5 ∷ 6 ∷ []

-- The last token of the prompt is at two positions: the first answer is sampled at the one behind.
generate_run : generate writer small prompt 0 0 [] ≡ ok (6, 1 ∷ 7 ∷ 7 ∷ 6 ∷ 5 ∷ 2 ∷ [])
unfolding generate prefill_loop gen_loop decode stream_decoded stream_batch last_index batch_tokens
    at
generate_run = refl

Counts : ℕ → ℕ → List ℕ → Type 0
Counts k s u = (length u ≡ k) × (s ≤ 20)

Counts-Kept : Kept writer small prompt 0 Counts
unfolding Counts
Counts-Kept = record {
  by_prefill = λ k tokens s u small inside its h.
      ((0 + k) + length tokens, refl, (h.0, omega (arith, inside)));
  by_transformer =
      λ k token s u early past source h. ((0 + k) + 1, refl, (h.0, omega (arith, early)));
  by_logits = λ k s u h. h;
  by_sample = λ k s u h. h;
  by_stream = λ k token p s u its sampled h. ((true, token ∷ u), refl, (omega (arith, h.0), h.1));
}

generate-Ended_example :
    Returns (generate writer small prompt 0 0 []) (Ended writer small prompt 0 Counts)
unfolding Counts
generate-Ended_example =
    generate-Ended writer small prompt 0 Counts Counts-Kept 0 [] (omega arith) (refl, omega arith)

writer-Guarded : Guarded writer 20 (λ s. s ≤ 20)
writer-Guarded = record {
  by_prefill = λ tokens pos s few inside h. (pos + length tokens, refl, inside);
  by_transformer = λ token pos s early h. (pos + 1, refl, omega (arith, early));
  by_logits = λ s h. h;
}

generate_guarded_example : Returns (generate writer small prompt 0 0 []) (λ r. r.0 ≤ 20)
generate_guarded_example =
    generate_guarded writer small prompt 0 20 (λ s. s ≤ 20) 0 [] writer-Guarded
      (λ token p u. ((true, token ∷ u), refl, tt)) (omega arith) (omega arith) (omega arith)
      (omega arith)

generate_empty_example : generate writer small [] 3 0 [] ≡ failed GenerateFault.batch_assertion
generate_empty_example = generate_empty writer small 3 0 []

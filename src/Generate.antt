-- ===== src/Generate.antt =====
-- GenerateImpl of gemma.cc: the prefill and the decode loop over the operations of the network.
-- Token ids are natural numbers. Positions are size_t and stay far from their range.
pub mod Steps
pub mod Prefill
pub mod Invariant
pub mod Cache
mod Tests
use gemma_cpp.Base.{
  ℕ, zero, suc, ◌+◌, ◌-◌, ◌^◌, min, ok, failed, ◌>>=◌, ◌>>◌, Checked, debug_check, Bool, true,
  false, ◌&&◌, ltb, leb, ◌==◌, if◌then◌else◌, List, [], ◌∷◌, length, take, drop, Option, none, some,
  get_elem?,
}

-- The two assertions, the read behind the end of the prompt, std::out_of_range, a loop that did
-- not end within its fuel, a failed assertion of the callback, and a stop of Prefill or
-- Transformer, as at an access behind the KV cache.
pub data GenerateFault : Type 0 where
  batch_assertion prefill_assertion read_outside out_of_range out_of_fuel callback_assertion
        network_fault :
      GenerateFault

-- What the loops call: Prefill, Transformer, MatVec with Softmax, SampleTopK and the read of a
-- logit. `S` holds the activations and the KV cache, `U` all that the callback shares with the
-- caller, the random generator included, and `F` stands for float.
pub record Network (S U F : Type 0) : Type 0 where
  pub prefill : List ℕ → ℕ → S → Checked GenerateFault S
  pub transformer : ℕ → ℕ → S → Checked GenerateFault S
  pub logits : S → S
  pub sample : S → U → ℕ × U
  pub logit : S → ℕ → F
  pub no_probability : F
  pub stream_token : ℕ → F → U → Checked GenerateFault (Bool × U)

-- The members of InferenceArgs that bound the loops, and whether the build has HWY_DASSERT.
pub record Bounds : Type 0 where
  pub max_tokens : ℕ
  pub max_generated_tokens : ℕ
  pub debug : Bool

abbrev pub prefill_batch_size : ℕ
prefill_batch_size = 16

abbrev pub eos_id : ℕ
eos_id = 1

-- prompt.size() - 1 on size_t.
unfoldable pub last_index : List ℕ → ℕ
last_index prompt = if length prompt == 0 then 2 ^ 64 - 1 else length prompt - 1

-- The tokens from `pos_offset` on that Prefill and the callback read.
unfoldable pub batch_tokens : List ℕ → ℕ → ℕ → Checked GenerateFault (List ℕ)
batch_tokens prompt pos_offset end_offset =
    if leb (pos_offset + end_offset) (length prompt)
    then ok (take end_offset (drop pos_offset prompt))
    else failed GenerateFault.read_outside

-- prompt.at
unfoldable pub at : List ℕ → ℕ → Checked GenerateFault ℕ
at prompt i = elim (get_elem? prompt i) [
  | none ↦ failed GenerateFault.out_of_range
  | some token ↦ ok token
]

module _ {S U F : Type 0} (net : Network S U F) (bounds : Bounds) (prompt : List ℕ) where
  unfoldable pub stream_batch : List ℕ → U → Checked GenerateFault U
  stream_batch [] u = ok u
  stream_batch (token ∷ tokens) u = do
    streamed ← net.stream_token token net.no_probability u
    stream_batch tokens streamed.1

  -- The state at the end of the prefill loop.
  pub record Prefilled : Type 0 where
    pub pos_offset : ℕ
    pub pos : ℕ
    pub state : S
    pub user : U

  unfoldable pub prefill_loop : ℕ → ℕ → ℕ → S → U → Checked GenerateFault Prefilled
  prefill_loop zero pos_offset pos s u = failed GenerateFault.out_of_fuel
  prefill_loop (suc fuel) pos_offset pos s u = elim (ltb pos_offset (last_index prompt)) [
    | false ↦ ok (record { pos_offset = pos_offset; pos = pos; state = s; user = u })
    | true ↦ do
      let end_offset = min prefill_batch_size (last_index prompt - pos_offset)
      debug_check bounds.debug (ltb end_offset (length prompt)) GenerateFault.batch_assertion
      tokens ← batch_tokens prompt pos_offset end_offset
      s1 ← net.prefill tokens pos s
      u1 ← stream_batch tokens u
      prefill_loop fuel (pos_offset + end_offset) (pos + end_offset) s1 u1
  ]

  -- A step of the decode loop up to its callback: the token, and what the network and the
  -- generator have become.
  pub record Decoded : Type 0 where
    pub token : ℕ
    pub state : S
    pub user : U

  unfoldable pub decode : ℕ → ℕ → ℕ → S → U → Checked GenerateFault Decoded
  decode token pos pos_offset s u = do
    s1 ← net.transformer token pos s
    ok (
        if leb (length prompt) pos_offset
        then (let s2 = net.logits s1 in
            let sampled = net.sample s2 u in
            record { token = sampled.0; state = s2; user = sampled.1 })
        else record { token = token; state = s1; user = u })

  -- The callback, and the token that decides on the break.
  unfoldable pub stream_decoded : Decoded → Checked GenerateFault (ℕ × U)
  stream_decoded d = do
    streamed ← net.stream_token d.token (net.logit d.state d.token) d.user
    ok (if streamed.0 then d.token else eos_id, streamed.1)

  unfoldable pub gen_loop : ℕ → ℕ → ℕ → ℕ → ℕ → S → U → Checked GenerateFault (S × U)
  gen_loop zero token pos pos_offset generate_pos s u = failed GenerateFault.out_of_fuel
  gen_loop (suc fuel) token pos pos_offset generate_pos s u =
      elim (ltb pos bounds.max_tokens && ltb generate_pos bounds.max_generated_tokens) [
        | false ↦ ok (s, u)
        | true ↦ do
          d ← decode token pos pos_offset s u
          next ← stream_decoded d
          elim (next.0 == eos_id) [
            | true ↦ ok (d.state, next.1)
            | false ↦
                gen_loop fuel next.0 (pos + 1) (pos_offset + 1) (generate_pos + 1) d.state next.1
          ]
      ]

  -- GenerateImpl from `start` on.
  unfoldable pub generate : ℕ → S → U → Checked GenerateFault (S × U)
  generate start s u = do
    p ← prefill_loop (length prompt + 1) 0 start s u
    debug_check bounds.debug (p.pos_offset == last_index prompt) GenerateFault.prefill_assertion
    token ← at prompt p.pos_offset
    gen_loop (bounds.max_generated_tokens + 1) token p.pos p.pos_offset 0 p.state p.user

-- ===== src/Sfp/RoundTrip.antt =====
-- What a code decodes to, and that it encodes to itself again.
use gemma_cpp.Base.{
  ℕ, ◌+◌, ◌*◌, ◌/◌, ◌%◌, ◌<◌, ◌≡◌, ◌≢◌, Bool, true, Checked, ok, arith, ◌>>=◌, all_below_sound,
  Returns, Returns-map, returns→Returns,
}
use gemma_cpp.Sfp.Simd.{Lanes, IsDocumented, lanes-eq}
use gemma_cpp.Sfp.Value.{bf16_value, code_value}
use gemma_cpp.Sfp.Table.{is_code, decodes, code_good, code_parts, codes_table}
use gemma_cpp.Sfp.{SfpCheck, enc_bytes, dec_bytes}

-- The two bytes of a bf16 with the sign of the code `c`, and its value.
pub record Decoded (c : ℕ) (bytes : ℕ × ℕ) : Type 0 where
  pub lo_byte : bytes.0 < 256
  pub hi_byte : bytes.1 < 256
  pub sign : bytes.1 / 128 ≡ c / 128
  pub value : bf16_value (bytes.1 % 128 * 256 + bytes.0) ≡ code_value (c % 128)

good : (c : ℕ) → c < 256 → code_good c ≡ true
good c h = all_below_sound 256 code_good c codes_table h

decodes→Decoded : (c : ℕ) (bytes : ℕ × ℕ) → decodes c bytes ≡ true → Decoded c bytes
unfolding decodes
decodes→Decoded c (lo, hi) h = ground arith

-- A build decodes every code but 0x80 to the bf16 of the same sign and value, and no check fails.
pub dec_bytes-Decoded :
    (h : Lanes) (debug : Bool) (c : ℕ)
    → IsDocumented h
    → c < 256
    → c ≢ 0x80
    → Returns (dec_bytes h debug c) (Decoded c)
dec_bytes-Decoded h debug c d lt ne = rw (lanes-eq h d) (
    Returns-map (decodes→Decoded c)
      (returns→Returns _ (decodes c) (code_parts debug c ne (good c lt)).0))

is_code-eq : (c : ℕ) (r : Checked SfpCheck ℕ) → is_code c r ≡ true → r ≡ ok c
unfolding is_code
is_code-eq c r h = ground arith

-- Decoding a code and encoding the bf16 gives the code back, in both builds, for every code but
-- 0x80.
pub enc_bytes-dec_bytes :
    (h : Lanes) (debug : Bool) (c : ℕ)
    → IsDocumented h
    → c < 256
    → c ≢ 0x80
    → dec_bytes h debug c >>= (λ b. enc_bytes h debug b.0 b.1) ≡ ok c
enc_bytes-dec_bytes h debug c d lt ne =
    rw (lanes-eq h d) (is_code-eq c _ (code_parts debug c ne (good c lt)).1)

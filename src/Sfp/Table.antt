-- ===== src/Sfp/Table.antt =====
-- The byte codec over all its inputs, by evaluation on the documented lanes.
use gemma_cpp.Base.{
  ℕ, zero, suc, ◌<◌, ◌+◌, ◌-◌, ◌*◌, ◌/◌, ◌%◌, ◌≡◌, refl, Bool, true, false, Checked, ok, failed,
  ◌>>=◌, ◌==◌, ◌&&◌, ◌||◌, ltb, leb, all_below, if◌then◌else◌, returns, returns→Returns, ◌≢◌, arith,
}
use mathlib.Core.Logic.{ite}
use gemma_cpp.Sfp.Simd.{byte_lanes}
use gemma_cpp.Sfp.Value.{bf16_value, code_value, dist}
use gemma_cpp.Sfp.{SfpCheck, enc_bytes, dec_bytes}

unfoldable pub is_ok_zero : Checked SfpCheck ℕ → Bool
is_ok_zero r = returns r (λ c. c == 0)

SfpCheck-discrete : Discrete SfpCheck
SfpCheck-discrete = hlevel

unfoldable pub is_failed_by : SfpCheck → Checked SfpCheck ℕ → Bool
unfolding SfpCheck-discrete
is_failed_by e (ok c) = false
is_failed_by e (failed e') = ite (SfpCheck-discrete e e') true false

-- A bf16 as one number, through EncBytes and back through DecBytes.
unfoldable pub enc16 : Bool → ℕ → Checked SfpCheck ℕ
enc16 debug x = enc_bytes byte_lanes debug (x % 256) (x / 256)

-- Least magnitude that is not rounded to zero: 1.875 * 2 ^ -24.
abbrev pub zero_limit : ℕ
zero_limit = 103 * 128 + 0x70

-- Least magnitude that would round to 2 ^ 1: 1.9375.
abbrev pub top_limit : ℕ
top_limit = 127 * 128 + 0x78

-- `c` is the code of the even magnitude `x`.
unfoldable pub rounds : ℕ → ℕ → Bool
rounds x c =
    let v = bf16_value x in
    let d = dist v (code_value c) in
    let below = dist v (code_value (c - 1)) in
    let above = dist v (code_value (c + 1)) in
    ltb c 128
    && (if ltb x zero_limit
        then c == 0
        else ltb 0 c
          && leb d below
          && leb d above
          && (if below == d || above == d then c % 2 == 0 else true))

-- The code of a magnitude with the sign put before it; zero has no sign.
abbrev pub with_sign : ℕ → ℕ → ℕ
with_sign s c = if c == 0 then 0 else 128 * s + c

unfoldable pub same_code : ℕ → ℕ → ℕ → Bool
same_code x s c =
    returns (enc16 true (32768 * s + x)) (λ c'. c' == with_sign s c)
    && returns (enc16 false (32768 * s + x)) (λ c'. c' == with_sign s c)

-- The code of `2 * i` is right, and that of `2 * i + 1` is the same, with either sign.
unfoldable pub codes_of : ℕ → ℕ → Bool
codes_of i c =
    rounds (2 * i) c
    && same_code (2 * i + 0) 0 c
    && same_code (2 * i + 1) 0 c
    && same_code (2 * i + 0) 1 c
    && same_code (2 * i + 1) 1 c

unfoldable pub encodes : ℕ → Bool
encodes i = returns (enc16 true (2 * i)) (codes_of i)

pick :
    (i b t c : ℕ)
    → b < 2
    → t < 2
    → codes_of i c ≡ true
    → (rounds (2 * i) c ≡ true) × (same_code (2 * i + b) t c ≡ true)
unfolding codes_of
pick i zero zero c hb ht e = ground arith
pick i (suc zero) zero c hb ht e = ground arith
pick i zero (suc zero) c hb ht e = ground arith
pick i (suc zero) (suc zero) c hb ht e = ground arith
pick i (suc (suc b)) t c hb ht e = absurd (omega arith)
pick i b (suc (suc t)) c hb ht e = absurd (omega arith)

-- The tests of `encodes`, by the low bit and the sign.
pub encodes_parts :
    (i b t : ℕ)
    → b < 2
    → t < 2
    → encodes i ≡ true
    → (c : ℕ) × ((rounds (2 * i) c ≡ true) × (same_code (2 * i + b) t c ≡ true))
unfolding encodes
encodes_parts i b t hb ht e =
    let (c, _, p) = returns→Returns (enc16 true (2 * i)) (codes_of i) e in (c, pick i b t c hb ht p)

pub encodes_table : all_below (top_limit / 2) encodes ≡ true
unfolding all_below encodes codes_of rounds same_code enc16 enc_bytes bf16_value code_value
encodes_table = refl

-- What is left below 2 ^ 1 becomes zero, and only a debug build notices.
unfoldable pub vanishes : ℕ → Bool
vanishes x = is_ok_zero (enc16 false x) && is_failed_by SfpCheck.exponent_after_round (enc16 true x)

pub vanishes_table :
    all_below 8 (λ i. vanishes (top_limit + i) && vanishes (32768 + top_limit + i)) ≡ true
unfolding all_below vanishes enc16 enc_bytes is_ok_zero is_failed_by
vanishes_table = refl

-- A larger exponent stops the program in every build.
unfoldable pub stops : ℕ → Bool
stops x =
    is_failed_by SfpCheck.exponent_at_most_one (enc16 false x)
    && is_failed_by SfpCheck.exponent_at_most_one (enc16 true x)

pub stops_table : all_below 16384 (λ i. stops (16384 + i) && stops (32768 + 16384 + i)) ≡ true
unfolding all_below stops enc16 enc_bytes is_failed_by
stops_table = refl

unfoldable pub is_code : ℕ → Checked SfpCheck ℕ → Bool
is_code c r = returns r (λ c'. c' == c)

unfoldable pub decodes : ℕ → (ℕ × ℕ) → Bool
decodes c (lo, hi) =
    ltb lo 256
    && ltb hi 256
    && hi / 128 == c / 128
    && bf16_value (hi % 128 * 256 + lo) == code_value (c % 128)

unfoldable pub code_good : ℕ → Bool
code_good c =
    c == 0x80
    || (returns (dec_bytes byte_lanes true c) (decodes c)
        && returns (dec_bytes byte_lanes false c) (decodes c)
        && is_code c (dec_bytes byte_lanes true c >>= λ b. enc_bytes byte_lanes true b.0 b.1)
        && is_code c (dec_bytes byte_lanes false c >>= λ b. enc_bytes byte_lanes false b.0 b.1))

-- The tests of `code_good` for one build.
pub code_parts :
    (debug : Bool) (c : ℕ)
    → c ≢ 0x80
    → code_good c ≡ true
    → (returns (dec_bytes byte_lanes debug c) (decodes c) ≡ true)
      × (is_code c (dec_bytes byte_lanes debug c >>= λ b. enc_bytes byte_lanes debug b.0 b.1)
          ≡ true)
unfolding code_good
code_parts true c ne e = ground arith
code_parts false c ne e = ground arith

pub is_ok_zero-eq : (r : Checked SfpCheck ℕ) → is_ok_zero r ≡ true → r ≡ ok 0
unfolding is_ok_zero
is_ok_zero-eq r h = ground arith

pub is_failed_by-eq :
    (e : SfpCheck) (r : Checked SfpCheck ℕ) → is_failed_by e r ≡ true → r ≡ failed e
unfolding is_failed_by
is_failed_by-eq e (ok c) h = cc
is_failed_by-eq e (failed e') h = ground arith

pub codes_table : all_below 256 code_good ≡ true
unfolding all_below code_good is_code decodes enc_bytes dec_bytes bf16_value code_value
codes_table = refl

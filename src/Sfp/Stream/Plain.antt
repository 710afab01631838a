-- ===== src/Sfp/Stream/Plain.antt =====
-- The vector operations of the streams of compression/sfp-inl.h on numbers that stand for floats, for
-- concrete runs.
use gemma_cpp.Base.{
  ℕ, ◌≡◌, refl, arith, true, false, ◌+◌, ◌-◌, ◌*◌, ◌/◌, ◌%◌, ltb, ◌==◌, if◌then◌else◌,
}
use gemma_cpp.Sfp.Stream.{Wide}
use gemma_cpp.Sfp.Stream.Rounds.{IsWide}

-- Each number is its own bf16.
abbrev pub wide : Wide ℕ
wide = record {
  zero_f = 0;
  bytes_of = λ a i. if i % 2 == 0 then a (i / 2) % 256 else a (i / 2) / 256;
  u16_of = λ a i. a (2 * i) + 256 * a (2 * i + 1);
  concat_even = λ n hi lo i. if ltb i (n / 2) then lo (2 * i) else hi (2 * (i - n / 2));
  concat_odd = λ n hi lo i. if ltb i (n / 2) then lo (2 * i + 1) else hi (2 * (i - n / 2) + 1);
  interleave_whole_lower = λ n a b i. if i % 2 == 0 then a (i / 2) else b (i / 2);
  interleave_whole_upper = λ n a b i. if i % 2 == 0 then a (n / 2 + i / 2) else b (n / 2 + i / 2);
  ordered_demote_2_to = λ n a b i. if ltb i (n / 2) then a i else b (i - n / 2);
  promote_lower_to = λ n a i. a i;
  promote_upper_to = λ n a i. a (n / 2 + i);
}

pub wide-IsWide : IsWide wide (λ x. x) (λ b. b)
wide-IsWide = record {
  bytes_of_even = λ a i. rw (even i, half i) refl;
  bytes_of_odd = λ a i. rw (odd i, half_odd i) refl;
  u16_of_lem = λ a i. refl;
  concat_even_lem = λ n hi lo i. refl;
  concat_odd_lem = λ n hi lo i. refl;
  lower_even = λ n a b i. rw (even i, half i) refl;
  lower_odd = λ n a b i. rw (odd i, half_odd i) refl;
  upper_even = λ n a b i. rw (even i, half i) refl;
  upper_odd = λ n a b i. rw (odd i, half_odd i) refl;
  ordered_demote_2_to_lem = λ n a b i. refl;
  promote_lower_to_lem = λ n a i. refl;
  promote_upper_to_lem = λ n a i. refl;
  demote_zero = refl;
}
  where
    even : (i : ℕ) → ((2 * i % 2) == 0) ≡ true
    even i = ground arith

    odd : (i : ℕ) → (((2 * i + 1) % 2) == 0) ≡ false
    odd i = ground arith

    half : (i : ℕ) → 2 * i / 2 ≡ i
    half i = omega arith

    half_odd : (i : ℕ) → (2 * i + 1) / 2 ≡ i
    half_odd i = omega arith

-- ===== src/Args/App.antt =====
-- AppArgs of util/app.h. Pinning a thread is a call of the operating system.
use gemma_cpp.Base.{
  ℕ, ◌+◌, ◌-◌, ◌^◌, ◌≡◌, ◌≢◌, ◌≤◌, arith, ok, ◌>>=◌, Checked, List, ◌++◌, Option, if◌then◌else◌,
  ltb, ◌==◌, Text, text, ℤ, pos, negsuc, ◌⊎◌,
}
use gemma_cpp.Args.{
  ArgFault, shortened, help_line, print_line, set_int, set_size, set_text, parse_visit,
}

pub record AppArgs : Type 0 where
  pub log : Text
  pub verbosity : ℤ
  pub num_threads : ℕ

abbrev pub default_num_threads : ℕ
default_num_threads = 2 ^ 64 - 1

-- static_cast<int> of an unsigned int.
abbrev pub to_int : ℕ → ℤ
to_int n = if ltb n (2 ^ 31) then pos n else negsuc (2 ^ 32 - 1 - n)

-- The int less 2; from INT_MIN it would be out of range.
unfoldable pub minus_two : ℤ → ℤ
minus_two (pos n) = if ltb n 2 then negsuc (1 - n) else pos (n - 2)
minus_two (negsuc n) = negsuc (n + 2)

-- std::clamp on int with two bounds that are not negative.
unfoldable pub clamp : ℤ → ℕ → ℕ → ℕ
clamp (negsuc n) lo hi = lo
clamp (pos n) lo hi = if ltb n lo then lo else if ltb hi n then hi else n

-- ChooseNumThreads, where the argument is std::thread::hardware_concurrency().
unfoldable pub choose_num_threads : ℕ → ℕ → ℕ
choose_num_threads concurrency num_threads =
    if num_threads == default_num_threads
    then clamp (minus_two (to_int concurrency)) 1 18
    else num_threads

abbrev pub app_defaults : AppArgs
app_defaults = record {
  log = text "/tmp/log.txt";
  verbosity = pos 1;
  num_threads = default_num_threads;
}

-- The constructor: Init and Parse, in the order of ForEach, and ChooseNumThreads.
unfoldable pub app_args : (Text → Option ℤ) → ℕ → List Text → Checked ArgFault AppArgs
app_args stoi concurrency argv = do
  log ← parse_visit set_text (text "log") argv app_defaults.log
  verbosity ← parse_visit (set_int stoi) (text "verbosity") argv app_defaults.verbosity
  num_threads ← parse_visit (set_size stoi) (text "num_threads") argv app_defaults.num_threads
  ok (record {
    log = log;
    verbosity = verbosity;
    num_threads = choose_num_threads concurrency num_threads;
  })

unfoldable pub app_help : Text
app_help =
    help_line (text "log") (text "Logging file")
    ++ (help_line (text "verbosity") (
          text
            "Show verbose developer information\n   0 = only print generation output\n   1 = standard user-facing terminal ui\n   2 = show developer/debug info).\n   Default = 1.")
        ++ help_line (text "num_threads") (
            text
              "Number of threads to use. Default value is set based on an estimate of how many concurrent threads are supported."))

-- Print, where std::to_string of each type is a parameter.
unfoldable pub app_print : (ℤ → Text) → (ℕ → Text) → AppArgs → ℤ → List Text
app_print show_int show_size a verbosity =
    print_line verbosity 2 (text "log") (shortened a.log)
    ++ (print_line verbosity 2 (text "verbosity") (show_int a.verbosity)
        ++ print_line verbosity 2 (text "num_threads") (show_size a.num_threads))

clamp_bounds : (n : ℤ) (lo hi : ℕ) → lo ≤ hi → (lo ≤ clamp n lo hi) × (clamp n lo hi ≤ hi)
unfolding clamp
clamp_bounds (pos n) lo hi h = ground arith
clamp_bounds (negsuc n) lo hi h = ground arith

-- Whatever the hardware reports, the program gets the number of threads that was asked for, or one
-- from 1 to 18 if that was left to it.
pub choose_num_threads_bounds :
    (concurrency num_threads : ℕ)
    → ((choose_num_threads concurrency num_threads ≡ num_threads)
        × (num_threads ≢ default_num_threads))
      ⊎ ((1 ≤ choose_num_threads concurrency num_threads)
          × (choose_num_threads concurrency num_threads ≤ 18))
unfolding choose_num_threads
choose_num_threads_bounds concurrency num_threads =
    let bounds = clamp_bounds (minus_two (to_int concurrency)) 1 18 (omega arith) in ground arith

-- ===== src/Blob/Key.antt =====
-- MakeKey of compression/blob_store.cc: a key from a string. The string is its memory, a list of
-- bytes that should have a zero byte at its end.
pub mod Distinct
use gemma_cpp.Base.{
  ℕ, zero, suc, ◌-◌, ◌+◌, ok, failed, ◌>>=◌, ◌>>◌, check, leb, List, [], ◌∷◌, ◌++◌, replicate,
  length, not,
}
use gemma_cpp.Base.Block.{slice, store, le_value}
use gemma_cpp.Blob.{Run, Fault, U128}

-- The loop of MakeKey: the bytes before the first zero byte.
unfoldable pub key_length : ℕ → List ℕ → Run ℕ
key_length n [] = failed Fault.out_of_bounds
key_length n (zero ∷ cs) = ok n
key_length n (suc c ∷ cs) = key_length (suc n) cs

-- The first bytes of a list, for hwy::CopyBytes.
unfoldable pub take_bytes : ℕ → List ℕ → Run (List ℕ)
take_bytes zero cs = ok []
take_bytes (suc n) [] = failed Fault.out_of_bounds
take_bytes (suc n) (c ∷ cs) = do rest ← take_bytes n cs; ok (c ∷ rest)

-- The sixteen bytes of `ret`: zeros, with the string stored at the start.
abbrev pub key_bytes : List ℕ → ℕ → ℕ
key_bytes bytes = store (λ q. 0) 0 bytes

unfoldable pub make_key : List ℕ → Run U128
make_key string = do
  n ← key_length 0 string
  check (leb n 16) (Fault.abort 41)
  bytes ← take_bytes n string
  ok (record {
    lo = le_value (slice (key_bytes bytes) 0 8);
    hi = le_value (slice (key_bytes bytes) 8 8);
  })

-- ===== src/Blob/Store/Find.antt =====
-- FindKey on the header of a file.
use gemma_cpp.Base.{
  ℕ, suc, ◌+◌, ◌≡◌, refl, arith, ok, ◌==◌, ◌&&◌, if◌then◌else◌, List, [], ◌∷◌, Option, none, some,
  length,
}
use gemma_cpp.Base.Block.{Block}
use gemma_cpp.Blob.{U128, Span}
use gemma_cpp.Blob.Store.{align, header_size, load, find_loop, find_key}
use gemma_cpp.Blob.Store.Layout.{HasKeys, HasBlobs, IsHeader}

module _ (round_up_to : ℕ → ℕ → ℕ) where
  -- The blob of the first equal key, in the lists that the writer was given: its place, if the
  -- first blob stands at `at`, and its size.
  unfoldable pub first_blob : ℕ → List U128 → List Span → U128 → Option (ℕ × ℕ)
  first_blob at [] bs key = none
  first_blob at (k ∷ ks) [] key = none
  first_blob at (k ∷ ks) (b ∷ bs) key =
      if k.lo == key.lo && k.hi == key.hi
      then some (at, b.size)
      else first_blob (at + round_up_to b.size align) ks bs key

  module _ (m : Block) (num : ℕ) (key : U128) (has_num : load m 4 4 ≡ ok num) where
    find_loop-first_blob :
        (i at : ℕ) (ks : List U128) (bs : List Span)
        → length ks ≡ length bs
        → HasKeys m i ks
        → HasBlobs round_up_to m num i at bs
        → find_loop m key (length ks) i ≡ ok (first_blob at ks bs key)
    unfolding find_loop first_blob
    find_loop-first_blob i at [] bs same hk hb = refl
    find_loop-first_blob i at (k ∷ ks) [] same hk hb = absurd (omega arith)
    find_loop-first_blob i at (k ∷ ks) (b ∷ bs) same (ek, hk) (eb, hb) = ground (
      arith,
      has_num,
      find_loop-first_blob (suc i) (at + round_up_to b.size align) ks bs (omega arith) hk hb,
    )

  -- In the header of a file with as many keys as blobs, FindKey finds the blob that was stored under
  -- the first equal key, or nothing if there is none.
  pub find_key-first_blob :
      (m : Block) (keys : List U128) (blobs : List Span) (key : U128)
      → IsHeader round_up_to m keys blobs
      → length keys ≡ length blobs
      → find_key m key
        ≡ ok (first_blob (round_up_to (header_size (length keys)) align) keys blobs key)
  unfolding find_key
  find_key-first_blob m keys blobs key is same = rw is.num_blobs_field (
      find_loop-first_blob m (length keys) key is.num_blobs_field 0 _ keys blobs same is.keys_field
        is.blobs_field)

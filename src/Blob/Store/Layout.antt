-- ===== src/Blob/Store/Layout.antt =====
-- Where a file has its keys and its blobs: the specification of what PrepareWriteRequests fills in.
use gemma_cpp.Base.{
  ℕ, suc, ◌+◌, ◌-◌, ◌*◌, ◌^◌, ◌≤◌, ◌<◌, ◌≡◌, arith, ok, ◌==◌, if◌then◌else◌, List, [], ◌∷◌, ◌++◌,
  length, ◌∙◌,
}
use gemma_cpp.Base.Block.{Block}
use gemma_cpp.Blob.{U128, Buffer, BlobIo, Span}
use gemma_cpp.Blob.Chunks.Tiling.{Tiles}
use gemma_cpp.Blob.Store.{magic, align, header_size, load, load_key}
use gemma_cpp.Blob.Store.Memory.{SameBelow, load-SameBelow, load_key-SameBelow}

abbrev pub KeysFit : List U128 → Type 0
KeysFit [] = Unit {0}
KeysFit (k ∷ ks) = (k.lo < 2 ^ 64) × (k.hi < 2 ^ 64) × KeysFit ks

abbrev pub SizesFit : List Span → Type 0
SizesFit [] = Unit {0}
SizesFit (b ∷ bs) = (b.size ≤ 2 ^ 63) × SizesFit bs

-- keys_[i], keys_[i + 1], … are the keys.
abbrev pub HasKeys : Block → ℕ → List U128 → Type 0
HasKeys m i [] = Unit {0}
HasKeys m i (k ∷ ks) = (load_key m i ≡ ok k) × HasKeys m (suc i) ks

-- The one request for `n` bytes of padding, if there are any.
abbrev pub padding_request : ℕ → ℕ → List BlobIo
padding_request at n =
    if n == 0
    then []
    else record {
      offset = at;
      size = n;
      ptr = record { buffer = Buffer.zeros; at = 0 };
      padding = 0;
    }
      ∷ []

pub HasKeys-SameBelow :
    (limit : ℕ) (m m' : Block) (i : ℕ) (keys : List U128)
    → SameBelow limit m m'
    → 16 + 16 * (i + length keys) ≤ limit
    → HasKeys m i keys
    → HasKeys m' i keys
HasKeys-SameBelow limit m m' i [] s h t = tt
HasKeys-SameBelow limit m m' i (k ∷ ks) s h (e, t) = (
  load_key-SameBelow limit m m' i s (omega arith) ∙ e,
  HasKeys-SameBelow limit m m' (suc i) ks s (omega arith) t,
)

module _ (round_up_to : ℕ → ℕ → ℕ) where
  -- All blobs with their padding.
  abbrev pub padded_total : List Span → ℕ
  padded_total [] = 0
  padded_total (b ∷ bs) = round_up_to b.size align + padded_total bs

  -- The second half of keys_, from the `i`-th blob on: the blobs are back to back from `at` on, each
  -- at its offset and with its size.
  abbrev pub HasBlobs : Block → ℕ → ℕ → ℕ → List Span → Type 0
  HasBlobs m num i at [] = Unit {0}
  HasBlobs m num i at (b ∷ bs) =
      (load_key m (num + i) ≡ ok (record { lo = at; hi = b.size }))
      × HasBlobs m num (suc i) (at + round_up_to b.size align) bs

  -- The requests for the blobs that stand from `at` on: chunks that cover the blob, then its padding.
  abbrev pub Plan : ℕ → List Span → List BlobIo → Type 0
  Plan at [] rs = rs ≡ []
  Plan at (b ∷ bs) rs =
      (chunks : List BlobIo) × (rest : List BlobIo) × (rs
        ≡ chunks ++ (padding_request (at + b.size) (round_up_to b.size align - b.size) ++ rest))
      × Tiles at b.size b.ptr chunks
      × Plan (at + round_up_to b.size align) bs rest

  -- The header of a file with these keys and blobs.
  pub record IsHeader (m : Block) (keys : List U128) (blobs : List Span) : Type 0 where
    pub size : m.size ≡ round_up_to (header_size (length keys)) align
    pub magic_field : load m 0 4 ≡ ok magic
    pub num_blobs_field : load m 4 4 ≡ ok (length keys)
    pub file_size_field :
        load m 8 8 ≡ ok (round_up_to (header_size (length keys)) align + padded_total blobs)
    pub keys_field : HasKeys m 0 keys
    pub blobs_field :
        HasBlobs m (length keys) 0 (round_up_to (header_size (length keys)) align) blobs

  pub HasBlobs-SameBelow :
      (limit : ℕ) (m m' : Block) (num i at : ℕ) (blobs : List Span)
      → SameBelow limit m m'
      → 16 + 16 * (num + i + length blobs) ≤ limit
      → HasBlobs m num i at blobs
      → HasBlobs m' num i at blobs
  HasBlobs-SameBelow limit m m' num i at [] s h t = tt
  HasBlobs-SameBelow limit m m' num i at (b ∷ bs) s h (e, t) = (
    load_key-SameBelow limit m m' (num + i) s (omega arith) ∙ e,
    HasBlobs-SameBelow limit m m' num (suc i) (at + round_up_to b.size align) bs s (omega arith) t,
  )

  -- The fields lie below the padding of the header.
  pub IsHeader-SameBelow :
      (m m' : Block) (keys : List U128) (blobs : List Span)
      → length keys ≡ length blobs
      → SameBelow (header_size (length keys)) m m'
      → IsHeader m keys blobs
      → IsHeader m' keys blobs
  IsHeader-SameBelow m m' keys blobs same s is =
      let limit = header_size (length keys) in
      record {
        size = s.size ∙ is.size;
        magic_field = load-SameBelow limit m m' 0 4 s (omega arith) ∙ is.magic_field;
        num_blobs_field = load-SameBelow limit m m' 4 4 s (omega arith) ∙ is.num_blobs_field;
        file_size_field = load-SameBelow limit m m' 8 8 s (omega arith) ∙ is.file_size_field;
        keys_field = HasKeys-SameBelow limit m m' 0 keys s (omega arith) is.keys_field;
        blobs_field =
            HasBlobs-SameBelow limit m m' (length keys) 0 _ blobs s (omega arith) is.blobs_field;
      }

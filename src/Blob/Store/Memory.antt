-- ===== src/Blob/Store/Memory.antt =====
-- Loads from a header and stores to it.
use gemma_cpp.Base.{
  ℕ, ◌+◌, ◌*◌, ◌^◌, ◌≤◌, ◌<◌, ◌≡◌, refl, arith, ok, le→leb, List, length, ap, ◌∙◌, inl, subst,
}
use gemma_cpp.Base.Block.{
  Block, slice, store, slice_congr, slice-store_self, store_outside, le_bytes, le_value,
  length-le_bytes, le_value-le_bytes,
}
use gemma_cpp.Blob.{U128}
use gemma_cpp.Blob.Store.{load, poke, load_key, poke_key}

-- The two memories agree below `limit`.
pub record SameBelow (limit : ℕ) (m m' : Block) : Type 0 where
  pub size : m'.size ≡ m.size
  pub byte : (q : ℕ) → q < limit → m'.byte q ≡ m.byte q

pub SameBelow-refl : (limit : ℕ) (m : Block) → SameBelow limit m m
SameBelow-refl limit m = record { size = refl; byte = λ q h. refl }

pub SameBelow-trans :
    (a b : ℕ) (m m' m'' : Block) → a ≤ b → SameBelow a m m' → SameBelow b m' m'' → SameBelow a m m''
SameBelow-trans a b m m' m'' h s t = record {
  size = t.size ∙ s.size;
  byte = λ q lt. t.byte q (omega arith) ∙ s.byte q lt;
}

pub load-SameBelow :
    (limit : ℕ) (m m' : Block) (at width : ℕ)
    → SameBelow limit m m'
    → at + width ≤ limit
    → load m' at width ≡ load m at width
unfolding load
load-SameBelow limit m m' at width s h =
    rw (s.size, slice_congr m'.byte m.byte at width (λ p lo hi. s.byte p (omega arith)))

pub load_key-SameBelow :
    (limit : ℕ) (m m' : Block) (i : ℕ)
    → SameBelow limit m m'
    → 32 + 16 * i ≤ limit
    → load_key m' i ≡ load_key m i
unfolding load_key
load_key-SameBelow limit m m' i s h = rw (
  load-SameBelow limit m m' (16 + 16 * i) 8 s (omega arith),
  load-SameBelow limit m m' (24 + 16 * i) 8 s (omega arith),
)

-- A store inside the block, and what it leaves alone.
abbrev pub stored : Block → ℕ → List ℕ → Block
stored m at bytes = record m { byte = store m.byte at bytes }

pub poke_inside :
    (m : Block) (at : ℕ) (bytes : List ℕ)
    → at + length bytes ≤ m.size
    → poke m at bytes ≡ ok (stored m at bytes)
unfolding poke
poke_inside m at bytes h = rw (le→leb _ _ h)

pub stored-SameBelow : (m : Block) (at : ℕ) (bytes : List ℕ) → SameBelow at m (stored m at bytes)
stored-SameBelow m at bytes = record {
  size = refl;
  byte = λ q h. store_outside m.byte at bytes q (inl h);
}

-- The number that was stored is read.
pub load-stored :
    (m : Block) (at w v : ℕ)
    → at + w ≤ m.size
    → v < 256 ^ w
    → load (stored m at (le_bytes w v)) at w ≡ ok v
unfolding load
load-stored m at w v h lt =
    rw (le→leb (at + w) m.size h)
      (ap (λ bs. ok (le_value bs)) whole ∙ ap ok (le_value-le_bytes w v lt))
  where
    whole : slice (store m.byte at (le_bytes w v)) at w ≡ le_bytes w v
    whole =
        subst (λ n. slice (store m.byte at (le_bytes w v)) at n ≡ le_bytes w v)
          (length-le_bytes w v) (slice-store_self m.byte at (le_bytes w v))

module _ (m : Block) (i : ℕ) (key : U128) (room : 32 + 16 * i ≤ m.size) (lo_fits : key.lo < 2 ^ 64)
    (hi_fits : key.hi < 2 ^ 64) where
  with_lo : Block
  with_lo = stored m (16 + 16 * i) (le_bytes 8 key.lo)

  pub with_key : Block
  with_key = stored with_lo (24 + 16 * i) (le_bytes 8 key.hi)

  fits : (at v : ℕ) → at + 8 ≤ m.size → at + length (le_bytes 8 v) ≤ m.size
  fits at v h = rw length-le_bytes h

  pub poke_key-with_key : poke_key m i key ≡ ok with_key
  unfolding poke_key with_key with_lo
  poke_key-with_key = rw (
    poke_inside m (16 + 16 * i) (le_bytes 8 key.lo) (fits (16 + 16 * i) key.lo (omega arith)),
    poke_inside with_lo (24 + 16 * i) (le_bytes 8 key.hi) (fits (24 + 16 * i) key.hi (omega arith)),
  )

  pub with_key-SameBelow : SameBelow (16 + 16 * i) m with_key
  unfolding with_key with_lo
  with_key-SameBelow =
      SameBelow-trans (16 + 16 * i) (24 + 16 * i) m with_lo with_key (omega arith)
        (stored-SameBelow m (16 + 16 * i) _) (stored-SameBelow with_lo (24 + 16 * i) _)

  pub load_key-with_key : load_key with_key i ≡ ok key
  unfolding load_key with_key with_lo
  load_key-with_key = rw (
    load-SameBelow (24 + 16 * i) with_lo with_key (16 + 16 * i) 8
        (stored-SameBelow with_lo (24 + 16 * i) _) (omega arith),
    load-stored m (16 + 16 * i) 8 key.lo (omega arith) (omega arith),
    load-stored with_lo (24 + 16 * i) 8 key.hi (omega arith) (omega arith),
  )

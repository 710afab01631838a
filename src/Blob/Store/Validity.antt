-- ===== src/Blob/Store/Validity.antt =====
-- CheckValidity on the header of a file that PrepareWriteRequests laid out.
use gemma_cpp.Base.{
  ℕ, zero, suc, ◌+◌, ◌-◌, ◌%◌, ◌^◌, ◌≤◌, ◌<◌, ◌≡◌, ◌≢◌, ◌⊎◌, arith, ok, failed, ◌>>=◌, List, [],
  ◌∷◌, some, length, replicate, length-replicate, ◌∙◌, ap, sym, ℕ_discrete, ne→==, gt→leb, ==_self,
  compare_gt, compare_self, inl, inr,
}
use gemma_cpp.Base.Block.{Block}
use gemma_cpp.Blob.{Fault, U128, Span, add64}
use gemma_cpp.Blob.Store.{
  RoundsUp, align, header_size, load, load_key, poke, zero_fill_padding, check_loop, check_end,
  check_validity,
}
use gemma_cpp.Blob.Store.Layout.{SizesFit, HasBlobs, padded_total, IsHeader, IsHeader-SameBelow}
use gemma_cpp.Blob.Store.Memory.{SameBelow}
use gemma_cpp.Blob.Store.Written.{zero_fill_padding_inside}

-- Every blob fills its last block.
abbrev pub AllAligned : List Span → Type 0
AllAligned [] = Unit {0}
AllAligned (b ∷ bs) = (b.size % align ≡ 0) × AllAligned bs

-- Some blob does not.
abbrev pub HasUnaligned : List Span → Type 0
HasUnaligned [] = ⊥
HasUnaligned (b ∷ bs) = (b.size % align ≢ 0) ⊎ HasUnaligned bs

module _ (round_up_to : ℕ → ℕ → ℕ) (rounds : RoundsUp round_up_to) where
  -- An aligned offset stays, and nothing is written.
  zero_fill_padding_aligned :
      (m : Block) (offset : ℕ)
      → offset + align ≤ 2 ^ 64
      → offset % align ≡ 0
      → zero_fill_padding round_up_to m offset ≡ ok (offset, m)
  unfolding zero_fill_padding
  zero_fill_padding_aligned m offset h a = ground (arith, same, wrap)
    where
      same : round_up_to offset align ≡ offset
      same = omega (arith, rounds offset align (omega arith) h)

      wrap : (offset + 2 ^ 64 - offset) % 2 ^ 64 ≡ 0
      wrap = omega arith

  -- Behind the header there is no memory to write zeros to.
  zero_fill_padding_outside :
      (m : Block) (offset : ℕ)
      → offset + align ≤ 2 ^ 64
      → offset % align ≢ 0
      → m.size ≤ offset
      → zero_fill_padding round_up_to m offset ≡ failed Fault.out_of_bounds
  unfolding zero_fill_padding poke
  zero_fill_padding_outside m offset h a out =
      let n = (round_up_to offset align + 2 ^ 64 - offset) % 2 ^ 64 in
      let r = rounds offset align (omega arith) h in
      let zeros : List ℕ = replicate n 0 in
      let some_zeros : 0 < n = omega arith in
      rw (
        ne→== n 0 (omega arith),
        zero_fill_padding,
        gt→leb (offset + length zeros) m.size (rw length-replicate (omega arith)),
      )

  -- The last test of the loop, and a round.
  module _ (num : ℕ) (m : Block) (has_num : load m 4 4 ≡ ok num) where
    check_loop_end :
        (fuel i at : ℕ) → num ≤ i → check_loop round_up_to (suc fuel) m i at ≡ ok (some at, m)
    unfolding check_loop
    check_loop_end fuel i at h = rw has_num (ground arith)

    check_loop_step :
        (fuel i at size : ℕ)
        → i < num
        → load_key m (num + i) ≡ ok (record { lo = at; hi = size })
        → at + size < 2 ^ 64
        → check_loop round_up_to (suc fuel) m i at
          ≡ zero_fill_padding round_up_to m (at + size)
            >>= (λ r. check_loop round_up_to fuel r.1 (suc i) r.0)
    unfolding check_loop
    check_loop_step fuel i at size h e f = rw has_num (ground (arith, wrap))
      where
        wrap : add64 at size ≡ at + size
        wrap = omega arith

  module _ (num : ℕ) (m : Block) (has_num : load m 4 4 ≡ ok num) where
    check_loop_aligned :
        (fuel i at : ℕ) (blobs : List Span)
        → length blobs < fuel
        → num ≡ i + length blobs
        → at % align ≡ 0
        → at + padded_total round_up_to blobs + align ≤ 2 ^ 64
        → SizesFit blobs
        → AllAligned blobs
        → HasBlobs round_up_to m num i at blobs
        → check_loop round_up_to fuel m i at ≡ ok (some (at + padded_total round_up_to blobs), m)
    check_loop_aligned zero i at blobs h n a f sf al has = absurd (omega arith)
    check_loop_aligned (suc fuel) i at [] h n a f sf al has =
        check_loop_end num m has_num fuel i at (omega arith)
        ∙ ap (λ k. ok (some k, m)) (omega arith)
    check_loop_aligned (suc fuel) i at (b ∷ bs) h n a f (fit, sf) (ab, al) (e, has) =
        let same : round_up_to b.size align ≡ b.size =
          omega (arith, rounds b.size align (omega arith) (omega arith)) in
        check_loop_step num m has_num fuel i at b.size (omega arith) e (omega arith)
        ∙ ap (λ r. r >>= (λ r. check_loop round_up_to fuel r.1 (suc i) r.0))
            (zero_fill_padding_aligned m (at + b.size) (omega arith) (omega arith))
        ∙ ap (λ k. check_loop round_up_to fuel m (suc i) (at + k)) (sym same)
        ∙ check_loop_aligned fuel (suc i) (at + round_up_to b.size align) bs (omega arith)
            (omega arith) (omega arith) (omega arith) sf al has
        ∙ ap (λ k. ok (some k, m)) (omega arith)

    -- The first blob that is not aligned makes the loop write behind the header.
    check_loop_unaligned :
        (fuel i at : ℕ) (blobs : List Span)
        → length blobs < fuel
        → num ≡ i + length blobs
        → at % align ≡ 0
        → m.size ≤ at
        → at + padded_total round_up_to blobs + align ≤ 2 ^ 64
        → SizesFit blobs
        → HasUnaligned blobs
        → HasBlobs round_up_to m num i at blobs
        → check_loop round_up_to fuel m i at ≡ failed Fault.out_of_bounds
    check_loop_unaligned zero i at blobs h n a o f sf un has = absurd (omega arith)
    check_loop_unaligned (suc fuel) i at [] h n a o f sf un has = absurd un
    check_loop_unaligned (suc fuel) i at (b ∷ bs) h n a o f (fit, sf) un (e, has) =
        let r = rounds b.size align (omega arith) (omega arith) in
        check_loop_step num m has_num fuel i at b.size (omega arith) e (omega arith)
        ∙ elim (ℕ_discrete (b.size % align) 0) [
          | no ragged ↦
              ap (λ r. r >>= (λ r. check_loop round_up_to fuel r.1 (suc i) r.0))
                (zero_fill_padding_outside m (at + b.size) (omega arith) (omega arith)
                  (omega arith))
          | yes whole ↦
              ap (λ r. r >>= (λ r. check_loop round_up_to fuel r.1 (suc i) r.0))
                (zero_fill_padding_aligned m (at + b.size) (omega arith) (omega arith))
              ∙ ap (λ k. check_loop round_up_to fuel m (suc i) (at + k)) (same b.size r whole)
              ∙ check_loop_unaligned fuel (suc i) (at + round_up_to b.size align) bs (omega arith)
                  (omega arith) (omega arith) (omega arith) (omega arith) sf
                  (later b.size bs whole un) has
        ]
      where
        same :
            (size : ℕ)
            → (size ≤ round_up_to size align)
              × (round_up_to size align < size + align)
              × (round_up_to size align % align ≡ 0)
            → size % align ≡ 0
            → size ≡ round_up_to size align
        same size r whole = omega arith

        later :
            (size : ℕ) (bs : List Span)
            → size % align ≡ 0
            → (size % align ≢ 0) ⊎ HasUnaligned bs
            → HasUnaligned bs
        later size bs whole (inl ragged) = absurd (ragged whole)
        later size bs whole (inr un) = un

  -- CheckValidity up to its loop.
  module _ (m : Block) (keys : List U128) (blobs : List Span)
      (is : IsHeader round_up_to m keys blobs) where
    abbrev total : ℕ
    total = round_up_to (header_size (length keys)) align + padded_total round_up_to blobs

    check_validity_run :
        (m' : Block)
        → 0 < length keys
        → zero_fill_padding round_up_to m (header_size (length keys))
          ≡ ok (round_up_to (header_size (length keys)) align, m')
        → check_validity round_up_to m total
          ≡ check_loop round_up_to (2 ^ 32) m' 0 (round_up_to (header_size (length keys)) align)
            >>= (λ r. check_end round_up_to r.0 r.1)
    unfolding check_validity
    check_validity_run m' some_keys e = rw (
      is.magic_field,
      is.num_blobs_field,
      ◌>>=◌,
      compare_gt (length keys) 0 some_keys,
      is.file_size_field,
      ◌>>=◌,
      compare_self total,
      e,
      ◌>>=◌,
    )

    module _ (same : length keys ≡ length blobs) (some_keys : 0 < length keys)
        (few : length keys < 2 ^ 20) (sizes : SizesFit blobs) (fits : total + align ≤ 2 ^ 64) where
      zeroed :
          (m' : Block) × (zero_fill_padding round_up_to m (header_size (length keys))
            ≡ ok (round_up_to (header_size (length keys)) align, m'))
          × SameBelow (header_size (length keys)) m m'
      zeroed =
          zero_fill_padding_inside round_up_to rounds m (header_size (length keys)) (omega arith)
            (omega (arith, is.size))

      -- With every size a multiple of 256 the header of a file is accepted, and is still that of the
      -- file. There is at least one key, fewer than 2 ^ 20, and as many as blobs; the sizes and
      -- the file fit in 64 bits.
      pub check_validity_accepts :
          AllAligned blobs
          → (m' : Block) × (check_validity round_up_to m total ≡ ok (0, m'))
            × IsHeader round_up_to m' keys blobs
      unfolding check_end
      check_validity_accepts aligned =
          let (m', e, near) = zeroed in
          let has : IsHeader round_up_to m' keys blobs =
            IsHeader-SameBelow round_up_to m m' keys blobs same near is in
          let r = rounds (header_size (length keys)) align (omega arith) (omega arith) in
          let loop =
            check_loop_aligned (length keys) m' has.num_blobs_field (2 ^ 32) 0 _ blobs (omega arith)
              (omega arith) r.2 fits sizes aligned has.blobs_field in
          (
            m',
            check_validity_run m' some_keys e
                ∙ ap (λ r. r >>= (λ r. check_end round_up_to r.0 r.1)) loop
                ∙ rw (has.file_size_field, ==_self total),
            has,
          )

      -- With any other size the check writes zeros behind the memory of the header, although
      -- the file is one that BlobWriter lays out. The conditions are the same otherwise.
      pub check_validity_overruns :
          HasUnaligned blobs → check_validity round_up_to m total ≡ failed Fault.out_of_bounds
      check_validity_overruns ragged =
          let (m', e, near) = zeroed in
          let has : IsHeader round_up_to m' keys blobs =
            IsHeader-SameBelow round_up_to m m' keys blobs same near is in
          let r = rounds (header_size (length keys)) align (omega arith) (omega arith) in
          check_validity_run m' some_keys e
          ∙ ap (λ r. r >>= (λ r. check_end round_up_to r.0 r.1))
              (check_loop_unaligned (length keys) m' has.num_blobs_field (2 ^ 32) 0 _ blobs
                (omega arith) (omega arith) r.2 (omega (arith, has.size)) fits sizes ragged
                has.blobs_field)

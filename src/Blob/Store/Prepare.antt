-- ===== src/Blob/Store/Prepare.antt =====
-- PrepareWriteRequests fills the header and plans the requests as `Layout` says.
use gemma_cpp.Base.{
  ℕ, suc, ◌+◌, ◌-◌, ◌*◌, ◌^◌, ◌≤◌, ◌<◌, ◌≡◌, refl, arith, ok, List, [], ◌∷◌, ◌++◌, length, ◌∙◌, ap,
  ℕ_discrete,
}
use mathlib.Core.List.{append_assoc, append-nil}
use gemma_cpp.Base.Block.{Block}
use gemma_cpp.Blob.{U128, BlobIo, Span, add64, Run}
use gemma_cpp.Blob.Chunks.{enqueue_chunk_requests}
use gemma_cpp.Blob.Chunks.Tiling.{enqueue_chunk_requests-Tiles}
use gemma_cpp.Blob.Store.{
  RoundsUp, align, poke_key, copy_keys, fill_loop, enqueue_padding, payload_loop,
}
use gemma_cpp.Blob.Store.Layout.{
  KeysFit, SizesFit, HasKeys, HasBlobs, padding_request, padded_total, Plan,
}
use gemma_cpp.Blob.Store.Memory.{
  SameBelow, SameBelow-refl, SameBelow-trans, with_key, poke_key-with_key, with_key-SameBelow,
  load_key-with_key, load_key-SameBelow,
}

join :
    (at u t : ℕ) (requests chunks pad rs : List BlobIo) (m : Block)
    → ◌≡◌ {A = Run (ℕ × List BlobIo × Block)}
        (ok (at + u + t, (requests ++ (chunks ++ pad)) ++ rs, m))
        (ok (at + (u + t), requests ++ (chunks ++ (pad ++ rs)), m))
join at u t requests chunks pad rs m =
    let e : at + u + t ≡ at + (u + t) = omega arith in
    let e' =
      append_assoc requests (chunks ++ pad) rs ∙ ap (◌++◌ requests) (append_assoc chunks pad rs) in
    λ i. ok (e i, e' i, m)

copy_keys_step :
    (i : ℕ) (k : U128) (ks : List U128) (m w : Block)
    → poke_key m i k ≡ ok w
    → copy_keys i (k ∷ ks) m ≡ copy_keys (suc i) ks w
unfolding copy_keys
copy_keys_step i k ks m w e = rw e

pub copy_keys-HasKeys :
    (i : ℕ) (keys : List U128) (m : Block)
    → 16 + 16 * (i + length keys) ≤ m.size
    → KeysFit keys
    → (m' : Block) × (copy_keys i keys m ≡ ok m') × SameBelow (16 + 16 * i) m m' × HasKeys m' i keys
copy_keys-HasKeys i [] m h f = (m, unfold copy_keys in refl, SameBelow-refl _ m, tt)
copy_keys-HasKeys i (k ∷ ks) m h (lo, hi, f) =
    let room : 32 + 16 * i ≤ m.size = omega arith in
    let w = with_key m i k room lo hi in
    let s = with_key-SameBelow m i k room lo hi in
    let (m', run, t, has) = copy_keys-HasKeys (suc i) ks w (rw s.size (omega arith)) f in
    (
      m',
      copy_keys_step i k ks m w (poke_key-with_key m i k room lo hi) ∙ run,
      SameBelow-trans (16 + 16 * i) (16 + 16 * suc i) m w m' (omega arith) s t,
      (
        load_key-SameBelow (16 + 16 * suc i) w m' i t (omega arith)
            ∙ load_key-with_key m i k room lo hi,
        has,
      ),
    )

module _ (round_up_to : ℕ → ℕ → ℕ) (rounds : RoundsUp round_up_to) where
  abbrev pub up : ℕ → ℕ
  up n = round_up_to n align

  pub payload_loop-eq :
      (payload : ℕ) (blobs : List Span)
      → payload + padded_total round_up_to blobs < 2 ^ 64
      → payload_loop round_up_to payload blobs ≡ payload + padded_total round_up_to blobs
  unfolding payload_loop
  payload_loop-eq payload [] h = omega arith
  payload_loop-eq payload (b ∷ bs) h =
      payload_loop-eq (add64 payload (up b.size)) bs (rw wrap (omega arith)) ∙ rw wrap (omega arith)
    where
      wrap : add64 payload (up b.size) ≡ payload + up b.size
      wrap = omega arith

  enqueue_padding-eq :
      (size at : ℕ) (requests : List BlobIo)
      → size ≤ 2 ^ 63
      → at + (round_up_to size align - size) < 2 ^ 64
      → enqueue_padding round_up_to size at requests
        ≡ ok (
          at + (round_up_to size align - size),
          requests ++ padding_request at (round_up_to size align - size),
        )
  unfolding enqueue_padding
  enqueue_padding-eq size at requests h f = elim (ℕ_discrete (round_up_to size align) size) [
    | yes same ↦ ground (arith, append-nil requests)
    | no more ↦ ground (arith, rounds size align)
  ]

  -- The key of one blob and its requests.
  fill_loop_step :
      (num i : ℕ) (b : Span) (bs : List Span) (m w : Block) (at : ℕ) (requests chunks : List BlobIo)
      → poke_key m (num + i) (record { lo = at; hi = b.size }) ≡ ok w
      → enqueue_chunk_requests at b.size b.ptr requests ≡ ok (requests ++ chunks)
      → b.size ≤ 2 ^ 63
      → at + round_up_to b.size align < 2 ^ 64
      → fill_loop round_up_to num i (b ∷ bs) m at requests
        ≡ fill_loop round_up_to num (suc i) bs w (at + round_up_to b.size align) (
            requests
            ++ (chunks ++ padding_request (at + b.size) (round_up_to b.size align - b.size)))
  unfolding fill_loop
  fill_loop_step num i b bs m w at requests chunks e c h f =
      let r = rounds b.size align (omega arith) (omega arith) in
      rw (
        e,
        c,
        wrap r.0,
        enqueue_padding-eq b.size (at + b.size) (requests ++ chunks) h (omega arith),
        regroup r.0,
        append_assoc requests chunks,
      )
    where
      wrap : b.size ≤ up b.size → add64 at b.size ≡ at + b.size
      wrap p = omega arith

      regroup : b.size ≤ up b.size → at + b.size + (up b.size - b.size) ≡ at + up b.size
      regroup p = omega arith

  pub fill_loop-HasBlobs :
      (num i : ℕ) (blobs : List Span) (m : Block) (at : ℕ) (requests : List BlobIo)
      → 16 + 16 * (num + i + length blobs) ≤ m.size
      → SizesFit blobs
      → at + padded_total round_up_to blobs < 2 ^ 64
      → (m' : Block) × (rs : List BlobIo) × (fill_loop round_up_to num i blobs m at requests
          ≡ ok (at + padded_total round_up_to blobs, requests ++ rs, m'))
        × SameBelow (16 + 16 * (num + i)) m m'
        × HasBlobs round_up_to m' num i at blobs
        × Plan round_up_to at blobs rs
  fill_loop-HasBlobs num i [] m at requests h s f =
      (m, [], unfold fill_loop in ground (arith, append-nil requests), SameBelow-refl _ m, tt, refl)
  fill_loop-HasBlobs num i (b ∷ bs) m at requests h (size, s) f =
      let r = rounds b.size align (omega arith) (omega arith) in
      let room : 32 + 16 * (num + i) ≤ m.size = omega arith in
      let key : U128 = record { lo = at; hi = b.size } in
      let w = with_key m (num + i) key room (omega arith) (omega arith) in
      let near = with_key-SameBelow m (num + i) key room (omega arith) (omega arith) in
      let (_, e, (chunks, c, tiles)) =
        enqueue_chunk_requests-Tiles at b.size b.ptr (omega arith) requests in
      let pad = padding_request (at + b.size) (up b.size - b.size) in
      let (m', rs, run, far, has, plan) =
        fill_loop-HasBlobs num (suc i) bs w (at + up b.size) (requests ++ (chunks ++ pad))
          (rw near.size (omega arith)) s (omega arith) in
      (
        m',
        chunks ++ (pad ++ rs),
        fill_loop_step num i b bs m w at requests chunks
              (poke_key-with_key m (num + i) key room (omega arith) (omega arith)) (e ∙ ap ok c)
              size (omega arith)
            ∙ run
            ∙ join at (up b.size) (padded_total round_up_to bs) requests chunks pad rs m',
        SameBelow-trans _ (16 + 16 * (num + suc i)) m w m' (omega arith) near far,
        (
          load_key-SameBelow (16 + 16 * (num + suc i)) w m' (num + i) far (omega arith)
              ∙ load_key-with_key m (num + i) key room (omega arith) (omega arith),
          has,
        ),
        (chunks, rs, refl, tiles, plan),
      )

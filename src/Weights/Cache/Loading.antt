-- ===== src/Weights/Cache/Loading.antt =====
-- Loading all tensors from the cache: what CacheLoader enqueues.
use gemma_cpp.Base.{
  ℕ, suc, ◌+◌, ◌^◌, ◌<◌, ◌≡◌, ◌≢◌, refl, ◌∙◌, ap, ok, ◌>>=◌, Returns, false, ◌==◌, List, [], ◌∷◌,
  ◌++◌, length, Option, some, none, get_elem?, inl, inr,
}
use gemma_cpp.Base.Block.{Block}
use gemma_cpp.Blob.{U128, Span, BlobIo, Pointer}
use gemma_cpp.Blob.Chunks.Tiling.{Tiles}
use gemma_cpp.Blob.Store.{RoundsUp, align, header_size}
use gemma_cpp.Blob.Store.Layout.{SizesFit, padded_total, IsHeader}
use gemma_cpp.Blob.Store.Find.{first_blob}
use gemma_cpp.Blob.Reader.{enqueue}
use gemma_cpp.Blob.Reader.Enqueue.{Outcome, enqueue-Outcome}
use gemma_cpp.Args.Loader.{Model}
use gemma_cpp.Weights.{MatT, Part, Tensor, compressed_size, cache_key, config_of, for_each_tensor}
use gemma_cpp.Weights.Walk.{visit_all, all_tensors, for_each_tensor-visit_all}
use gemma_cpp.Weights.Keys.{cache_key_returns}
use gemma_cpp.Weights.Cache.{CacheLoader, load_tensor}

module _ (round_up_to : ℕ → ℕ → ℕ) (rounds : RoundsUp round_up_to) (place : Part → Pointer)
    (m : Block) (keys : List U128) (blobs : List Span) (fd : Option ℕ) where
  -- The loader with a valid header, with an error code and with requests.
  abbrev pub loader_of : ℕ → List BlobIo → CacheLoader
  loader_of err requests = record {
    reader = record { fd = fd; blob_store = some m; requests = requests };
    err = err;
  }

  -- The place in the file of the first blob with a key.
  abbrev pub blob_of : U128 → Option (ℕ × ℕ)
  blob_of key =
      first_blob round_up_to (round_up_to (header_size (length keys)) align) keys blobs key

  abbrev pub wanted_size : Tensor → ℕ
  wanted_size t = compressed_size round_up_to t.mat t.capacity

  -- The loader behind a list of tensors: either each one has requests that read exactly its blob
  -- to its array, or the first one without a blob of its size has left its error code and the
  -- requests of those before it.
  pub data Loaded : List Tensor → List BlobIo → CacheLoader → Type 0 where
    complete : (requests : List BlobIo) → Loaded [] requests (loader_of 0 requests)
    next :
        (t : Tensor) (ts : List Tensor) (requests new : List BlobIo) (l : CacheLoader) (key : U128)
        (offset : ℕ)
        → cache_key t.mat t.name ≡ ok key
        → blob_of key ≡ some (offset, wanted_size t)
        → Tiles offset (wanted_size t) (place t.part) new
        → Loaded ts (requests ++ new) l
        → Loaded (t ∷ ts) requests l
    missing :
        (t : Tensor) (ts : List Tensor) (requests : List BlobIo) (key : U128)
        → cache_key t.mat t.name ≡ ok key
        → blob_of key ≡ none
        → Loaded (t ∷ ts) requests (loader_of 294 requests)
    resized :
        (t : Tensor) (ts : List Tensor) (requests : List BlobIo) (key : U128) (offset actual : ℕ)
        → cache_key t.mat t.name ≡ ok key
        → blob_of key ≡ some (offset, actual)
        → actual ≢ wanted_size t
        → Loaded (t ∷ ts) requests (loader_of 295 requests)

  -- After an error the walk changes nothing.
  skips :
      (ts : List Tensor) (l : CacheLoader)
      → (l.err == 0) ≡ false
      → visit_all (load_tensor round_up_to place) ts l ≡ ok l
  unfolding visit_all load_tensor
  skips [] l e = refl
  skips (t ∷ ts) l e = rw (load_tensor, e, ◌>>=◌) (skips ts l e)

  module _ (is : IsHeader round_up_to m keys blobs) (same : length keys ≡ length blobs)
      (sizes : SizesFit blobs)
      (fits : round_up_to (header_size (length keys)) align + padded_total round_up_to blobs
        < 2 ^ 64) where
    visit_all-Loaded :
        (ts : List Tensor) (requests : List BlobIo)
        → ((i : ℕ) (t : Tensor)
            → get_elem? ts i ≡ some t
            → (key : U128) × (cache_key t.mat t.name ≡ ok key))
        → Returns
            (visit_all (load_tensor round_up_to place) ts (loader_of 0 requests))
            (Loaded ts requests)
    unfolding visit_all load_tensor
    visit_all-Loaded [] requests named = (loader_of 0 requests, refl, Loaded.complete requests)
    visit_all-Loaded (t ∷ ts) requests named =
        let (key, e) = named 0 t refl in
        by_blob key e (blob_of key) refl
          (enqueue-Outcome round_up_to rounds m keys blobs key (place t.part) (wanted_size t) fd
            requests is same sizes fits)
          (λ new. visit_all-Loaded ts (requests ++ new) (λ i. named (suc i)))
      where
        by_blob :
            (key : U128)
            → cache_key t.mat t.name ≡ ok key
            → (found : Option (ℕ × ℕ)) → blob_of key ≡ found
            → Outcome round_up_to rounds m keys blobs key
                (place t.part)
                (wanted_size t)
                fd
                requests
                found
                (enqueue key
                  (place t.part)
                  (wanted_size t)
                  (record { fd = fd; blob_store = some m; requests = requests }))
            → ((new : List BlobIo)
                → Returns
                    (visit_all (load_tensor round_up_to place) ts (loader_of 0 (requests ++ new)))
                    (Loaded ts (requests ++ new)))
            → Returns
                (visit_all (load_tensor round_up_to place) (t ∷ ts) (loader_of 0 requests))
                (Loaded (t ∷ ts) requests)
        by_blob key e none f out rest = (
          loader_of 294 requests,
          rw (load_tensor, e, ◌>>=◌, out) (skips ts (loader_of 294 requests) refl),
          Loaded.missing t ts requests key e f,
        )
        by_blob key e (some (offset, actual)) f (inl (other, out)) rest = (
          loader_of 295 requests,
          rw (load_tensor, e, ◌>>=◌, out) (skips ts (loader_of 295 requests) refl),
          Loaded.resized t ts requests key offset actual e f other,
        )
        by_blob key e (some (offset, actual)) f (inr (equal, new, out, tiles)) rest =
            let (l, run, loaded) = rest new in
            (
              l,
              rw (load_tensor, e, ◌>>=◌, out) run,
              Loaded.next t ts requests new l key offset e (f ∙ ap (λ n. some (offset, n)) equal)
                  tiles loaded,
            )

    -- With the header of a file, ForEachTensor with CacheLoader stops the program at no tensor of
    -- the model. Either each tensor has requests that read exactly its blob to its array, in the
    -- order of the walk, or the loader has the error code of the first tensor without a blob of
    -- its size. There are as many keys as blobs, and the sizes and the file fit in 64 bits.
    pub for_each_tensor-Loaded :
        (weight_t : MatT) (model : Model) (requests : List BlobIo)
        → Returns
            (for_each_tensor weight_t
              (config_of model)
              (load_tensor round_up_to place)
              (loader_of 0 requests))
            (Loaded (all_tensors weight_t (config_of model)) requests)
    for_each_tensor-Loaded weight_t model requests =
        rw
          (for_each_tensor-visit_all weight_t (config_of model) (load_tensor round_up_to place)
            (loader_of 0 requests))
          (visit_all-Loaded (all_tensors weight_t (config_of model)) requests
            (cache_key_returns weight_t model))

-- ===== src/Weights/Tests.antt =====
-- The walk over the tensors and the cache of the 2B model, and the theorems about them.
use gemma_cpp.Base.{◌+◌, ◌⊎◌, ok, refl, arith, Returns, [], some}
use gemma_cpp.Blob.{Run, Buffer, Pointer}
use gemma_cpp.Args.Loader.{Model}
use gemma_cpp.Weights.{MatT, Part, config_of, for_each_tensor}
use gemma_cpp.Weights.Walk.{all_tensors}
use gemma_cpp.Weights.Cache.{Compressor, load_tensor, compress_tensor}
use gemma_cpp.Weights.Cache.Loading.{Loaded, loader_of, for_each_tensor-Loaded}
use gemma_cpp.Weights.Cache.Regenerating.{StoppedBy, empty_writer}
use gemma_cpp.Weights.Cache.RoundTrip.{Served, regenerated-Served}
use gemma_cpp.Blob.Tests.{round_up, round_up-RoundsUp, whole, whole_blobs, two_keys}

-- Each array is an allocation of its own, or part of the same for a layer.
abbrev place : Part → Pointer
place Part.embedder_input_embedding = record { buffer = Buffer.heap 0; at = 0 }
place Part.final_norm_scale = record { buffer = Buffer.heap 1; at = 0 }
place (Part.pre_ffw_norm_scale i) = record { buffer = Buffer.heap (2 + i); at = 0 }
place (Part.gating_einsum_w i) = record { buffer = Buffer.heap (102 + i); at = 0 }
place (Part.linear_w i) = record { buffer = Buffer.heap (202 + i); at = 0 }
place (Part.qkv_einsum_w i) = record { buffer = Buffer.heap (302 + i); at = 0 }
place (Part.attn_vec_einsum_w i) = record { buffer = Buffer.heap (402 + i); at = 0 }
place (Part.pre_attention_norm_scale i) = record { buffer = Buffer.heap (502 + i); at = 0 }

for_each_tensor-Loaded_example :
    Returns
      (for_each_tensor MatT.sfp
        (config_of Model.gemma_2b)
        (load_tensor round_up place)
        (loader_of round_up round_up-RoundsUp place whole.0 two_keys whole_blobs (some 3) 0 []))
      (Loaded round_up round_up-RoundsUp place whole.0 two_keys whole_blobs
        (some 3)
        (all_tensors MatT.sfp (config_of Model.gemma_2b))
        [])
for_each_tensor-Loaded_example =
    for_each_tensor-Loaded round_up round_up-RoundsUp place whole.0 two_keys whole_blobs (some 3)
      whole.3 refl (omega arith, (omega arith, tt)) (omega arith) MatT.sfp Model.gemma_2b []

regenerated-Served_example :
    let r : Run Compressor =
      for_each_tensor MatT.sfp
        (config_of Model.gemma_2b)
        (compress_tensor round_up place (λ t memory. ok memory))
        (record { memory = λ b q. 0; writer = empty_writer }) in
    StoppedBy round_up place (λ t memory. ok memory) r
    ⊎ Returns r (λ c.
      Served round_up round_up-RoundsUp place
        (λ n. some (λ q. 5))
        MatT.sfp
        Model.gemma_2b
        (some 3)
        c.writer)
regenerated-Served_example =
    regenerated-Served round_up round_up-RoundsUp place (λ t memory. ok memory) (λ b q. 0) MatT.sfp
      Model.gemma_2b (λ n. some (λ q. 5)) (λ n q. 5) (some 3) (λ n. refl)

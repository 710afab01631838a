-- ===== src/Lib.antt =====
-- gemma.cpp: inference of the Gemma models. Modelled are its compressed weights (the codecs
-- SFP, switching floating point, and NUQ, non-uniform quantization, and the blob store, the
-- file that holds the compressed tensors),
-- the loading and regeneration of the weights, the layers of the network around its vector kernels,
-- the loops that generate tokens, the command line, and the program that talks to the user.
--
-- Parts. The compression driver encodes the weights (SFP or NUQ streams) and stores each tensor under
-- a key with BlobWriter; at start the program opens the file with BlobReader, enqueues the tensors
-- and reads them in parallel; the kernels decode the streams on the fly.
--
-- Files and code:
--   Base           shared names, Boolean tests, lists over native numbers, checked results, blocks
--                  of bytes (Base/Block) with little-endian numbers.
--   Sfp            compression/sfp-inl.h: `enc_bytes` and `dec_bytes` are SfpCodec::EncBytes and
--                  DecBytes on one lane. The Highway operations are the record `Lanes` of
--                  Sfp/Simd, with what their manual says as `IsDocumented`. Sfp/Value gives bf16
--                  and codes their values and says what the nearest code is, Sfp/Table evaluates
--                  the codec on all its inputs, Sfp/Rounding and Sfp/RoundTrip draw the theorems.
--                  Sfp/Stream has Enc and Dec of arrays, whose vector operations are the record `Wide`;
--                  Sfp/Stream/Loops looks at their loops, Sfp/Stream/Rounds at one round. Sfp/Dot is
--                  Dot.
--   Nuq            compression/nuq.h and nuq-inl.h: Nuq/Payload is FloatPayload over the record `Floats`,
--                  Nuq/Search ClusterCost and the dynamic program, Nuq/Cluster the backtracking and
--                  ClusterExactL2, Nuq/Nibbles NibbleCodec over the record `Vectors`, Nuq/Stream Dec of
--                  NuqCodec.
--   Blob           compression/blob_store.h and .cc: the types of the blob store. A run that fails
--                  an assertion or leaves an allocation ends in a `Fault`.
--   Blob/Key       MakeKey; a string is the list of its bytes with a zero byte at its end.
--   Blob/Chunks    EnqueueChunkRequests.
--   Blob/Io        struct IO: FileSize, Read and Write; the results of pread and pwrite are
--                  parameters.
--   Blob/Store     class BlobStore, a block of bytes: HeaderSize, PaddedHeaderSize,
--                  ZeroFillPadding, CheckValidity, Allocate, PrepareWriteRequests, FindKey. The
--                  layout that a header must have is Blob/Store/Layout. hwy::RoundUpTo and the
--                  allocator are parameters.
--   Blob/Writer    class BlobWriter: Add and WriteAll; the tasks of the thread pool run one after
--                  the other, in an order that is a parameter.
--                  Blob/Writer/Image says which file is meant, Blob/Writer/Tasks what the tasks leave
--                  in it and Blob/Writer/File what WriteAll does. PrepareWriteRequests frees the
--                  header before the tasks read it, so what they read is the parameter `freed`.
--   Blob/Reader    class BlobReader: `open_reader`, `close_reader`, `enqueue` and `read_all` are Open,
--                  the destructor, Enqueue and ReadAll, with the proofs in Blob/Reader/Open,
--                  Blob/Reader/Enqueue and Blob/Reader/Fetch.
--   Blob/RoundTrip Open, Enqueue and ReadAll on a file that WriteAll left.
--   Args           util/args.h: the visitors of ArgsBase and HasHelp. Args/Loader and
--                  Args/Inference are LoaderArgs and InferenceArgs of gemma.h, Args/App is AppArgs of
--                  util/app.h. std::stoi, std::stof and std::to_string are parameters.
--   Generate       GenerateImpl of gemma.cc: `prefill_loop`, `gen_loop` and `generate` over the record
--                  `Network` of the operations that it calls. Generate/Steps has the loops' iterations,
--                  Generate/Prefill and Generate/Invariant a principle for what a run keeps, and
--                  Generate/Cache the positions of the KV cache.
--   Repl           ReplGemma of run.cc: `stream_token` is the callback, `turn` an iteration that
--                  generates, `repl_loop` the loop over the lines of input. The tokenizer, the
--                  generator and the network are the record `Given`; its Prefill and Transformer may
--                  stop, as they do behind the KV cache. Proofs in Repl/Turns.
--   Program        Run and main of run.cc; loading the model is a parameter. Proof in Program/Start.
--   Weights        ForEachTensor of gemma.cc with the configurations of configs.h and CacheKey of
--                  compression/compress.h. Weights/Walk turns the walk into a list of tensors,
--                  Weights/Keys looks at their keys. Weights/Cache has CacheLoader, Compressor of
--                  compression/compress-inl.h, LoadWeights and GetCompressedWeights, with proofs in
--                  Weights/Cache/Loading, Regenerating and RoundTrip.
--   Batches        Compress and Decompress of compression/compress-inl.h over the codec.
--   Sampling       SampleArgmax, create_distribution and SampleTopK of ops.h over abstract floats.
--   Layers         Prefill, Transformer and FFW of gemma.cc over the kernels of ops.h, with their arrays in
--                  Layers/Arrays and Attention in Layers/Attention. Each access to the activations and the
--                  KV cache is looked at by `inside` with the extents of the source. Layers/Extents has
--                  the bounds of the offsets, Layers/Heads, Layers/Tokens and Layers/Frame what is
--                  written to the cache, Layers/Generated the generation loops over these layers,
--                  Layers/Overrun what happens behind the cache.
--   Tests          concrete runs: Blob/Tests, Sfp/Tests, Args/Tests and so on.
-- Numbers. In the blob store a size_t or uint64_t is a number below 2 ^ 64, and sums wrap (`add64`)
-- as in the source. Positions, token counts and the offsets of the layers do not wrap.
-- Fuel. Read and Write get one round for each byte and one more, since every round but the last
-- transfers a byte; the loop of EnqueueChunkRequests gets one round for each chunk and one more; a loop of
-- Enc or Dec gets one round for each value and one more;
-- CheckValidity gets 2 ^ 32 rounds, as num_blobs_ has 32 bits. The prefill loop gets one round for
-- each token of the prompt and one more, the decode loop one for each token that may be generated and
-- one more. The theorems show that this is enough.
--
-- Not modelled: Enc and the fused Dot of NuqCodec, CompressTraits, statistics and the arithmetic of
-- the vector kernels of ops.h, with what they read of the matrices of weights. Tasks of a pool run one
-- after the other: interleavings of threads inside one write are not modelled, and the requests of one
-- writer do not overlap. The counters of a dialogue are numbers without the range of int, and token
-- ids are natural numbers.
pub mod Base
pub mod Sfp
pub mod Blob
pub mod Args
pub mod Generate
pub mod Repl
pub mod Program
pub mod Nuq
pub mod Weights
pub mod Sampling
pub mod Batches
pub mod Layers

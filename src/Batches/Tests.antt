-- ===== src/Batches/Tests.antt =====
-- The batches of a tensor of 20000 values.
use gemma_cpp.Base.{arith}
use gemma_cpp.Batches.Cover.{OneBatch, batches-OneBatch}

batches-OneBatch_example : OneBatch 20000 16384
batches-OneBatch_example = batches-OneBatch 20000 16384 (omega arith)

-- ===== src/Blob/Tests/Again.antt =====
-- A written file is read again.
use gemma_cpp.Base.{ℕ, zero, suc, ◌+◌, ◌*◌, List, [], ◌∷◌}
use gemma_cpp.Base.Block.{Block}
use gemma_cpp.Blob.{Buffer}
use gemma_cpp.Blob.Io.{Memory}
use gemma_cpp.Blob.Writer.Image.{file_image}
use gemma_cpp.Blob.Tests.{whole_blobs, round_up, whole}

-- The memory that the tasks of the writer read.
abbrev source : Memory
source Buffer.header q = whole.0.byte q
source Buffer.zeros q = 0
source (Buffer.heap k) q = k + 7 * q

abbrev written_file : Block
written_file = record { size = 1024; byte = file_image round_up source 256 whole_blobs }

abbrev count_down : ℕ → List ℕ
count_down zero = []
count_down (suc n) = n ∷ count_down n

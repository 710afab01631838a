-- ===== src/Nuq.antt =====
-- compression/nuq.h and compression/nuq-inl.h: non-uniform quantization of groups of 256 floats to
-- 16 clusters. The clustering, the packing of the indices and the stream are children.
pub mod Payload
pub mod Search
pub mod Cluster
pub mod Nibbles
pub mod Stream
mod Tests

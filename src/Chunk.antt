-- ===== src/Chunk.antt =====
-- Content-defined chunking (internal/chunk): the Rabin fingerprint, the chunker's three loops, the
-- deduplication index, manifests and reassembly.
pub mod Rabin
pub mod Chunker
pub mod Index
pub mod Manifest

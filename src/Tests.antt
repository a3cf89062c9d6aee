-- ===== src/Tests.antt =====
-- Runs of the definitions at concrete inputs, one file for each part.
mod Circuit
mod Clock
mod Chunk
mod Worker
mod RateLimit
mod Rbac
mod Download
mod Manifest
mod Garbage
mod Files
mod Uploads
mod Merkle

-- ===== src/Garbage.antt =====
-- The chunks that no file needs: the table of chunks with its reference counts
-- (internal/db/chunks.go) and the garbage collection (internal/worker/gc.go).
pub mod ChunkTable
pub mod Collector

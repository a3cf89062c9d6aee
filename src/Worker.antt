-- ===== src/Worker.antt =====
-- Background jobs (internal/worker/pool.go): the priority queue and the pool that serves it.
pub mod Queue
pub mod Pool

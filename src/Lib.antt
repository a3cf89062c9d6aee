-- ===== src/Lib.antt =====
-- VaultDrift, a self-hosted file store: files are cut into chunks by their content, the chunks are
-- stored encrypted under their digests, devices order their changes by vector clocks, background
-- jobs run on a pool of workers, requests pass an access control, and files come in by uploads into
-- a tree of folders. This library models the parts of the server that decide what is stored, sent
-- and permitted.
--
-- Common: names from the libraries, Boolean tests on native numbers, lists, and Go maps as
--   association lists (Common/Dict with string keys, Common/IntMap with int keys), with sums over
--   their values (Common/Totals) and what holds of all entries (Common/Entries).
-- Chunk, for internal/chunk. Chunk/Rabin is the arithmetic of the rolling fingerprint
--   (createRabinTable, NewChunker, pushByte, slideFingerprint) on numbers below 2^64; Chunk/Chunker
--   has Chunk and ChunkWithData, Chunk/Chunker/Stream has ChunkStream, Chunk/Index has DedupIndex,
--   and Chunk/Manifest has manifest.go with EncryptAndStore and ReassembleDecrypt of encrypted.go.
--   An io.Reader is the sequence of the portions that its reads give, and an end or an error.
--   SHA-256 and the cipher are parameters. The loop that counts bits runs on fuel 64, since 63
--   halvings bring every int64 to 1.
-- Circuit, for internal/circuit/breaker.go: the breaker's operations, each of which holds the mutex
--   for its whole body, in any interleaving (Circuit/Invariant), Execute run alone
--   (Circuit/Recovery), the retry loop (Circuit/Retries) and the registry (Circuit/Registry). The
--   clock is an argument. The uint32 fields wrap.
-- Sync/Clock, for internal/sync/vector.go. A clock is a Go map, so a list without a repeated key;
--   the order of the list is the order in which a loop meets the keys, which Go leaves open. A
--   counter wraps at 2^64.
-- Sync/Merkle, for internal/sync/merkle.go: the tree, FindNode, what buildNode computes for a directory,
--   and Diff. diffNodes takes its children out of maps, so it runs on fuel; the depth of the remote
--   tree is enough.
-- Worker, for internal/worker/pool.go: Worker/Queue is MemoryQueue and Worker/Pool the pool, which
--   takes the results of the handlers as a list. Nothing here needs fuel: the list of results is
--   the schedule, and its length is bounded by the tries that the jobs have left.
-- Auth/Rbac, for internal/auth/rbac.go: the engine with its roles and its cache of permissions, and
--   calls that overlap, in Auth/Rbac/Steps. The users' table is a parameter, of each step its own.
-- Download, for internal/server/handlers_download.go: Download/Range parses a Range header and
--   answers it, Download/Stream writes the bytes. Storage, cipher and writer are parameters.
-- Garbage: Garbage/ChunkTable is the table of chunks with the queries of internal/db/chunks.go, and
--   Garbage/Collector has collectOrphanedChunks, deleteFile and collectTrash of internal/worker/gc.go.
--   Which deletions fail, in the storage and in the table of chunks, is a parameter.
-- Files: the table of files with the statements of internal/db/files.go, under the constraints of
--   internal/db/schema.go (Files, Files/Cascade), and the table of manifests of
--   internal/db/manifests.go (Files/Manifests). Files/Vfs is internal/vfs/vfs.go on that table, Files/Trail
--   its way up the tree, Files/Name its check of names, Files/Trash internal/vfs/trash.go. A deletion
--   goes down the tree on one round of fuel more than the table has rows, which is enough since a
--   round deletes a row at least; the way up has its fuel as an argument.
-- Uploads, for internal/server/handlers_upload.go: one module per handler (Uploads/Create,
--   Uploads/Receive, Uploads/Complete, Uploads/Cancel with the status and the cleanup), the chunks that
--   they store and give back (Uploads/Chunks), the loops over a session (Uploads/Sessions), and any
--   sequence of requests (Uploads/Requests). The state is the sessions, the three tables and the
--   storage. Which calls of the storage and of DeleteChunk fail is a part of each request.
-- RateLimit, for RateLimitMiddleware of internal/server/middleware.go: a request (Limit) and the cleanup
--   (RateLimit/Cleanup), and sequences of requests with a log of those passed on (RateLimit/Log,
--   RateLimit/Window). Times are arguments.
-- Tests: runs at concrete inputs.
--
-- The database is taken to answer, except for DeleteChunk, and a statement on it to run on a connection with
-- `PRAGMA foreign_keys` on, which SQLite keeps for each connection.
--
-- The parts meet as in the code: an upload runs the chunker on each chunk it receives, counts its
-- pieces in the table of chunks, and when it is completed makes a file in the folder tree and a
-- manifest; the downloads read the chunks that a manifest names (Uploads/Downloaded); the collection
-- removes chunks by the counts that uploads take and deletions give back.
--
-- Not modelled: the other SQL tables, the HTTP routing, the storage backends and the cryptography, which
-- are input and output or calls of other packages; two requests for one upload that overlap in
-- time; and, of the code's own logic, the listing and copying of folders, the old versions, the sync
-- engine with the building of Merkle trees from paths, and the tokens.
pub mod Common
pub mod Circuit
pub mod RateLimit
pub mod Sync
pub mod Chunk
pub mod Worker
pub mod Auth
pub mod Download
pub mod Garbage
pub mod Files
pub mod Uploads
pub mod Tests

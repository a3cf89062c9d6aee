-- ===== src/Uploads/Sessions.antt =====
-- The loops of internal/server/handlers_upload.go over the chunks of one session.
pub mod Counts
pub mod Missing
use vault_drift.Common.{
  ℕ, zero, suc, ◌+◌, ◌==◌, Bool, true, false, Option, none, some, String, List, [], ◌∷◌, ◌++◌,
  length, if◌then◌else◌,
}
use vault_drift.Common.IntMap.{IntMap, at, put}
use vault_drift.Uploads.{UploadSession, Status, in_progress, completed}

abbrev pub if_absent {ℓ} : {V : Type ℓ} → Option V → ℕ → List ℕ
if_absent none index = index ∷ []
if_absent (some value) index = []

-- The loop of `getMissingChunksLocked`, after its first rounds.
unfoldable pub missing_below : ℕ → IntMap ℕ → List ℕ
missing_below zero chunks = []
missing_below (suc i) chunks = missing_below i chunks ++ if_absent (at i chunks) i

-- `getMissingChunks`
unfoldable pub get_missing_chunks : UploadSession → List ℕ
unfolding missing_below
get_missing_chunks s = missing_below s.total_chunks s.chunks

abbrev pub or_empty : Option (List String) → List String
or_empty none = []
or_empty (some hashes) = hashes

-- The loop of `completeUpload` that collects the hashes, after its first rounds.
unfoldable pub hashes_below : ℕ → IntMap (List String) → List String
hashes_below zero hashes = []
hashes_below (suc i) hashes = hashes_below i hashes ++ or_empty (at i hashes)

-- `allChunkHashes`
unfoldable pub all_chunk_hashes : UploadSession → List String
unfolding hashes_below
all_chunk_hashes s = hashes_below s.total_chunks s.chunk_hashes

-- A `range` over the hashes of a session, as in `cancelUpload`.
unfoldable pub hashes_in : IntMap (List String) → List String
hashes_in [] = []
hashes_in ((index, hashes) ∷ rest) = hashes ++ hashes_in rest

-- `uploadedBytes` and `uploadedChunks` of `getUploadStatus`.
unfoldable pub uploaded_bytes_in : IntMap ℕ → ℕ
uploaded_bytes_in [] = 0
uploaded_bytes_in ((index, size) ∷ rest) = size + uploaded_bytes_in rest

unfoldable pub uploaded_chunks_in : IntMap ℕ → List ℕ
uploaded_chunks_in [] = []
uploaded_chunks_in ((index, size) ∷ rest) = index ∷ uploaded_chunks_in rest

abbrev pub status_with : Bool → Status
status_with true = completed
status_with false = in_progress

-- What `uploadChunk` records of a chunk.
unfoldable pub record_chunk : ℕ → ℕ → List String → UploadSession → UploadSession
record_chunk index size hashes s =
    let chunks = put index size s.chunks in
    record s {
      chunks = chunks;
      chunk_hashes = put index hashes s.chunk_hashes;
      status = status_with (length chunks == s.total_chunks);
    }

-- ===== src/Uploads/Receive.antt =====
-- `uploadChunk` of internal/server/handlers_upload.go.
use vault_drift.Common.{
  ℕ, zero, suc, Bool, true, false, Option, none, some, String, List, [], ◌∷◌, length, leb,
  if◌then◌else◌,
}
use vault_drift.Common.Int.{ℤ, pos, negsuc}
use vault_drift.Common.Dict.{insert}
use vault_drift.Common.IntMap.{at}
use vault_drift.Chunk.Rabin.{Chunker}
use vault_drift.Chunk.Chunker.{Reader, eof, Result, ok, err, ChunkInfo, chunk_with_data}
use vault_drift.Files.{is_some}
use vault_drift.Uploads.{
  UploadSession, UploadHandler, Shelf, Reply, refused, already_uploaded, uploaded, bad_request,
  gone, internal_server_error, Found, refuse, session, find_session, is_expired,
}
use vault_drift.Uploads.Chunks.{max_chunk_size, read_limited, store_chunks, hashes_of}
use vault_drift.Uploads.Sessions.{record_chunk}

-- `r.ContentLength` is positive and at most `maxChunkSize`.
abbrev pub is_length_fine : ℤ → Bool
is_length_fine (pos zero) = false
is_length_fine (pos (suc n)) = leb (suc n) max_chunk_size
is_length_fine (negsuc n) = false

-- SHA-256 in hexadecimal, the chunker of the handler, and the hashes that the storage cannot take.
module _ (sha : List ℕ → String) (c : Chunker) (put_fails : String → Bool) where
  -- What follows the loop over the pieces.
  abbrev pub recorded :
      String
      → ℕ
      → ℕ
      → UploadSession
      → List ChunkInfo
      → UploadHandler
      → Bool × Shelf
      → Reply × UploadHandler
  recorded session_id index size s infos h (false, shelf) =
      (refused internal_server_error, record h { shelf = shelf })
  recorded session_id index size s infos h (true, shelf) = (
    uploaded index size (hashes_of infos),
    record h {
      shelf = shelf;
      sessions = insert session_id (record_chunk index size (hashes_of infos) s) h.sessions;
    },
  )

  abbrev pub stored :
      ℕ
      → String
      → ℕ
      → ℕ
      → UploadSession
      → UploadHandler
      → Result (List ChunkInfo × List (List ℕ))
      → Reply × UploadHandler
  stored now session_id index size s h (err e) = (refused internal_server_error, h)
  stored now session_id index size s h (ok (infos, pieces)) =
      recorded session_id index size s infos h (store_chunks put_fails now infos pieces h.shelf)

  abbrev pub received :
      ℕ → String → ℕ → UploadSession → UploadHandler → Result (List ℕ) → Reply × UploadHandler
  received now session_id index s h (err e) = (refused bad_request, h)
  received now session_id index s h (ok []) = (refused bad_request, h)
  received now session_id index s h (ok (b ∷ bs)) =
      stored now session_id index (length (b ∷ bs)) s h (chunk_with_data sha c (eof (b ∷ bs)))

  -- The part behind the search for the session.
  unfoldable pub receive :
      ℕ → String → ℕ → ℤ → Reader → UploadSession → UploadHandler → Reply × UploadHandler
  unfolding read_limited record_chunk chunk_with_data store_chunks
  receive now session_id index content_length body s h =
      if is_expired now s
      then (refused gone, h)
      else if leb s.total_chunks index
      then (refused bad_request, h)
      else if is_some (at index s.chunks)
      then (already_uploaded, h)
      else if is_length_fine content_length
      then received now session_id index s h (read_limited max_chunk_size body)
      else (refused bad_request, h)

  abbrev pub receive_found :
      ℕ → String → Option ℕ → ℤ → Reader → Found → UploadHandler → Reply × UploadHandler
  receive_found now session_id index content_length body (refuse code) h = (refused code, h)
  receive_found now session_id none content_length body (session s) h = (refused bad_request, h)
  receive_found now session_id (some index) content_length body (session s) h =
      receive now session_id index content_length body s h

  -- `uploadChunk`. The index is none where `strconv.Atoi` fails or gives a negative number.
  unfoldable pub upload_chunk :
      ℕ → String → String → Option ℕ → ℤ → Reader → UploadHandler → Reply × UploadHandler
  unfolding receive find_session
  upload_chunk now user session_id index content_length body h =
      receive_found now session_id index content_length body
        (find_session user session_id (is_some index) h) h

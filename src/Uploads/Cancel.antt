-- ===== src/Uploads/Cancel.antt =====
-- `getUploadStatus`, `cancelUpload` and `cleanupExpiredSessions` of
-- internal/server/handlers_upload.go.
use vault_drift.Common.{ℕ, true, String, [], ◌∷◌, if◌then◌else◌}
use vault_drift.Common.Dict.{Dict, delete}
use vault_drift.Garbage.Collector.{Faults}
use vault_drift.Uploads.{
  UploadSession, UploadHandler, Shelf, Reply, refused, status_of, cancelled, gone, Found, refuse,
  session, find_session, is_expired,
}
use vault_drift.Uploads.Chunks.{give_back_all, give_back_all_expired}
use vault_drift.Uploads.Sessions.{
  get_missing_chunks, hashes_in, uploaded_bytes_in, uploaded_chunks_in,
}

abbrev pub status_found : ℕ → Found → Reply
status_found now (refuse code) = refused code
status_found now (session s) =
    if is_expired now s
    then refused gone
    else status_of (record {
      status = s.status;
      uploaded_bytes = uploaded_bytes_in s.chunks;
      total_bytes = s.size;
      missing_chunks = get_missing_chunks s;
      uploaded_chunks = uploaded_chunks_in s.chunks;
    })

-- `getUploadStatus`
unfoldable pub get_upload_status : ℕ → String → String → UploadHandler → Reply
unfolding find_session get_missing_chunks uploaded_bytes_in uploaded_chunks_in
get_upload_status now user session_id h = status_found now (find_session user session_id true h)

module _ (faults : Faults) where
  abbrev pub cancel_found : String → Found → UploadHandler → Reply × UploadHandler
  cancel_found session_id (refuse code) h = (refused code, h)
  cancel_found session_id (session s) h = (
    cancelled,
    record h {
      sessions = delete session_id h.sessions;
      shelf = give_back_all faults (hashes_in s.chunk_hashes) h.shelf;
    },
  )

  -- `cancelUpload`
  unfoldable pub cancel_upload : String → String → UploadHandler → Reply × UploadHandler
  unfolding find_session give_back_all hashes_in
  cancel_upload user session_id h = cancel_found session_id (find_session user session_id true h) h

  -- One tick of `cleanupExpiredSessions`: the sessions that stay, and the chunks.
  unfoldable pub cleanup : ℕ → Dict UploadSession → Shelf → Dict UploadSession × Shelf
  unfolding give_back_all_expired hashes_in
  cleanup now [] shelf = ([], shelf)
  cleanup now ((id, s) ∷ sessions) shelf =
      let after =
        if is_expired now s
        then give_back_all_expired faults (hashes_in s.chunk_hashes) shelf
        else shelf in
      let (rest, last) = cleanup now sessions after in
      if is_expired now s then (rest, last) else ((id, s) ∷ rest, last)

  -- `cleanupExpiredSessions`
  unfoldable pub cleanup_expired_sessions : ℕ → UploadHandler → UploadHandler
  unfolding cleanup
  cleanup_expired_sessions now h =
      let (sessions, shelf) = cleanup now h.sessions h.shelf in
      record h { sessions = sessions; shelf = shelf }

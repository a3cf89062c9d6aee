-- ===== src/Uploads/Complete.antt =====
-- `completeUpload` of internal/server/handlers_upload.go. The ids that `generateID` and
-- `generateRandomString` make are arguments; the second one may fail.
use vault_drift.Common.{ℕ, true, Option, none, some, String, [], ◌∷◌, length, ltb, if◌then◌else◌}
use vault_drift.Common.Dict.{delete}
use vault_drift.Files.{Error as DbError, Files, update_file, set_manifest_id}
use vault_drift.Files.Vfs.{
  Error as VfsError, create_file, delete as delete_file, already_exists, invalid_name,
  not_found as no_file, failed,
}
use vault_drift.Files.Manifests.{Manifest, Manifests, Error, create_manifest, delete_manifest}
use vault_drift.Uploads.{
  UploadSession, UploadHandler, Reply, Refusal, refused, missing, file_completed, bad_request,
  conflict, internal_server_error, Found, refuse, session, find_session,
}
use vault_drift.Uploads.Sessions.{get_missing_chunks, all_chunk_hashes}

-- The answers to the errors of `vfs.CreateFile`.
abbrev pub code_of : VfsError → Refusal
code_of already_exists = conflict
code_of invalid_name = bad_request
code_of no_file = internal_server_error
code_of (failed e) = internal_server_error

unfoldable pub new_manifest : ℕ → String → UploadSession → Manifest
unfolding all_chunk_hashes
new_manifest now file_id s = record {
  file_id = file_id;
  version = 1;
  size_bytes = s.size;
  chunks = all_chunk_hashes s;
  checksum = s.checksum;
  device_id = "server";
  created_at = now;
}

-- The part behind `UpdateFile`; an error takes the manifest away and puts the file in the trash.
abbrev pub updated :
    ℕ → String → String → String → UploadHandler → Option DbError × Files → Reply × UploadHandler
updated now session_id file_id manifest_id h (some e, files) = (
  refused internal_server_error,
  record h {
    manifests = (delete_manifest manifest_id h.manifests).1;
    files = (delete_file now file_id files).1;
  },
)
updated now session_id file_id manifest_id h (none, files) =
    (file_completed file_id, record h { files = files; sessions = delete session_id h.sessions })

-- The part behind `CreateManifest`; an error puts the file in the trash.
abbrev pub manifested :
    ℕ → String → String → String → UploadHandler → Option Error × Manifests → Reply × UploadHandler
manifested now session_id file_id manifest_id h (some e, manifests) =
    (refused internal_server_error, record h { files = (delete_file now file_id h.files).1 })
manifested now session_id file_id manifest_id h (none, manifests) =
    updated now session_id file_id manifest_id (record h { manifests = manifests })
      (update_file now file_id (set_manifest_id manifest_id ∷ []) h.files)

-- The part behind `vfs.CreateFile`.
abbrev pub filed :
    ℕ
    → String
    → String
    → Option String
    → UploadSession
    → UploadHandler
    → Option VfsError × Files
    → Reply × UploadHandler
filed now session_id file_id manifest_id s h (some e, files) = (refused (code_of e), h)
filed now session_id file_id none s h (none, files) =
    (refused internal_server_error, record h { files = files })
filed now session_id file_id (some manifest_id) s h (none, files) =
    manifested now session_id file_id manifest_id (record h { files = files })
      (create_manifest manifest_id (new_manifest now file_id s) files h.manifests)

-- The part behind the search for the session.
unfoldable pub complete :
    ℕ
    → String
    → String
    → String
    → Option String
    → UploadSession
    → UploadHandler
    → Reply × UploadHandler
unfolding create_file create_manifest update_file delete_file delete_manifest new_manifest
    get_missing_chunks
complete now user session_id file_id manifest_id s h =
    if ltb (length s.chunks) s.total_chunks
    then (missing (get_missing_chunks s), h)
    else filed now session_id file_id manifest_id s h
        (create_file now file_id user s.parent_id s.file_name s.mime_type s.size h.files)

abbrev pub complete_found :
    ℕ → String → String → String → Option String → Found → UploadHandler → Reply × UploadHandler
complete_found now user session_id file_id manifest_id (refuse code) h = (refused code, h)
complete_found now user session_id file_id manifest_id (session s) h =
    complete now user session_id file_id manifest_id s h

-- `completeUpload`
unfoldable pub complete_upload :
    ℕ → String → String → String → Option String → UploadHandler → Reply × UploadHandler
unfolding complete find_session
complete_upload now user session_id file_id manifest_id h =
    complete_found now user session_id file_id manifest_id (find_session user session_id true h) h

-- ===== src/Uploads.antt =====
-- The upload sessions of internal/server/handlers_upload.go. A handler's request is its arguments, and its
-- response a `Reply`; the handler has its database, its storage and its virtual file system. Each
-- handler runs on its own: the locks keep others from the maps, not from what stands between two
-- locked parts. A session keeps a chunk's size of its `ChunkInfo`. Times are seconds.
pub mod Chunks
pub mod Sessions
pub mod Create
pub mod Receive
pub mod Complete
pub mod Cancel
pub mod Requests
pub mod Completed
pub mod Downloaded
use vault_drift.Common.{
  ℕ, Bool, ◌||◌, not, String, List, Option, none, some, str_eq, ltb, if◌then◌else◌,
}
use vault_drift.Common.Dict.{Dict, lookup}
use vault_drift.Common.IntMap.{IntMap}
use vault_drift.Garbage.ChunkTable.{Table}
use vault_drift.Files.{Files}
use vault_drift.Files.Manifests.{Manifests}

-- `Status` of a session.
pub data Status : Type 0 where
  pending in_progress completed : Status

-- `UploadSession`
pub record UploadSession : Type 0 where
  pub user_id : String
  pub parent_id : String
  pub file_name : String
  pub size : ℕ
  pub mime_type : String
  pub checksum : String
  pub status : Status
  pub created_at : ℕ
  pub expires_at : ℕ
  pub chunks : IntMap ℕ
  pub total_chunks : ℕ
  pub chunk_hashes : IntMap (List String)

-- The chunks of all files: the rows that count their references, and their bytes in the storage.
pub record Shelf : Type 0 where
  pub table : Table
  pub blobs : Dict (List ℕ)

-- `UploadHandler`, with the tables and the storage behind it.
pub record UploadHandler : Type 0 where
  pub sessions : Dict UploadSession
  pub shelf : Shelf
  pub files : Files
  pub manifests : Manifests

-- `DefaultChunkSize`
abbrev pub default_chunk_size : ℕ
default_chunk_size = 4194304

-- `SessionTTL`
abbrev pub session_ttl : ℕ
session_ttl = 86400

-- `MaxUploadSize`
abbrev pub max_upload_size : ℕ
max_upload_size = 10737418240

-- The status codes of the errors.
pub data Refusal : Type 0 where
  bad_request unauthorized forbidden not_found conflict gone internal_server_error : Refusal

-- `uploadStatusResponse`
pub record UploadStatus : Type 0 where
  pub status : Status
  pub uploaded_bytes : ℕ
  pub total_bytes : ℕ
  pub missing_chunks : List ℕ
  pub uploaded_chunks : List ℕ

pub data Reply : Type 0 where
  refused : Refusal → Reply
  created : String → ℕ → ℕ → Reply
  already_uploaded : Reply
  uploaded : ℕ → ℕ → List String → Reply
  missing : List ℕ → Reply
  file_completed : String → Reply
  status_of : UploadStatus → Reply
  cancelled : Reply

-- The session of a request, or the refusal.
pub data Found : Type 0 where
  refuse : Refusal → Found
  session : UploadSession → Found

abbrev pub owned : String → Option UploadSession → Found
owned user none = refuse not_found
owned user (some s) = if str_eq s.user_id user then session s else refuse forbidden

-- The checks that the handlers of a session begin with, given whether the rest of the path is valid.
unfoldable pub find_session : String → String → Bool → UploadHandler → Found
find_session user session_id is_valid h =
    if str_eq user ""
    then refuse unauthorized
    else if str_eq session_id "" || not is_valid
    then refuse bad_request
    else owned user (lookup session_id h.sessions)

-- `time.Now().After(session.ExpiresAt)`
abbrev pub is_expired : ℕ → UploadSession → Bool
is_expired now s = ltb s.expires_at now

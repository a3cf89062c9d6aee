-- ===== src/Uploads/Create.antt =====
-- `createUpload` of internal/server/handlers_upload.go.
use vault_drift.Common.{
  ℕ, zero, suc, ◌+◌, ◌-◌, ◌/◌, Option, none, some, String, [], ltb, str_eq, if◌then◌else◌,
}
use vault_drift.Common.Int.{ℤ, pos, negsuc}
use vault_drift.Common.Dict.{insert}
use vault_drift.Uploads.{
  UploadSession, UploadHandler, Reply, refused, created, bad_request, unauthorized,
  internal_server_error, pending, default_chunk_size, session_ttl, max_upload_size,
}

-- `createUploadRequest`
pub record CreateUploadRequest : Type 0 where
  pub parent_id : String
  pub name : String
  pub size : ℤ
  pub mime_type : String
  pub checksum : String

-- `int((req.Size + DefaultChunkSize - 1) / DefaultChunkSize)`
unfoldable pub chunks_for : ℕ → ℕ
chunks_for size = (size + default_chunk_size - 1) / default_chunk_size

unfoldable pub new_session : ℕ → String → CreateUploadRequest → ℕ → UploadSession
unfolding chunks_for
new_session now user req size = record {
  user_id = user;
  parent_id = req.parent_id;
  file_name = req.name;
  size = size;
  mime_type = req.mime_type;
  checksum = req.checksum;
  status = pending;
  created_at = now;
  expires_at = now + session_ttl;
  chunks = [];
  total_chunks = chunks_for size;
  chunk_hashes = [];
}

-- The part of `createUpload` behind the check that the size is positive.
abbrev pub create_sized :
    ℕ → String → Option String → CreateUploadRequest → ℕ → UploadHandler → Reply × UploadHandler
create_sized now user none req size h =
    (refused (if ltb max_upload_size size then bad_request else internal_server_error), h)
create_sized now user (some session_id) req size h =
    if ltb max_upload_size size then (refused bad_request, h) else (
      created session_id (chunks_for size) (now + session_ttl),
      record h { sessions = insert session_id (new_session now user req size) h.sessions },
    )

-- The size that may go on: `req.Size <= 0` may not.
abbrev pub positive : ℤ → Option ℕ
positive (pos zero) = none
positive (pos (suc n)) = some (suc n)
positive (negsuc n) = none

abbrev pub create_checked :
    ℕ
    → String
    → Option String
    → CreateUploadRequest
    → Option ℕ
    → UploadHandler
    → Reply × UploadHandler
create_checked now user session_id req none h = (refused bad_request, h)
create_checked now user session_id req (some size) h = create_sized now user session_id req size h

abbrev pub create_requested :
    ℕ → String → Option String → Option CreateUploadRequest → UploadHandler → Reply × UploadHandler
create_requested now user session_id none h = (refused bad_request, h)
create_requested now user session_id (some req) h =
    if str_eq req.name ""
    then (refused bad_request, h)
    else create_checked now user session_id req (positive req.size) h

-- `createUpload`, with the decoded body and what `generateSessionID` gives, if they do not fail.
unfoldable pub create_upload :
    ℕ → String → Option String → Option CreateUploadRequest → UploadHandler → Reply × UploadHandler
unfolding new_session
create_upload now user session_id req h =
    if str_eq user "" then (refused unauthorized, h) else create_requested now user session_id req h

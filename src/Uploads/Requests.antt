-- ===== src/Uploads/Requests.antt =====
-- The requests of internal/server/handlers_upload.go, and its cleanup, as the steps of a state machine.
-- In each step the calls of the storage and of `DeleteChunk` may fail in their own way; the other statements
-- of the database are taken to be answered.
pub mod Held
pub mod Settled
pub mod Readable
pub mod Tracked
use vault_drift.Common.{
  ℕ, ◌≡◌, refl, ◌⊎◌, inl, inr, ◌||◌, not, Bool, true, false, Option, none, some, String, List, [],
  ◌∷◌, str_eq, Bool-cases, Option-cases, arith, if◌then◌else◌,
}
use vault_drift.Common.Int.{ℤ}
use vault_drift.Common.Dict.{lookup}
use vault_drift.Chunk.Rabin.{Chunker}
use vault_drift.Chunk.Chunker.{Reader}
use vault_drift.Garbage.Collector.{Faults}
use vault_drift.Uploads.{
  UploadSession, UploadHandler, Refusal, Found, refuse, session, owned, find_session, unauthorized,
  bad_request, not_found, forbidden,
}
use vault_drift.Uploads.Create.{CreateUploadRequest, create_upload}
use vault_drift.Uploads.Receive.{upload_chunk}
use vault_drift.Uploads.Complete.{complete_upload}
use vault_drift.Uploads.Cancel.{cancel_upload, cleanup_expired_sessions}

-- A request that changes the state, with its time and its arguments, or a tick of the cleanup.
pub data Request : Type 0 where
  create : ℕ → String → Option String → Option CreateUploadRequest → Request
  upload : ℕ → String → String → Option ℕ → ℤ → Reader → Request
  complete : ℕ → String → String → String → Option String → Request
  cancel : String → String → Request
  tick : ℕ → Request

-- A request, with the calls that fail while it is served: another one has other failures.
abbrev pub Step : Type 0
Step = Faults × Request

module _ (sha : List ℕ → String) (c : Chunker) where
  unfoldable pub serve : Step → UploadHandler → UploadHandler
  unfolding create_upload upload_chunk complete_upload cancel_upload cleanup_expired_sessions
  serve (faults, create now user session_id req) h = (create_upload now user session_id req h).1
  serve (faults, upload now user session_id index content_length body) h =
      (upload_chunk sha c faults.put_fails now user session_id index content_length body h).1
  serve (faults, complete now user session_id file_id manifest_id) h =
      (complete_upload now user session_id file_id manifest_id h).1
  serve (faults, cancel user session_id) h = (cancel_upload faults user session_id h).1
  serve (faults, tick now) h = cleanup_expired_sessions faults now h

  unfoldable pub serve_all : List Step → UploadHandler → UploadHandler
  unfolding serve
  serve_all [] h = h
  serve_all (r ∷ rs) h = serve_all rs (serve r h)

-- What the search for a session may find.
pub find_session-cases :
    (user session_id : String) (is_valid : Bool) (h : UploadHandler)
    → ((code : Refusal) × (find_session user session_id is_valid h ≡ refuse code))
      ⊎ ((s : UploadSession) × (find_session user session_id is_valid h ≡ session s)
          × (lookup session_id h.sessions ≡ some s)
          × (str_eq s.user_id user ≡ true)
          × (is_valid ≡ true))
unfolding find_session
find_session-cases user session_id is_valid h = elim (Bool-cases (str_eq user "")) [
  | inl nobody ↦ inl (unauthorized, rw nobody refl)
  | inr known ↦ elim (Bool-cases (str_eq session_id "" || not is_valid)) [
    | inl bad ↦ inl (bad_request, rw (known, bad) refl)
    | inr fine ↦ elim (Option-cases (lookup session_id h.sessions)) [
      | inl absent ↦ inl (not_found, rw (known, fine, absent) refl)
      | inr (s, found) ↦ elim (Bool-cases (str_eq s.user_id user)) [
        | inl own ↦ inr (s, rw (known, fine, found, own) refl, found, own, ground (arith, fine))
        | inr other ↦ inl (forbidden, rw (known, fine, found, other) refl)
      ]
    ]
  ]
]

-- ===== src/Uploads/Requests/Tracked.antt =====
-- Every session of internal/server/handlers_upload.go knows which of its chunks are missing.
use vault_drift.Common.{
  branches, ℕ, zero, suc, ◌+◌, ◌-◌, ◌/◌, ◌<◌, ◌==◌, ◌≡◌, Bool, true, false, Option, none, some,
  String, List, [], ◌∷◌, All, length, leb, ltb, str_eq, arith, Bool-cases, Option-cases, inl, inr,
}
use vault_drift.Common.Int.{ℤ, pos, negsuc}
use vault_drift.Common.Dict.{Dict, lookup}
use vault_drift.Common.IntMap.{at}
use vault_drift.Common.Entries.{All-insert, All-delete, All-lookup}
use vault_drift.Chunk.Rabin.{Chunker}
use vault_drift.Chunk.Chunker.{Reader, Result, ok, err, eof, ChunkInfo, chunk_with_data}
use vault_drift.Files.{Error as DbError, Files, update_file, set_manifest_id}
use vault_drift.Files.Vfs.{Error as VfsError, create_file}
use vault_drift.Files.Manifests.{Error, Manifests, create_manifest}
use vault_drift.Garbage.Collector.{Faults}
use vault_drift.Uploads.{UploadSession, UploadHandler, Shelf, Reply, max_upload_size, is_expired}
use vault_drift.Uploads.Chunks.{max_chunk_size, read_limited, store_chunks, hashes_of}
use vault_drift.Uploads.Sessions.{get_missing_chunks}
use vault_drift.Uploads.Sessions.Missing.{
  is_completed, IsWell, missing_below-length, record_chunk-IsWell,
}
use vault_drift.Uploads.Create.{
  CreateUploadRequest, create_upload, create_checked, positive, chunks_for, new_session,
}
use vault_drift.Uploads.Receive.{upload_chunk, receive, received, stored, recorded, is_length_fine}
use vault_drift.Uploads.Complete.{
  complete_upload, complete, filed, manifested, updated, new_manifest,
}
use vault_drift.Uploads.Cancel.{cancel_upload, cleanup_expired_sessions, cleanup}
use vault_drift.Uploads.Requests.{
  Step, create, upload, complete as finish, cancel, tick, serve, serve_all, find_session-cases,
}

abbrev pub IsWellEntry : String × UploadSession → Type 0
IsWellEntry entry = IsWell entry.1

abbrev pub IsTracked : UploadHandler → Type 0
IsTracked h = All IsWellEntry h.sessions

abbrev After : Reply × UploadHandler → Type 0
After answer = IsTracked answer.1

new_session-IsWell :
    (now : ℕ) (user : String) (req : CreateUploadRequest) (n : ℕ)
    → IsWell (new_session now user req (suc n))
unfolding new_session chunks_for
new_session-IsWell now user req n = (tt, some_chunks)
  where
    some_chunks : false ≡ (0 == chunks_for (suc n))
    some_chunks =
        let more : 0 < (suc n + 4194304 - 1) / 4194304 = omega arith in ground (arith, more)

create_upload-IsTracked :
    (now : ℕ) (user : String) (session_id : Option String) (req : Option CreateUploadRequest)
    (h : UploadHandler)
    → IsTracked h
    → IsTracked (create_upload now user session_id req h).1
unfolding create_upload
create_upload-IsTracked now user session_id none h tracked =
    branches After (str_eq user "") tracked tracked
create_upload-IsTracked now user session_id (some req) h tracked =
    branches After (str_eq user "") tracked
      (branches After (str_eq req.name "") tracked (checked session_id req.size))
  where
    checked :
        (id : Option String) (size : ℤ)
        → IsTracked (create_checked now user id req (positive size) h).1
    checked id (pos zero) = tracked
    checked id (negsuc n) = tracked
    checked none (pos (suc n)) = tracked
    checked (some id) (pos (suc n)) =
        branches After (ltb max_upload_size (suc n)) tracked
          (All-insert IsWellEntry id _ h.sessions (new_session-IsWell now user req n) tracked)

module _ (sha : List ℕ → String) (c : Chunker) (put_fails : String → Bool) where
  received-IsTracked :
      (now : ℕ) (id : String) (index : ℕ) (s : UploadSession) (h : UploadHandler)
      (body : Result (List ℕ))
      → ltb index s.total_chunks ≡ true
      → at index s.chunks ≡ none
      → IsWell s
      → IsTracked h
      → IsTracked (received sha c put_fails now id index s h body).1
  received-IsTracked now id index s h (err e) below absent well tracked = tracked
  received-IsTracked now id index s h (ok []) below absent well tracked = tracked
  received-IsTracked now id index s h (ok (b ∷ bs)) below absent well tracked =
      cut (chunk_with_data sha c (eof (b ∷ bs)))
    where
      noted :
          (infos : List ChunkInfo) (answer : Bool × Shelf)
          → IsTracked (recorded sha c put_fails id index (length (b ∷ bs)) s infos h answer).1
      noted infos (false, shelf) = tracked
      noted infos (true, shelf) =
          All-insert IsWellEntry id _ h.sessions
            (record_chunk-IsWell index (length (b ∷ bs)) (hashes_of infos) s below absent well)
            tracked

      cut :
          (answer : Result (List ChunkInfo × List (List ℕ)))
          → IsTracked (stored sha c put_fails now id index (length (b ∷ bs)) s h answer).1
      cut (err e) = tracked
      cut (ok (infos, pieces)) = noted infos (store_chunks put_fails now infos pieces h.shelf)

  receive-IsTracked :
      (now : ℕ) (id : String) (index : ℕ) (content_length : ℤ) (body : Reader) (s : UploadSession)
      (h : UploadHandler)
      → IsWell s
      → IsTracked h
      → IsTracked (receive sha c put_fails now id index content_length body s h).1
  unfolding receive
  receive-IsTracked now id index content_length body s h well tracked =
      branches After (is_expired now s) tracked (elim (Bool-cases (leb s.total_chunks index)) [
        | inl past ↦ rw past tracked
        | inr within ↦
            let below : ltb index s.total_chunks ≡ true = ground (arith, within) in
            rw within (elim (Option-cases (at index s.chunks)) [
              | inr (size, there) ↦ rw there tracked
              | inl absent ↦ rw absent (
                  branches After (is_length_fine content_length)
                    (received-IsTracked now id index s h (read_limited max_chunk_size body) below
                      absent well tracked)
                    tracked)
            ])
      ])

  upload_chunk-IsTracked :
      (now : ℕ) (user id : String) (index : Option ℕ) (content_length : ℤ) (body : Reader)
      (h : UploadHandler)
      → IsTracked h
      → IsTracked (upload_chunk sha c put_fails now user id index content_length body h).1
  unfolding upload_chunk
  upload_chunk-IsTracked now user id none content_length body h tracked =
      elim (find_session-cases user id false h) [
        | inl (code, e) ↦ rw e tracked
        | inr (s, e, found, own, fine) ↦ rw e tracked
      ]
  upload_chunk-IsTracked now user id (some index) content_length body h tracked =
      elim (find_session-cases user id true h) [
        | inl (code, e) ↦ rw e tracked
        | inr (s, e, found, own, fine) ↦
            let well : IsWell s = All-lookup IsWell id s h.sessions tracked found in
            rw e (receive-IsTracked now id index content_length body s h well tracked)
      ]

filed-IsTracked :
    (now : ℕ) (id file_id : String) (manifest_id : Option String) (s : UploadSession)
    (h : UploadHandler) (answer : Option VfsError × Files)
    → IsTracked h
    → IsTracked (filed now id file_id manifest_id s h answer).1
filed-IsTracked now id file_id manifest_id s h (some e, files) tracked = tracked
filed-IsTracked now id file_id none s h (none, files) tracked = tracked
filed-IsTracked now id file_id (some manifest_id) s h (none, files) tracked =
    written (create_manifest manifest_id (new_manifest now file_id s) files h.manifests)
  where
    finished :
        (manifests : Manifests) (answer : Option DbError × Files)
        → IsTracked
            (updated now id file_id manifest_id
              (record h { files = files; manifests = manifests })
              answer).1
    finished manifests (some e, after) = tracked
    finished manifests (none, after) = All-delete IsWellEntry id h.sessions tracked

    written :
        (answer : Option Error × Manifests)
        → IsTracked (manifested now id file_id manifest_id (record h { files = files }) answer).1
    written (some e, manifests) = tracked
    written (none, manifests) =
        finished manifests (update_file now file_id (set_manifest_id manifest_id ∷ []) files)

complete_upload-IsTracked :
    (now : ℕ) (user id file_id : String) (manifest_id : Option String) (h : UploadHandler)
    → IsTracked h
    → IsTracked (complete_upload now user id file_id manifest_id h).1
unfolding complete_upload complete
complete_upload-IsTracked now user id file_id manifest_id h tracked =
    elim (find_session-cases user id true h) [
      | inl (code, e) ↦ rw e tracked
      | inr (s, e, found, own, fine) ↦ rw e (
          branches After (ltb (length s.chunks) s.total_chunks) tracked (
            filed-IsTracked now id file_id manifest_id s h
              (create_file now file_id user s.parent_id s.file_name s.mime_type s.size h.files)
              tracked))
    ]

module _ (faults : Faults) where
  cancel_upload-IsTracked :
      (user id : String) (h : UploadHandler)
      → IsTracked h
      → IsTracked (cancel_upload faults user id h).1
  unfolding cancel_upload
  cancel_upload-IsTracked user id h tracked = elim (find_session-cases user id true h) [
    | inl (code, e) ↦ rw e tracked
    | inr (s, e, found, own, fine) ↦ rw e (All-delete IsWellEntry id h.sessions tracked)
  ]

  cleanup-IsTracked :
      (now : ℕ) (sessions : Dict UploadSession) (shelf : Shelf)
      → All IsWellEntry sessions
      → All IsWellEntry (cleanup faults now sessions shelf).0
  unfolding cleanup
  cleanup-IsTracked now [] shelf tracked = tt
  cleanup-IsTracked now ((id, s) ∷ sessions) shelf tracked = elim (Bool-cases (is_expired now s)) [
    | inl late ↦ rw late (cleanup-IsTracked now sessions _ tracked.1)
    | inr early ↦ rw early (tracked.0, cleanup-IsTracked now sessions shelf tracked.1)
  ]

serve_all-IsTracked :
    (sha : List ℕ → String) (c : Chunker) (rs : List Step) (h : UploadHandler)
    → IsTracked h
    → IsTracked (serve_all sha c rs h)
unfolding serve_all serve cleanup_expired_sessions
serve_all-IsTracked sha c [] h tracked = tracked
serve_all-IsTracked sha c (step ∷ rs) h tracked = serve_all-IsTracked sha c rs _ (served step)
  where
    served : (q : Step) → IsTracked (serve sha c q h)
    served (faults, create now user id req) = create_upload-IsTracked now user id req h tracked
    served (faults, upload now user id index content_length body) =
        upload_chunk-IsTracked sha c faults.put_fails now user id index content_length body h
          tracked
    served (faults, finish now user id file_id manifest_id) =
        complete_upload-IsTracked now user id file_id manifest_id h tracked
    served (faults, cancel user id) = cancel_upload-IsTracked faults user id h tracked
    served (faults, tick now) = cleanup-IsTracked faults now h.sessions h.shelf tracked

-- However the requests follow each other from a state without a session: the missing chunks that a
-- session reports and the uploaded ones are together as many as it has, so that `completeUpload`,
-- which compares the numbers, goes on just when none is missing; and the status is that the upload is
-- completed just when all chunks are there.
pub serve_all-missing :
    (sha : List ℕ → String) (c : Chunker) (rs : List Step) (h : UploadHandler) (id : String)
    (s : UploadSession)
    → h.sessions ≡ []
    → lookup id (serve_all sha c rs h).sessions ≡ some s
    → (length (get_missing_chunks s) + length s.chunks ≡ s.total_chunks)
      × (is_completed s.status ≡ (length s.chunks == s.total_chunks))
unfolding get_missing_chunks
serve_all-missing sha c rs h id s empty found =
    let start : IsTracked h = rw empty tt in
    let tracked = serve_all-IsTracked sha c rs h start in
    let well : IsWell s = All-lookup IsWell id s _ tracked found in
    (missing_below-length s.total_chunks s.chunks well.0, well.1)

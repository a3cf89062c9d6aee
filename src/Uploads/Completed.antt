-- ===== src/Uploads/Completed.antt =====
-- What `completeUpload` of internal/server/handlers_upload.go leaves when it succeeds.
use mathlib.Core.Option.{some-injective}
use mathlib.Core.Path.{subst}
use vault_drift.Common.{
  ℕ, ◌≡◌, refl, sym, ap, ◌∙◌, true, false, Option, none, some, String, [], ◌∷◌, length, ltb,
  Bool-cases, inl, inr,
}
use vault_drift.Common.Dict.{lookup, insert, delete}
use vault_drift.Files.{Error as DbError, Files, update_file, set_manifest_id}
use vault_drift.Files.Vfs.{Error as VfsError, create_file}
use vault_drift.Files.Manifests.{Error, Manifests}
use vault_drift.Uploads.{
  UploadSession, UploadHandler, Reply, Refusal, refused, missing, file_completed, refuse, session,
  find_session,
}
use vault_drift.Uploads.Sessions.{get_missing_chunks}
use vault_drift.Uploads.Complete.{
  complete_upload, complete, filed, manifested, updated, new_manifest,
}
use vault_drift.Uploads.Requests.{find_session-cases}
use vault_drift.Uploads.Requests.Settled.{create_manifest-cases}

-- What a completed upload leaves.
abbrev pub completed :
    ℕ → String → String → String → UploadSession → Files → UploadHandler → UploadHandler
completed now id file_id manifest_id s files h = record {
  sessions = delete id h.sessions;
  shelf = h.shelf;
  files = files;
  manifests = insert manifest_id (new_manifest now file_id s) h.manifests;
}

updated-done :
    (now : ℕ) (id file_id manifest_id : String) (s : UploadSession) (h : UploadHandler)
    (files : Files) (answer : Option DbError × Files)
    → let next : UploadHandler = record h {
      files = files;
      manifests = insert manifest_id (new_manifest now file_id s) h.manifests;
    } in
      (updated now id file_id manifest_id next answer).0 ≡ file_completed file_id
      → (answer.0 ≡ none)
        × ((updated now id file_id manifest_id next answer).1
            ≡ completed now id file_id manifest_id s answer.1 h)
updated-done now id file_id manifest_id s h files (some e, after) done = absurd (cc)
updated-done now id file_id manifest_id s h files (none, after) done = (refl, refl)

filed-done :
    (now : ℕ) (id file_id manifest_id : String) (s : UploadSession) (h : UploadHandler)
    (answer : Option VfsError × Files)
    → (filed now id file_id (some manifest_id) s h answer).0 ≡ file_completed file_id
    → let last = update_file now file_id (set_manifest_id manifest_id ∷ []) answer.1 in
      (answer.0 ≡ none)
      × (last.0 ≡ none)
      × ((filed now id file_id (some manifest_id) s h answer).1
          ≡ completed now id file_id manifest_id s last.1 h)
filed-done now id file_id manifest_id s h (some e, files) done = absurd (cc)
filed-done now id file_id manifest_id s h (none, files) done =
    elim (create_manifest-cases manifest_id (new_manifest now file_id s) files h.manifests) [
      | inl e ↦ let d = sym (ap (λ a. (after_manifest a).0) e) ∙ done in absurd (cc)
      | inr (e, fresh) ↦
          let (last, same) =
            updated-done now id file_id manifest_id s h files
              (update_file now file_id (set_manifest_id manifest_id ∷ []) files)
              (sym (ap (λ a. (after_manifest a).0) e) ∙ done) in
          (refl, last, ap (λ a. (after_manifest a).1) e ∙ same)
    ]
  where
    after_manifest : Option Error × Manifests → Reply × UploadHandler
    after_manifest answer =
        manifested now id file_id manifest_id (record h { files = files }) answer

-- What `completeUpload` does for a session that the search found.
complete_upload-refused :
    (now : ℕ) (user id file_id : String) (manifest_id : Option String) (code : Refusal)
    (h : UploadHandler)
    → find_session user id true h ≡ refuse code
    → complete_upload now user id file_id manifest_id h ≡ (refused code, h)
unfolding complete_upload
complete_upload-refused now user id file_id manifest_id code h e = rw e refl

pub complete_upload-missing :
    (now : ℕ) (user id file_id : String) (manifest_id : Option String) (s : UploadSession)
    (h : UploadHandler)
    → find_session user id true h ≡ session s
    → ltb (length s.chunks) s.total_chunks ≡ true
    → complete_upload now user id file_id manifest_id h ≡ (missing (get_missing_chunks s), h)
unfolding complete_upload complete
complete_upload-missing now user id file_id manifest_id s h e few = rw (e, few) refl

pub complete_upload-filed :
    (now : ℕ) (user id file_id : String) (manifest_id : Option String) (s : UploadSession)
    (h : UploadHandler)
    → find_session user id true h ≡ session s
    → ltb (length s.chunks) s.total_chunks ≡ false
    → complete_upload now user id file_id manifest_id h
      ≡ filed now id file_id manifest_id s h
          (create_file now file_id user s.parent_id s.file_name s.mime_type s.size h.files)
unfolding complete_upload complete
complete_upload-filed now user id file_id manifest_id s h e enough = rw (e, enough) refl

-- What holds when the answer is that the upload is completed: each call before it succeeded.
abbrev pub IsDone : ℕ → String → String → String → String → UploadHandler → UploadSession → Type 0
IsDone now user id file_id manifest_id h s =
    let made = create_file now file_id user s.parent_id s.file_name s.mime_type s.size h.files in
    let last = update_file now file_id (set_manifest_id manifest_id ∷ []) made.1 in
    (made.0 ≡ none)
    × (last.0 ≡ none)
    × ((complete_upload now user id file_id (some manifest_id) h).1
        ≡ completed now id file_id manifest_id s last.1 h)

pub complete_upload-IsDone :
    (now : ℕ) (user id file_id manifest_id : String) (s : UploadSession) (h : UploadHandler)
    → lookup id h.sessions ≡ some s
    → (complete_upload now user id file_id (some manifest_id) h).0 ≡ file_completed file_id
    → IsDone now user id file_id manifest_id h s
complete_upload-IsDone now user id file_id manifest_id s h found done =
    elim (find_session-cases user id true h) [
      | inl (code, e) ↦
          let d =
            sym (
              ap (λ a. a.0)
                (complete_upload-refused now user id file_id (some manifest_id) code h e))
            ∙ done in
          absurd (cc)
      | inr (t, e, there, own, fine) ↦
          subst (IsDone now user id file_id manifest_id h) (some-injective t s (sym there ∙ found))
            (of_session t e)
    ]
  where
    of_session :
        (t : UploadSession)
        → find_session user id true h ≡ session t
        → IsDone now user id file_id manifest_id h t
    of_session t e = elim (Bool-cases (ltb (length t.chunks) t.total_chunks)) [
      | inl few ↦
          let d =
            sym (
              ap (λ a. a.0)
                (complete_upload-missing now user id file_id (some manifest_id) t h e few))
            ∙ done in
          absurd (cc)
      | inr enough ↦
          let same = complete_upload-filed now user id file_id (some manifest_id) t h e enough in
          let (made, last, left) =
            filed-done now id file_id manifest_id t h
              (create_file now file_id user t.parent_id t.file_name t.mime_type t.size h.files)
              (sym (ap (λ a. a.0) same) ∙ done) in
          (made, last, ap (λ a. a.1) same ∙ left)
    ]

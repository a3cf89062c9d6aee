-- ===== src/Uploads/Requests/Settled.antt =====
-- The references held by the uploads of internal/server/handlers_upload.go are counted after every request.
use vault_drift.Common.{
  branches, ℕ, ◌+◌, ◌-◌, ◌≤◌, ◌≡◌, refl, ap, ◌∙◌, ◌⊎◌, ◌||◌, Bool, true, false, Option, none, some,
  String, List, [], ◌∷◌, length, ltb, arith, Bool-cases, Option-cases, inl, inr,
}
use vault_drift.Common.Dict.{Dict, lookup, insert, delete, lookup-insert_self}
use vault_drift.Common.Totals.{total, weight_of, total-insert, total-delete}
use vault_drift.Chunk.Rabin.{Chunker}
use vault_drift.Garbage.Collector.Release.{count, refs_of, release_all-refs}
use vault_drift.Files.{Error as DbError, Files, is_some, update_file, set_manifest_id}
use vault_drift.Files.Vfs.{Error as VfsError, create_file}
use vault_drift.Files.Manifests.{
  Manifest, Manifests, create_manifest, delete_manifest, failed_to_create, has_version,
}
use vault_drift.Garbage.Collector.{Faults}
use vault_drift.Uploads.{UploadSession, UploadHandler, Shelf, Reply, is_expired}
use vault_drift.Uploads.Chunks.{give_back_all, give_back_all_expired}
use vault_drift.Uploads.Chunks.Counted.{refs}
use vault_drift.Uploads.Chunks.Released.{
  to_store, give_back_all-release, give_back_all_expired-release,
}
use vault_drift.Uploads.Sessions.{hashes_in, all_chunk_hashes}
use vault_drift.Uploads.Sessions.Counts.{hashes_below-count}
use vault_drift.Uploads.Complete.{complete_upload, complete, filed, updated, new_manifest}
use vault_drift.Uploads.Cancel.{cancel_upload, cleanup_expired_sessions, cleanup}
use vault_drift.Uploads.Requests.{
  Step, create, upload, complete as finish, cancel, tick, serve, serve_all, find_session-cases,
}
use vault_drift.Uploads.Requests.Held.{
  in_session, in_manifest, held, IsCounted, create_upload-IsCounted, upload_chunk-IsCounted,
}

pub create_manifest-cases :
    (id : String) (m : Manifest) (files : Files) (t : Manifests)
    → (create_manifest id m files t ≡ (some failed_to_create, t))
      ⊎ ((create_manifest id m files t ≡ (none, insert id m t)) × (lookup id t ≡ none))
unfolding create_manifest
create_manifest-cases id m files t =
    elim (Bool-cases (is_some (lookup id t) || has_version m.file_id m.version t)) [
      | inl taken ↦ inl (rw taken refl)
      | inr free ↦ elim (Bool-cases (is_some (lookup m.file_id files))) [
        | inl there ↦ inr (rw (free, there) refl, absent _ (lookup id t) free)
        | inr gone ↦ inl (rw (free, gone) refl)
      ]
    ]
  where
    absent : (b : Bool) (o : Option Manifest) → (is_some o || b) ≡ false → o ≡ none
    absent b none h = refl
    absent b (some n) h = absurd (ground (arith, h))

delete_manifest-none :
    (id : String) (t : Manifests) → lookup id t ≡ none → (delete_manifest id t).1 ≡ t
unfolding delete_manifest
delete_manifest-none id t absent = rw (absent, delete_manifest) refl

delete_manifest-some :
    (id : String) (m : Manifest) (t : Manifests)
    → lookup id t ≡ some m
    → (delete_manifest id t).1 ≡ delete id t
unfolding delete_manifest
delete_manifest-some id m t found = rw (found, delete_manifest) refl

delete_manifest-total :
    (weight : Manifest → ℕ) (id : String) (t : Manifests)
    → total weight (delete_manifest id t).1 + weight_of weight (lookup id t) ≤ total weight t
delete_manifest-total weight id t = elim (Option-cases (lookup id t)) [
  | inl absent ↦ rw (delete_manifest-none id t absent, absent) (omega arith)
  | inr (m, found) ↦ rw (delete_manifest-some id m t found) (total-delete weight id t)
]

module _ (hash : String) where
  abbrev After : Reply × UploadHandler → Type 0
  After answer = IsCounted hash answer.1

  -- The session gives its references to the manifest.
  updated-IsCounted :
      (now : ℕ) (id file_id manifest_id : String) (s : UploadSession) (h : UploadHandler)
      (answer : Option DbError × Files)
      → lookup id h.sessions ≡ some s
      → lookup manifest_id h.manifests ≡ none
      → IsCounted hash h
      → IsCounted hash
          (updated now id file_id manifest_id
            (record h { manifests = insert manifest_id (new_manifest now file_id s) h.manifests })
            answer).1
  unfolding new_manifest all_chunk_hashes
  updated-IsCounted now id file_id manifest_id s h (some e, files) found fresh counted =
      let m : Manifest = new_manifest now file_id s in
      let w : Manifest → ℕ = in_manifest hash in
      let sum = total-insert w manifest_id m h.manifests in
      let back = delete_manifest-total w manifest_id (insert manifest_id m h.manifests) in
      let there : weight_of w (lookup manifest_id (insert manifest_id m h.manifests)) ≡ w m =
        ap (weight_of w) (lookup-insert_self manifest_id m h.manifests) in
      omega (arith, sum, back, there, counted)
  updated-IsCounted now id file_id manifest_id s h (none, files) found fresh counted =
      let m : Manifest = new_manifest now file_id s in
      let sum = total-insert (in_manifest hash) manifest_id m h.manifests in
      let gone = total-delete (in_session hash) id h.sessions in
      let old : weight_of (in_session hash) (lookup id h.sessions) ≡ in_session hash s =
        ap (weight_of (in_session hash)) found in
      let less : in_manifest hash m ≤ in_session hash s =
        hashes_below-count hash s.total_chunks s.chunk_hashes in
      omega (arith, sum, gone, old, less, counted)

  filed-IsCounted :
      (now : ℕ) (id file_id : String) (manifest_id : Option String) (s : UploadSession)
      (h : UploadHandler) (answer : Option VfsError × Files)
      → lookup id h.sessions ≡ some s
      → IsCounted hash h
      → IsCounted hash (filed now id file_id manifest_id s h answer).1
  filed-IsCounted now id file_id manifest_id s h (some e, files) found counted = counted
  filed-IsCounted now id file_id none s h (none, files) found counted = counted
  filed-IsCounted now id file_id (some manifest_id) s h (none, files) found counted =
      elim (create_manifest-cases manifest_id (new_manifest now file_id s) files h.manifests) [
        | inl e ↦ rw e counted
        | inr (e, fresh) ↦ rw e (
            updated-IsCounted now id file_id manifest_id s (record h { files = files })
              (update_file now file_id (set_manifest_id manifest_id ∷ []) files) found fresh
              counted)
      ]

  complete_upload-IsCounted :
      (now : ℕ) (user id file_id : String) (manifest_id : Option String) (h : UploadHandler)
      → IsCounted hash h
      → IsCounted hash (complete_upload now user id file_id manifest_id h).1
  unfolding complete_upload complete
  complete_upload-IsCounted now user id file_id manifest_id h counted =
      elim (find_session-cases user id true h) [
        | inl (code, e) ↦ rw e counted
        | inr (s, e, found, own, fine) ↦ rw e (
            branches After (ltb (length s.chunks) s.total_chunks) counted (
              filed-IsCounted now id file_id manifest_id s h
                (create_file now file_id user s.parent_id s.file_name s.mime_type s.size h.files)
                found counted))
      ]

  module _ (faults : Faults) where
    give_back_all-refs :
        (hashes : List String) (s : Shelf)
        → refs hash (give_back_all faults hashes s) ≡ refs hash s - count hash hashes
    give_back_all-refs hashes s =
        ap (λ store. refs_of (lookup hash store.table)) (give_back_all-release faults hashes s)
        ∙ (release_all-refs faults hashes hash (to_store s)).0

    give_back_all_expired-refs :
        (hashes : List String) (s : Shelf)
        → refs hash (give_back_all_expired faults hashes s) ≡ refs hash s - count hash hashes
    give_back_all_expired-refs hashes s =
        ap (λ store. refs_of (lookup hash store.table))
          (give_back_all_expired-release faults hashes s)
        ∙ (release_all-refs faults hashes hash (to_store s)).0

    cancel_upload-IsCounted :
        (user id : String) (h : UploadHandler)
        → IsCounted hash h
        → IsCounted hash (cancel_upload faults user id h).1
    unfolding cancel_upload
    cancel_upload-IsCounted user id h counted = elim (find_session-cases user id true h) [
      | inl (code, e) ↦ rw e counted
      | inr (s, e, found, own, fine) ↦
          let gone = total-delete (in_session hash) id h.sessions in
          let old : weight_of (in_session hash) (lookup id h.sessions) ≡ in_session hash s =
            ap (weight_of (in_session hash)) found in
          let left = give_back_all-refs (hashes_in s.chunk_hashes) h.shelf in
          rw e (omega (arith, gone, old, left, counted))
    ]

    cleanup-IsCounted :
        (now others : ℕ) (sessions : Dict UploadSession) (shelf : Shelf)
        → total (in_session hash) sessions + others ≤ refs hash shelf
        → let answer = cleanup faults now sessions shelf in
          total (in_session hash) answer.0 + others ≤ refs hash answer.1
    unfolding cleanup
    cleanup-IsCounted now others [] shelf counted = counted
    cleanup-IsCounted now others ((id, s) ∷ sessions) shelf counted =
        elim (Bool-cases (is_expired now s)) [
          | inl late ↦
              let after : Shelf = give_back_all_expired faults (hashes_in s.chunk_hashes) shelf in
              let left = give_back_all_expired-refs (hashes_in s.chunk_hashes) shelf in
              rw late (cleanup-IsCounted now others sessions after (omega (arith, counted, left)))
          | inr early ↦
              let rest =
                cleanup-IsCounted now (in_session hash s + others) sessions shelf
                  (omega (arith, counted)) in
              rw early (omega (arith, rest))
        ]

    cleanup_expired_sessions-IsCounted :
        (now : ℕ) (h : UploadHandler)
        → IsCounted hash h
        → IsCounted hash (cleanup_expired_sessions faults now h)
    unfolding cleanup_expired_sessions
    cleanup_expired_sessions-IsCounted now h counted =
        cleanup-IsCounted now (total (in_manifest hash) h.manifests) h.sessions h.shelf counted

-- However the requests follow each other, and whichever calls of the storage and of `DeleteChunk` fail in each of
-- them, while the other statements of the database are answered: a chunk has at least as many references
-- counted in its row as the sessions and the manifests together name it, if that held before. So no
-- cancelled, expired or failed upload takes a chunk from another one or from a file.
pub serve_all-held :
    (sha : List ℕ → String) (c : Chunker) (rs : List Step) (hash : String) (h : UploadHandler)
    → held hash h ≤ refs hash h.shelf
    → let after = serve_all sha c rs h in held hash after ≤ refs hash after.shelf
unfolding serve_all serve
serve_all-held sha c [] hash h counted = counted
serve_all-held sha c (step ∷ rs) hash h counted = serve_all-held sha c rs hash _ (served step)
  where
    served : (q : Step) → IsCounted hash (serve sha c q h)
    served (faults, create now user id req) = create_upload-IsCounted hash now user id req h counted
    served (faults, upload now user id index content_length body) =
        upload_chunk-IsCounted hash sha c faults.put_fails now user id index content_length body h
          counted
    served (faults, finish now user id file_id manifest_id) =
        complete_upload-IsCounted hash now user id file_id manifest_id h counted
    served (faults, cancel user id) = cancel_upload-IsCounted hash faults user id h counted
    served (faults, tick now) = cleanup_expired_sessions-IsCounted hash faults now h counted

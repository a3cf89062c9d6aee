-- ===== src/Uploads/Requests/Readable.antt =====
-- The chunks that the uploads and the manifests of internal/server/handlers_upload.go name can be read.
use vault_drift.Common.{
  branches, All, ℕ, ◌≤◌, ◌<◌, ◌≡◌, refl, ap, Bool, true, false, Option, none, some, String, List,
  [], ◌∷◌, length, leb, ltb, str_eq, arith, Bool-cases, inl, inr,
}
use vault_drift.Common.Int.{ℤ}
use vault_drift.Common.Dict.{Dict, lookup}
use vault_drift.Common.IntMap.{at}
use vault_drift.Chunk.Rabin.{Chunker}
use vault_drift.Chunk.Chunker.{Reader, Result, ok, err, eof, ChunkInfo}
use vault_drift.Chunk.Chunker.Contents.{chunk_with_data-partitions}
use vault_drift.Garbage.Collector.Release.{refs_of}
use vault_drift.Files.{Error as DbError, Files, is_some, update_file, set_manifest_id}
use vault_drift.Files.Vfs.{Error as VfsError, create_file}
use vault_drift.Files.Manifests.{Error, Manifests, create_manifest}
use vault_drift.Garbage.Collector.{Faults}
use vault_drift.Uploads.{UploadSession, UploadHandler, Shelf, Reply, max_upload_size, is_expired}
use vault_drift.Uploads.Chunks.{max_chunk_size, read_limited, store_chunks}
use vault_drift.Uploads.Chunks.Counted.{refs}
use vault_drift.Uploads.Chunks.Kept.{
  IsKept, store_chunks-IsKept, give_back_all-IsKept, give_back_all_expired-IsKept,
}
use vault_drift.Uploads.Sessions.{hashes_in}
use vault_drift.Uploads.Create.{CreateUploadRequest, create_upload, create_checked, positive}
use vault_drift.Uploads.Receive.{upload_chunk, receive, received, recorded, is_length_fine}
use vault_drift.Uploads.Complete.{
  complete_upload, complete, filed, manifested, updated, new_manifest,
}
use vault_drift.Uploads.Cancel.{cancel_upload, cleanup_expired_sessions, cleanup}
use vault_drift.Uploads.Requests.{
  Step, create, upload, complete as finish, cancel, tick, serve, serve_all, find_session-cases,
}
use vault_drift.Uploads.Requests.Held.{held}
use vault_drift.Uploads.Requests.Settled.{serve_all-held}

-- Requests that leave the chunks alone.
module _ (P : Shelf → Type 0) where
  abbrev After : Reply × UploadHandler → Type 0
  After answer = P answer.1.shelf

  create_upload-shelf :
      (now : ℕ) (user : String) (session_id : Option String) (req : Option CreateUploadRequest)
      (h : UploadHandler)
      → P h.shelf
      → P (create_upload now user session_id req h).1.shelf
  unfolding create_upload
  create_upload-shelf now user session_id none h same = branches After (str_eq user "") same same
  create_upload-shelf now user session_id (some req) h same =
      branches After (str_eq user "") same
        (branches After (str_eq req.name "") same (checked session_id (positive req.size)))
    where
      checked :
          (id : Option String) (size : Option ℕ) → P (create_checked now user id req size h).1.shelf
      checked id none = same
      checked none (some size) = same
      checked (some id) (some size) = branches After (ltb max_upload_size size) same same

  filed-shelf :
      (now : ℕ) (id file_id : String) (manifest_id : Option String) (s : UploadSession)
      (h : UploadHandler) (answer : Option VfsError × Files)
      → P h.shelf
      → P (filed now id file_id manifest_id s h answer).1.shelf
  filed-shelf now id file_id manifest_id s h (some e, files) same = same
  filed-shelf now id file_id none s h (none, files) same = same
  filed-shelf now id file_id (some manifest_id) s h (none, files) same =
      written (create_manifest manifest_id (new_manifest now file_id s) files h.manifests)
    where
      finished :
          (manifests : Manifests) (answer : Option DbError × Files)
          → P
              (updated now id file_id manifest_id
                (record h { files = files; manifests = manifests })
                answer).1.shelf
      finished manifests (some e, after) = same
      finished manifests (none, after) = same

      written :
          (answer : Option Error × Manifests)
          → P (manifested now id file_id manifest_id (record h { files = files }) answer).1.shelf
      written (some e, manifests) = same
      written (none, manifests) =
          finished manifests (update_file now file_id (set_manifest_id manifest_id ∷ []) files)

  pub complete_upload-shelf :
      (now : ℕ) (user id file_id : String) (manifest_id : Option String) (h : UploadHandler)
      → P h.shelf
      → P (complete_upload now user id file_id manifest_id h).1.shelf
  unfolding complete_upload complete
  complete_upload-shelf now user id file_id manifest_id h same =
      elim (find_session-cases user id true h) [
        | inl (code, e) ↦ rw e same
        | inr (s, e, found, own, fine) ↦ rw e (
            branches After (ltb (length s.chunks) s.total_chunks) same (
              filed-shelf now id file_id manifest_id s h
                (create_file now file_id user s.parent_id s.file_name s.mime_type s.size h.files)
                same))
      ]

module _ (sha : List ℕ → String) (hash : String) where
  abbrev IsKeptIn : Reply × UploadHandler → Type 0
  IsKeptIn answer = IsKept sha hash answer.1.shelf

  module _ (c : Chunker) (put_fails : String → Bool) where
    received-IsKept :
        (now : ℕ) (id : String) (index : ℕ) (s : UploadSession) (h : UploadHandler)
        (body : Result (List ℕ))
        → IsKept sha hash h.shelf
        → IsKept sha hash (received sha c put_fails now id index s h body).1.shelf
    received-IsKept now id index s h (err e) kept = kept
    received-IsKept now id index s h (ok []) kept = kept
    received-IsKept now id index s h (ok (b ∷ bs)) kept =
        let ((a, e, whole, described), same) =
          chunk_with_data-partitions sha c (eof (b ∷ bs)) (b ∷ bs) refl in
        rw e (
          noted a.0 (store_chunks put_fails now a.0 a.1 h.shelf)
            (rw described (store_chunks-IsKept sha put_fails now 0 a.1 hash h.shelf kept)))
      where
        noted :
            (infos : List ChunkInfo) (answer : Bool × Shelf)
            → IsKept sha hash answer.1
            → IsKept sha hash
                (recorded sha c put_fails id index (length (b ∷ bs)) s infos h answer).1.shelf
        noted infos (true, shelf) later = later
        noted infos (false, shelf) later = later

    upload_chunk-IsKept :
        (now : ℕ) (user id : String) (index : Option ℕ) (content_length : ℤ) (body : Reader)
        (h : UploadHandler)
        → IsKept sha hash h.shelf
        → IsKept sha hash
            (upload_chunk sha c put_fails now user id index content_length body h).1.shelf
    unfolding upload_chunk receive
    upload_chunk-IsKept now user id none content_length body h kept =
        elim (find_session-cases user id false h) [
          | inl (code, e) ↦ rw e kept
          | inr (s, e, found, own, fine) ↦ rw e kept
        ]
    upload_chunk-IsKept now user id (some index) content_length body h kept =
        elim (find_session-cases user id true h) [
          | inl (code, e) ↦ rw e kept
          | inr (s, e, found, own, fine) ↦ rw e (
              branches IsKeptIn (is_expired now s) kept (
                branches IsKeptIn (leb s.total_chunks index) kept (
                  branches IsKeptIn (is_some (at index s.chunks)) kept (
                    branches IsKeptIn (is_length_fine content_length)
                      (received-IsKept now id index s h (read_limited max_chunk_size body) kept)
                      kept))))
        ]

  module _ (faults : Faults) where
    cancel_upload-IsKept :
        (user id : String) (h : UploadHandler)
        → faults.drop_fails hash ≡ false
        → IsKept sha hash h.shelf
        → IsKept sha hash (cancel_upload faults user id h).1.shelf
    unfolding cancel_upload
    cancel_upload-IsKept user id h works kept = elim (find_session-cases user id true h) [
      | inl (code, e) ↦ rw e kept
      | inr (s, e, found, own, fine) ↦
          rw e (give_back_all-IsKept sha faults (hashes_in s.chunk_hashes) hash h.shelf works kept)
    ]

    cleanup-IsKept :
        (now : ℕ) (sessions : Dict UploadSession) (shelf : Shelf)
        → faults.drop_fails hash ≡ false
        → IsKept sha hash shelf
        → IsKept sha hash (cleanup faults now sessions shelf).1
    unfolding cleanup
    cleanup-IsKept now [] shelf works kept = kept
    cleanup-IsKept now ((id, s) ∷ sessions) shelf works kept =
        elim (Bool-cases (is_expired now s)) [
          | inl late ↦ rw late (
              cleanup-IsKept now sessions _ works (
                give_back_all_expired-IsKept sha faults (hashes_in s.chunk_hashes) hash shelf works
                  kept))
          | inr early ↦ rw early (cleanup-IsKept now sessions shelf works kept)
        ]

-- No call of `DeleteChunk` for the hash fails.
abbrev pub Drops : String → List Step → Type 0
Drops hash rs = All (λ step. step.0.drop_fails hash ≡ false) rs

pub serve_all-IsKept :
    (sha : List ℕ → String) (c : Chunker) (rs : List Step) (hash : String) (h : UploadHandler)
    → Drops hash rs
    → IsKept sha hash h.shelf
    → IsKept sha hash (serve_all sha c rs h).shelf
unfolding serve_all serve cleanup_expired_sessions
serve_all-IsKept sha c [] hash h drops kept = kept
serve_all-IsKept sha c (step ∷ rs) hash h drops kept =
    serve_all-IsKept sha c rs hash _ drops.1 (served step drops.0)
  where
    served : (q : Step) → q.0.drop_fails hash ≡ false → IsKept sha hash (serve sha c q h).shelf
    served (faults, create now user id req) works =
        create_upload-shelf (IsKept sha hash) now user id req h kept
    served (faults, upload now user id index content_length body) works =
        upload_chunk-IsKept sha hash c faults.put_fails now user id index content_length body h kept
    served (faults, finish now user id file_id manifest_id) works =
        complete_upload-shelf (IsKept sha hash) now user id file_id manifest_id h kept
    served (faults, cancel user id) works =
        cancel_upload-IsKept sha hash faults user id h works kept
    served (faults, tick now) works =
        cleanup-IsKept sha hash faults now h.sessions h.shelf works kept

-- However the requests follow each other, and whichever calls of the storage fail in each of them, as long
-- as `DeleteChunk` deletes the row of the hash and the other statements of the database are answered: if a
-- hash with a row had its bytes in the storage before, and the row counted the references that the sessions and
-- manifests hold, then a hash that a session or a manifest names afterwards has bytes in the storage,
-- and they are bytes with this hash.
pub serve_all-readable :
    (sha : List ℕ → String) (c : Chunker) (rs : List Step) (hash : String) (h : UploadHandler)
    → Drops hash rs
    → held hash h ≤ refs hash h.shelf
    → IsKept sha hash h.shelf
    → 0 < held hash (serve_all sha c rs h)
    → (bytes : List ℕ) × (lookup hash (serve_all sha c rs h).shelf.blobs ≡ some bytes)
      × (sha bytes ≡ hash)
serve_all-readable sha c rs hash h drops counted kept named =
    elim (serve_all-IsKept sha c rs hash h drops kept) [
      | inl absent ↦
          let still = serve_all-held sha c rs hash h counted in
          absurd (omega (arith, still, named, ap refs_of absent))
      | inr there ↦ there
    ]

-- ===== src/Uploads/Downloaded.antt =====
-- From `completeUpload` of internal/server/handlers_upload.go to `streamContent` of
-- internal/server/handlers_download.go: a completed upload is downloaded as it was uploaded.
use mathlib.Core.List.{map-append}
use mathlib.Core.Option.{some-injective}
use vault_drift.Common.{
  ℕ, zero, suc, ◌≤◌, ◌<◌, ◌≡◌, refl, sym, ap, ◌∙◌, Option, none, some, String, List, [], ◌∷◌, ◌++◌,
  map, All, concat, eq_iff, arith, inl, inr,
}
use vault_drift.Common.Dict.{Dict, lookup, lookup-insert_self, lookup-delete}
use vault_drift.Common.Totals.{weight_of, total-delete}
use vault_drift.Common.IntMap.{IntMap, at}
use vault_drift.Chunk.Chunker.{Result, ok, err}
use vault_drift.Download.Stream.{Fetch, Writer, stream_content}
use vault_drift.Download.Stream.Slice.{Stored, stream_content-writes_from}
use vault_drift.Garbage.Collector.Release.{count, refs_of}
use vault_drift.Files.{File, Files, update_file, set_manifest_id}
use vault_drift.Files.Vfs.{wrapped, create_file, new_file}
use vault_drift.Files.Manifests.{Manifest}
use vault_drift.Uploads.{UploadSession, UploadHandler, Shelf, file_completed}
use vault_drift.Uploads.Chunks.Counted.{refs}
use vault_drift.Uploads.Chunks.Kept.{IsKept}
use vault_drift.Uploads.Sessions.{hashes_below, all_chunk_hashes}
use vault_drift.Uploads.Sessions.Counts.{hashes_below-count}
use vault_drift.Uploads.Complete.{complete_upload, new_manifest}
use vault_drift.Uploads.Requests.Held.{in_session, held}
use vault_drift.Uploads.Completed.{complete_upload-IsDone}
use vault_drift.Files.Vfs.Found.{create-none}
use vault_drift.Files.Trail.Loops.{update_row-done}

-- The session has recorded, for each index below `n`, the hashes of the pieces.
abbrev pub IsRecorded : (List ℕ → String) → ℕ → IntMap (List String) → (ℕ → List (List ℕ)) → Type 0
IsRecorded sha zero m pieces = Unit
IsRecorded sha (suc i) m pieces = (at i m ≡ some (map sha (pieces i))) × IsRecorded sha i m pieces

-- The pieces of all indices in their order.
abbrev pub all_pieces : ℕ → (ℕ → List (List ℕ)) → List (List ℕ)
all_pieces zero pieces = []
all_pieces (suc i) pieces = all_pieces i pieces ++ pieces i

abbrev pub answered : Option (List ℕ) → Result (List ℕ)
answered none = err "chunk not found"
answered (some bytes) = ok bytes

-- The storage as a download reads it.
abbrev pub fetch_from : Dict (List ℕ) → Fetch
fetch_from blobs hash = answered (lookup hash blobs)

hashes_below-pieces :
    (sha : List ℕ → String) (n : ℕ) (m : IntMap (List String)) (pieces : ℕ → List (List ℕ))
    → IsRecorded sha n m pieces
    → hashes_below n m ≡ map sha (all_pieces n pieces)
unfolding hashes_below
hashes_below-pieces sha zero m pieces recorded = refl
hashes_below-pieces sha (suc i) m pieces recorded =
    rw (recorded.0, hashes_below-pieces sha i m pieces recorded.1)
      (sym (map-append sha (all_pieces i pieces) (pieces i)))

-- No other bytes in the storage have the hash of the piece.
abbrev pub IsAlone : (List ℕ → String) → Dict (List ℕ) → List ℕ → Type 0
IsAlone sha blobs piece =
    (bytes : List ℕ) → lookup (sha piece) blobs ≡ some bytes → sha bytes ≡ sha piece → bytes ≡ piece

-- The pieces can be fetched under their hashes, if bytes with these hashes can.
Stored-pieces :
    (sha : List ℕ → String) (blobs : Dict (List ℕ)) (pieces : List (List ℕ))
    → All (IsAlone sha blobs) pieces
    → All
        (λ piece.
          (bytes : List ℕ) × (lookup (sha piece) blobs ≡ some bytes) × (sha bytes ≡ sha piece))
        pieces
    → Stored (fetch_from blobs) (map sha pieces) pieces
Stored-pieces sha blobs [] alone there = tt
Stored-pieces sha blobs (piece ∷ pieces) alone ((bytes, found, hashed), there) = (
  ap answered found ∙ ap ok (alone.0 bytes found hashed),
  Stored-pieces sha blobs pieces alone.1 there,
)

-- A row that is counted stands for bytes in the storage.
kept-bytes :
    (sha : List ℕ → String) (hash : String) (s : Shelf)
    → 0 < refs hash s
    → IsKept sha hash s
    → (bytes : List ℕ) × (lookup hash s.blobs ≡ some bytes) × (sha bytes ≡ hash)
kept-bytes sha hash s more (inl absent) = absurd (omega (arith, more, ap refs_of absent))
kept-bytes sha hash s more (inr there) = there

-- Each piece named among the hashes has its bytes.
pieces-kept :
    (sha : List ℕ → String) (s : Shelf) (pieces : List (List ℕ))
    → ((hash : String) → count hash (map sha pieces) ≤ refs hash s)
    → ((hash : String) → IsKept sha hash s)
    → All
        (λ piece.
          (bytes : List ℕ) × (lookup (sha piece) s.blobs ≡ some bytes) × (sha bytes ≡ sha piece))
        pieces
pieces-kept sha s [] within kept = tt
pieces-kept sha s (piece ∷ pieces) within kept =
    let here = within (sha piece) in
    let e = (eq_iff (sha piece) (sha piece)).1 refl in
    (
      kept-bytes sha (sha piece) s (ground (arith, here, e)) (kept (sha piece)),
      pieces-kept sha s pieces (λ hash. omega (arith, within hash)) kept,
    )

new_manifest-file_id :
    (now : ℕ) (file_id : String) (s : UploadSession)
    → (new_manifest now file_id s).file_id ≡ file_id
unfolding new_manifest
new_manifest-file_id now file_id s = refl

new_manifest-chunks :
    (now : ℕ) (file_id : String) (s : UploadSession)
    → (new_manifest now file_id s).chunks ≡ hashes_below s.total_chunks s.chunk_hashes
unfolding new_manifest all_chunk_hashes
new_manifest-chunks now file_id s = refl

new_file-name :
    (now : ℕ) (user parent name mime_type : String) (size : ℕ)
    → (new_file now user parent name mime_type size).name ≡ name
unfolding new_file
new_file-name now user parent name mime_type size = refl

-- The row after an update without an error.
updated-row :
    (now : ℕ) (id manifest_id : String) (row : File) (t : Files)
    → lookup id t ≡ some row
    → (update_file now id (set_manifest_id manifest_id ∷ []) t).0 ≡ none
    → lookup id (update_file now id (set_manifest_id manifest_id ∷ []) t).1
      ≡ some (record row { manifest_id = some manifest_id; updated_at = now })
unfolding update_file
updated-row now id manifest_id row t there done =
    let change : File → File = λ f. record f { manifest_id = some manifest_id; updated_at = now } in
    let (f, found, e) = update_row-done id change t (ap wrapped done) in
    ap (λ u. lookup id u) e
    ∙ lookup-insert_self id (change f) t
    ∙ ap (λ g. some (change g)) (some-injective f row (sym found ∙ there))

-- The row of the file, from the call that made it.
made-row :
    (now : ℕ) (id user parent name mime_type : String) (size : ℕ) (t : Files)
    → (create_file now id user parent name mime_type size t).0 ≡ none
    → lookup id (create_file now id user parent name mime_type size t).1
      ≡ some (new_file now user parent name mime_type size)
unfolding create_file
made-row now id user parent name mime_type size t made =
    let row : File = new_file now user parent name mime_type size in
    let (e, absent, free, valid) = create-none id user parent name row t made in
    ap (λ a. lookup id a.1) e ∙ lookup-insert_self id row t

-- A completed upload is downloaded as it was uploaded. Let a session have recorded for each of its
-- indices the hashes of some pieces, in a state where each hash with a row has its bytes in the
-- storage and the rows count the references that are held, and let no other bytes in the storage have
-- the hash of one of the pieces. If `completeUpload` then answers that the upload is completed, the
-- manifest is that of the new file, whose row names it; `streamContent` of its chunks, with a writer
-- that takes every slice, writes all pieces in the order of the indices; and the session is gone.
pub complete_upload-download :
    (sha : List ℕ → String) (write : Writer)
    (accepts : (written slice : List ℕ) → write written slice ≡ none) (now : ℕ)
    (user id file_id manifest_id : String) (s : UploadSession) (h : UploadHandler)
    (pieces : ℕ → List (List ℕ))
    → lookup id h.sessions ≡ some s
    → IsRecorded sha s.total_chunks s.chunk_hashes pieces
    → ((hash : String) → held hash h ≤ refs hash h.shelf)
    → ((hash : String) → IsKept sha hash h.shelf)
    → All (IsAlone sha h.shelf.blobs) (all_pieces s.total_chunks pieces)
    → (complete_upload now user id file_id (some manifest_id) h).0 ≡ file_completed file_id
    → let after = (complete_upload now user id file_id (some manifest_id) h).1 in
      ((m : Manifest) × (lookup manifest_id after.manifests ≡ some m)
        × (m.file_id ≡ file_id)
        × (stream_content (fetch_from after.shelf.blobs) write m.chunks []
            ≡ (none, concat (all_pieces s.total_chunks pieces))))
      × ((f : File) × (lookup file_id after.files ≡ some f)
          × (f.manifest_id ≡ some manifest_id)
          × (f.name ≡ s.file_name))
      × (lookup id after.sessions ≡ none)
complete_upload-download sha write accepts now user id file_id manifest_id s h pieces found recorded
      counted kept alone done =
    let (made, last, e) = complete_upload-IsDone now user id file_id manifest_id s h found done in
    let row =
      updated-row now file_id manifest_id _ _
        (made-row now file_id user s.parent_id s.file_name s.mime_type s.size h.files made) last in
    let m : Manifest = new_manifest now file_id s in
    rw e (
      (
        m,
        lookup-insert_self manifest_id m h.manifests,
        new_manifest-file_id now file_id s,
        ap (λ hashes. stream_content (fetch_from h.shelf.blobs) write hashes [])
              (new_manifest-chunks now file_id s
                ∙ hashes_below-pieces sha s.total_chunks s.chunk_hashes pieces recorded)
            ∙ stream_content-writes_from (fetch_from h.shelf.blobs) write accepts (map sha all) all
                [] readable,
      ),
      (_, row, refl, new_file-name now user s.parent_id s.file_name s.mime_type s.size),
      lookup-delete id id h.sessions ∙ rw ((eq_iff id id).1 refl) refl,
    )
  where
    all : List (List ℕ)
    all = all_pieces s.total_chunks pieces

    within : (hash : String) → count hash (map sha all) ≤ refs hash h.shelf
    within hash =
        let e = hashes_below-pieces sha s.total_chunks s.chunk_hashes pieces recorded in
        let named = ap (λ hashes. count hash hashes) e in
        let some_of = hashes_below-count hash s.total_chunks s.chunk_hashes in
        let sum = total-delete (in_session hash) id h.sessions in
        let old : weight_of (in_session hash) (lookup id h.sessions) ≡ in_session hash s =
          ap (weight_of (in_session hash)) found in
        omega (arith, named, some_of, sum, old, counted hash)

    readable : Stored (fetch_from h.shelf.blobs) (map sha all) all
    readable = Stored-pieces sha h.shelf.blobs all alone (pieces-kept sha h.shelf all within kept)

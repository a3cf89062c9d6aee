-- ===== src/Uploads/Requests/Held.antt =====
-- The references that the uploads and the manifests of internal/server/handlers_upload.go hold are
-- counted in the rows of their chunks.
use vault_drift.Common.{
  branches, ℕ, ◌+◌, ◌≤◌, ◌≡◌, refl, ap, Bool, true, false, Option, none, some, String, List, [],
  ◌∷◌, length, leb, ltb, str_eq, arith, inl, inr,
}
use vault_drift.Common.Int.{ℤ}
use vault_drift.Common.Dict.{lookup, insert}
use vault_drift.Common.IntMap.{at}
use vault_drift.Common.Totals.{total, weight_of, total-insert}
use vault_drift.Chunk.Rabin.{Chunker}
use vault_drift.Chunk.Chunker.{Reader, Result, ok, err, eof, ChunkInfo, chunk_with_data}
use vault_drift.Garbage.Collector.Release.{count}
use vault_drift.Files.{is_some}
use vault_drift.Files.Manifests.{Manifest}
use vault_drift.Uploads.{UploadSession, UploadHandler, Reply, Shelf, max_upload_size, is_expired}
use vault_drift.Uploads.Chunks.{max_chunk_size, read_limited, store_chunks, hashes_of}
use vault_drift.Uploads.Chunks.Counted.{refs, store_chunks-refs}
use vault_drift.Uploads.Sessions.{hashes_in, record_chunk}
use vault_drift.Uploads.Sessions.Counts.{hashes_in-put}
use vault_drift.Uploads.Create.{
  CreateUploadRequest, create_upload, create_checked, create_sized, positive, new_session,
}
use vault_drift.Uploads.Receive.{upload_chunk, receive, received, stored, recorded, is_length_fine}
use vault_drift.Uploads.Requests.{find_session-cases}

-- How often a session and a manifest name a hash.
abbrev pub in_session : String → UploadSession → ℕ
in_session hash s = count hash (hashes_in s.chunk_hashes)

abbrev pub in_manifest : String → Manifest → ℕ
in_manifest hash m = count hash m.chunks

-- The references to a hash that the handler holds.
abbrev pub held : String → UploadHandler → ℕ
held hash h = total (in_session hash) h.sessions + total (in_manifest hash) h.manifests

-- They are counted.
abbrev pub IsCounted : String → UploadHandler → Type 0
IsCounted hash h = held hash h ≤ refs hash h.shelf

module _ (hash : String) where
  insert-IsCounted :
      (id : String) (s : UploadSession) (h : UploadHandler)
      → in_session hash s ≡ 0
      → IsCounted hash h
      → IsCounted hash (record h { sessions = insert id s h.sessions })
  insert-IsCounted id s h empty counted =
      omega (arith, total-insert (in_session hash) id s h.sessions, empty, counted)

  abbrev After : Reply × UploadHandler → Type 0
  After answer = IsCounted hash answer.1

  create_sized-IsCounted :
      (now : ℕ) (user : String) (session_id : Option String) (req : CreateUploadRequest) (size : ℕ)
      (h : UploadHandler)
      → IsCounted hash h
      → IsCounted hash (create_sized now user session_id req size h).1
  unfolding hashes_in new_session
  create_sized-IsCounted now user none req size h counted = counted
  create_sized-IsCounted now user (some id) req size h counted =
      branches After (ltb max_upload_size size) counted
        (insert-IsCounted id (new_session now user req size) h refl counted)

  pub create_upload-IsCounted :
      (now : ℕ) (user : String) (session_id : Option String) (req : Option CreateUploadRequest)
      (h : UploadHandler)
      → IsCounted hash h
      → IsCounted hash (create_upload now user session_id req h).1
  unfolding create_upload
  create_upload-IsCounted now user session_id none h counted =
      branches After (str_eq user "") counted counted
  create_upload-IsCounted now user session_id (some req) h counted =
      branches After (str_eq user "") counted
        (branches After (str_eq req.name "") counted (checked (positive req.size)))
    where
      checked : (size : Option ℕ) → IsCounted hash (create_checked now user session_id req size h).1
      checked none = counted
      checked (some size) = create_sized-IsCounted now user session_id req size h counted

  module _ (sha : List ℕ → String) (c : Chunker) (put_fails : String → Bool) where
    recorded-IsCounted :
        (id : String) (index size : ℕ) (s : UploadSession) (infos : List ChunkInfo)
        (h : UploadHandler) (answer : Bool × Shelf)
        → lookup id h.sessions ≡ some s
        → refs hash h.shelf ≤ refs hash answer.1
        → (answer.0 ≡ true → refs hash answer.1 ≡ refs hash h.shelf + count hash (hashes_of infos))
        → IsCounted hash h
        → IsCounted hash (recorded sha c put_fails id index size s infos h answer).1
    unfolding record_chunk
    recorded-IsCounted id index size s infos h (false, shelf) found least exact counted =
        omega (arith, least, counted)
    recorded-IsCounted id index size s infos h (true, shelf) found least exact counted =
        let t = record_chunk index size (hashes_of infos) s in
        let sum = total-insert (in_session hash) id t h.sessions in
        let old : weight_of (in_session hash) (lookup id h.sessions) ≡ in_session hash s =
          ap (weight_of (in_session hash)) found in
        let more : in_session hash t ≤ in_session hash s + count hash (hashes_of infos) =
          hashes_in-put hash index (hashes_of infos) s.chunk_hashes in
        omega (arith, sum, old, more, exact refl, counted)

    received-IsCounted :
        (now : ℕ) (id : String) (index : ℕ) (s : UploadSession) (h : UploadHandler)
        (body : Result (List ℕ))
        → lookup id h.sessions ≡ some s
        → IsCounted hash h
        → IsCounted hash (received sha c put_fails now id index s h body).1
    received-IsCounted now id index s h (err e) found counted = counted
    received-IsCounted now id index s h (ok []) found counted = counted
    received-IsCounted now id index s h (ok (b ∷ bs)) found counted =
        cut (chunk_with_data sha c (eof (b ∷ bs)))
      where
        cut :
            (answer : Result (List ChunkInfo × List (List ℕ)))
            → IsCounted hash (stored sha c put_fails now id index (length (b ∷ bs)) s h answer).1
        cut (err e) = counted
        cut (ok (infos, pieces)) =
            let (least, exact) = store_chunks-refs put_fails now infos pieces hash h.shelf in
            recorded-IsCounted id index (length (b ∷ bs)) s infos h
              (store_chunks put_fails now infos pieces h.shelf) found least exact counted

    receive-IsCounted :
        (now : ℕ) (id : String) (index : ℕ) (content_length : ℤ) (body : Reader) (s : UploadSession)
        (h : UploadHandler)
        → lookup id h.sessions ≡ some s
        → IsCounted hash h
        → IsCounted hash (receive sha c put_fails now id index content_length body s h).1
    unfolding receive
    receive-IsCounted now id index content_length body s h found counted =
        branches After (is_expired now s) counted (
          branches After (leb s.total_chunks index) counted (
            branches After (is_some (at index s.chunks)) counted (
              branches After (is_length_fine content_length)
                (received-IsCounted now id index s h (read_limited max_chunk_size body) found
                  counted)
                counted)))

    pub upload_chunk-IsCounted :
        (now : ℕ) (user id : String) (index : Option ℕ) (content_length : ℤ) (body : Reader)
        (h : UploadHandler)
        → IsCounted hash h
        → IsCounted hash (upload_chunk sha c put_fails now user id index content_length body h).1
    unfolding upload_chunk
    upload_chunk-IsCounted now user id none content_length body h counted =
        elim (find_session-cases user id false h) [
          | inl (code, e) ↦ rw e counted
          | inr (s, e, found, own, fine) ↦ rw e counted
        ]
    upload_chunk-IsCounted now user id (some index) content_length body h counted =
        elim (find_session-cases user id true h) [
          | inl (code, e) ↦ rw e counted
          | inr (s, e, found, own, fine) ↦
              rw e (receive-IsCounted now id index content_length body s h found counted)
        ]

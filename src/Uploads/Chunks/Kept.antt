-- ===== src/Uploads/Chunks/Kept.antt =====
-- The storage behind internal/server/handlers_upload.go has the bytes of every chunk with a row.
use mathlib.Core.Path.{subst}
use vault_drift.Common.{
  ℕ, ◌+◌, ◌-◌, ◌<◌, ◌==◌, ◌≡◌, refl, sym, ◌∙◌, ◌⊎◌, inl, inr, Bool, false, none, some, String, List,
  [], ◌∷◌, length, leb, str_eq, eq_iff, arith, Bool-cases, Option-cases, if◌then◌else◌,
}
use vault_drift.Common.Dict.{lookup, insert, lookup-insert, lookup-delete}
use vault_drift.Chunk.Chunker.{ChunkInfo}
use vault_drift.Chunk.Chunker.Contents.{describe}
use vault_drift.Garbage.ChunkTable.{Row, Table, delete_chunk}
use vault_drift.Garbage.Collector.{Faults, drop_row}
use vault_drift.Garbage.Collector.Release.{decrement-zero, decrement-some, delete_chunk-some}
use vault_drift.Uploads.{Shelf}
use vault_drift.Uploads.Chunks.{
  store_chunk, store_chunks, discard, given_back, give_back, give_back_all, give_back_all_expired,
}
use vault_drift.Uploads.Chunks.Counted.{
  store_chunk-known, store_chunk-failed, store_chunk-new, first_row,
}
use vault_drift.Uploads.Chunks.Released.{give_back-none, give_back-some, give_back_all-agrees}

module _ (sha : List ℕ → String) where
  -- A hash has no row, or bytes of this hash in the storage.
  abbrev pub IsKept : String → Shelf → Type 0
  IsKept hash s =
      (lookup hash s.table ≡ none)
      ⊎ ((bytes : List ℕ) × (lookup hash s.blobs ≡ some bytes) × (sha bytes ≡ hash))

  -- A row written over another one keeps the bytes.
  IsKept-insert :
      (hash other : String) (old row : Row) (s : Shelf)
      → lookup hash s.table ≡ some old
      → IsKept other s
      → IsKept other (record s { table = insert hash row s.table })
  IsKept-insert hash other old row s found (inr there) = inr there
  IsKept-insert hash other old row s found (inl absent) =
      let seen = lookup-insert hash other row s.table in
      elim (Bool-cases (str_eq hash other)) [
        | inl same ↦
            let here : lookup other s.table ≡ some old = rw (← (eq_iff hash other).0 same) found in
            absurd (ground (arith, here, absent))
        | inr differ ↦ inl (seen ∙ rw (differ, absent) refl)
      ]

  store_chunk-IsKept :
      (put_fails : String → Bool) (now : ℕ) (info : ChunkInfo) (bytes : List ℕ) (other : String)
      (s : Shelf)
      → info.hash ≡ sha bytes
      → IsKept other s
      → IsKept other (store_chunk put_fails now info bytes s).1
  store_chunk-IsKept put_fails now info bytes other s named kept =
      elim (Option-cases (lookup info.hash s.table)) [
        | inr (row, found) ↦
            rw (store_chunk-known put_fails now info bytes row s found)
              (IsKept-insert info.hash other row _ s found kept)
        | inl absent ↦ elim (Bool-cases (put_fails info.hash)) [
          | inl fails ↦ rw (store_chunk-failed put_fails now info bytes s absent fails) kept
          | inr works ↦ rw (store_chunk-new put_fails now info bytes s absent works) (added kept)
        ]
      ]
    where
      fresh : Shelf
      fresh = record {
        table = insert info.hash (first_row now info) s.table;
        blobs = insert info.hash bytes s.blobs;
      }

      added : IsKept other s → IsKept other fresh
      added kept = elim (Bool-cases (str_eq info.hash other)) [
        | inl same ↦ inr (
          bytes,
          lookup-insert info.hash other bytes s.blobs ∙ rw same refl,
          sym named ∙ (eq_iff info.hash other).0 same,
        )
        | inr differ ↦ elim kept [
          | inl none_there ↦ inl (
              lookup-insert info.hash other (first_row now info) s.table
              ∙ rw (differ, none_there) refl)
          | inr (old, found, hashed) ↦
              inr
                (old, lookup-insert info.hash other bytes s.blobs ∙ rw (differ, found) refl, hashed)
        ]
      ]

  pub store_chunks-IsKept :
      (put_fails : String → Bool) (now offset : ℕ) (pieces : List (List ℕ)) (other : String)
      (s : Shelf)
      → IsKept other s
      → IsKept other (store_chunks put_fails now (describe sha offset pieces) pieces s).1
  unfolding store_chunks
  store_chunks-IsKept put_fails now offset [] other s kept = kept
  store_chunks-IsKept put_fails now offset (piece ∷ pieces) other s kept =
      let info : ChunkInfo = record { hash = sha piece; offset = offset; size = length piece } in
      let one = store_chunk-IsKept put_fails now info piece other s refl kept in
      elim (Bool-cases (store_chunk put_fails now info piece s).0) [
        | inl goes_on ↦
            rw goes_on
              (store_chunks-IsKept put_fails now (offset + length piece) pieces other _ one)
        | inr stops ↦ rw stops one
      ]

  delete_chunk-none :
      (hash : String) (t : Table) → lookup hash t ≡ none → (delete_chunk hash t).1 ≡ t
  unfolding delete_chunk
  delete_chunk-none hash t absent = rw (absent, delete_chunk) refl

  delete_chunk-lookup :
      (hash other : String) (t : Table)
      → lookup other (delete_chunk hash t).1 ≡ (if str_eq hash other then none else lookup other t)
  delete_chunk-lookup hash other t = elim (Option-cases (lookup hash t)) [
    | inr (row, found) ↦ rw (delete_chunk-some hash t row found) (lookup-delete hash other t)
    | inl absent ↦ rw (delete_chunk-none hash t absent) (elim (Bool-cases (str_eq hash other)) [
      | inl same ↦ rw (same, ← (eq_iff hash other).0 same, absent) refl
      | inr differ ↦ rw differ refl
    ])
  ]

  module _ (faults : Faults) where
    -- The row goes, or it is another hash.
    drop_row-lookup :
        (hash other : String) (t : Table)
        → faults.drop_fails other ≡ false
        → lookup other (drop_row faults hash t).1
          ≡ (if str_eq hash other then none else lookup other t)
    drop_row-lookup hash other t works = elim (Bool-cases (faults.drop_fails hash)) [
      | inl fails ↦ elim (Bool-cases (str_eq hash other)) [
        | inl same ↦ absurd (cc (fails, works, (eq_iff hash other).0 same))
        | inr differ ↦ rw (fails, differ) refl
      ]
      | inr fine ↦ rw fine (delete_chunk-lookup hash other t)
    ]

    discard-IsKept :
        (hash other : String) (s : Shelf)
        → faults.drop_fails other ≡ false
        → IsKept other s
        → IsKept other (discard faults hash s)
    discard-IsKept hash other s works kept =
        let rows = drop_row-lookup hash other s.table works in
        elim (Bool-cases (str_eq hash other)) [
          | inl same ↦ inl (rows ∙ rw same refl)
          | inr differ ↦ elim kept [
            | inl none_there ↦ inl (rows ∙ rw (differ, none_there) refl)
            | inr (bytes, found, hashed) ↦ inr (bytes, blobs differ found, hashed)
          ]
        ]
      where
        blobs :
            {bytes : List ℕ}
            → str_eq hash other ≡ false
            → lookup other s.blobs ≡ some bytes
            → lookup other (discard faults hash s).blobs ≡ some bytes
        blobs differ found = elim (Bool-cases (faults.delete_fails hash)) [
          | inl fails ↦ rw (fails, found) refl
          | inr works ↦ rw works (lookup-delete hash other s.blobs ∙ rw (differ, found) refl)
        ]

    give_back-IsKept :
        (hash other : String) (s : Shelf)
        → faults.drop_fails other ≡ false
        → IsKept other s
        → IsKept other (give_back faults hash s)
    give_back-IsKept hash other s works kept = elim (Option-cases (lookup hash s.table)) [
      | inl absent ↦ rw (give_back-none faults hash s absent) kept
      | inr (row, found) ↦ elim (Bool-cases (row.ref_count == 0)) [
        | inl none_left ↦
            let z : row.ref_count ≡ 0 = ground (arith, none_left) in
            rw (give_back-some faults hash row s found, decrement-zero hash s.table row found z)
              kept
        | inr some_left ↦
            let p : 0 < row.ref_count = ground (arith, some_left) in
            rw (give_back-some faults hash row s found, decrement-some hash s.table row found p)
              (lowered row (IsKept-insert hash other row _ s found kept))
      ]
    ]
      where
        lowered :
            (row : Row)
            → let t : Table = insert hash (record row { ref_count = row.ref_count - 1 }) s.table in
              IsKept other (record s { table = t })
              → IsKept other (given_back faults hash row.ref_count s (none, t))
        lowered row low = elim (Bool-cases (leb row.ref_count 1)) [
          | inl last ↦ rw last (discard-IsKept hash other _ works low)
          | inr others ↦ rw others low
        ]

    -- Giving chunks back keeps the bytes of those with a row.
    pub give_back_all-IsKept :
        (hashes : List String) (other : String) (s : Shelf)
        → faults.drop_fails other ≡ false
        → IsKept other s
        → IsKept other (give_back_all faults hashes s)
    unfolding give_back_all
    give_back_all-IsKept [] other s works kept = kept
    give_back_all-IsKept (hash ∷ hashes) other s works kept =
        give_back_all-IsKept hashes other _ works (give_back-IsKept hash other s works kept)

    pub give_back_all_expired-IsKept :
        (hashes : List String) (other : String) (s : Shelf)
        → faults.drop_fails other ≡ false
        → IsKept other s
        → IsKept other (give_back_all_expired faults hashes s)
    give_back_all_expired-IsKept hashes other s works kept =
        subst (IsKept other) (give_back_all-agrees faults hashes s).0
          (give_back_all-IsKept hashes other s works kept)

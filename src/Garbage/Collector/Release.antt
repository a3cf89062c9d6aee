-- ===== src/Garbage/Collector/Release.antt =====
-- Deleting a file gives back its references, and takes nothing that other files refer to.
use vault_drift.Common.{
  ℕ, ◌+◌, ◌-◌, ◌==◌, ◌<◌, ltb, ◌≡◌, refl, ap, ◌∙◌, true, Option, none, some, String, List, [], ◌∷◌,
  arith, str_eq, eq_iff, Bool-cases, Option-cases, inl, inr, if◌then◌else◌,
}
use vault_drift.Common.Dict.{
  lookup, insert, delete, lookup-insert, lookup-insert_self, lookup-delete,
}
use vault_drift.Garbage.ChunkTable.{
  Row, Table, chunk_not_found, decrement_ref_count, delete_chunk, get_chunk,
}
use vault_drift.Garbage.Collector.{
  Faults, delete_blob, Store, release_chunk, released, release_all, delete_rows_below, delete_file,
}

-- The references that the table counts for a hash.
abbrev pub refs_of : Option Row → ℕ
refs_of none = 0
refs_of (some row) = row.ref_count

abbrev pub refs : String → Store → ℕ
refs hash s = refs_of (lookup hash s.table)

-- How often a hash stands in a manifest.
abbrev pub count : String → List String → ℕ
count hash [] = 0
count hash (other ∷ hashes) = (if str_eq other hash then 1 else 0) + count hash hashes

pub decrement-absent :
    (hash : String) (t : Table)
    → lookup hash t ≡ none
    → decrement_ref_count hash t ≡ (some chunk_not_found, t)
unfolding decrement_ref_count
decrement-absent hash t absent = rw (absent, decrement_ref_count) refl

pub decrement-zero :
    (hash : String) (t : Table) (row : Row)
    → lookup hash t ≡ some row
    → row.ref_count ≡ 0
    → decrement_ref_count hash t ≡ (some chunk_not_found, t)
unfolding decrement_ref_count
decrement-zero hash t row found zero = rw (found, decrement_ref_count, zero) refl

pub decrement-some :
    (hash : String) (t : Table) (row : Row)
    → lookup hash t ≡ some row
    → 0 < row.ref_count
    → decrement_ref_count hash t
      ≡ (none, insert hash (record row { ref_count = row.ref_count - 1 }) t)
unfolding decrement_ref_count
decrement-some hash t row found more =
    let e : ltb 0 row.ref_count ≡ true = ground arith in rw (found, decrement_ref_count, e) refl

pub delete_chunk-some :
    (hash : String) (t : Table) (row : Row)
    → lookup hash t ≡ some row
    → (delete_chunk hash t).1 ≡ delete hash t
unfolding delete_chunk
delete_chunk-some hash t row found = rw (found, delete_chunk) refl

module _ (faults : Faults) where
  -- One round: the count of the hash falls by 1, and its bytes stay if there was more than one.
  refs-released :
      (hash other : String) (s : Store) (row : Row)
      → lookup hash s.table ≡ some row
      → 0 < row.ref_count
      → let after =
          released faults hash s
            (none, insert hash (record row { ref_count = row.ref_count - 1 }) s.table) in
        (refs other after ≡ refs other s - (if str_eq hash other then 1 else 0))
        × ((if str_eq hash other then 1 else 0) < refs other s
            → lookup other after.blobs ≡ lookup other s.blobs)
  unfolding get_chunk
  refs-released hash other s row found more =
      let now : Row = record row { ref_count = row.ref_count - 1 } in
      let t : Table = insert hash now s.table in
      let at : lookup hash t ≡ some now = lookup-insert_self hash now s.table in
      let seen = lookup-insert hash other now s.table in
      elim (Bool-cases (row.ref_count - 1 == 0)) [
        | inl last ↦ elim (Bool-cases (faults.drop_fails hash)) [
          | inl fails ↦ rw (at, last, fails) (lowered, bytes last)
          | inr works ↦
              rw (at, last, works, delete_chunk-some hash t now at)
                (
                  elim (Bool-cases (str_eq hash other)) [
                    | inl same ↦
                        ap refs_of (lookup-delete hash other t)
                        ∙ rw (same, here same) (ground arith)
                    | inr differ ↦
                        ap refs_of (lookup-delete hash other t)
                        ∙ rw differ (ap refs_of seen ∙ rw differ (omega arith))
                  ],
                  bytes last,
                )
        ]
        | inr others ↦ rw (at, others) (lowered, λ h. refl)
      ]
    where
      fewer :
          str_eq hash other ≡ true
          → lookup other s.table ≡ some row
          → (if str_eq hash other then 1 else 0) < refs other s
          → (row.ref_count - 1 == 0) ≡ true
          → ⊥
      fewer same here h last =
          let more : 1 < row.ref_count =
            let k : refs other s ≡ row.ref_count = ap refs_of here in ground (arith, h, same, k) in
          absurd (ground (arith, more, last))

      here : str_eq hash other ≡ true → lookup other s.table ≡ some row
      here same = rw (← (eq_iff hash other).0 same) found

      lowered :
          refs_of
            (lookup other (insert hash (record row { ref_count = row.ref_count - 1 }) s.table))
          ≡ refs other s - (if str_eq hash other then 1 else 0)
      lowered =
          let seen =
            lookup-insert hash other (record row { ref_count = row.ref_count - 1 }) s.table in
          elim (Bool-cases (str_eq hash other)) [
            | inl same ↦ ap refs_of seen ∙ rw (same, here same) refl
            | inr differ ↦ ap refs_of seen ∙ rw differ (omega arith)
          ]

      bytes :
          (row.ref_count - 1 == 0) ≡ true
          → (if str_eq hash other then 1 else 0) < refs other s
          → lookup other
              (delete_blob faults hash (record s {
                table = insert hash (record row { ref_count = row.ref_count - 1 }) s.table;
              })).blobs
            ≡ lookup other s.blobs
      bytes last h = elim (Bool-cases (str_eq hash other)) [
        | inl same ↦ absurd (fewer same (here same) h last)
        | inr differ ↦ elim (Bool-cases (faults.delete_fails hash)) [
          | inl fails ↦ rw fails refl
          | inr works ↦ rw works (lookup-delete hash other s.blobs ∙ rw differ refl)
        ]
      ]

  pub release_chunk-refs :
      (hash other : String) (s : Store)
      → (refs other (release_chunk faults hash s)
          ≡ refs other s - (if str_eq hash other then 1 else 0))
        × ((if str_eq hash other then 1 else 0) < refs other s
            → lookup other (release_chunk faults hash s).blobs ≡ lookup other s.blobs)
  unfolding release_chunk
  release_chunk-refs hash other s = elim (Option-cases (lookup hash s.table)) [
    | inl absent ↦
        rw (decrement-absent hash s.table absent) (untouched (ap refs_of absent), λ h. refl)
    | inr (row, found) ↦ elim (Bool-cases (row.ref_count == 0)) [
      | inl none_left ↦
          let z : row.ref_count ≡ 0 = ground (arith, none_left) in
          rw (decrement-zero hash s.table row found z) (untouched (ap refs_of found ∙ z), λ h. refl)
      | inr some_left ↦
          let p : 0 < row.ref_count = ground (arith, some_left) in
          rw (decrement-some hash s.table row found p) (refs-released hash other s row found p)
    ]
  ]
    where
      untouched :
          refs hash s ≡ 0 → refs other s ≡ refs other s - (if str_eq hash other then 1 else 0)
      untouched z = elim (Bool-cases (str_eq hash other)) [
        | inl same ↦
            let here : refs other s ≡ 0 = rw (← (eq_iff hash other).0 same) z in
            rw same (omega (arith, here))
        | inr differ ↦ rw differ (omega arith)
      ]

  pub release_all-refs :
      (hashes : List String) (other : String) (s : Store)
      → (refs other (release_all faults hashes s) ≡ refs other s - count other hashes)
        × (count other hashes < refs other s
            → lookup other (release_all faults hashes s).blobs ≡ lookup other s.blobs)
  unfolding release_all
  release_all-refs [] other s = (omega arith, λ h. refl)
  release_all-refs (hash ∷ hashes) other s =
      let (one, kept) = release_chunk-refs hash other s in
      let (all, stay) = release_all-refs hashes other (release_chunk faults hash s) in
      (all ∙ omega (arith, one), λ h. stay (omega (arith, one, h)) ∙ kept (omega (arith, h)))

-- `deleteFile`, for a file with a manifest, lowers the count of every chunk by the number of times
-- the manifest names it, and not below 0.
pub delete_file-refs :
    (faults : Faults) (file_id hash : String) (hashes : List String) (s : Store)
    → lookup file_id s.manifests ≡ some hashes
    → refs hash (delete_file faults file_id s).1 ≡ refs hash s - count hash hashes
unfolding delete_file delete_rows_below
delete_file-refs faults file_id hash hashes s found =
    rw found (release_all-refs faults hashes hash s).0

-- A chunk that has more references than the manifest of the file names keeps its bytes in the
-- storage when the file is deleted.
pub delete_file-keeps :
    (faults : Faults) (file_id hash : String) (hashes : List String) (s : Store)
    → lookup file_id s.manifests ≡ some hashes
    → count hash hashes < refs hash s
    → lookup hash (delete_file faults file_id s).1.blobs ≡ lookup hash s.blobs
unfolding delete_file delete_rows_below
delete_file-keeps faults file_id hash hashes s found more =
    rw found ((release_all-refs faults hashes hash s).1 more)

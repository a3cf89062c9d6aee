-- ===== src/Uploads/Chunks/Released.antt =====
-- Giving chunks back in internal/server/handlers_upload.go: `cancelUpload`, `cleanupExpiredSessions` and
-- `deleteFile` of internal/worker/gc.go do the same.
use vault_drift.Common.{
  ◌-◌, ◌==◌, ◌<◌, leb, ◌≡◌, refl, sym, ap, ◌∙◌, true, false, Option, none, some, String, List, [],
  ◌∷◌, arith, Bool-cases, Option-cases, inl, inr,
}
use vault_drift.Common.Dict.{lookup, insert, lookup-insert_self}
use vault_drift.Garbage.ChunkTable.{Row, Table, Error, decrement_ref_count, get_chunk, delete_chunk}
use vault_drift.Garbage.Collector.{
  Faults, Store, release_chunk, release_all, released, drop_chunk, is_unreferenced,
}
use vault_drift.Garbage.Collector.Release.{decrement-absent, decrement-zero, decrement-some}
use vault_drift.Uploads.{Shelf}
use vault_drift.Uploads.Chunks.{
  discard, give_back, give_back_row, given_back, give_back_all, give_back_expired, expired_row,
  give_back_all_expired,
}

-- The store of the collector with these chunks.
abbrev pub to_store : Shelf → Store
to_store s = record { table = s.table; blobs = s.blobs; manifests = []; files = [] }

module _ (faults : Faults) where
  discard-drop :
      (hash : String) (s : Shelf)
      → to_store (discard faults hash s) ≡ drop_chunk faults hash (to_store s)
  unfolding delete_chunk
  discard-drop hash s = elim (Bool-cases (faults.delete_fails hash)) [
    | inl fails ↦ rw fails refl
    | inr works ↦ rw works refl
  ]

  -- The part of a round behind the count taken down from a positive one.
  given_back-released :
      (hash : String) (row : Row) (s : Shelf)
      → let t : Table = insert hash (record row { ref_count = row.ref_count - 1 }) s.table in
        to_store (given_back faults hash row.ref_count s (none, t))
        ≡ released faults hash (to_store s) (none, t)
  unfolding get_chunk
  given_back-released hash row s =
      let now : Row = record row { ref_count = row.ref_count - 1 } in
      let t : Table = insert hash now s.table in
      let at : lookup hash t ≡ some now = lookup-insert_self hash now s.table in
      elim (Bool-cases (row.ref_count - 1 == 0)) [
        | inl last ↦
            let low : leb row.ref_count 1 ≡ true = ground (arith, last) in
            rw (low, at, last) (discard-drop hash (record s { table = t }))
        | inr others ↦
            let high : leb row.ref_count 1 ≡ false = ground (arith, others) in
            rw (high, at, others) refl
      ]

  pub give_back-none :
      (hash : String) (s : Shelf) → lookup hash s.table ≡ none → give_back faults hash s ≡ s
  unfolding give_back get_chunk
  give_back-none hash s absent = ap (λ row. give_back_row faults hash row s) absent

  pub give_back-some :
      (hash : String) (row : Row) (s : Shelf)
      → lookup hash s.table ≡ some row
      → give_back faults hash s
        ≡ given_back faults hash row.ref_count s (decrement_ref_count hash s.table)
  unfolding give_back get_chunk
  give_back-some hash row s found = ap (λ o. give_back_row faults hash o s) found

  -- A round of `cancelUpload` is a round of `deleteFile`.
  give_back-release :
      (hash : String) (s : Shelf)
      → to_store (give_back faults hash s) ≡ release_chunk faults hash (to_store s)
  unfolding release_chunk
  give_back-release hash s = elim (Option-cases (lookup hash s.table)) [
    | inl absent ↦ rw (give_back-none hash s absent, decrement-absent hash s.table absent) refl
    | inr (row, found) ↦ elim (Bool-cases (row.ref_count == 0)) [
      | inl none_left ↦
          let z : row.ref_count ≡ 0 = ground (arith, none_left) in
          rw (give_back-some hash row s found, decrement-zero hash s.table row found z) refl
      | inr some_left ↦
          let p : 0 < row.ref_count = ground (arith, some_left) in
          rw (give_back-some hash row s found, decrement-some hash s.table row found p)
            (given_back-released hash row s)
    ]
  ]

  -- A round of `cleanupExpiredSessions` is one, too.
  give_back_expired-release :
      (hash : String) (s : Shelf)
      → to_store (give_back_expired faults hash s) ≡ release_chunk faults hash (to_store s)
  unfolding release_chunk give_back_expired get_chunk
  give_back_expired-release hash s = expired_row-released (decrement_ref_count hash s.table)
    where
      expired_row-released :
          (answer : Option Error × Table)
          → to_store (expired_row faults hash s answer) ≡ released faults hash (to_store s) answer
      expired_row-released (some e, t) = refl
      expired_row-released (none, t) = elim (Bool-cases (is_unreferenced (lookup hash t))) [
        | inl last ↦ rw last (discard-drop hash (record s { table = t }))
        | inr others ↦ rw others refl
      ]

  pub give_back_all-release :
      (hashes : List String) (s : Shelf)
      → to_store (give_back_all faults hashes s) ≡ release_all faults hashes (to_store s)
  unfolding give_back_all release_all
  give_back_all-release [] s = refl
  give_back_all-release (hash ∷ hashes) s =
      give_back_all-release hashes (give_back faults hash s)
      ∙ ap (λ u. release_all faults hashes u) (give_back-release hash s)

  pub give_back_all_expired-release :
      (hashes : List String) (s : Shelf)
      → to_store (give_back_all_expired faults hashes s) ≡ release_all faults hashes (to_store s)
  unfolding give_back_all_expired release_all
  give_back_all_expired-release [] s = refl
  give_back_all_expired-release (hash ∷ hashes) s =
      give_back_all_expired-release hashes (give_back_expired faults hash s)
      ∙ ap (λ u. release_all faults hashes u) (give_back_expired-release hash s)

-- The three places that give chunks back do the same to the rows and to the storage: the loop of
-- `cancelUpload`, which looks at the count before it takes it down, the one of
-- `cleanupExpiredSessions`, which looks at it afterwards, and the one of `deleteFile` in the garbage
-- collector. Which deletions fail does not matter.
pub give_back_all-agrees :
    (faults : Faults) (hashes : List String) (s : Shelf)
    → (give_back_all faults hashes s ≡ give_back_all_expired faults hashes s)
      × (to_store (give_back_all faults hashes s) ≡ release_all faults hashes (to_store s))
give_back_all-agrees faults hashes s =
    let cancel = give_back_all-release faults hashes s in
    let expire = give_back_all_expired-release faults hashes s in
    (ap of_store (cancel ∙ sym expire), cancel)
  where
    of_store : Store → Shelf
    of_store store = record { table = store.table; blobs = store.blobs }

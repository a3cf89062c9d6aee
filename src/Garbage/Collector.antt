-- ===== src/Garbage/Collector.antt =====
-- `collectOrphanedChunks`, `collectTrash` and `deleteFile` of internal/worker/gc.go. The chunks in the
-- storage are a dictionary by hash. Which calls of the storage fail, and which calls of `DeleteChunk`,
-- is a parameter of each operation: no operation deletes or writes one hash twice, so to say it by hash is no
-- restriction. The other statements are taken to be answered by the database, on a connection on which
-- `PRAGMA foreign_keys` is on, so that the rows below a deleted file go with it, and the manifests of all.
pub mod Sweep
pub mod Release
use vault_drift.Common.{
  suc, length, ℕ, ◌+◌, ◌-◌, ◌==◌, ltb, Bool, true, false, ◌||◌, Option, none, some, String, List,
  [], ◌∷◌, ◌++◌, if◌then◌else◌,
}
use vault_drift.Common.Dict.{Dict, lookup, insert, delete}
use vault_drift.Files.{Files}
use vault_drift.Files.Cascade.{cascade}
use vault_drift.Garbage.ChunkTable.{
  Row, Table, Error, failed_to_delete, is_some, decrement_ref_count, list_orphaned_chunks,
  delete_chunk, get_chunk,
}

-- What the collection works on, with its `GCResult`. An error is told by the hash or the file.
pub record Store : Type 0 where
  pub table : Table
  pub blobs : Dict (List ℕ)
  pub manifests : Dict (List String)
  pub files : Files

pub record GcResult : Type 0 where
  pub collected : ℕ
  pub freed : ℕ
  pub errors : List String

abbrev pub empty_result : GcResult
empty_result = record { collected = 0; freed = 0; errors = [] }

-- `spec.OlderThan.IsZero() || chunk.CreatedAt.After(spec.OlderThan)`; the zero time is `none`.
abbrev pub is_young : Option ℕ → Row → Bool
is_young none row = true
is_young (some older_than) row = ltb older_than row.created_at

-- `err == nil && chunk.RefCount <= 0`, of `GetChunk`.
abbrev pub is_unreferenced : Option Row → Bool
is_unreferenced none = false
is_unreferenced (some row) = row.ref_count == 0

-- The hashes for which a call fails: `storage.Put`, `storage.Delete`, and `DeleteChunk` although there is
-- the row.
pub record Faults : Type 0 where
  pub put_fails : String → Bool
  pub delete_fails : String → Bool
  pub drop_fails : String → Bool

module _ (faults : Faults) where
  -- `DeleteChunk`, which may fail.
  abbrev pub drop_row : String → Table → Option Error × Table
  drop_row hash t =
      if faults.drop_fails hash then (some failed_to_delete, t) else delete_chunk hash t

  -- `storage.Delete`
  abbrev pub delete_blob : String → Store → Store
  delete_blob hash s =
      if faults.delete_fails hash then s else record s { blobs = delete hash s.blobs }

  -- The end of a round, after `DeleteChunk`.
  abbrev pub swept : String → Row → GcResult → Store → Option Error × Table → GcResult × Store
  swept hash row result s (some e, t) = (record result { errors = result.errors ++ hash ∷ [] }, s)
  swept hash row result s (none, t) = (
    record result { collected = result.collected + 1; freed = result.freed + row.size_bytes },
    record s { table = t },
  )

  -- One round of the loop of `collectOrphanedChunks`.
  unfoldable pub sweep_one : Option ℕ → String → Row → GcResult × Store → GcResult × Store
  unfolding delete_chunk
  sweep_one older_than hash row (result, s) =
      if is_young older_than row
      then (result, s)
      else if faults.delete_fails hash
      then (record result { errors = result.errors ++ hash ∷ [] }, s)
      else swept hash row result (delete_blob hash s) (drop_row hash s.table)

  unfoldable pub sweep : Option ℕ → Table → GcResult × Store → GcResult × Store
  unfolding sweep_one
  sweep older_than [] state = state
  sweep older_than ((hash, row) ∷ rows) state =
      sweep older_than rows (sweep_one older_than hash row state)

  -- `collectOrphanedChunks`
  unfoldable pub collect_orphaned_chunks : Option ℕ → Store → GcResult × Store
  unfolding sweep list_orphaned_chunks
  collect_orphaned_chunks older_than s =
      sweep older_than (list_orphaned_chunks s.table) (empty_result, s)

  abbrev pub drop_chunk : String → Store → Store
  drop_chunk hash s = record (delete_blob hash s) { table = (drop_row hash s.table).1 }

  -- The part of a round behind `DecrementRefCount`.
  abbrev pub released : String → Store → Option Error × Table → Store
  released hash s (some e, t) = s
  released hash s (none, t) =
      if is_unreferenced (get_chunk hash t)
      then drop_chunk hash (record s { table = t })
      else record s { table = t }

  -- One round of the loop of `deleteFile`: both errors of the removal are ignored.
  unfoldable pub release_chunk : String → Store → Store
  unfolding decrement_ref_count get_chunk delete_chunk
  release_chunk hash s = released hash s (decrement_ref_count hash s.table)

  unfoldable pub release_all : List String → Store → Store
  unfolding release_chunk
  release_all [] s = s
  release_all (hash ∷ hashes) s = release_all hashes (release_chunk hash s)

  abbrev pub release_manifest : Option (List String) → Store → Store
  release_manifest none s = s
  release_manifest (some hashes) s = release_all hashes s

  -- The manifests of the files that have a row (ON DELETE CASCADE).
  unfoldable pub of_rows : Files → Dict (List String) → Dict (List String)
  unfolding lookup
  of_rows files [] = []
  of_rows files ((file_id, hashes) ∷ manifests) =
      let rest = of_rows files manifests in
      if is_some (lookup file_id files) then (file_id, hashes) ∷ rest else rest

  -- `DELETE FROM files WHERE id = ?`: the rows below go too, and the manifests of all of them.
  unfoldable pub delete_rows_below : String → Store → Store
  unfolding cascade of_rows
  delete_rows_below file_id s =
      let files = cascade (suc (length s.files)) (file_id ∷ []) s.files in
      record s { files = files; manifests = of_rows files s.manifests }

  -- `deleteFile`: whether it returns nil, which is whether `GetLatestManifest` found a manifest.
  unfoldable pub delete_file : String → Store → Bool × Store
  unfolding release_all delete_rows_below
  delete_file file_id s =
      let after = release_manifest (lookup file_id s.manifests) s in
      (is_some (lookup file_id s.manifests), delete_rows_below file_id after)

  -- The loop of `collectTrash` over the ids and sizes that its query finds.
  unfoldable pub collect_trash : List (String × ℕ) → GcResult × Store → GcResult × Store
  unfolding delete_file
  collect_trash [] state = state
  collect_trash ((file_id, size) ∷ rows) (result, s) =
      let (deleted, after) = delete_file file_id s in
      collect_trash rows (
        if deleted
        then (
          record result { collected = result.collected + 1; freed = result.freed + size },
          after,
        )
        else (record result { errors = result.errors ++ file_id ∷ [] }, after))

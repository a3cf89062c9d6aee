-- ===== src/Tests/Garbage.antt =====
-- Runs of the garbage collection.
use vault_drift.Common.{
  true, str_eq, ◌-◌, Option, ℕ, ◌≡◌, refl, Bool, false, none, some, String, [], ◌∷◌, arith,
  if◌then◌else◌,
}
use vault_drift.Common.Dict.{lookup, insert}
use vault_drift.Common.Names.{mem}
use vault_drift.Files.{File, file}
use vault_drift.Garbage.ChunkTable.{Row, IsKeyed, delete_chunk}
use vault_drift.Garbage.ChunkTable.Orphans.{is_chosen_orphan}
use vault_drift.Garbage.Collector.{Faults, Store, collect_orphaned_chunks, delete_file}
use vault_drift.Garbage.Collector.Sweep.{
  is_removed, is_deleted, collect_orphaned_chunks-lookup, collect_orphaned_chunks-blobs,
}
use vault_drift.Garbage.Collector.Release.{refs, count, delete_file-refs, delete_file-keeps}

abbrev row : ℕ → ℕ → Row
row ref_count created_at = record {
  size_bytes = 100;
  ref_count = ref_count;
  created_at = created_at;
}

abbrev file_row : Option String → File
file_row parent = record {
  user_id = "u";
  parent_id = parent;
  name = "x";
  file_type = file;
  size_bytes = 5;
  mime_type = "";
  manifest_id = none;
  checksum = none;
  is_trashed = true;
  trashed_at = some 1;
  version = 1;
  created_at = 1;
  updated_at = 1;
}

abbrev store : Store
store = record {
  table = ("a", row 0 9) ∷ ("b", row 0 3) ∷ ("c", row 2 1) ∷ [];
  blobs = ("a", 1 ∷ []) ∷ ("b", 2 ∷ []) ∷ ("c", 3 ∷ []) ∷ [];
  manifests = ("f", "c" ∷ []) ∷ ("g", "a" ∷ []) ∷ [];
  files = ("f", file_row none) ∷ ("g", file_row (some "f")) ∷ [];
}

abbrev never : String → Bool
never hash = false

abbrev reliable : Faults
reliable = record { put_fails = never; delete_fails = never; drop_fails = never }

-- `DeleteChunk` fails for one hash.
abbrev stuck : Faults
stuck = record reliable { drop_fails = λ hash. str_eq hash "b" }

store-IsKeyed : IsKeyed store.table
unfolding lookup
store-IsKeyed = (refl, (refl, (refl, tt)))

-- The old orphan is collected, the young one and the chunk in use are not.
one_collected :
    (collect_orphaned_chunks reliable (some 5) store).0
    ≡ record { collected = 1; freed = 100; errors = [] }
unfolding collect_orphaned_chunks delete_chunk lookup
one_collected = refl

collect_orphaned_chunks-lookup_example :
    lookup "c" (collect_orphaned_chunks reliable (some 5) store).1.table ≡ (
      if is_chosen_orphan (is_removed reliable (some 5) "c") "c" (lookup "c" store.table)
      then none
      else lookup "c" store.table)
collect_orphaned_chunks-lookup_example =
    collect_orphaned_chunks-lookup reliable (some 5) "c" store store-IsKeyed

collect_orphaned_chunks-blobs_example :
    lookup "b" (collect_orphaned_chunks stuck (some 5) store).1.blobs ≡ (
      if is_chosen_orphan (is_deleted stuck (some 5) "b") "b" (lookup "b" store.table)
      then none
      else lookup "b" store.blobs)
collect_orphaned_chunks-blobs_example =
    collect_orphaned_chunks-blobs stuck (some 5) "b" store store-IsKeyed

delete_file-keeps_example :
    lookup "c" (delete_file reliable "f" store).1.blobs ≡ lookup "c" store.blobs
unfolding lookup
delete_file-keeps_example = delete_file-keeps reliable "f" "c" ("c" ∷ []) store refl (omega arith)

-- The row below goes, too, and its manifest, but the chunk that this manifest names keeps its count.
below_deleted :
    ((delete_file reliable "f" store).1.files ≡ [])
    × ((delete_file reliable "f" store).1.manifests ≡ [])
unfolding delete_file lookup mem insert delete_chunk
below_deleted = (refl, refl)

delete_file-refs_example :
    refs "c" (delete_file reliable "f" store).1 ≡ refs "c" store - count "c" ("c" ∷ [])
unfolding lookup
delete_file-refs_example = delete_file-refs reliable "f" "c" ("c" ∷ []) store refl

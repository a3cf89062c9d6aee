-- ===== src/Garbage/ChunkTable.antt =====
-- The table `chunks` and the queries of internal/db/chunks.go on it. The hash is its primary key, so
-- the table is a dictionary. A row keeps the columns that the code computes with. A database that
-- fails to answer is not modelled; the other errors are.
pub mod Orphans
use vault_drift.Common.{
  ℕ, ◌+◌, ◌-◌, ◌==◌, leb, ltb, Bool, true, false, ◌≡◌, Option, none, some, String, List, [], ◌∷◌,
  length, if◌then◌else◌,
}
use vault_drift.Common.Dict.{Dict, lookup, insert, delete}

-- `Chunk`
pub record Row : Type 0 where
  pub size_bytes : ℕ
  pub ref_count : ℕ
  pub created_at : ℕ

abbrev pub Table : Type 0
Table = Dict Row

pub data Error : Type 0 where
  chunk_not_found failed_to_create failed_to_delete : Error

-- `CreateChunk`: a second row with the hash breaks the primary key.
unfoldable pub create_chunk : String → Row → Table → Option Error × Table
create_chunk hash row t = elim (lookup hash t) [
  | some old ↦ (some failed_to_create, t)
  | none ↦ (none, insert hash row t)
]

-- `GetChunk`
unfoldable pub get_chunk : String → Table → Option Row
get_chunk hash t = lookup hash t

abbrev pub is_some {ℓ} : {A : Type ℓ} → Option A → Bool
is_some none = false
is_some (some a) = true

-- `ChunkExists`
unfoldable pub chunk_exists : String → Table → Bool
chunk_exists hash t = is_some (lookup hash t)

-- `IncrementRefCount`
unfoldable pub increment_ref_count : String → Table → Option Error × Table
increment_ref_count hash t = elim (lookup hash t) [
  | none ↦ (some chunk_not_found, t)
  | some row ↦ (none, insert hash (record row { ref_count = row.ref_count + 1 }) t)
]

-- `DecrementRefCount`: no row is changed, and the error says so, where the count is 0.
unfoldable pub decrement_ref_count : String → Table → Option Error × Table
decrement_ref_count hash t = elim (lookup hash t) [
  | none ↦ (some chunk_not_found, t)
  | some row ↦
      if ltb 0 row.ref_count
      then (none, insert hash (record row { ref_count = row.ref_count - 1 }) t)
      else (some chunk_not_found, t)
]

-- `ORDER BY created_at ASC`: one row into the ordered rows.
unfoldable pub insert_by_age : String × Row → Table → Table
insert_by_age entry [] = entry ∷ []
insert_by_age entry (first ∷ rest) =
    let placed = insert_by_age entry rest in
    if leb entry.1.created_at first.1.created_at then entry ∷ first ∷ rest else first ∷ placed

-- `ListOrphanedChunks`
unfoldable pub list_orphaned_chunks : Table → Table
unfolding insert_by_age
list_orphaned_chunks [] = []
list_orphaned_chunks ((hash, row) ∷ t) =
    let rest = list_orphaned_chunks t in
    if row.ref_count == 0 then insert_by_age (hash, row) rest else rest

-- `DeleteChunk`
unfoldable pub delete_chunk : String → Table → Option Error × Table
delete_chunk hash t = elim (lookup hash t) [
  | none ↦ (some chunk_not_found, t)
  | some row ↦ (none, delete hash t)
]

-- `GetTotalChunkCount`
unfoldable pub get_total_chunk_count : Table → ℕ
get_total_chunk_count t = length t

-- `GetTotalChunkSize`
unfoldable pub get_total_chunk_size : Table → ℕ
get_total_chunk_size [] = 0
get_total_chunk_size ((hash, row) ∷ t) = row.size_bytes + get_total_chunk_size t

-- A table has each hash once.
abbrev pub IsKeyed : Table → Type 0
IsKeyed [] = Unit
IsKeyed ((hash, row) ∷ t) = (lookup hash t ≡ none) × IsKeyed t

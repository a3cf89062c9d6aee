-- ===== src/Uploads/Chunks.antt =====
-- The chunks of an upload in internal/server/handlers_upload.go: how `uploadChunk` reads and stores them,
-- and how `cancelUpload` and `cleanupExpiredSessions` give them back. Which calls of the storage and of
-- `DeleteChunk` fail is a parameter.
pub mod Released
pub mod Counted
pub mod Kept
use vault_drift.Common.{
  ℕ, ◌+◌, ◌-◌, ◌==◌, Bool, true, false, Option, none, some, String, List, [], ◌∷◌, ◌++◌, length,
  take, leb, ltb, if◌then◌else◌,
}
use vault_drift.Common.Dict.{lookup, insert, delete}
use vault_drift.Chunk.Chunker.{Reader, eof, fails, more, Result, ok, err, ChunkInfo}
use vault_drift.Garbage.ChunkTable.{
  Row, Table, Error, create_chunk, chunk_exists, get_chunk, increment_ref_count,
  decrement_ref_count, delete_chunk,
}
use vault_drift.Garbage.Collector.{Faults, drop_row, is_unreferenced}
use vault_drift.Uploads.{Shelf, default_chunk_size}

-- `maxChunkSize`
abbrev pub max_chunk_size : ℕ
max_chunk_size = default_chunk_size + 1024

abbrev pub and_before : List ℕ → Result (List ℕ) → Result (List ℕ)
and_before bs (ok rest) = ok (bs ++ rest)
and_before bs (err e) = err e

-- `io.ReadAll` of an `io.LimitReader`.
unfoldable pub read_limited : ℕ → Reader → Result (List ℕ)
read_limited limit (eof bs) = ok (take limit bs)
read_limited limit (fails bs e) = if ltb limit (length bs) then ok (take limit bs) else err e
read_limited limit (more bs r) =
    let rest = read_limited (limit - length bs) r in
    if leb limit (length bs) then ok (take limit bs) else and_before bs rest

module _ (put_fails : String → Bool) where
  -- The part behind `CreateChunk`.
  abbrev pub created_row : Shelf → Option Error × Table → Bool × Shelf
  created_row s (some e, t) = (false, s)
  created_row s (none, t) = (true, record s { table = t })

  -- One round of the loop of `uploadChunk`: whether it goes on.
  unfoldable pub store_chunk : ℕ → ChunkInfo → List ℕ → Shelf → Bool × Shelf
  unfolding create_chunk chunk_exists increment_ref_count
  store_chunk now info bytes s =
      if chunk_exists info.hash s.table
      then created_row s (increment_ref_count info.hash s.table)
      else if put_fails info.hash
      then (false, s)
      else created_row (record s { blobs = insert info.hash bytes s.blobs })
          (create_chunk info.hash
            (record { size_bytes = info.size; ref_count = 1; created_at = now }) s.table)

  -- The loop of `uploadChunk`. There are as many pieces as descriptions.
  unfoldable pub store_chunks : ℕ → List ChunkInfo → List (List ℕ) → Shelf → Bool × Shelf
  unfolding store_chunk
  store_chunks now [] pieces s = (true, s)
  store_chunks now (info ∷ infos) [] s = (false, s)
  store_chunks now (info ∷ infos) (piece ∷ pieces) s =
      let (goes_on, after) = store_chunk now info piece s in
      let rest = store_chunks now infos pieces after in if goes_on then rest else (false, after)

-- `chunkHashes`
abbrev pub hashes_of : List ChunkInfo → List String
hashes_of [] = []
hashes_of (info ∷ infos) = info.hash ∷ hashes_of infos

module _ (faults : Faults) where
  -- `storage.Delete` and `DeleteChunk`, whose errors are only logged.
  abbrev pub discard : String → Shelf → Shelf
  discard hash s = record {
    table = (drop_row faults hash s.table).1;
    blobs = if faults.delete_fails hash then s.blobs else delete hash s.blobs;
  }

  -- The part of a round of `cancelUpload` behind `DecrementRefCount`, with the count before it.
  abbrev pub given_back : String → ℕ → Shelf → Option Error × Table → Shelf
  given_back hash before s (some e, t) = s
  given_back hash before s (none, t) =
      if leb before 1 then discard hash (record s { table = t }) else record s { table = t }

  abbrev pub give_back_row : String → Option Row → Shelf → Shelf
  give_back_row hash none s = s
  give_back_row hash (some row) s =
      given_back hash row.ref_count s (decrement_ref_count hash s.table)

  -- One round of the loop of `cancelUpload`.
  unfoldable pub give_back : String → Shelf → Shelf
  unfolding get_chunk decrement_ref_count delete_chunk
  give_back hash s = give_back_row hash (get_chunk hash s.table) s

  unfoldable pub give_back_all : List String → Shelf → Shelf
  unfolding give_back
  give_back_all [] s = s
  give_back_all (hash ∷ hashes) s = give_back_all hashes (give_back hash s)

  abbrev pub expired_row : String → Shelf → Option Error × Table → Shelf
  expired_row hash s (some e, t) = s
  expired_row hash s (none, t) =
      if is_unreferenced (get_chunk hash t)
      then discard hash (record s { table = t })
      else record s { table = t }

  -- One round of the inner loops of `cleanupExpiredSessions`.
  unfoldable pub give_back_expired : String → Shelf → Shelf
  unfolding get_chunk decrement_ref_count delete_chunk
  give_back_expired hash s = expired_row hash s (decrement_ref_count hash s.table)

  unfoldable pub give_back_all_expired : List String → Shelf → Shelf
  unfolding give_back_expired
  give_back_all_expired [] s = s
  give_back_all_expired (hash ∷ hashes) s = give_back_all_expired hashes (give_back_expired hash s)

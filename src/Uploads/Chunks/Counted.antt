-- ===== src/Uploads/Chunks/Counted.antt =====
-- The references that `uploadChunk` of internal/server/handlers_upload.go adds to the chunks.
use vault_drift.Common.{
  ℕ, ◌+◌, ◌≤◌, ◌≡◌, refl, ap, ◌∙◌, Bool, true, false, none, some, String, List, [], ◌∷◌, str_eq,
  eq_iff, arith, Bool-cases, Option-cases, inl, inr, if◌then◌else◌,
}
use vault_drift.Common.Dict.{lookup, insert, lookup-insert}
use vault_drift.Chunk.Chunker.{ChunkInfo}
use vault_drift.Garbage.ChunkTable.{Row, Table, create_chunk, chunk_exists, increment_ref_count}
use vault_drift.Garbage.Collector.Release.{refs_of, count}
use vault_drift.Uploads.{Shelf}
use vault_drift.Uploads.Chunks.{store_chunk, store_chunks, hashes_of}

-- The references that the rows count for a hash.
abbrev pub refs : String → Shelf → ℕ
refs hash s = refs_of (lookup hash s.table)

-- What a row written under `hash` does to the counts, if it counts one more reference than before.
refs-insert :
    (hash other : String) (row : Row) (t : Table)
    → row.ref_count ≡ refs_of (lookup hash t) + 1
    → refs_of (lookup other (insert hash row t))
      ≡ refs_of (lookup other t) + (if str_eq hash other then 1 else 0)
refs-insert hash other row t more =
    let seen = lookup-insert hash other row t in
    elim (Bool-cases (str_eq hash other)) [
      | inl same ↦
          let d : refs_of (lookup hash t) ≡ refs_of (lookup other t) =
            ap (λ k. refs_of (lookup k t)) ((eq_iff hash other).0 same) in
          ap refs_of seen ∙ rw same (omega (arith, d, more))
      | inr differ ↦ ap refs_of seen ∙ rw differ (omega arith)
    ]

-- What a round of the loop may do to the count of a hash: it adds the reference when it goes on, and
-- takes nothing when it stops.
abbrev IsAdded : String → List String → Shelf → Bool × Shelf → Type 0
IsAdded other hashes s answer =
    (refs other s ≤ refs other answer.1)
    × (answer.0 ≡ true → refs other answer.1 ≡ refs other s + count other hashes)

-- The row of a chunk that was not there.
abbrev pub first_row : ℕ → ChunkInfo → Row
first_row now info = record { size_bytes = info.size; ref_count = 1; created_at = now }

module _ (put_fails : String → Bool) where
  -- A chunk that is there gets one more reference.
  pub store_chunk-known :
      (now : ℕ) (info : ChunkInfo) (bytes : List ℕ) (row : Row) (s : Shelf)
      → lookup info.hash s.table ≡ some row
      → store_chunk put_fails now info bytes s ≡ (
        true,
        record s {
          table = insert info.hash (record row { ref_count = row.ref_count + 1 }) s.table;
        },
      )
  unfolding store_chunk chunk_exists increment_ref_count
  store_chunk-known now info bytes row s found =
      rw (found, store_chunk, chunk_exists, increment_ref_count) refl

  pub store_chunk-failed :
      (now : ℕ) (info : ChunkInfo) (bytes : List ℕ) (s : Shelf)
      → lookup info.hash s.table ≡ none
      → put_fails info.hash ≡ true
      → store_chunk put_fails now info bytes s ≡ (false, s)
  unfolding store_chunk chunk_exists
  store_chunk-failed now info bytes s absent fails =
      rw (absent, store_chunk, chunk_exists, fails) refl

  pub store_chunk-new :
      (now : ℕ) (info : ChunkInfo) (bytes : List ℕ) (s : Shelf)
      → lookup info.hash s.table ≡ none
      → put_fails info.hash ≡ false
      → store_chunk put_fails now info bytes s ≡ (
        true,
        record {
          table = insert info.hash (first_row now info) s.table;
          blobs = insert info.hash bytes s.blobs;
        },
      )
  unfolding store_chunk chunk_exists create_chunk
  store_chunk-new now info bytes s absent works =
      rw (absent, store_chunk, chunk_exists, create_chunk, works) refl

  store_chunk-refs :
      (now : ℕ) (info : ChunkInfo) (bytes : List ℕ) (other : String) (s : Shelf)
      → IsAdded other (info.hash ∷ []) s (store_chunk put_fails now info bytes s)
  store_chunk-refs now info bytes other s = elim (Option-cases (lookup info.hash s.table)) [
    | inl absent ↦ elim (Bool-cases (put_fails info.hash)) [
      | inl fails ↦
          rw (store_chunk-failed now info bytes s absent fails)
            (omega arith, λ goes_on. absurd (ground (arith, goes_on)))
      | inr works ↦
          let more =
            refs-insert info.hash other (first_row now info) s.table
              (omega (arith, ap refs_of absent)) in
          rw (store_chunk-new now info bytes s absent works)
            (omega (arith, more), λ goes_on. omega (arith, more))
    ]
    | inr (row, found) ↦
        let more =
          refs-insert info.hash other (record row { ref_count = row.ref_count + 1 }) s.table
            (omega (arith, ap refs_of found)) in
        rw (store_chunk-known now info bytes row s found)
          (omega (arith, more), λ goes_on. omega (arith, more))
  ]

  -- The loop adds, for each hash, as many references as the descriptions name it, if it runs to its
  -- end, and it never takes one.
  pub store_chunks-refs :
      (now : ℕ) (infos : List ChunkInfo) (pieces : List (List ℕ)) (other : String) (s : Shelf)
      → IsAdded other (hashes_of infos) s (store_chunks put_fails now infos pieces s)
  unfolding store_chunks
  store_chunks-refs now [] pieces other s = (omega arith, λ goes_on. omega arith)
  store_chunks-refs now (info ∷ infos) [] other s =
      (omega arith, λ goes_on. absurd (ground (arith, goes_on)))
  store_chunks-refs now (info ∷ infos) (piece ∷ pieces) other s =
      let (least, exact) = store_chunk-refs now info piece other s in
      let after : Shelf = (store_chunk put_fails now info piece s).1 in
      let (later, all) = store_chunks-refs now infos pieces other after in
      elim (Bool-cases (store_chunk put_fails now info piece s).0) [
        | inl goes_on ↦
            rw goes_on
              (omega (arith, least, later), λ done. all done ∙ omega (arith, exact goes_on))
        | inr stops ↦ rw stops (least, λ done. absurd (ground (arith, done)))
      ]

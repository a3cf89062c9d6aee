-- ===== src/Garbage/Collector/Sweep.antt =====
-- The collection of orphaned chunks removes the old orphans, and nothing else.
use vault_drift.Common.{
  ℕ, not, ◌&&◌, ◌≡◌, refl, ap, ◌∙◌, Bool, true, false, Option, none, some, String, [], ◌∷◌, arith,
  str_eq, eq_iff, Bool-cases, Option-cases, inl, inr, if◌then◌else◌,
}
use vault_drift.Common.Dict.{lookup, delete, lookup-delete}
use vault_drift.Garbage.ChunkTable.{
  Row, Table, Error, IsKeyed, chunk_not_found, delete_chunk, list_orphaned_chunks,
}
use vault_drift.Garbage.ChunkTable.Orphans.{has, is_chosen_orphan, has-list_orphaned_chunks}
use vault_drift.Garbage.Collector.{
  Faults, drop_row, Store, GcResult, empty_result, is_young, swept, sweep_one, sweep,
  collect_orphaned_chunks,
}

delete_chunk-absent :
    (hash : String) (t : Table)
    → lookup hash t ≡ none
    → delete_chunk hash t ≡ (some chunk_not_found, t)
unfolding delete_chunk
delete_chunk-absent hash t absent = rw (absent, delete_chunk) refl

delete_chunk-found :
    (hash : String) (t : Table) (row : Row)
    → lookup hash t ≡ some row
    → delete_chunk hash t ≡ (none, delete hash t)
unfolding delete_chunk
delete_chunk-found hash t row found = rw (found, delete_chunk) refl

module _ (faults : Faults) (older_than : Option ℕ) (hash : String) where
  -- A row whose bytes the loop deletes.
  abbrev pub is_deleted : Row → Bool
  is_deleted row = not (is_young older_than row) && not (faults.delete_fails hash)

  -- A row that the loop removes.
  abbrev pub is_removed : Row → Bool
  is_removed row = is_deleted row && not (faults.drop_fails hash)

  -- What a round does to the row of the hash, when it goes on after the age.
  abbrev Leaves : String → Store → Option Row → Type 0
  Leaves other s row = row ≡ (
      if (not (faults.delete_fails hash) && not (faults.drop_fails hash)) && str_eq other hash
      then none
      else lookup hash s.table)

  sweep_one-lookup :
      (other : String) (row : Row) (result : GcResult) (s : Store)
      → lookup hash (sweep_one faults older_than other row (result, s)).1.table
        ≡ (if is_removed row && str_eq other hash then none else lookup hash s.table)
  unfolding sweep_one
  sweep_one-lookup other row result s = elim (Bool-cases (is_young older_than row)) [
    | inl young ↦ rw young refl
    | inr old ↦ elim (Bool-cases (faults.delete_fails other)) [
      | inl fails ↦ rw (old, fails) (kept (λ same. failed (moved same fails)))
      | inr works ↦ elim (Bool-cases (faults.drop_fails other)) [
        | inl fails ↦ rw (old, works, fails) (kept (λ same. dropped (stuck same fails)))
        | inr drops ↦ elim (Option-cases (lookup other s.table)) [
          | inl absent ↦
              rw (old, works, drops, delete_chunk-absent other s.table absent) (missing absent)
          | inr (there, found) ↦
              rw (old, works, drops, delete_chunk-found other s.table there found)
                (removed works drops)
        ]
      ]
    ]
  ]
    where
      moved :
          str_eq other hash ≡ true
          → faults.delete_fails other ≡ true
          → faults.delete_fails hash ≡ true
      moved same fails = rw (← (eq_iff other hash).0 same) fails

      stuck :
          str_eq other hash ≡ true → faults.drop_fails other ≡ true → faults.drop_fails hash ≡ true
      stuck same fails = rw (← (eq_iff other hash).0 same) fails

      failed :
          faults.delete_fails hash ≡ true
          → (not (faults.delete_fails hash) && not (faults.drop_fails hash)) ≡ false
      failed e = rw e refl

      dropped :
          faults.drop_fails hash ≡ true
          → (not (faults.delete_fails hash) && not (faults.drop_fails hash)) ≡ false
      dropped e = ground (arith, e)

      kept :
          (str_eq other hash ≡ true
            → (not (faults.delete_fails hash) && not (faults.drop_fails hash)) ≡ false)
          → Leaves other s (lookup hash s.table)
      kept fails = elim (Bool-cases (str_eq other hash)) [
        | inl same ↦ rw (fails same) refl
        | inr differ ↦ ground (arith, differ)
      ]

      missing : lookup other s.table ≡ none → Leaves other s (lookup hash s.table)
      missing absent = elim (Bool-cases (str_eq other hash)) [
        | inl same ↦
            let e : lookup hash s.table ≡ none = rw (← (eq_iff other hash).0 same) absent in
            ground (arith, e)
        | inr differ ↦ ground (arith, differ)
      ]

      removed :
          faults.delete_fails other ≡ false
          → faults.drop_fails other ≡ false
          → Leaves other s (lookup hash (delete other s.table))
      removed works drops = elim (Bool-cases (str_eq other hash)) [
        | inl same ↦
            let e : faults.delete_fails hash ≡ false = rw (← (eq_iff other hash).0 same) works in
            let d : faults.drop_fails hash ≡ false = rw (← (eq_iff other hash).0 same) drops in
            ground (arith, lookup-delete other hash s.table, same, e, d)
        | inr differ ↦ ground (arith, lookup-delete other hash s.table, differ)
      ]

  sweep-lookup :
      (rows : Table) (result : GcResult) (s : Store)
      → lookup hash (sweep faults older_than rows (result, s)).1.table
        ≡ (if has is_removed hash rows then none else lookup hash s.table)
  unfolding sweep
  sweep-lookup [] result s = refl
  sweep-lookup ((other, row) ∷ rows) result s =
      let next = sweep_one faults older_than other row (result, s) in
      sweep-lookup rows next.0 next.1 ∙ ground (arith, sweep_one-lookup other row result s)

-- `collectOrphanedChunks`, on a table with each hash once, removes from it exactly the rows whose
-- reference count is 0, that are not younger than `OlderThan`, and for which neither the storage nor
-- `DeleteChunk` fails; every other row stays as it is, and with no `OlderThan` all do.
pub collect_orphaned_chunks-lookup :
    (faults : Faults) (older_than : Option ℕ) (hash : String) (s : Store)
    → IsKeyed s.table
    → lookup hash (collect_orphaned_chunks faults older_than s).1.table ≡ (
        if is_chosen_orphan (is_removed faults older_than hash) hash (lookup hash s.table)
        then none
        else lookup hash s.table)
unfolding collect_orphaned_chunks
collect_orphaned_chunks-lookup faults older_than hash s keyed =
    sweep-lookup faults older_than hash (list_orphaned_chunks s.table) empty_result s
    ∙ ap (λ b. if b then none else lookup hash s.table)
        (has-list_orphaned_chunks (is_removed faults older_than hash) hash s.table keyed)

module _ (faults : Faults) (older_than : Option ℕ) (hash : String) where
  swept-blobs :
      (other : String) (row : Row) (result : GcResult) (s : Store) (answer : Option Error × Table)
      → (swept faults other row result s answer).1.blobs ≡ s.blobs
  swept-blobs other row result s (none, t) = refl
  swept-blobs other row result s (some e, t) = refl

  sweep_one-blobs :
      (other : String) (row : Row) (result : GcResult) (s : Store)
      → lookup hash (sweep_one faults older_than other row (result, s)).1.blobs ≡ (
          if is_deleted faults older_than hash row && str_eq other hash
          then none
          else lookup hash s.blobs)
  unfolding sweep_one
  sweep_one-blobs other row result s = elim (Bool-cases (is_young older_than row)) [
    | inl young ↦ rw young refl
    | inr old ↦ elim (Bool-cases (faults.delete_fails other)) [
      | inl fails ↦ rw (old, fails) (failed fails)
      | inr works ↦
          rw (old, works)
            (ap (lookup hash) (
                swept-blobs other row result (record s { blobs = delete other s.blobs })
                  (drop_row faults other s.table))
              ∙ removed works)
    ]
  ]
    where
      failed :
          faults.delete_fails other ≡ true
          → lookup hash s.blobs ≡ (
              if not (faults.delete_fails hash) && str_eq other hash
              then none
              else lookup hash s.blobs)
      failed fails = elim (Bool-cases (str_eq other hash)) [
        | inl same ↦
            let e : faults.delete_fails hash ≡ true = rw (← (eq_iff other hash).0 same) fails in
            rw e refl
        | inr differ ↦ ground (arith, differ)
      ]

      removed :
          faults.delete_fails other ≡ false
          → lookup hash (delete other s.blobs) ≡ (
              if not (faults.delete_fails hash) && str_eq other hash
              then none
              else lookup hash s.blobs)
      removed works = elim (Bool-cases (str_eq other hash)) [
        | inl same ↦
            let e : faults.delete_fails hash ≡ false = rw (← (eq_iff other hash).0 same) works in
            ground (arith, lookup-delete other hash s.blobs, same, e)
        | inr differ ↦ ground (arith, lookup-delete other hash s.blobs, differ)
      ]

  sweep-blobs :
      (rows : Table) (result : GcResult) (s : Store)
      → lookup hash (sweep faults older_than rows (result, s)).1.blobs
        ≡ (if has (is_deleted faults older_than hash) hash rows then none else lookup hash s.blobs)
  unfolding sweep
  sweep-blobs [] result s = refl
  sweep-blobs ((other, row) ∷ rows) result s =
      let next = sweep_one faults older_than other row (result, s) in
      sweep-blobs rows next.0 next.1 ∙ ground (arith, sweep_one-blobs other row result s)

-- `collectOrphanedChunks`, on a table with each hash once, and whichever calls of the storage and of
-- `DeleteChunk` fail, deletes from the storage exactly the bytes of the hashes whose row has no reference and
-- is not younger than `OlderThan`, and for which the storage does not fail: also of those whose row it
-- then cannot delete. The bytes of a chunk that is referred to stay.
pub collect_orphaned_chunks-blobs :
    (faults : Faults) (older_than : Option ℕ) (hash : String) (s : Store)
    → IsKeyed s.table
    → lookup hash (collect_orphaned_chunks faults older_than s).1.blobs ≡ (
        if is_chosen_orphan (is_deleted faults older_than hash) hash (lookup hash s.table)
        then none
        else lookup hash s.blobs)
unfolding collect_orphaned_chunks
collect_orphaned_chunks-blobs faults older_than hash s keyed =
    sweep-blobs faults older_than hash (list_orphaned_chunks s.table) empty_result s
    ∙ ap (λ b. if b then none else lookup hash s.blobs)
        (has-list_orphaned_chunks (is_deleted faults older_than hash) hash s.table keyed)

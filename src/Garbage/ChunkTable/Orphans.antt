-- ===== src/Garbage/ChunkTable/Orphans.antt =====
-- What `ListOrphanedChunks` lists.
use vault_drift.Common.{
  ◌==◌, ◌&&◌, ◌||◌, ◌≡◌, refl, ◌∙◌, Bool, false, Option, none, some, String, [], ◌∷◌, arith, str_eq,
  eq_iff, Bool-cases, inl, inr,
}
use vault_drift.Common.Dict.{lookup}
use vault_drift.Garbage.ChunkTable.{Row, Table, IsKeyed, insert_by_age, list_orphaned_chunks}

module _ (chosen : Row → Bool) (hash : String) where
  -- Whether the rows have one under `hash` that is chosen.
  abbrev pub has : Table → Bool
  has [] = false
  has ((other, row) ∷ rows) = (chosen row && str_eq other hash) || has rows

  -- Whether a row is there, an orphan, and chosen.
  abbrev pub is_chosen_orphan : Option Row → Bool
  is_chosen_orphan none = false
  is_chosen_orphan (some row) = row.ref_count == 0 && chosen row

  has-insert_by_age :
      (other : String) (row : Row) (rows : Table)
      → has (insert_by_age (other, row) rows) ≡ ((chosen row && str_eq other hash) || has rows)
  unfolding insert_by_age
  has-insert_by_age other row [] = refl
  has-insert_by_age other row ((next, first) ∷ rows) =
      ground (arith, has-insert_by_age other row rows)

  has-list_step :
      (other : String) (row : Row) (t : Table)
      → has (list_orphaned_chunks ((other, row) ∷ t)) ≡ (
          (row.ref_count == 0 && (chosen row && str_eq other hash)) || has (list_orphaned_chunks t))
  unfolding list_orphaned_chunks
  has-list_step other row t = ground (arith, has-insert_by_age other row (list_orphaned_chunks t))

  -- The list has a row exactly where the table has it with no references.
  pub has-list_orphaned_chunks :
      (t : Table) → IsKeyed t → has (list_orphaned_chunks t) ≡ is_chosen_orphan (lookup hash t)
  unfolding lookup
  has-list_orphaned_chunks [] keyed = unfold list_orphaned_chunks in refl
  has-list_orphaned_chunks ((other, row) ∷ t) keyed =
      let ih = has-list_orphaned_chunks t keyed.1 in
      elim (Bool-cases (str_eq other hash)) [
        | inl same ↦
            let absent : lookup hash t ≡ none = rw (← (eq_iff other hash).0 same) keyed.0 in
            has-list_step other row t ∙ rw (ih, absent, same) (ground arith)
        | inr differ ↦ has-list_step other row t ∙ rw (ih, differ) (ground arith)
      ]

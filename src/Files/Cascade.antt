-- ===== src/Files/Cascade.antt =====
-- `PermanentDelete` of internal/db/files.go, with `parent_id ... ON DELETE CASCADE` of
-- internal/db/schema.go, on a connection with the foreign keys on: the rows below a deleted row go with it, in rounds. Each round but the first
-- deletes at least one row, so as many rounds as there are rows are enough.
use vault_drift.Common.{
  ℕ, zero, suc, Bool, false, Option, none, some, String, List, [], ◌∷◌, length, if◌then◌else◌,
}
unfoldable pub use vault_drift.Common.Names.{mem}
use vault_drift.Common.Dict.{lookup}
use vault_drift.Files.{Files, Error, file_not_found}

abbrev pub is_below : Option String → List String → Bool
is_below none ids = false
is_below (some parent) ids = mem parent ids

-- The rows that a round keeps.
unfoldable pub without : List String → Files → Files
without ids [] = []
without ids ((id, f) ∷ t) = let rest = without ids t in if mem id ids then rest else (id, f) ∷ rest

-- The rows whose parent the round deleted.
unfoldable pub orphans : List String → Files → List String
orphans ids [] = []
orphans ids ((id, f) ∷ t) =
    let rest = orphans ids t in if is_below f.parent_id ids then id ∷ rest else rest

unfoldable pub cascade : ℕ → List String → Files → Files
unfolding without orphans
cascade zero ids t = t
cascade (suc fuel) [] t = t
cascade (suc fuel) (id ∷ ids) t =
    let kept = without (id ∷ ids) t in cascade fuel (orphans (id ∷ ids) kept) kept

-- `PermanentDelete`
unfoldable pub permanent_delete : String → Files → Option Error × Files
unfolding cascade
permanent_delete id t = elim (lookup id t) [
  | none ↦ (some file_not_found, t)
  | some f ↦ (none, cascade (suc (length t)) (id ∷ []) t)
]

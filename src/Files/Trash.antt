-- ===== src/Files/Trash.antt =====
-- The trash: `ListTrash` of internal/db/files.go and internal/vfs/trash.go.
pub mod Emptied
pub mod Leaves
use vault_drift.Common.{
  ℕ, zero, suc, ◌-◌, ◌*◌, ◌&&◌, Bool, true, false, Option, none, some, String, List, [], ◌∷◌, take,
  drop, str_eq, ltb, if◌then◌else◌,
}
use vault_drift.Common.Int.{ℤ, pos, negsuc}
use vault_drift.Files.{File, Files, Error}
use vault_drift.Files.Cascade.{permanent_delete}

-- `user_id = ? AND is_trashed = 1`
abbrev pub in_trash_of : String → File → Bool
in_trash_of user f = str_eq user f.user_id && f.is_trashed

-- `ORDER BY trashed_at DESC`; a NULL comes last.
abbrev pub is_later : Option ℕ → Option ℕ → Bool
is_later none other = false
is_later (some at) none = true
is_later (some at) (some other) = ltb other at

unfoldable pub insert_newest : String × File → Files → Files
insert_newest entry [] = entry ∷ []
insert_newest entry (first ∷ rest) =
    let placed = insert_newest entry rest in
    if is_later first.1.trashed_at entry.1.trashed_at then first ∷ placed else entry ∷ first ∷ rest

-- The rows of `ListTrash` in their order.
unfoldable pub trash_of : String → Files → Files
unfolding insert_newest
trash_of user [] = []
trash_of user ((id, f) ∷ t) =
    let rest = trash_of user t in if in_trash_of user f then insert_newest (id, f) rest else rest

-- `if limit <= 0 { limit = 100 }` and `if offset < 0 { offset = 0 }`
abbrev pub limit_of : ℤ → ℕ
limit_of (pos zero) = 100
limit_of (pos (suc n)) = suc n
limit_of (negsuc n) = 100

abbrev pub offset_of : ℤ → ℕ
offset_of (pos n) = n
offset_of (negsuc n) = 0

-- `ListTrash`
unfoldable pub list_trash : String → ℤ → ℤ → Files → Files
unfolding trash_of
list_trash user limit offset t = take (limit_of limit) (drop (offset_of offset) (trash_of user t))

-- A loop over ids that deletes each and goes on after an error.
unfoldable pub delete_rows : List String → Files → Files
unfolding permanent_delete
delete_rows [] t = t
delete_rows (id ∷ ids) t = delete_rows ids (permanent_delete id t).1

abbrev pub ids_of : Files → List String
ids_of [] = []
ids_of ((id, f) ∷ t) = id ∷ ids_of t

-- `Empty`
unfoldable pub empty : String → Files → Files
unfolding list_trash delete_rows
empty user t = delete_rows (ids_of (list_trash user (pos 0) (pos 0) t)) t

-- `trashed_at < ?`, which a NULL never passes.
abbrev pub is_before : Option ℕ → ℕ → Bool
is_before none cutoff = false
is_before (some at) cutoff = ltb at cutoff

-- The query of `CleanupExpired`.
unfoldable pub expired : ℕ → Files → List String
expired cutoff [] = []
expired cutoff ((id, f) ∷ t) =
    let rest = expired cutoff t in
    if f.is_trashed && is_before f.trashed_at cutoff then id ∷ rest else rest

-- `CleanupExpired`, at a time that is not before the retention.
unfoldable pub cleanup_expired : ℕ → ℕ → Files → Files
unfolding expired delete_rows
cleanup_expired now retention_days t = delete_rows (expired (now - retention_days * 86400) t) t

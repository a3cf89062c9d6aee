-- ===== src/Files.antt =====
-- The table `files` and the statements of internal/db/files.go on it. The id is the primary key, so
-- the table is a dictionary by id, in the order in which the rows were written. The rules of the
-- table come from internal/db/schema.go: UNIQUE(user_id, parent_id, name), where SQLite takes two NULL
-- parents for distinct, and `parent_id REFERENCES files(id)`. SQLite checks the latter only on a connection on which
-- `PRAGMA foreign_keys` is on, and every statement here is one on such a connection; internal/db/db.go switches it
-- on when it opens the database. The user of a row is taken to exist. Times are seconds. A row leaves out the encrypted name and key.
pub mod Cascade
pub mod Manifests
pub mod Name
pub mod Unique
pub mod Rooted
pub mod Vfs
pub mod Trash
pub mod Trail
use vault_drift.Common.{
  ℕ, suc, ◌+◌, Bool, true, false, not, ◌&&◌, ◌||◌, Option, none, some, String, List, [], ◌∷◌,
  str_eq, if◌then◌else◌,
}
use vault_drift.Common.Dict.{Dict, lookup, insert}

pub data FileType : Type 0 where
  file folder : FileType

-- `File`
pub record File : Type 0 where
  pub user_id : String
  pub parent_id : Option String
  pub name : String
  pub file_type : FileType
  pub size_bytes : ℕ
  pub mime_type : String
  pub manifest_id : Option String
  pub checksum : Option String
  pub is_trashed : Bool
  pub trashed_at : Option ℕ
  pub version : ℕ
  pub created_at : ℕ
  pub updated_at : ℕ

abbrev pub Files : Type 0
Files = Dict File

pub data Error : Type 0 where
  file_not_found already_exists constraint_failed : Error

abbrev pub is_some {ℓ} : {A : Type ℓ} → Option A → Bool
is_some none = false
is_some (some a) = true

-- `parent_id = ?`, which a NULL never passes.
abbrev pub is_in : String → Option String → Bool
is_in parent none = false
is_in parent (some own) = str_eq parent own

-- `UNIQUE(user_id, parent_id, name)` on two rows: the columns that decide it.
abbrev pub same_place : Option String → String → String → File → Bool
same_place none user name g = false
same_place (some parent) user name g =
    is_in parent g.parent_id && (str_eq user g.user_id && str_eq name g.name)

-- Whether a row `id` with this place breaks UNIQUE.
unfoldable pub clashes : String → Option String → String → String → Files → Bool
clashes id parent user name [] = false
clashes id parent user name ((other, g) ∷ t) =
    let rest = clashes id parent user name t in
    (not (str_eq other id) && same_place parent user name g) || rest

-- `parent_id REFERENCES files(id)`, on a connection with the foreign keys on.
abbrev pub has_parent : Option String → Files → Bool
has_parent none t = true
has_parent (some parent) t = is_some (lookup parent t)

-- What a statement that writes the row `id` does: the constraints are checked on what it would leave.
unfoldable pub write : String → File → Files → Option Error × Files
unfolding clashes
write id f t =
    if clashes id f.parent_id f.user_id f.name t
    then (some already_exists, t)
    else if has_parent f.parent_id (insert id f t)
    then (none, insert id f t)
    else (some constraint_failed, t)

-- `CreateFile`
unfoldable pub create_file : String → File → Files → Option Error × Files
unfolding write
create_file id f t = elim (lookup id t) [
  | some old ↦ (some already_exists, t)
  | none ↦ write id f t
]

-- `GetFileByID`
unfoldable pub get_file_by_id : String → Files → Option File
get_file_by_id id t = lookup id t

-- `UPDATE files SET ... WHERE id = ?`, with the count of the rows that it changed.
unfoldable pub update_row : String → (File → File) → Files → Option Error × Files
unfolding write
update_row id change t = elim (lookup id t) [
  | none ↦ (some file_not_found, t)
  | some f ↦ write id (change f) t
]

-- A field that `UpdateFile` allows, with its value.
pub data Update : Type 0 where
  set_name set_mime_type set_manifest_id set_checksum : String → Update
  set_size_bytes set_version : ℕ → Update

abbrev pub assign : Update → File → File
assign (set_name name) f = record f { name = name }
assign (set_mime_type mime_type) f = record f { mime_type = mime_type }
assign (set_manifest_id id) f = record f { manifest_id = some id }
assign (set_checksum checksum) f = record f { checksum = some checksum }
assign (set_size_bytes size) f = record f { size_bytes = size }
assign (set_version version) f = record f { version = version }

abbrev pub assign_all : List Update → File → File
assign_all [] f = f
assign_all (u ∷ us) f = assign_all us (assign u f)

-- `UpdateFile`, for allowed fields.
unfoldable pub update_file : ℕ → String → List Update → Files → Option Error × Files
unfolding update_row
update_file now id [] t = (none, t)
update_file now id (u ∷ us) t =
    update_row id (λ f. record (assign_all (u ∷ us) f) { updated_at = now }) t

-- An empty parent is stored as NULL.
unfoldable pub parent_of : String → Option String
parent_of parent = if str_eq parent "" then none else some parent

-- `MoveFile`
unfoldable pub move_file : ℕ → String → String → String → Files → Option Error × Files
unfolding update_row parent_of
move_file now id new_parent new_name t =
    update_row id
      (λ f. record f { parent_id = parent_of new_parent; name = new_name; updated_at = now }) t

-- `SoftDelete`
unfoldable pub soft_delete : ℕ → String → Files → Option Error × Files
unfolding update_row
soft_delete now id t =
    update_row id (λ f. record f { is_trashed = true; trashed_at = some now; updated_at = now }) t

-- `RestoreFromTrash`
unfoldable pub restore_from_trash : ℕ → String → Files → Option Error × Files
unfolding update_row
restore_from_trash now id t =
    update_row id (λ f. record f { is_trashed = false; trashed_at = none; updated_at = now }) t

abbrev pub same_parent : Option String → Option String → Bool
same_parent none none = true
same_parent none (some own) = false
same_parent (some parent) own = is_in parent own

-- The `WHERE` of `GetFileByPath`.
abbrev pub is_at : String → Option String → String → File → Bool
is_at user parent name f =
    str_eq user f.user_id
    && (same_parent parent f.parent_id && (str_eq name f.name && not f.is_trashed))

-- `GetFileByPath`: the first row that the query finds.
unfoldable pub get_file_by_path : String → String → String → Files → Option (String × File)
unfolding parent_of
get_file_by_path user parent name [] = none
get_file_by_path user parent name ((id, f) ∷ t) =
    let rest = get_file_by_path user parent name t in
    if is_at user (parent_of parent) name f then some (id, f) else rest

-- `CountTrash`
unfoldable pub count_trash : String → Files → ℕ
count_trash user [] = 0
count_trash user ((id, f) ∷ t) =
    let rest = count_trash user t in
    if str_eq user f.user_id && f.is_trashed then suc rest else rest

-- `CountFiles`
unfoldable pub count_files : Files → ℕ
count_files [] = 0
count_files ((id, f) ∷ t) = let rest = count_files t in if f.is_trashed then rest else suc rest

abbrev pub is_file : FileType → Bool
is_file file = true
is_file folder = false

-- `SumFileBytes`
unfoldable pub sum_file_bytes : Files → ℕ
sum_file_bytes [] = 0
sum_file_bytes ((id, f) ∷ t) =
    let rest = sum_file_bytes t in
    if not f.is_trashed && is_file f.file_type then f.size_bytes + rest else rest

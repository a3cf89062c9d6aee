-- ===== src/Files/Vfs.antt =====
-- internal/vfs/vfs.go: the virtual file system on the table `files`. The id that `generateID` makes and
-- the time are arguments. The reads that only pass on what the database finds have no definition of
-- their own here.
pub mod Requests
pub mod Found
pub mod Restored
use vault_drift.Common.{
  ℕ, ◌&&◌, not, Bool, true, false, Option, none, some, String, List, [], ◌∷◌, str_eq, if◌then◌else◌,
}
use vault_drift.Common.Dict.{lookup}
use vault_drift.Files.{
  Error as DbError, File, Files, FileType, create_file as insert_file, file_not_found, folder, file,
  get_file_by_path, is_some, parent_of, update_file, set_name, move_file, soft_delete,
  restore_from_trash,
}
use vault_drift.Files.Cascade.{permanent_delete}
use vault_drift.Files.Name.{is_valid_name}

-- The errors of internal/vfs/errors.go, and a wrapped error of the database.
pub data Error : Type 0 where
  not_found already_exists invalid_name : Error
  failed : DbError → Error

abbrev pub wrapped : Option DbError → Option Error
wrapped none = none
wrapped (some e) = some (failed e)

-- The row that `CreateFolder` writes.
unfoldable pub new_folder : ℕ → String → String → String → File
unfolding parent_of
new_folder now user parent name = record {
  user_id = user;
  parent_id = parent_of parent;
  name = name;
  file_type = folder;
  size_bytes = 0;
  mime_type = "";
  manifest_id = none;
  checksum = none;
  is_trashed = false;
  trashed_at = none;
  version = 0;
  created_at = now;
  updated_at = now;
}

-- The row that `CreateFile` writes.
unfoldable pub new_file : ℕ → String → String → String → String → ℕ → File
unfolding parent_of
new_file now user parent name mime_type size = record {
  user_id = user;
  parent_id = parent_of parent;
  name = name;
  file_type = file;
  size_bytes = size;
  mime_type = mime_type;
  manifest_id = none;
  checksum = none;
  is_trashed = false;
  trashed_at = none;
  version = 1;
  created_at = now;
  updated_at = now;
}

abbrev pub wrap : Option DbError × Files → Option Error × Files
wrap (e, t) = (wrapped e, t)

-- What both share: the checks, and the row written.
unfoldable pub create : String → String → String → String → File → Files → Option Error × Files
unfolding is_valid_name
create id user parent name row t =
    if not (is_valid_name name)
    then (some invalid_name, t)
    else if is_some (get_file_by_path user parent name t)
    then (some already_exists, t)
    else wrap (insert_file id row t)

-- `CreateFolder`
unfoldable pub create_folder : ℕ → String → String → String → String → Files → Option Error × Files
unfolding create new_folder
create_folder now id user parent name t =
    create id user parent name (new_folder now user parent name) t

-- `CreateFile`
unfoldable pub create_file :
    ℕ → String → String → String → String → String → ℕ → Files → Option Error × Files
unfolding create new_file
create_file now id user parent name mime_type size t =
    create id user parent name (new_file now user parent name mime_type size) t

-- `Rename`
unfoldable pub rename : ℕ → String → String → Files → Option Error × Files
unfolding is_valid_name update_file
rename now id new_name t =
    if is_valid_name new_name
    then wrap (update_file now id (set_name new_name ∷ []) t)
    else (some invalid_name, t)

-- The part of `Move` behind the look for the name.
abbrev pub move_as : ℕ → String → String → Option String → Files → Option Error × Files
move_as now id new_parent none t = (some not_found, t)
move_as now id new_parent (some name) t = wrap (move_file now id new_parent name t)

abbrev pub name_of : Option File → Option String
name_of none = none
name_of (some f) = some f.name

-- `Move`: an empty name keeps the file's own.
unfoldable pub move : ℕ → String → String → String → Files → Option Error × Files
unfolding is_valid_name move_file
move now id new_parent new_name t =
    if not (str_eq new_name "") && not (is_valid_name new_name)
    then (some invalid_name, t)
    else if str_eq new_name ""
    then move_as now id new_parent (name_of (lookup id t)) t
    else move_as now id new_parent (some new_name) t

-- `Delete`
unfoldable pub delete : ℕ → String → Files → Option Error × Files
unfolding soft_delete
delete now id t = wrap (soft_delete now id t)

-- `DeletePermanent`
unfoldable pub delete_permanent : String → Files → Option Error × Files
unfolding permanent_delete
delete_permanent id t = wrap (permanent_delete id t)

-- `Restore`
unfoldable pub restore : ℕ → String → Files → Option Error × Files
unfolding restore_from_trash
restore now id t = wrap (restore_from_trash now id t)

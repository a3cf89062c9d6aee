-- ===== src/Files/Trail.antt =====
-- `GetBreadcrumbs` and `GetFolderPath` of internal/vfs/vfs.go: the way up from a folder. The loop has fuel
-- here, and the answer `none` says that it was not enough.
pub mod Ends
pub mod Loops
use vault_drift.Common.{
  ℕ, zero, suc, Bool, Option, none, some, String, List, [], ◌∷◌, map, str_eq, if◌then◌else◌,
}
use vault_drift.Common.Dict.{lookup}
use vault_drift.Files.{File, Files, FileType, file, folder}

-- `Breadcrumb`
pub record Breadcrumb : Type 0 where
  pub id : String
  pub name : String

-- `currentID != nil && *currentID != ""`, with the id where it holds.
abbrev pub step_of : Option String → Option String
step_of none = none
step_of (some id) = if str_eq id "" then none else some id

abbrev pub found_as : String → Option File → Option (String × File)
found_as id none = none
found_as id (some f) = some (id, f)

abbrev pub next_at : Option String → Files → Option (String × File)
next_at none t = none
next_at (some id) t = found_as id (lookup id t)

-- The id of a loop's next round with its row, if there is one.
unfoldable pub next : Option String → Files → Option (String × File)
next current t = next_at (step_of current) t

-- The loop of `GetBreadcrumbs` and the one of `GetFolderPath`: what is met is put in front.
unfoldable pub climb : ℕ → Option String → Files → List Breadcrumb → Option (List Breadcrumb)
unfolding next
climb zero current t crumbs = none
climb (suc fuel) current t crumbs = elim (next current t) [
  | none ↦ some crumbs
  | some entry ↦
      climb fuel entry.1.parent_id t (record { id = entry.0; name = entry.1.name } ∷ crumbs)
]

abbrev pub with_root : Option (List Breadcrumb) → Option (List Breadcrumb)
with_root none = none
with_root (some crumbs) = some (record { id = ""; name = "root" } ∷ crumbs)

-- `GetBreadcrumbs`
unfoldable pub get_breadcrumbs : ℕ → String → Files → Option (List Breadcrumb)
unfolding climb
get_breadcrumbs fuel folder_id t = with_root (climb fuel (some folder_id) t [])

-- The names on the way, from the top: what `GetFolderPath` joins with slashes behind a slash.
pub data FolderPath : Type 0 where
  parts : List String → FolderPath
  not_found is_file : FolderPath

abbrev pub names : List Breadcrumb → List String
names crumbs = map (λ crumb. crumb.name) crumbs

abbrev pub path_of : Option (List Breadcrumb) → Option FolderPath
path_of none = none
path_of (some crumbs) = some (parts (names crumbs))

abbrev pub climb_from : ℕ → String → File → FileType → Files → Option FolderPath
climb_from fuel id f file t = some is_file
climb_from fuel id f folder t =
    path_of (climb fuel f.parent_id t (record { id = id; name = f.name } ∷ []))

abbrev pub path_from : ℕ → String → Option File → Files → Option FolderPath
path_from fuel id none t = some not_found
path_from fuel id (some f) t = climb_from fuel id f f.file_type t

-- `GetFolderPath`
unfoldable pub get_folder_path : ℕ → String → Files → Option FolderPath
unfolding climb
get_folder_path fuel folder_id t =
    if str_eq folder_id "" then some (parts []) else path_from fuel folder_id (lookup folder_id t) t

-- ===== src/Tests/Files.antt =====
-- Runs of the virtual file system.
use vault_drift.Common.{
  ℕ, ◌+◌, ◌≤◌, ◌≡◌, refl, Bool, not, ◌&&◌, true, false, Option, none, some, String, List, [], ◌∷◌,
  str_eq, eq_iff, arith, if◌then◌else◌,
}
use vault_drift.Common.Dict.{lookup, insert}
use vault_drift.Files.{
  create_file as insert_row, File, Files, FileType, file, folder, already_exists as row_exists,
  count_trash, count_files, get_file_by_path, clashes,
}
use vault_drift.Files.Cascade.{permanent_delete, mem}
use vault_drift.Files.Name.{is_valid_name}
use vault_drift.Files.Vfs.{already_exists, failed, create_file, delete, restore, move, new_file}
use vault_drift.Files.Vfs.Requests.{
  Request, make_folder, make_file, rename_to, move_to, trash, restore_at, serve_all, IsSound,
}
use vault_drift.Files.Vfs.Found.{create_file-found, create_file-trashed}
use vault_drift.Files.Vfs.Restored.{restore-delete}
use vault_drift.Common.Int.{pos}
use vault_drift.Files.Unique.{IsUnique}
use vault_drift.Files.Trash.{ids_of, list_trash, empty}
use vault_drift.Files.Trash.Emptied.{empty-count_trash}
use vault_drift.Files.Trash.Leaves.{HasNothingIn, empty-leaves}
use vault_drift.Files.Trail.{Breadcrumb, next, get_breadcrumbs}
use vault_drift.Files.Trail.Ends.{IsChain, get_breadcrumbs-ends}
use vault_drift.Files.Trail.Loops.{get_breadcrumbs-move}

abbrev row : Option String → String → FileType → File
row parent name file_type = record {
  user_id = "u";
  parent_id = parent;
  name = name;
  file_type = file_type;
  size_bytes = 5;
  mime_type = "text/plain";
  manifest_id = none;
  checksum = none;
  is_trashed = false;
  trashed_at = none;
  version = 1;
  created_at = 1;
  updated_at = 1;
}

abbrev old : File
old = record (row (some "d") "a.txt" file) { is_trashed = true; trashed_at = some 3 }

-- A folder with a file in it, and the same with the file in the trash.
abbrev tree : Files
tree = ("d", row none "docs" folder) ∷ ("f", row (some "d") "a.txt" file) ∷ []

abbrev trashed_tree : Files
trashed_tree = ("d", row none "docs" folder) ∷ ("f", old) ∷ []

tree-IsSound : IsSound tree
unfolding clashes lookup
tree-IsSound = ((refl, refl, (refl, refl, tt)), (refl, (refl, tt)))

-- The second file of the name is refused, the one with a slash too, and the folder goes with all
-- that is in it.
abbrev requests : List Request
requests =
    make_folder 1 "d" "u" "" "docs"
    ∷ make_file 2 "f" "u" "d" "a.txt" "text/plain" 5
    ∷ make_file 3 "g" "u" "d" "a.txt" "text/plain" 7
    ∷ make_file 4 "h" "u" "d" "a/b" "text/plain" 7
    ∷ trash 5 "f"
    ∷ restore_at 6 "f"
    ∷ rename_to 7 "f" "b.txt"
    ∷ move_to 8 "f" "" "c.txt"
    ∷ []

one_folder_one_file : count_files (serve_all requests []) ≡ 2
unfolding count_files serve_all lookup insert get_file_by_path insert_row
one_folder_one_file = refl

all_deleted : permanent_delete "d" tree ≡ (none, [])
unfolding permanent_delete lookup mem
all_deleted = refl

create_file-found_example :
    let after = (create_file 2 "g" "u" "d" "b.txt" "text/plain" 7 tree).1 in
    (get_file_by_path "u" "d" "b.txt" after ≡ some ("g", new_file 2 "u" "d" "b.txt" "text/plain" 7))
    × (create_file 3 "h" "u" "d" "b.txt" "text/html" 8 after ≡ (some already_exists, after))
unfolding create_file get_file_by_path insert_row lookup insert
create_file-found_example =
    create_file-found 2 3 "g" "h" "u" "d" "b.txt" "text/plain" "text/html" 7 8 tree created
  where
    created : (create_file 2 "g" "u" "d" "b.txt" "text/plain" 7 tree).0 ≡ none
    created = refl

create_file-trashed_example :
    create_file 9 "g" "u" "d" "a.txt" "text/plain" 7 trashed_tree
    ≡ (some (failed row_exists), trashed_tree)
unfolding is_valid_name lookup get_file_by_path
create_file-trashed_example =
    create_file-trashed 9 "g" "f" "u" "d" "a.txt" "text/plain" 7 old trashed_tree refl
      (λ e. absurd (ground (arith, (eq_iff "d" "").1 e))) refl refl refl refl refl refl

restore-delete_example :
    ((delete 3 "f" tree).0 ≡ none)
    × (restore 4 "f" (delete 3 "f" tree).1
        ≡ (none, insert "f" (record (row (some "d") "a.txt" file) { updated_at = 4 }) tree))
unfolding lookup
restore-delete_example =
    restore-delete 3 4 "f" (row (some "d") "a.txt" file) tree tree-IsSound refl refl refl

empty-count_trash_example : count_trash "u" (empty "u" trashed_tree) ≡ 0
unfolding count_trash
empty-count_trash_example = empty-count_trash "u" trashed_tree (omega arith)

-- A trash of one row more than `Empty` takes.
abbrev names : List String
names =
    "0" ∷ "1" ∷ "2" ∷ "3" ∷ "4" ∷ "5" ∷ "6" ∷ "7" ∷ "8" ∷ "9" ∷ "10" ∷ "11" ∷ "12" ∷ "13" ∷ "14"
    ∷ "15" ∷ "16" ∷ "17" ∷ "18" ∷ "19" ∷ "20" ∷ "21" ∷ "22" ∷ "23" ∷ "24" ∷ "25" ∷ "26" ∷ "27"
    ∷ "28" ∷ "29" ∷ "30" ∷ "31" ∷ "32" ∷ "33" ∷ "34" ∷ "35" ∷ "36" ∷ "37" ∷ "38" ∷ "39" ∷ "40"
    ∷ "41" ∷ "42" ∷ "43" ∷ "44" ∷ "45" ∷ "46" ∷ "47" ∷ "48" ∷ "49" ∷ "50" ∷ "51" ∷ "52" ∷ "53"
    ∷ "54" ∷ "55" ∷ "56" ∷ "57" ∷ "58" ∷ "59" ∷ "60" ∷ "61" ∷ "62" ∷ "63" ∷ "64" ∷ "65" ∷ "66"
    ∷ "67" ∷ "68" ∷ "69" ∷ "70" ∷ "71" ∷ "72" ∷ "73" ∷ "74" ∷ "75" ∷ "76" ∷ "77" ∷ "78" ∷ "79"
    ∷ "80" ∷ "81" ∷ "82" ∷ "83" ∷ "84" ∷ "85" ∷ "86" ∷ "87" ∷ "88" ∷ "89" ∷ "90" ∷ "91" ∷ "92"
    ∷ "93" ∷ "94" ∷ "95" ∷ "96" ∷ "97" ∷ "98" ∷ "99" ∷ "100" ∷ []

abbrev loose : List String → Files
loose [] = []
loose (id ∷ ids) = (id, record old { parent_id = none }) ∷ loose ids

abbrev differ : List String → Bool
differ [] = true
differ (id ∷ ids) = let rest = differ ids in not (mem id ids) && rest

loose-absent : (id : String) (ids : List String) → mem id ids ≡ false → lookup id (loose ids) ≡ none
unfolding mem lookup
loose-absent id [] new = refl
loose-absent id (other ∷ ids) new = ground (arith, new, loose-absent id ids, eq_iff other id)

loose-clashes :
    (id user name : String) (ids : List String) → clashes id none user name (loose ids) ≡ false
unfolding clashes
loose-clashes id user name [] = refl
loose-clashes id user name (other ∷ ids) = ground (arith, loose-clashes id user name ids)

loose-IsUnique : (ids : List String) → differ ids ≡ true → IsUnique (loose ids)
loose-IsUnique [] apart = tt
loose-IsUnique (id ∷ ids) apart = (
  loose-absent id ids (ground (arith, apart)),
  loose-clashes id "u" "a.txt" ids,
  loose-IsUnique ids (ground (arith, apart)),
)

loose-HasNothingIn : (listed ids : List String) → HasNothingIn listed (loose ids)
loose-HasNothingIn listed [] = tt
loose-HasNothingIn listed (id ∷ ids) = (refl, loose-HasNothingIn listed ids)

empty-leaves_example :
    count_trash "u" (loose names) ≤ 100 + count_trash "u" (empty "u" (loose names))
unfolding mem
empty-leaves_example =
    empty-leaves "u" (loose names) (loose-IsUnique names refl)
      (loose-HasNothingIn (ids_of (list_trash "u" (pos 0) (pos 0) (loose names))) names)

-- The folder is at height 0, what is in it above.
abbrev height : String → ℕ
height id = if str_eq id "d" then 0 else 1

get_breadcrumbs-ends_example :
    (crumbs : List Breadcrumb) × (top : Option String) × (get_breadcrumbs 3 "f" tree
      ≡ some (record { id = ""; name = "root" } ∷ crumbs))
    × (next top tree ≡ none)
    × IsChain tree top crumbs "f"
get_breadcrumbs-ends_example =
    get_breadcrumbs-ends height 3 "f" tree (refl, (refl, tt)) (omega arith)

get_breadcrumbs-move_example : get_breadcrumbs 1000 "d" (move 9 "d" "d" "loop" tree).1 ≡ none
unfolding move lookup insert
get_breadcrumbs-move_example =
    get_breadcrumbs-move 1000 9 "d" "loop" tree (λ e. absurd (ground (arith, (eq_iff "d" "").1 e)))
      refl

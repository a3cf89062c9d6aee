-- ===== src/Files/Vfs/Requests.antt =====
-- The calls of internal/vfs/vfs.go that change the table `files`, as the steps of a state machine.
use vault_drift.Common.{
  ℕ, ◌≡◌, refl, Option, none, some, String, List, [], ◌∷◌, Option-cases, inl, inr,
}
use vault_drift.Common.Dict.{lookup}
use vault_drift.Files.{
  File, Files, create_file as insert_file, file_not_found, already_exists, update_row, write,
}
use vault_drift.Files.Unique.{IsUnique, write-IsUnique}
use vault_drift.Files.Rooted.{IsRooted, write-IsRooted}
use vault_drift.Files.Vfs.{
  Error, create_folder, create_file, rename, move, delete, delete_permanent, restore,
}

-- A call with its arguments; the first two are the time and the id.
pub data Request : Type 0 where
  make_folder : ℕ → String → String → String → String → Request
  make_file : ℕ → String → String → String → String → String → ℕ → Request
  rename_to : ℕ → String → String → Request
  move_to : ℕ → String → String → String → Request
  trash restore_at : ℕ → String → Request
  remove : String → Request

unfoldable pub serve : Request → Files → Option Error × Files
unfolding create_folder create_file rename move delete restore delete_permanent
serve (make_folder now id user parent name) t = create_folder now id user parent name t
serve (make_file now id user parent name mime_type size) t =
    create_file now id user parent name mime_type size t
serve (rename_to now id name) t = rename now id name t
serve (move_to now id parent name) t = move now id parent name t
serve (trash now id) t = delete now id t
serve (restore_at now id) t = restore now id t
serve (remove id) t = delete_permanent id t

-- The table after a sequence of calls, the failed ones too.
unfoldable pub serve_all : List Request → Files → Files
unfolding serve
serve_all [] t = t
serve_all (r ∷ rs) t = serve_all rs (serve r t).1

-- Each id is there once, each place below a folder is taken once, and each parent is there.
abbrev pub IsSound : Files → Type 0
IsSound t = IsUnique t × IsRooted t

write-IsSound : (id : String) (f : File) (t : Files) → IsSound t → IsSound (write id f t).1
write-IsSound id f t sound = (write-IsUnique id f t sound.0, write-IsRooted id f t sound.1)

pub update_row-some :
    (id : String) (change : File → File) (f : File) (t : Files)
    → lookup id t ≡ some f
    → update_row id change t ≡ write id (change f) t
unfolding update_row
update_row-some id change f t found = rw (found, update_row) refl

pub update_row-none :
    (id : String) (change : File → File) (t : Files)
    → lookup id t ≡ none
    → update_row id change t ≡ (some file_not_found, t)
unfolding update_row
update_row-none id change t absent = rw (absent, update_row) refl

pub update_row-IsSound :
    (id : String) (change : File → File) (t : Files)
    → IsSound t
    → IsSound (update_row id change t).1
update_row-IsSound id change t sound = elim (Option-cases (lookup id t)) [
  | inl absent ↦ rw (update_row-none id change t absent) sound
  | inr (f, found) ↦ rw (update_row-some id change f t found) (write-IsSound id (change f) t sound)
]

pub insert_file-new :
    (id : String) (f : File) (t : Files) → lookup id t ≡ none → insert_file id f t ≡ write id f t
unfolding insert_file
insert_file-new id f t absent = rw (absent, insert_file) refl

pub insert_file-old :
    (id : String) (f old : File) (t : Files)
    → lookup id t ≡ some old
    → insert_file id f t ≡ (some already_exists, t)
unfolding insert_file
insert_file-old id f old t found = rw (found, insert_file) refl

-- ===== src/Files/Vfs/Found.antt =====
-- `CreateFile`, `Delete` and `Restore` of internal/vfs/vfs.go: what is found after them.
use mathlib.Core.Option.{some-injective, some-ne-none}
use vault_drift.Common.{
  ℕ, ◌≡◌, refl, sym, ap, ◌∙◌, ◌≢◌, ◌&&◌, ◌||◌, not, Bool, true, false, Option, none, some, String,
  [], ◌∷◌, str_eq, eq_iff, arith, Bool-cases, Option-cases, inl, inr,
}
use vault_drift.Common.Dict.{lookup, insert}
use vault_drift.Files.{
  File, Files, already_exists as row_exists, constraint_failed, create_file as insert_file, clashes,
  write, same_place, has_parent, is_some, is_at, parent_of, get_file_by_path,
}
use vault_drift.Files.Name.{is_valid_name}
use vault_drift.Files.Vfs.{
  failed, already_exists, invalid_name, create, create_file, new_file, wrap,
}
use vault_drift.Files.Vfs.Requests.{insert_file-new, insert_file-old}

pub str_eq_self : (a : String) → str_eq a a ≡ true
str_eq_self a = (eq_iff a a).1 refl

pub parent_of-some : (parent : String) → parent ≢ "" → parent_of parent ≡ some parent
unfolding parent_of
parent_of-some parent below = elim (Bool-cases (str_eq parent "")) [
  | inl root ↦ absurd (below ((eq_iff parent "").0 root))
  | inr deep ↦ rw deep refl
]

pub write-ok :
    (id : String) (f : File) (t : Files)
    → clashes id f.parent_id f.user_id f.name t ≡ false
    → has_parent f.parent_id (insert id f t) ≡ true
    → write id f t ≡ (none, insert id f t)
unfolding write
write-ok id f t free held = rw (free, held) refl

-- A row that is written is the first that the query finds, if the query found none.
get_file_by_path-insert :
    (id user parent name : String) (f : File) (t : Files)
    → lookup id t ≡ none
    → get_file_by_path user parent name t ≡ none
    → is_at user (parent_of parent) name f ≡ true
    → get_file_by_path user parent name (insert id f t) ≡ some (id, f)
unfolding get_file_by_path insert lookup
get_file_by_path-insert id user parent name f [] fresh free here = rw here refl
get_file_by_path-insert id user parent name f ((own, old) ∷ t) fresh free here =
    elim (Bool-cases (str_eq own id)) [
      | inl same ↦ absurd (ground (arith, fresh, same))
      | inr differ ↦ elim (Bool-cases (is_at user (parent_of parent) name old)) [
        | inl taken ↦ absurd (ground (arith, free, taken))
        | inr aside ↦
            let later : get_file_by_path user parent name t ≡ none = ground (arith, free, aside) in
            let new : lookup id t ≡ none = ground (arith, fresh, differ) in
            rw (differ, aside) (get_file_by_path-insert id user parent name f t new later here)
      ]
    ]

is_at-new_file :
    (now : ℕ) (user parent name mime_type : String) (size : ℕ)
    → is_at user (parent_of parent) name (new_file now user parent name mime_type size) ≡ true
unfolding new_file parent_of
is_at-new_file now user parent name mime_type size =
    ground (arith, eq_iff user user, eq_iff name name, eq_iff parent parent)

pub lookup-same :
    (own other : String) (old : File) (t : Files)
    → str_eq own other ≡ true
    → lookup other ((own, old) ∷ t) ≡ some old
unfolding lookup
lookup-same own other old t same = rw same refl

pub or_true : (b : Bool) → (b || true) ≡ true
or_true true = refl
or_true false = refl

pub clashes-found :
    (id other : String) (parent : Option String) (user name : String) (g : File) (t : Files)
    → lookup other t ≡ some g
    → str_eq other id ≡ false
    → same_place parent user name g ≡ true
    → clashes id parent user name t ≡ true
unfolding clashes lookup
clashes-found id other parent user name g [] found differ place = absurd (ground (arith, found))
clashes-found id other parent user name g ((own, old) ∷ t) found differ place =
    elim (Bool-cases (str_eq own other)) [
      | inl same ↦
          let e : old ≡ g = some-injective old g (sym (lookup-same own other old t same) ∙ found) in
          rw (e, place, (eq_iff own other).0 same, differ) refl
      | inr apart ↦
          let later : lookup other t ≡ some g = ground (arith, found, apart) in
          rw (clashes-found id other parent user name g t later differ place)
            (or_true (not (str_eq own id) && same_place parent user name old))
    ]

insert_file-taken :
    (id : String) (f : File) (t : Files)
    → clashes id f.parent_id f.user_id f.name t ≡ true
    → insert_file id f t ≡ (some row_exists, t)
unfolding write
insert_file-taken id f t taken = elim (Option-cases (lookup id t)) [
  | inl absent ↦ insert_file-new id f t absent ∙ rw taken refl
  | inr (old, found) ↦ insert_file-old id f old t found
]

create-invalid :
    (id user parent name : String) (f : File) (t : Files)
    → is_valid_name name ≡ false
    → create id user parent name f t ≡ (some invalid_name, t)
unfolding create
create-invalid id user parent name f t bad = rw bad refl

create-taken :
    (id user parent name : String) (f : File) (t : Files)
    → is_valid_name name ≡ true
    → is_some (get_file_by_path user parent name t) ≡ true
    → create id user parent name f t ≡ (some already_exists, t)
unfolding create
create-taken id user parent name f t valid taken = rw (valid, taken) refl

create-free :
    (id user parent name : String) (f : File) (t : Files)
    → is_valid_name name ≡ true
    → get_file_by_path user parent name t ≡ none
    → create id user parent name f t ≡ wrap (insert_file id f t)
unfolding create
create-free id user parent name f t valid free = rw (valid, free) refl

-- What an insertion without an error says.
insert_file-none :
    (id : String) (f : File) (t : Files)
    → (wrap (insert_file id f t)).0 ≡ none
    → (insert_file id f t ≡ (none, insert id f t)) × (lookup id t ≡ none)
unfolding write
insert_file-none id f t done = elim (Option-cases (lookup id t)) [
  | inr (old, found) ↦
      absurd (some-ne-none _ (sym (ap (λ p. (wrap p).0) (insert_file-old id f old t found)) ∙ done))
  | inl absent ↦ elim (Bool-cases (clashes id f.parent_id f.user_id f.name t)) [
    | inl taken ↦
        absurd (some-ne-none _ (sym (ap (λ p. (wrap p).0) (insert_file-taken id f t taken)) ∙ done))
    | inr free ↦ elim (Bool-cases (has_parent f.parent_id (insert id f t))) [
      | inl held ↦ (insert_file-new id f t absent ∙ write-ok id f t free held, absent)
      | inr loose ↦
          let e : insert_file id f t ≡ (some constraint_failed, t) =
            insert_file-new id f t absent ∙ rw (free, loose) refl in
          absurd (some-ne-none _ (sym (ap (λ p. (wrap p).0) e) ∙ done))
    ]
  ]
]

-- The same of `create`, with the name that it accepted.
pub create-none :
    (id user parent name : String) (f : File) (t : Files)
    → (create id user parent name f t).0 ≡ none
    → (create id user parent name f t ≡ (none, insert id f t))
      × (lookup id t ≡ none)
      × (get_file_by_path user parent name t ≡ none)
      × (is_valid_name name ≡ true)
create-none id user parent name f t done = elim (Bool-cases (is_valid_name name)) [
  | inr bad ↦ absurd (
      some-ne-none invalid_name
        (sym (ap (λ p. p.0) (create-invalid id user parent name f t bad)) ∙ done))
  | inl valid ↦ elim (Option-cases (get_file_by_path user parent name t)) [
    | inr (entry, taken) ↦
        let e = create-taken id user parent name f t valid (rw taken refl) in
        absurd (some-ne-none already_exists (sym (ap (λ p. p.0) e) ∙ done))
    | inl free ↦
        let e = create-free id user parent name f t valid free in
        let (same, absent) = insert_file-none id f t (sym (ap (λ p. p.0) e) ∙ done) in
        (e ∙ ap wrap same, absent, free, valid)
  ]
]

-- A file that `CreateFile` made is what the look for its user, folder and name finds, with the row that
-- was asked for, and a second `CreateFile` there answers that it already exists, with any id.
pub create_file-found :
    (now later : ℕ) (id other user parent name mime_type other_type : String) (size other_size : ℕ)
    (t : Files)
    → (create_file now id user parent name mime_type size t).0 ≡ none
    → let after = (create_file now id user parent name mime_type size t).1 in
      (get_file_by_path user parent name after
        ≡ some (id, new_file now user parent name mime_type size))
      × (create_file later other user parent name other_type other_size after
          ≡ (some already_exists, after))
unfolding create_file
create_file-found now later id other user parent name mime_type other_type size other_size t done =
    let row : File = new_file now user parent name mime_type size in
    let (made, absent, free, valid) = create-none id user parent name row t done in
    let seen =
      get_file_by_path-insert id user parent name row t absent free
        (is_at-new_file now user parent name mime_type size) in
    rw made (seen, create-taken other user parent name _ (insert id row t) valid (rw seen refl))

-- A row in the trash still holds its name: where a folder has a trashed row of the user with the name,
-- and no live one, the look by path finds nothing there, and still `CreateFile` fails, for the
-- constraint of the database, and leaves the table as it was.
pub create_file-trashed :
    (now : ℕ) (id other user parent name mime_type : String) (size : ℕ) (g : File) (t : Files)
    → is_valid_name name ≡ true
    → parent ≢ ""
    → lookup other t ≡ some g
    → g.is_trashed ≡ true
    → g.user_id ≡ user
    → g.parent_id ≡ some parent
    → g.name ≡ name
    → get_file_by_path user parent name t ≡ none
    → create_file now id user parent name mime_type size t ≡ (some (failed row_exists), t)
unfolding create_file create new_file parent_of
create_file-trashed now id other user parent name mime_type size g t valid below found trashed owned
      inside named free =
    create-free id user parent name row t valid free
    ∙ ap wrap (elim (Bool-cases (str_eq other id)) [
      | inl same ↦ insert_file-old id row g t (rw (← (eq_iff other id).0 same) found)
      | inr differ ↦ insert_file-taken id row t (
          rw (parent_of-some parent below) (
            clashes-found id other (some parent) user name g t found differ (
              rw (owned, inside, named, str_eq_self parent, str_eq_self user, str_eq_self name)
                refl)))
    ])
  where
    row : File
    row = new_file now user parent name mime_type size

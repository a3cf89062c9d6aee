-- ===== src/Files/Trail/Loops.antt =====
-- Where `Move` of internal/vfs/vfs.go makes the way up endless.
use mathlib.Core.Option.{some-ne-none}
use mathlib.Core.Path.{subst}
use vault_drift.Common.{
  ◌⊎◌, not, ◌&&◌, ℕ, zero, suc, ◌≡◌, refl, sym, ap, ◌∙◌, ◌≢◌, false, Option, none, some, String,
  List, [], str_eq, eq_iff, Bool-cases, Option-cases, inl, inr,
}
use vault_drift.Common.Dict.{lookup, insert, lookup-insert_self}
use vault_drift.Files.{
  File, Files, move_file, update_row, write, clashes, has_parent, parent_of, already_exists,
  constraint_failed,
}
use vault_drift.Files.Vfs.Found.{parent_of-some}
use vault_drift.Files.Name.{is_valid_name}
use vault_drift.Files.Vfs.Requests.{update_row-some, update_row-none}
use vault_drift.Files.Vfs.{not_found, invalid_name, move_as, name_of, move, wrap}
use vault_drift.Files.Trail.Ends.{climb-step, next-some}
use vault_drift.Files.Trail.{Breadcrumb, climb, with_root, get_breadcrumbs}

nonempty : (id : String) → id ≢ "" → str_eq id "" ≡ false
nonempty id deep = elim (Bool-cases (str_eq id "")) [
  | inl root ↦ absurd (deep ((eq_iff id "").0 root))
  | inr e ↦ e
]

-- A row that is its own parent keeps the loop going.
climb-loops :
    (fuel : ℕ) (id : String) (f : File) (t : Files) (crumbs : List Breadcrumb)
    → str_eq id "" ≡ false
    → lookup id t ≡ some f
    → f.parent_id ≡ some id
    → climb fuel (some id) t crumbs ≡ none
unfolding climb
climb-loops zero id f t crumbs deep found own = refl
climb-loops (suc fuel) id f t crumbs deep found own =
    climb-step fuel (some id) id f t crumbs (next-some id f t deep found)
    ∙ rw own (climb-loops fuel id f t _ deep found own)

-- What a statement without an error says.
pub update_row-done :
    (id : String) (change : File → File) (t : Files)
    → (wrap (update_row id change t)).0 ≡ none
    → (f : File) × (lookup id t ≡ some f) × ((update_row id change t).1 ≡ insert id (change f) t)
unfolding write
update_row-done id change t done = elim (Option-cases (lookup id t)) [
  | inl absent ↦
      absurd
        (some-ne-none _ (sym (ap (λ p. (wrap p).0) (update_row-none id change t absent)) ∙ done))
  | inr (f, found) ↦
      let e = update_row-some id change f t found in
      (f, found, ap (λ p. p.1) e ∙ written (change f) (sym (ap (λ p. (wrap p).0) e) ∙ done))
]
  where
    written : (g : File) → (wrap (write id g t)).0 ≡ none → (write id g t).1 ≡ insert id g t
    written g fine = elim (Bool-cases (clashes id g.parent_id g.user_id g.name t)) [
      | inl taken ↦
          let e : write id g t ≡ (some already_exists, t) = rw taken refl in
          absurd (some-ne-none _ (sym (ap (λ p. (wrap p).0) e) ∙ fine))
      | inr free ↦ elim (Bool-cases (has_parent g.parent_id (insert id g t))) [
        | inl held ↦ rw (free, held) refl
        | inr loose ↦
            let e : write id g t ≡ (some constraint_failed, t) = rw (free, loose) refl in
            absurd (some-ne-none _ (sym (ap (λ p. (wrap p).0) e) ∙ fine))
      ]
    ]

-- `Move` refuses the name, or writes the row under some name.
move-cases :
    (now : ℕ) (id parent name : String) (t : Files)
    → (move now id parent name t ≡ (some invalid_name, t))
      ⊎ ((own : Option String) × (move now id parent name t ≡ move_as now id parent own t))
unfolding move
move-cases now id parent name t =
    elim (Bool-cases (not (str_eq name "") && not (is_valid_name name))) [
      | inl bad ↦ inl (rw bad refl)
      | inr fine ↦ elim (Bool-cases (str_eq name "")) [
        | inl same ↦ inr (name_of (lookup id t), rw (fine, same) refl)
        | inr new ↦ inr (some name, rw (fine, new) refl)
      ]
    ]

-- A move that succeeds has written the folder's own id as its parent.
move_as-own :
    (now : ℕ) (id : String) (name : Option String) (t : Files)
    → id ≢ ""
    → (move_as now id id name t).0 ≡ none
    → (f : File) × (lookup id (move_as now id id name t).1 ≡ some f) × (f.parent_id ≡ some id)
unfolding move_file
move_as-own now id none t deep done = absurd (some-ne-none not_found done)
move_as-own now id (some name) t deep done =
    let change : File → File =
      λ f. record f { parent_id = parent_of id; name = name; updated_at = now } in
    let (f, found, e) = update_row-done id change t done in
    (change f, ap (λ u. lookup id u) e ∙ lookup-insert_self id (change f) t, parent_of-some id deep)

move-own :
    (now : ℕ) (id name : String) (t : Files)
    → id ≢ ""
    → (move now id id name t).0 ≡ none
    → (f : File) × (lookup id (move now id id name t).1 ≡ some f) × (f.parent_id ≡ some id)
move-own now id name t deep done = elim (move-cases now id id name t) [
  | inl e ↦ absurd (some-ne-none invalid_name (sym (ap (λ p. p.0) e) ∙ done))
  | inr (own, e) ↦
      subst (λ p. (f : File) × (lookup id p.1 ≡ some f) × (f.parent_id ≡ some id)) (sym e)
        (move_as-own now id own t deep (sym (ap (λ p. p.0) e) ∙ done))
]

-- `Move` lets a folder go below itself: where that call succeeds, `GetBreadcrumbs` of the folder does
-- not end any more, with whatever fuel.
pub get_breadcrumbs-move :
    (fuel now : ℕ) (id name : String) (t : Files)
    → id ≢ ""
    → (move now id id name t).0 ≡ none
    → get_breadcrumbs fuel id (move now id id name t).1 ≡ none
unfolding get_breadcrumbs
get_breadcrumbs-move fuel now id name t deep done =
    let (f, found, own) = move-own now id name t deep done in
    ap with_root (climb-loops fuel id f _ [] (nonempty id deep) found own)

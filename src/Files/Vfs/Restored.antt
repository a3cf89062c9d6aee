-- ===== src/Files/Vfs/Restored.antt =====
-- `Delete` and `Restore` of internal/vfs/vfs.go: the way of a file to the trash and back.
use mathlib.Core.Option.{some-injective}
use mathlib.Core.Path.{subst}
use vault_drift.Common.{
  ℕ, ◌≡◌, refl, sym, ap, ◌∙◌, true, false, none, some, String, [], ◌∷◌, All, str_eq, eq_iff, arith,
  Bool-cases, inl, inr,
}
use vault_drift.Common.Dict.{lookup, insert, lookup-insert_self}
use vault_drift.Files.{
  File, Files, clashes, same_place, has_parent, update_row, soft_delete, restore_from_trash,
}
use vault_drift.Files.Unique.{IsUnique, same_place_comm}
use vault_drift.Files.Rooted.{IsHeld, held-insert}
use vault_drift.Files.Vfs.{wrap, delete, restore}
use vault_drift.Files.Vfs.Requests.{IsSound, update_row-some, update_row-IsSound}
use vault_drift.Files.Vfs.Found.{clashes-found, write-ok, lookup-same, str_eq_self}

insert-insert : (id : String) (f g : File) (t : Files) → insert id g (insert id f t) ≡ insert id g t
unfolding insert
insert-insert id f g [] = rw (str_eq_self id) refl
insert-insert id f g ((own, old) ∷ t) = elim (Bool-cases (str_eq own id)) [
  | inl same ↦ rw (same, str_eq_self id) refl
  | inr differ ↦ rw (differ, differ, insert-insert id f g t) refl
]

-- The row that is there takes its place from no other.
clashes-own :
    (id : String) (f : File) (t : Files)
    → IsUnique t
    → lookup id t ≡ some f
    → clashes id f.parent_id f.user_id f.name t ≡ false
unfolding clashes lookup
clashes-own id f [] keyed found = refl
clashes-own id f ((own, old) ∷ t) (fresh, apart, keyed) found = elim (Bool-cases (str_eq own id)) [
  | inl same ↦
      let e : old ≡ f = some-injective old f (sym (lookup-same own id old t same) ∙ found) in
      let own_free : clashes id old.parent_id old.user_id old.name t ≡ false =
        rw (← (eq_iff own id).0 same) apart in
      rw same (subst (λ g. clashes id g.parent_id g.user_id g.name t ≡ false) e own_free)
  | inr differ ↦
      let later : lookup id t ≡ some f = ground (arith, found, differ) in
      elim (Bool-cases (same_place old.parent_id old.user_id old.name f)) [
        | inl shared ↦
            let d : str_eq id own ≡ false = ground (arith, differ, eq_iff own id, eq_iff id own) in
            let taken =
              clashes-found own id old.parent_id old.user_id old.name f t later d shared in
            absurd (ground (arith, taken, apart))
        | inr alone ↦ rw (differ, same_place_comm f old, alone, clashes-own id f t keyed later) refl
      ]
]

held-lookup :
    (id : String) (f : File) (s t : Files)
    → All (IsHeld s) t
    → lookup id t ≡ some f
    → has_parent f.parent_id s ≡ true
unfolding lookup
held-lookup id f s [] all found = absurd (ground (arith, found))
held-lookup id f s ((own, old) ∷ t) all found = elim (Bool-cases (str_eq own id)) [
  | inl same ↦
      let e : old ≡ f = some-injective old f (sym (lookup-same own id old t same) ∙ found) in
      rw (← e) all.0
  | inr differ ↦
      let later : lookup id t ≡ some f = ground (arith, found, differ) in
      held-lookup id f s t all.1 later
]

-- A statement that leaves the place of the row as it is succeeds.
update_row-in_place :
    (id : String) (change : File → File) (f : File) (t : Files)
    → IsSound t
    → lookup id t ≡ some f
    → (change f).parent_id ≡ f.parent_id
    → (change f).user_id ≡ f.user_id
    → (change f).name ≡ f.name
    → update_row id change t ≡ (none, insert id (change f) t)
update_row-in_place id change f t sound found parent user name =
    update_row-some id change f t found
    ∙ write-ok id (change f) t (rw (parent, user, name) (clashes-own id f t sound.0 found)) (
        held-insert (change f).parent_id id (change f) t
          (rw parent (held-lookup id f t t sound.1 found)))

-- The columns that the two statements set.
abbrev to_trash : ℕ → File → File
to_trash now f = record f { is_trashed = true; trashed_at = some now; updated_at = now }

abbrev from_trash : ℕ → File → File
from_trash now f = record f { is_trashed = false; trashed_at = none; updated_at = now }

delete-in_place :
    (now : ℕ) (id : String) (f : File) (t : Files)
    → IsSound t
    → lookup id t ≡ some f
    → (delete now id t ≡ (none, insert id (to_trash now f) t))
      × IsSound (insert id (to_trash now f) t)
unfolding delete soft_delete
delete-in_place now id f t sound found =
    let e = update_row-in_place id (to_trash now) f t sound found refl refl refl in
    (ap wrap e, subst (λ p. IsSound p.1) e (update_row-IsSound id (to_trash now) t sound))

restore-in_place :
    (now : ℕ) (id : String) (f : File) (t : Files)
    → IsSound t
    → lookup id t ≡ some f
    → restore now id t ≡ (none, insert id (from_trash now f) t)
unfolding restore restore_from_trash
restore-in_place now id f t sound found =
    ap wrap (update_row-in_place id (from_trash now) f t sound found refl refl refl)

-- A live file moved to the trash and restored is the row that it was, but for the time of its change,
-- and no other row is touched; both calls succeed. The table is one that the virtual file system can
-- have.
pub restore-delete :
    (now later : ℕ) (id : String) (f : File) (t : Files)
    → IsSound t
    → lookup id t ≡ some f
    → f.is_trashed ≡ false
    → f.trashed_at ≡ none
    → ((delete now id t).0 ≡ none)
      × (restore later id (delete now id t).1
          ≡ (none, insert id (record f { updated_at = later }) t))
restore-delete now later id f t sound found live untouched =
    let trashed : File = to_trash now f in
    let (e, still) = delete-in_place now id f t sound found in
    let back =
      restore-in_place later id trashed (insert id trashed t) still
        (lookup-insert_self id trashed t) in
    rw e (
      refl,
      back ∙ rw (insert-insert id trashed (from_trash later trashed) t, live, untouched) refl,
    )

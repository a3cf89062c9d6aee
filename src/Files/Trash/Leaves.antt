-- ===== src/Files/Trash/Leaves.antt =====
-- What `Empty` of internal/vfs/trash.go leaves in a long trash.
use vault_drift.Common.{
  ℕ, zero, suc, ◌+◌, ◌≤◌, ◌≡◌, refl, sym, ap, ◌∙◌, false, none, some, Option, String, List, [], ◌∷◌,
  All, All-map, length, take, str_eq, eq_iff, arith, Bool-cases, Option-cases, inl, inr,
}
use vault_drift.Common.Dict.{lookup}
use vault_drift.Files.{Files, count_trash}
use vault_drift.Common.Int.{pos}
use vault_drift.Files.Cascade.{is_below, mem, without, orphans, cascade, permanent_delete}
use vault_drift.Files.Rooted.{All-without, permanent_delete-some, permanent_delete-none}
use vault_drift.Files.Unique.{IsUnique, without-IsUnique}
use vault_drift.Files.Trash.{trash_of, list_trash, delete_rows, ids_of, empty}

-- No row stands in one of these.
abbrev pub HasNothingIn : List String → Files → Type 0
HasNothingIn ids t = All (λ entry. is_below entry.1.parent_id ids ≡ false) t

orphans-none : (ids : List String) (t : Files) → HasNothingIn ids t → orphans ids t ≡ []
unfolding orphans
orphans-none ids [] bare = refl
orphans-none ids ((own, f) ∷ t) bare = rw (bare.0, orphans-none ids t bare.1) refl

is_below-cons :
    (parent : Option String) (id : String) (ids : List String)
    → is_below parent (id ∷ ids) ≡ false
    → (is_below parent (id ∷ []) ≡ false) × (is_below parent ids ≡ false)
unfolding mem
is_below-cons none id ids outside = (refl, refl)
is_below-cons (some parent) id ids outside = (ground (arith, outside), ground (arith, outside))

cascade-nil : (fuel : ℕ) (t : Files) → cascade fuel [] t ≡ t
unfolding cascade
cascade-nil zero t = refl
cascade-nil (suc fuel) t = refl

without-HasNothingIn :
    (gone ids : List String) (t : Files) → HasNothingIn ids t → HasNothingIn ids (without gone t)
without-HasNothingIn gone ids t bare =
    All-map (λ entry both. both.0) (without gone t)
      (All-without (λ entry. is_below entry.1.parent_id ids ≡ false) gone t bare)

without-absent : (id : String) (t : Files) → lookup id t ≡ none → without (id ∷ []) t ≡ t
unfolding without mem lookup
without-absent id [] absent = refl
without-absent id ((own, f) ∷ t) absent = elim (Bool-cases (str_eq own id)) [
  | inl same ↦ absurd (ground (arith, absent, same))
  | inr differ ↦
      let later : lookup id t ≡ none = ground (arith, absent, differ) in
      let other : str_eq id own ≡ false = ground (arith, differ, eq_iff own id, eq_iff id own) in
      rw (other, without-absent id t later) refl
]

-- A deletion of a row with nothing in it takes the row alone.
permanent_delete-alone :
    (id : String) (t : Files)
    → HasNothingIn (id ∷ []) t
    → (permanent_delete id t).1 ≡ without (id ∷ []) t
unfolding cascade
permanent_delete-alone id t bare = elim (Option-cases (lookup id t)) [
  | inl absent ↦ rw (permanent_delete-none id t absent) (sym (without-absent id t absent))
  | inr (f, found) ↦ rw (permanent_delete-some id f t found) alone
]
  where
    first :
        (fuel : ℕ)
        → cascade (suc fuel) (id ∷ []) t
          ≡ cascade fuel (orphans (id ∷ []) (without (id ∷ []) t)) (without (id ∷ []) t)
    first fuel = refl

    alone : cascade (suc (length t)) (id ∷ []) t ≡ without (id ∷ []) t
    alone =
        let kept : Files = without (id ∷ []) t in
        first (length t)
        ∙ ap (λ ids. cascade (length t) ids kept)
            (orphans-none (id ∷ []) kept (without-HasNothingIn (id ∷ []) (id ∷ []) t bare))
        ∙ cascade-nil (length t) kept

-- A deletion takes at most one row from the trash.
without-count_trash :
    (user id : String) (t : Files)
    → IsUnique t
    → count_trash user t ≤ suc (count_trash user (without (id ∷ []) t))
unfolding count_trash without mem
without-count_trash user id [] keyed = omega arith
without-count_trash user id ((own, f) ∷ t) keyed = elim (Bool-cases (str_eq id own)) [
  | inl same ↦
      let absent : lookup id t ≡ none = rw ((eq_iff id own).0 same) keyed.0 in
      let e : without (id ∷ []) t ≡ t = without-absent id t absent in rw (same, e) (ground arith)
  | inr differ ↦
      let fewer = without-count_trash user id t keyed.2 in rw differ (ground (arith, fewer))
]

delete_rows-count_trash :
    (user : String) (ids : List String) (t : Files)
    → IsUnique t
    → HasNothingIn ids t
    → count_trash user t ≤ length ids + count_trash user (delete_rows ids t)
unfolding delete_rows
delete_rows-count_trash user [] t keyed bare = omega arith
delete_rows-count_trash user (id ∷ ids) t keyed bare =
    let kept : Files = without (id ∷ []) t in
    let one = without-count_trash user id t keyed in
    let this : HasNothingIn (id ∷ []) t =
      All-map (λ entry outside. (is_below-cons entry.1.parent_id id ids outside).0) t bare in
    let others : HasNothingIn ids t =
      All-map (λ entry outside. (is_below-cons entry.1.parent_id id ids outside).1) t bare in
    let more =
      delete_rows-count_trash user ids kept (without-IsUnique (id ∷ []) t keyed)
        (without-HasNothingIn (id ∷ []) ids t others) in
    rw (permanent_delete-alone id t this) (omega (arith, one, more))

ids_of-length : (t : Files) → length (ids_of t) ≡ length t
ids_of-length [] = refl
ids_of-length ((id, f) ∷ t) = ap suc (ids_of-length t)

take-length : (n : ℕ) (t : Files) → length (take n t) ≤ n
take-length zero t = omega arith
take-length (suc n) [] = omega arith
take-length (suc n) (x ∷ t) = omega (arith, take-length n t)

-- `Empty` takes at most 100 rows from the trash of a user, in a table with each id once, where no row of any
-- user stands in one of the rows that `ListTrash` gives it: with more than 100 rows in the trash, the rest
-- stays there.
pub empty-leaves :
    (user : String) (t : Files)
    → IsUnique t
    → HasNothingIn (ids_of (list_trash user (pos 0) (pos 0) t)) t
    → count_trash user t ≤ 100 + count_trash user (empty user t)
unfolding empty list_trash
empty-leaves user t keyed bare =
    let listed : List String = ids_of (take 100 (trash_of user t)) in
    let most : length listed ≤ 100 =
      omega
        (arith, ids_of-length (take 100 (trash_of user t)), take-length 100 (trash_of user t)) in
    omega (arith, most, delete_rows-count_trash user listed t keyed bare)

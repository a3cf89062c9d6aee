-- ===== src/Files/Unique.antt =====
-- The keys of the table of internal/db/files.go: each id once, and no two rows with one place.
use vault_drift.Common.{
  ℕ, zero, suc, ◌≡◌, refl, ◌∙◌, ◌&&◌, ◌||◌, not, Bool, true, false, none, String, List, [], ◌∷◌,
  str_eq, eq_iff, arith, Bool-cases, Option-cases, inl, inr, if◌then◌else◌,
}
use vault_drift.Common.Dict.{lookup, insert, lookup-insert}
use vault_drift.Files.{File, Files, same_place, clashes, write, has_parent}
use vault_drift.Files.Cascade.{mem, without, orphans, cascade}

abbrev pub IsUnique : Files → Type 0
IsUnique [] = Unit
IsUnique ((id, f) ∷ t) =
    (lookup id t ≡ none) × (clashes id f.parent_id f.user_id f.name t ≡ false) × IsUnique t

pub str_eq_comm : (a b : String) → str_eq a b ≡ str_eq b a
str_eq_comm a b = ground (arith, eq_iff a b, eq_iff b a)

pub same_place_comm :
    (f g : File)
    → same_place f.parent_id f.user_id f.name g ≡ same_place g.parent_id g.user_id g.name f
same_place_comm f g =
    let users = str_eq_comm f.user_id g.user_id in
    let names = str_eq_comm f.name g.name in
    elim (Option-cases f.parent_id) [
      | inl e ↦ elim (Option-cases g.parent_id) [
        | inl d ↦ rw (e, d) refl
        | inr (q, d) ↦ rw (e, d) refl
      ]
      | inr (p, e) ↦ elim (Option-cases g.parent_id) [
        | inl d ↦ rw (e, d) refl
        | inr (q, d) ↦ rw (e, d, str_eq_comm p q, users, names) refl
      ]
    ]

-- Both sides of a test that fails.
pub or_false : (a b : Bool) → (a || b) ≡ false → (a ≡ false) × (b ≡ false)
or_false true b h = ground (arith, h)
or_false false b h = (refl, h)

clashes-insert :
    (k id : String) (f g : File) (t : Files)
    → clashes k f.parent_id f.user_id f.name t ≡ false
    → (not (str_eq id k) && same_place f.parent_id f.user_id f.name g) ≡ false
    → clashes k f.parent_id f.user_id f.name (insert id g t) ≡ false
unfolding clashes insert
clashes-insert k id f g [] free apart = rw apart refl
clashes-insert k id f g ((own, old) ∷ t) free apart =
    let (here, there) =
      or_false (not (str_eq own k) && same_place f.parent_id f.user_id f.name old)
        (clashes k f.parent_id f.user_id f.name t) free in
    elim (Bool-cases (str_eq own id)) [
      | inl same ↦ rw (same, apart, there) refl
      | inr differ ↦ rw (differ, here, clashes-insert k id f g t there apart) refl
    ]

-- A row written where UNIQUE lets it keeps the keys.
pub insert-IsUnique :
    (id : String) (g : File) (t : Files)
    → IsUnique t
    → clashes id g.parent_id g.user_id g.name t ≡ false
    → IsUnique (insert id g t)
unfolding insert clashes lookup
insert-IsUnique id g [] keyed free = (refl, refl, tt)
insert-IsUnique id g ((own, old) ∷ t) (fresh, apart, keyed) free =
    let (here, there) =
      or_false (not (str_eq own id) && same_place g.parent_id g.user_id g.name old)
        (clashes id g.parent_id g.user_id g.name t) free in
    elim (Bool-cases (str_eq own id)) [
      | inl same ↦ rw same (rw (← (eq_iff own id).0 same) fresh, there, keyed)
      | inr differ ↦ rw differ (
        lookup-insert id own g t ∙ rw (str_eq_comm id own, differ) fresh,
        clashes-insert own id old g t apart (rw (str_eq_comm id own, same_place_comm old g) here),
        insert-IsUnique id g t keyed there,
      )
    ]

pub lookup-without :
    (ids : List String) (id : String) (t : Files)
    → lookup id (without ids t) ≡ (if mem id ids then none else lookup id t)
unfolding lookup without
lookup-without ids id [] = ground arith
lookup-without ids id ((own, f) ∷ t) = ground (arith, lookup-without ids id t, eq_iff own id)

clashes-without :
    (ids : List String) (k : String) (f : File) (t : Files)
    → clashes k f.parent_id f.user_id f.name t ≡ false
    → clashes k f.parent_id f.user_id f.name (without ids t) ≡ false
unfolding clashes without
clashes-without ids k f [] free = refl
clashes-without ids k f ((own, old) ∷ t) free =
    let (here, there) =
      or_false (not (str_eq own k) && same_place f.parent_id f.user_id f.name old)
        (clashes k f.parent_id f.user_id f.name t) free in
    elim (Bool-cases (mem own ids)) [
      | inl gone ↦ rw gone (clashes-without ids k f t there)
      | inr kept ↦ rw (kept, here, clashes-without ids k f t there) refl
    ]

pub without-IsUnique : (ids : List String) (t : Files) → IsUnique t → IsUnique (without ids t)
unfolding without
without-IsUnique ids [] keyed = tt
without-IsUnique ids ((own, f) ∷ t) (fresh, apart, keyed) = elim (Bool-cases (mem own ids)) [
  | inl gone ↦ rw gone (without-IsUnique ids t keyed)
  | inr kept ↦ rw kept (
    lookup-without ids own t ∙ rw (kept, fresh) refl,
    clashes-without ids own f t apart,
    without-IsUnique ids t keyed,
  )
]

pub cascade-IsUnique :
    (fuel : ℕ) (ids : List String) (t : Files) → IsUnique t → IsUnique (cascade fuel ids t)
unfolding cascade
cascade-IsUnique zero ids t keyed = keyed
cascade-IsUnique (suc fuel) [] t keyed = keyed
cascade-IsUnique (suc fuel) (id ∷ ids) t keyed =
    let kept = without (id ∷ ids) t in
    cascade-IsUnique fuel (orphans (id ∷ ids) kept) kept (without-IsUnique (id ∷ ids) t keyed)

-- `write` keeps the keys, whatever it answers.
pub write-IsUnique : (id : String) (f : File) (t : Files) → IsUnique t → IsUnique (write id f t).1
unfolding write
write-IsUnique id f t keyed = elim (Bool-cases (clashes id f.parent_id f.user_id f.name t)) [
  | inl taken ↦ rw taken keyed
  | inr free ↦ elim (Bool-cases (has_parent f.parent_id (insert id f t))) [
    | inl held ↦ rw (free, held) (insert-IsUnique id f t keyed free)
    | inr loose ↦ rw (free, loose) keyed
  ]
]

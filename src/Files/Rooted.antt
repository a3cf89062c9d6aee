-- ===== src/Files/Rooted.antt =====
-- The parents in the table of internal/db/files.go: each row's parent is a row, also after a deletion
-- has gone through the rows below the deleted one.
use vault_drift.Common.{
  ℕ, zero, suc, ◌≤◌, ◌<◌, ◌≡◌, refl, sym, ap, ◌∙◌, ◌⊎◌, true, false, Option, none, some, String,
  List, [], ◌∷◌, length, All, All-map, str_eq, eq_iff, arith, Bool-cases, Option-cases, inl, inr,
}
use vault_drift.Common.Dict.{lookup, insert, lookup-insert}
use vault_drift.Common.Entries.{All-insert}
use vault_drift.Files.{File, Files, clashes, write, has_parent, is_some, file_not_found}
use vault_drift.Files.Cascade.{mem, is_below, without, orphans, cascade, permanent_delete}
use vault_drift.Files.Unique.{lookup-without}

abbrev pub Row : Type 0
Row = String × File

abbrev pub IsHeld : Files → Row → Type 0
IsHeld t entry = has_parent entry.1.parent_id t ≡ true

abbrev pub IsRooted : Files → Type 0
IsRooted t = All (IsHeld t) t

module _ {ℓ} {A : Type ℓ} where
  pub All-zip {κ μ} :
      (P : A → Type κ) (Q : A → Type μ) (xs : List A)
      → All P xs
      → All Q xs
      → All (λ x. P x × Q x) xs
  All-zip P Q [] ps qs = tt
  All-zip P Q (x ∷ xs) ps qs = ((ps.0, qs.0), All-zip P Q xs ps.1 qs.1)

-- A row stays findable when another is written.
pub present-insert :
    (key id : String) (g : File) (t : Files)
    → is_some (lookup key t) ≡ true
    → is_some (lookup key (insert id g t)) ≡ true
present-insert key id g t here = elim (Bool-cases (str_eq id key)) [
  | inl same ↦ rw (lookup-insert id key g t, same) refl
  | inr differ ↦ rw (lookup-insert id key g t, differ) here
]

pub held-insert :
    (parent : Option String) (id : String) (g : File) (t : Files)
    → has_parent parent t ≡ true
    → has_parent parent (insert id g t) ≡ true
held-insert none id g t held = refl
held-insert (some parent) id g t held = present-insert parent id g t held

pub write-IsRooted : (id : String) (f : File) (t : Files) → IsRooted t → IsRooted (write id f t).1
unfolding write
write-IsRooted id f t rooted = elim (Bool-cases (clashes id f.parent_id f.user_id f.name t)) [
  | inl taken ↦ rw taken rooted
  | inr free ↦ elim (Bool-cases (has_parent f.parent_id (insert id f t))) [
    | inl held ↦
        rw (free, held)
          (All-insert (IsHeld (insert id f t)) id f t held
            (All-map (λ entry. held-insert entry.1.parent_id id f t) t rooted))
    | inr loose ↦ rw (free, loose) rooted
  ]
]

pub All-without :
    (P : Row → Type 0) (ids : List String) (t : Files)
    → All P t
    → All (λ entry. P entry × (mem entry.0 ids ≡ false)) (without ids t)
unfolding without
All-without P ids [] all = tt
All-without P ids ((own, f) ∷ t) all = elim (Bool-cases (mem own ids)) [
  | inl gone ↦ rw gone (All-without P ids t all.1)
  | inr kept ↦ rw kept ((all.0, kept), All-without P ids t all.1)
]

-- Each row below the deleted ones is among the orphans.
orphans-All :
    (ids more : List String) (t : Files)
    → ((id : String) → mem id (orphans ids t) ≡ true → mem id more ≡ true)
    → All (λ entry. is_below entry.1.parent_id ids ≡ true → mem entry.0 more ≡ true) t
unfolding orphans mem
orphans-All ids more [] within = tt
orphans-All ids more ((own, f) ∷ t) within = (
  λ below. within own (rw below (ground (arith, eq_iff own own))),
  orphans-All ids more t (λ id found. within id (longer id found)),
)
  where
    longer :
        (id : String) → mem id (orphans ids t) ≡ true → mem id (orphans ids ((own, f) ∷ t)) ≡ true
    longer id found = elim (Bool-cases (is_below f.parent_id ids)) [
      | inl below ↦ rw below (ground (arith, found))
      | inr aside ↦ rw aside found
    ]

-- The orphans are rows.
orphans-present :
    (ids : List String) (t : Files) → All (λ id. is_some (lookup id t) ≡ true) (orphans ids t)
unfolding orphans lookup
orphans-present ids [] = tt
orphans-present ids ((own, f) ∷ t) =
    let later : All (λ id. is_some (lookup id ((own, f) ∷ t)) ≡ true) (orphans ids t) =
      All-map (λ id here. ground (arith, here)) (orphans ids t) (orphans-present ids t) in
    elim (Bool-cases (is_below f.parent_id ids)) [
      | inl below ↦ rw below (ground (arith, eq_iff own own), later)
      | inr aside ↦ rw aside later
    ]

without-length : (ids : List String) (t : Files) → length (without ids t) ≤ length t
unfolding without
without-length ids [] = omega arith
without-length ids ((own, f) ∷ t) = ground (arith, without-length ids t)

-- Deleting a row that is there leaves fewer.
without-fewer :
    (ids : List String) (id : String) (t : Files)
    → mem id ids ≡ true
    → is_some (lookup id t) ≡ true
    → length (without ids t) < length t
unfolding without lookup
without-fewer ids id [] doomed here = absurd (ground (arith, here))
without-fewer ids id ((own, f) ∷ t) doomed here = elim (Bool-cases (str_eq own id)) [
  | inl same ↦
      let gone : mem own ids ≡ true = rw ((eq_iff own id).0 same) doomed in
      ground (arith, gone, without-length ids t)
  | inr differ ↦
      let there : is_some (lookup id t) ≡ true = ground (arith, here, differ) in
      ground (arith, without-fewer ids id t doomed there)
]

-- What holds before each round: the rows to delete are the only ones that may lack a parent.
abbrev IsPending : List String → Files → Row → Type 0
IsPending ids t entry = (mem entry.0 ids ≡ true) ⊎ IsHeld t entry

round-row :
    (ids more : List String) (t : Files) (entry : Row)
    → (IsPending ids t entry × (mem entry.0 ids ≡ false))
      × (is_below entry.1.parent_id ids ≡ true → mem entry.0 more ≡ true)
    → IsPending more (without ids t) entry
round-row ids more t (k, f) ((inl doomed, kept), below) = absurd (ground (arith, doomed, kept))
round-row ids more t (k, f) ((inr held, kept), below) = elim (Option-cases f.parent_id) [
  | inl root ↦ inr (rw root refl)
  | inr (parent, e) ↦ elim (Bool-cases (mem parent ids)) [
    | inl doomed ↦ inl (below (rw e doomed))
    | inr stays ↦
        let here : has_parent (some parent) t ≡ true = ap (λ o. has_parent o t) (sym e) ∙ held in
        inr (rw (e, lookup-without ids parent t, stays) here)
  ]
]

cascade-IsRooted :
    (fuel : ℕ) (ids : List String) (t : Files)
    → length t ≤ fuel
    → All (IsPending ids t) t
    → All (λ id. is_some (lookup id t) ≡ true) ids
    → IsRooted (cascade fuel ids t)
unfolding cascade mem
cascade-IsRooted zero ids [] enough pending present = tt
cascade-IsRooted zero ids (entry ∷ t) enough pending present = absurd (omega arith)
cascade-IsRooted (suc fuel) [] t enough pending present = All-map settled t pending
  where
    settled : (entry : Row) → IsPending [] t entry → IsHeld t entry
    settled entry (inl doomed) = absurd (ground (arith, doomed))
    settled entry (inr held) = held
cascade-IsRooted (suc fuel) (id ∷ ids) t enough pending present =
    let kept : Files = without (id ∷ ids) t in
    let more : List String = orphans (id ∷ ids) kept in
    let doomed : mem id (id ∷ ids) ≡ true = ground (arith, eq_iff id id) in
    let fewer : length kept < length t = without-fewer (id ∷ ids) id t doomed present.0 in
    cascade-IsRooted fuel more kept (omega arith)
      (All-map (round-row (id ∷ ids) more t) kept (
        All-zip (λ entry. IsPending (id ∷ ids) t entry × (mem entry.0 (id ∷ ids) ≡ false))
          (λ entry. is_below entry.1.parent_id (id ∷ ids) ≡ true → mem entry.0 more ≡ true) kept
          (All-without (IsPending (id ∷ ids) t) (id ∷ ids) t pending)
          (orphans-All (id ∷ ids) more kept (λ key found. found))))
      (orphans-present (id ∷ ids) kept)

pub permanent_delete-some :
    (id : String) (f : File) (t : Files)
    → lookup id t ≡ some f
    → permanent_delete id t ≡ (none, cascade (suc (length t)) (id ∷ []) t)
unfolding permanent_delete
permanent_delete-some id f t found = rw (found, permanent_delete) refl

pub permanent_delete-none :
    (id : String) (t : Files)
    → lookup id t ≡ none
    → permanent_delete id t ≡ (some file_not_found, t)
unfolding permanent_delete
permanent_delete-none id t absent = rw (absent, permanent_delete) refl

pub permanent_delete-IsRooted :
    (id : String) (t : Files) → IsRooted t → IsRooted (permanent_delete id t).1
permanent_delete-IsRooted id t rooted = elim (Option-cases (lookup id t)) [
  | inl absent ↦ rw (permanent_delete-none id t absent) rooted
  | inr (f, found) ↦ rw (permanent_delete-some id f t found) (
      cascade-IsRooted (suc (length t)) (id ∷ []) t (omega arith)
        (All-map (λ entry held. inr held) t rooted) (rw found refl, tt))
]

-- ===== src/Files/Trail/Ends.antt =====
-- Where the way up in internal/vfs/vfs.go ends, and what it gives.
use mathlib.Core.Option.{some-injective}
use vault_drift.Common.{
  ℕ, zero, suc, ◌<◌, ◌≡◌, refl, sym, ap, ◌∙◌, Bool, true, false, Option, none, some, String, List,
  [], ◌∷◌, All, ltb, str_eq, eq_iff, arith, Bool-cases, Option-cases, inl, inr,
}
use vault_drift.Common.Dict.{lookup}
use vault_drift.Files.{File, Files}
use vault_drift.Files.Vfs.Found.{lookup-same}
use vault_drift.Files.Trail.{Breadcrumb, next, climb, with_root, get_breadcrumbs}

-- A height for each id, by which every parent is below its rows: the table has no cycle.
abbrev pub is_lower : (String → ℕ) → ℕ → Option String → Bool
is_lower height own none = true
is_lower height own (some parent) = ltb (height parent) own

abbrev pub IsAcyclic : (String → ℕ) → Files → Type 0
IsAcyclic height t = All (λ entry. is_lower height (height entry.0) entry.1.parent_id ≡ true) t

lower-lookup :
    (height : String → ℕ) (id : String) (f : File) (t : Files)
    → IsAcyclic height t
    → lookup id t ≡ some f
    → is_lower height (height id) f.parent_id ≡ true
unfolding lookup
lower-lookup height id f [] lower found = absurd (ground (arith, found))
lower-lookup height id f ((own, old) ∷ t) lower found = elim (Bool-cases (str_eq own id)) [
  | inl same ↦
      let e : old ≡ f = some-injective old f (sym (lookup-same own id old t same) ∙ found) in
      rw (← e, ← (eq_iff own id).0 same) lower.0
  | inr differ ↦
      let later : lookup id t ≡ some f = ground (arith, found, differ) in
      lower-lookup height id f t lower.1 later
]

-- The rounds that the loop needs from an id.
abbrev rounds : (String → ℕ) → Option String → ℕ
rounds height none = 0
rounds height (some id) = suc (height id)

next-none : (id : String) (t : Files) → lookup id t ≡ none → next (some id) t ≡ none
unfolding next
next-none id t absent = elim (Bool-cases (str_eq id "")) [
  | inl root ↦ rw (root, next) refl
  | inr deep ↦ rw (deep, next, absent) refl
]

next-root : (id : String) (t : Files) → str_eq id "" ≡ true → next (some id) t ≡ none
unfolding next
next-root id t root = rw (root, next) refl

pub next-some :
    (id : String) (f : File) (t : Files)
    → str_eq id "" ≡ false
    → lookup id t ≡ some f
    → next (some id) t ≡ some (id, f)
unfolding next
next-some id f t deep found = rw (deep, next, found) refl

climb-stop :
    (fuel : ℕ) (current : Option String) (t : Files) (crumbs : List Breadcrumb)
    → next current t ≡ none
    → climb (suc fuel) current t crumbs ≡ some crumbs
unfolding climb
climb-stop fuel current t crumbs stop = rw (stop, climb) refl

pub climb-step :
    (fuel : ℕ) (current : Option String) (id : String) (f : File) (t : Files)
    (crumbs : List Breadcrumb)
    → next current t ≡ some (id, f)
    → climb (suc fuel) current t crumbs
      ≡ climb fuel f.parent_id t (record { id = id; name = f.name } ∷ crumbs)
unfolding climb
climb-step fuel current id f t crumbs step = rw (step, climb) refl

-- The crumbs from below the row `current` down to `target`: each is a row with its name, whose parent
-- is the one before.
abbrev pub IsChain : Files → Option String → List Breadcrumb → String → Type 0
IsChain t current [] target = current ≡ some target
IsChain t current (c ∷ cs) target =
    ((f : File) × (lookup c.id t ≡ some f) × (f.name ≡ c.name) × (f.parent_id ≡ current))
    × IsChain t (some c.id) cs target

-- What the loop gives: crumbs down to the target, whose top has no parent to go to.
abbrev Climbed : ℕ → Option String → Files → List Breadcrumb → String → Type 0
Climbed fuel current t crumbs target =
    (found : List Breadcrumb) × (top : Option String) × (climb fuel current t crumbs ≡ some found)
    × (next top t ≡ none)
    × IsChain t top found target

climb-ends :
    (height : String → ℕ) (fuel : ℕ) (current : Option String) (t : Files)
    (crumbs : List Breadcrumb) (target : String)
    → IsAcyclic height t
    → rounds height current < fuel
    → IsChain t current crumbs target
    → Climbed fuel current t crumbs target
unfolding next
climb-ends height zero current t crumbs target acyclic enough chain = absurd (omega arith)
climb-ends height (suc fuel) none t crumbs target acyclic enough chain =
    (crumbs, none, climb-stop fuel none t crumbs refl, refl, chain)
climb-ends height (suc fuel) (some id) t crumbs target acyclic enough chain =
    elim (Bool-cases (str_eq id "")) [
      | inl root ↦ stopped (next-root id t root)
      | inr deep ↦ elim (Option-cases (lookup id t)) [
        | inl absent ↦ stopped (next-none id t absent)
        | inr (f, found) ↦
            let lower = lower-lookup height id f t acyclic found in
            let (more, top, climbed, rest, down) =
              climb-ends height fuel f.parent_id t (record { id = id; name = f.name } ∷ crumbs)
                target acyclic (fewer f.parent_id lower) ((f, found, refl, refl), chain) in
            (
              more,
              top,
              climb-step fuel (some id) id f t crumbs (next-some id f t deep found) ∙ climbed,
              rest,
              down,
            )
      ]
    ]
  where
    stopped : next (some id) t ≡ none → Climbed (suc fuel) (some id) t crumbs target
    stopped stop = (crumbs, some id, climb-stop fuel (some id) t crumbs stop, stop, chain)

    fewer :
        (parent : Option String)
        → is_lower height (height id) parent ≡ true
        → rounds height parent < fuel
    fewer none lower = omega (arith, enough)
    fewer (some parent) lower = ground (arith, enough, lower)

-- In a table without a cycle, `GetBreadcrumbs` ends, in two rounds more than the height of the id, and
-- answers the root and then the rows from the top of the tree down to the id: each with its name, each
-- the parent of the next, and the first one with no parent that is a row.
pub get_breadcrumbs-ends :
    (height : String → ℕ) (fuel : ℕ) (id : String) (t : Files)
    → IsAcyclic height t
    → suc (height id) < fuel
    → (crumbs : List Breadcrumb) × (top : Option String) × (get_breadcrumbs fuel id t
        ≡ some (record { id = ""; name = "root" } ∷ crumbs))
      × (next top t ≡ none)
      × IsChain t top crumbs id
unfolding get_breadcrumbs
get_breadcrumbs-ends height fuel id t acyclic enough =
    let (crumbs, top, climbed, rest, down) =
      climb-ends height fuel (some id) t [] id acyclic enough refl in
    (crumbs, top, ap with_root climbed, rest, down)

-- ===== src/Circuit/Registry.antt =====
-- The registry of breakers. Breakers are shared by pointer: a pointer is an index into the heap
-- of all breakers made so far, and the map of the registry holds pointers.
use vault_drift.Common.{
  ℕ, ◌<◌, ◌≡◌, ◌∙◌, Option, none, some, List, [], ◌∷◌, ◌++◌, String, arith, length, length-append,
  str_eq, eq_iff, if◌then◌else◌, inl, inr, Option-cases,
}
use vault_drift.Common.Dict.{Dict, lookup, insert, lookup-insert}
use vault_drift.Circuit.{Breaker, Config, new}

pub record Registry : Type 0 where
  pub breakers : Dict ℕ
  pub heap : List Breaker

-- `NewRegistry`
abbrev pub new_registry : Registry
new_registry = record { breakers = []; heap = [] }

get_or_make : Option ℕ → String → Config → Registry → ℕ × Registry
get_or_make (some p) name c r = (p, r)
get_or_make none name c r = (
  length r.heap,
  record { breakers = insert name (length r.heap) r.breakers; heap = r.heap ++ new name c ∷ [] },
)

-- `GetOrCreate`: the double check under the write lock makes the two lookups one.
unfoldable pub get_or_create : String → Config → Registry → ℕ × Registry
unfolding get_or_make
get_or_create name c r = get_or_make (lookup name r.breakers) name c r

-- `Get`
unfoldable pub get : String → Registry → Option ℕ
get name r = lookup name r.breakers

-- The pointers of the map are allocated, and no two names share one.
pub record IsValid (r : Registry) : Type 0 where
  pub allocated : (name : String) (p : ℕ) → lookup name r.breakers ≡ some p → p < length r.heap
  pub unshared :
      (a b : String) (p : ℕ) → lookup a r.breakers ≡ some p → lookup b r.breakers ≡ some p → a ≡ b

-- what the map holds after a call
get-get_or_create :
    (name other : String) (c : Config) (r : Registry)
    → get other (get_or_create name c r).1
      ≡ (if str_eq name other then some (get_or_create name c r).0 else get other r)
unfolding get_or_create get
get-get_or_create name other c r = elim (Option-cases (lookup name r.breakers)) [
  | inl none_yet ↦ ground (arith, lookup-insert name other (length r.heap) r.breakers)
  | inr (p, found) ↦ ground (arith, eq_iff name other)
]

-- A new name gets a pointer that no other name has.
insert-IsValid :
    (name : String) (b : Breaker) (r : Registry)
    → IsValid r
    → IsValid
        (record { breakers = insert name (length r.heap) r.breakers; heap = r.heap ++ b ∷ [] })
insert-IsValid name b r h = record {
  allocated = λ x p e. ground (
    arith,
    lookup-insert name x (length r.heap) r.breakers,
    h.allocated x p,
    length-append r.heap (b ∷ []),
  );
  unshared = λ x y p e f. ground (
    arith,
    lookup-insert name x (length r.heap) r.breakers,
    lookup-insert name y (length r.heap) r.breakers,
    eq_iff name x,
    eq_iff name y,
    h.allocated x p,
    h.allocated y p,
    h.unshared x y p,
  );
}

get_or_create-IsValid :
    (name : String) (c : Config) (r : Registry) → IsValid r → IsValid (get_or_create name c r).1
unfolding get_or_create
get_or_create-IsValid name c r h = elim (Option-cases (lookup name r.breakers)) [
  | inl absent ↦ rw (absent, get_or_make) (insert-IsValid name (new name c) r h)
  | inr (p, found) ↦ rw (found, get_or_make) h
]

get_or_create-found :
    (name : String) (d : Config) (r : Registry) {p : ℕ}
    → get name r ≡ some p
    → get_or_create name d r ≡ (p, r)
unfolding get_or_create get
get_or_create-found name d r found = rw (found, get_or_make)

-- In a valid registry `GetOrCreate` keeps the registry valid; whatever configuration a later call
-- brings, it returns the same pointer and changes nothing; `Get` then finds this pointer under the
-- name, and under every other name what it found before.
pub get_or_create-stable :
    (name other : String) (c d : Config) (r : Registry)
    → IsValid r
    → let (p, r') = get_or_create name c r in
      IsValid r'
      × (get_or_create name d r' ≡ (p, r'))
      × (get other r' ≡ (if str_eq name other then some p else get other r))
get_or_create-stable name other c d r h = (
  get_or_create-IsValid name c r h,
  get_or_create-found name d (get_or_create name c r).1
      (get-get_or_create name name c r ∙ ground (arith, eq_iff name name)),
  get-get_or_create name other c r,
)

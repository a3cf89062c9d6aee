-- ===== src/Sync/Clock/Merge.antt =====
-- `Increment`, `Merge` and `Copy`, read through `Get`.
use vault_drift.Common.{
  ℕ, ◌+◌, ◌%◌, ◌^◌, ◌≡◌, refl, ◌∙◌, max, String, true, false, [], ◌∷◌, arith, ltb, str_eq, eq_iff,
  if◌then◌else◌, Bool-cases, inl, inr,
}
use vault_drift.Common.Dict.{lookup, insert, lookup-insert}
use vault_drift.Sync.Clock.{VectorClock, get, exists, increment, merge, copy_into, copy, Distinct}

pub get-insert :
    (d j : String) (n : ℕ) (v : VectorClock)
    → get (insert d n v) j ≡ (if str_eq d j then n else get v j)
unfolding get
get-insert d j n v = ground (arith, lookup-insert d j n v)

-- Reading a map entry by entry.
pub get-cons :
    (d j : String) (n : ℕ) (v : VectorClock)
    → get ((d, n) ∷ v) j ≡ (if str_eq d j then n else get v j)
unfolding get lookup
get-cons d j n v = ground arith

pub get-absent : (d : String) (v : VectorClock) → exists (lookup d v) ≡ false → get v d ≡ 0
unfolding get
get-absent d v h = ground arith

-- one round of the loop of `Merge`
get-merge_step :
    (v : VectorClock) (d j : String) (n : ℕ)
    → get (if ltb (get v d) n then insert d n v else v) j
      ≡ (if str_eq d j then max (get v j) n else get v j)
get-merge_step v d j n = elim (Bool-cases (ltb (get v d) n)) [
  | inl more ↦ rw more (ground (arith, get-insert d j n v, eq_iff d j))
  | inr less ↦ rw less (ground (arith, eq_iff d j))
]

-- `Merge` with a map takes the maximum at each device, whatever order the loop meets the keys in.
pub get-merge :
    (v other : VectorClock) (device : String)
    → Distinct other
    → get (merge v other) device ≡ max (get v device) (get other device)
unfolding merge
get-merge v [] j h = unfold get lookup in omega arith
get-merge v ((d, n) ∷ other) j h =
    get-merge (if ltb (get v d) n then insert d n v else v) other j h.1
    ∙ ground
        (arith, get-merge_step v d j n, get-cons d j n other, get-absent d other h.0, eq_iff d j)

-- `Increment` adds one to its own device, wrapping as a uint64 does, and leaves the others alone.
pub get-increment :
    (v : VectorClock) (d device : String)
    → get (increment v d) device
      ≡ (if str_eq d device then (get v device + 1) % 2 ^ 64 else get v device)
unfolding increment
get-increment v d j = ground (arith, get-insert d j ((get v d + 1) % 2 ^ 64) v, eq_iff d j)

get-copy_into :
    (copy v : VectorClock) (j : String)
    → Distinct v
    → get (copy_into copy v) j ≡ (if exists (lookup j v) then get v j else get copy j)
unfolding copy_into
get-copy_into c [] j h = unfold lookup in refl
get-copy_into c ((d, n) ∷ v) j h =
    get-copy_into (insert d n c) v j h.1
    ∙ ground (
      arith,
      get-insert d j n c,
      get-cons d j n v,
      get-absent d v h.0,
      exists-cons d j n v,
      eq_iff d j,
      h.0,
    )
  where
    exists-cons :
        (d j : String) (n : ℕ) (v : VectorClock)
        → exists (lookup j ((d, n) ∷ v)) ≡ (if str_eq d j then true else exists (lookup j v))
    exists-cons d j n v = unfold lookup in ground arith

-- A copy of a map reads as the map does.
pub get-copy : (v : VectorClock) (device : String) → Distinct v → get (copy v) device ≡ get v device
unfolding copy
get-copy v j h = get-copy_into [] v j h ∙ unfold get lookup in ground arith

lookup-absent_insert :
    (d j : String) (n : ℕ) (v : VectorClock)
    → exists (lookup j v) ≡ false
    → str_eq d j ≡ false
    → exists (lookup j (insert d n v)) ≡ false
lookup-absent_insert d j n v h e = ground (arith, lookup-insert d j n v)

-- Writing to a map leaves a map.
pub insert-Distinct : (d : String) (n : ℕ) (v : VectorClock) → Distinct v → Distinct (insert d n v)
unfolding insert
insert-Distinct d n [] h = unfold lookup in (refl, tt)
insert-Distinct d n ((j, m) ∷ v) h = elim (Bool-cases (str_eq j d)) [
  | inl same ↦ let e : j ≡ d = (eq_iff j d).0 same in rw (same, ← e) h
  | inr other ↦ rw other (
    lookup-absent_insert d j n v h.0 (ground (arith, eq_iff d j, eq_iff j d)),
    insert-Distinct d n v h.1,
  )
]

-- The operations keep a clock a map.
pub merge-Distinct : (v other : VectorClock) → Distinct v → Distinct (merge v other)
unfolding merge
merge-Distinct v [] h = h
merge-Distinct v ((d, n) ∷ other) h = elim (Bool-cases (ltb (get v d) n)) [
  | inl more ↦ rw more (merge-Distinct (insert d n v) other (insert-Distinct d n v h))
  | inr less ↦ rw less (merge-Distinct v other h)
]

pub increment-Distinct : (v : VectorClock) (d : String) → Distinct v → Distinct (increment v d)
unfolding increment
increment-Distinct v d h = insert-Distinct d ((get v d + 1) % 2 ^ 64) v h

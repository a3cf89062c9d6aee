-- ===== src/Sync/Clock/Scan.antt =====
-- The two loops of `Compare` (internal/sync/vector.go) find a counter that is higher, or lower.
use vault_drift.Common.{
  ℕ, ◌<◌, ◌≡◌, ◌∙◌, ap, ◌↔◌, not, ◌&&◌, ◌||◌, String, Bool, true, false, [], ◌∷◌, arith, ltb,
  str_eq, eq_iff, if◌then◌else◌, Bool-cases, inl, inr,
}
use mathlib.Core.Path.{ap₂}
use vault_drift.Common.Dict.{lookup}
use vault_drift.Sync.Clock.{
  VectorClock, Flags, get, exists, compare, scan_own, scan_other, verdict, Distinct,
}
use vault_drift.Sync.Clock.Merge.{get-cons, get-absent}

-- Some device stands higher in the first clock.
abbrev pub Exceeds : VectorClock → VectorClock → Type 0
Exceeds v w = (device : String) × (get w device < get v device)

present : (v : VectorClock) (d : String) → 0 < get v d → exists (lookup d v) ≡ true
present v d h = ground (arith, get-absent d v)

pub any_entry : (String → ℕ → Bool) → VectorClock → Bool
any_entry p [] = false
any_entry p ((d, n) ∷ v) = p d n || any_entry p v

exists-cons :
    (d j : String) (n : ℕ) (v : VectorClock)
    → exists (lookup j ((d, n) ∷ v)) ≡ (if str_eq d j then true else exists (lookup j v))
unfolding lookup
exists-cons d j n v = ground arith

any_entry-true :
    (p : String → ℕ → Bool) (v : VectorClock)
    → Distinct v
    → any_entry p v ≡ true
    → (d : String) × (exists (lookup d v) ≡ true) × (p d (get v d) ≡ true)
unfolding any_entry
any_entry-true p [] h t = absurd (cc)
any_entry-true p ((d, n) ∷ v) h t = elim (Bool-cases (p d n)) [
  | inl here ↦ (
    d,
    ground (arith, exists-cons d d n v, eq_iff d d),
    ground (arith, get-cons d d n v, eq_iff d d),
  )
  | inr there ↦
      let (j, e, q) = any_entry-true p v h.1 (ground arith) in
      (
        j,
        ground (arith, exists-cons d j n v),
        ground (arith, get-cons d j n v, exists-cons d j n v, eq_iff d j, h.0),
      )
]

any_entry-found :
    (p : String → ℕ → Bool) (v : VectorClock) (d : String)
    → exists (lookup d v) ≡ true
    → p d (get v d) ≡ true
    → any_entry p v ≡ true
unfolding any_entry
any_entry-found p [] d e q = absurd (unfold lookup in cc e)
any_entry-found p ((j, n) ∷ v) d e q =
    ground (arith, any_entry-found p v d, exists-cons j d n v, get-cons j d n v, eq_iff j d)

abbrev pub above : VectorClock → String → ℕ → Bool
above w d n = ltb (get w d) n

abbrev pub under : VectorClock → String → ℕ → Bool
under w d n = ltb n (get w d)

abbrev pub fresh : VectorClock → String → ℕ → Bool
fresh v d n = not (exists (lookup d v)) && ltb 0 n

own_step :
    (g n : ℕ) (p q : Bool)
    → ◌≡◌ {A = Flags}
        (if ltb g n then (true, q) else if ltb n g then (p, true) else (p, q))
        (p || ltb g n, q || ltb n g)
own_step g n p q = ground arith

other_step : (b p q : Bool) → ◌≡◌ {A = Flags} (if b then (p, true) else (p, q)) (p, q || b)
other_step b p q = ground arith

or_assoc : (a b c : Bool) → ((a || b) || c) ≡ (a || (b || c))
or_assoc a b c = ground arith

scan_own-any :
    (v w : VectorClock) (p q : Bool)
    → scan_own v w (p, q) ≡ (p || any_entry (above w) v, q || any_entry (under w) v)
unfolding scan_own any_entry
scan_own-any [] w p q = ground arith
scan_own-any ((d, n) ∷ v) w p q =
    ap (scan_own v w) (own_step (get w d) n p q)
    ∙ scan_own-any v w (p || above w d n) (q || under w d n)
    ∙ ap₂ (λ a b. (a, b)) (or_assoc p (above w d n) (any_entry (above w) v))
        (or_assoc q (under w d n) (any_entry (under w) v))

scan_other-any :
    (v w : VectorClock) (p q : Bool) → scan_other v w (p, q) ≡ (p, q || any_entry (fresh v) w)
unfolding scan_other any_entry
scan_other-any v [] p q = ground arith
scan_other-any v ((d, n) ∷ w) p q =
    ap (scan_other v w) (other_step (fresh v d n) p q)
    ∙ scan_other-any v w p (q || fresh v d n)
    ∙ ap (λ b. (p, b)) (or_assoc q (fresh v d n) (any_entry (fresh v) w))

-- `Compare` by its two flags.
pub compare_flags :
    (v w : VectorClock)
    → compare v w ≡ verdict (any_entry (above w) v, any_entry (under w) v || any_entry (fresh v) w)
unfolding compare
compare_flags v w =
    ap (λ f. verdict (scan_other v w f)) (scan_own-any v w false false)
    ∙ ap verdict (scan_other-any v w (any_entry (above w) v) (any_entry (under w) v))

pub superset_iff : (v w : VectorClock) → Distinct v → (any_entry (above w) v ≡ true) ↔ Exceeds v w
superset_iff v w h = (
  λ t. let (d, e, q) = any_entry-true (above w) v h t in (d, ground arith),
  λ x. any_entry-found (above w) v x.0 (present v x.0 (omega (arith, x.1))) (ground (arith, x.1)),
)

pub subset_iff :
    (v w : VectorClock)
    → Distinct v
    → Distinct w
    → ((any_entry (under w) v || any_entry (fresh v) w) ≡ true) ↔ Exceeds w v
subset_iff v w h k = (
  λ t. elim (Bool-cases (any_entry (under w) v)) [
    | inl own ↦ let (d, e, q) = any_entry-true (under w) v h own in (d, ground arith)
    | inr other ↦
        let (d, e, q) = any_entry-true (fresh v) w k (ground arith) in
        (d, ground (arith, get-absent d v))
  ],
  λ x. elim (Bool-cases (exists (lookup x.0 v))) [
    | inl known ↦ ground (arith, any_entry-found (under w) v x.0 known, x.1)
    | inr new ↦ ground (
      arith,
      any_entry-found (fresh v) w x.0 (present w x.0 (omega (arith, x.1))),
      x.1,
      get-absent x.0 v,
    )
  ],
)

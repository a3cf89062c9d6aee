-- ===== src/Sync/Clock/Order.antt =====
-- `Compare` decides the pointwise order of the counters.
use vault_drift.Common.{
  ◌+◌, ◌^◌, ◌≤◌, ◌<◌, ◌≡◌, refl, ◌↔◌, ◌||◌, String, Bool, true, false, arith, ltb, eq_iff,
  Bool-cases, inl, inr,
}
use mathlib.Core.Bool.{false≢true}
use vault_drift.Sync.Clock.{
  VectorClock, before, equal, after, concurrent, get, increment, merge, compare, verdict, Distinct,
  happened_before,
}
use vault_drift.Sync.Clock.Merge.{get-merge, get-increment, merge-Distinct, increment-Distinct}
use vault_drift.Sync.Clock.Scan.{
  Exceeds, any_entry, above, under, fresh, compare_flags, superset_iff, subset_iff,
}

-- The pointwise order of the counters.
abbrev pub AtMost : VectorClock → VectorClock → Type 0
AtMost v w = (device : String) → get v device ≤ get w device

not-Exceeds : (v w : VectorClock) → AtMost v w → ¬ (Exceeds v w)
not-Exceeds v w h x = omega (arith, x.1, h x.0)

AtMost-of : (v w : VectorClock) → ¬ (Exceeds v w) → AtMost v w
AtMost-of v w h d = elim (Bool-cases (ltb (get w d) (get v d))) [
  | inl more ↦ absurd (h (d, ground arith))
  | inr less ↦ ground arith
]

-- The flags of a verdict, each with what it stands for.
verdict_iff :
    (p q : Bool) {P Q : Type 0}
    → ((p ≡ true) ↔ P)
    → ((q ≡ true) ↔ Q)
    → ((verdict (p, q) ≡ equal) ↔ ((¬ P) × (¬ Q)))
      × ((verdict (p, q) ≡ after) ↔ (P × (¬ Q)))
      × ((verdict (p, q) ≡ before) ↔ ((¬ P) × Q))
      × ((verdict (p, q) ≡ concurrent) ↔ (P × Q))
verdict_iff true true f g = (
  (λ e. absurd (cc), λ n. absurd (n.0 (f.0 refl))),
  (λ e. absurd (cc), λ n. absurd (n.1 (g.0 refl))),
  (λ e. absurd (cc), λ n. absurd (n.0 (f.0 refl))),
  (λ e. (f.0 refl, g.0 refl), λ n. refl),
)
verdict_iff true false f g = (
  (λ e. absurd (cc), λ n. absurd (n.0 (f.0 refl))),
  (λ e. (f.0 refl, λ y. false≢true (g.1 y)), λ n. refl),
  (λ e. absurd (cc), λ n. absurd (n.0 (f.0 refl))),
  (λ e. absurd (cc), λ n. absurd (false≢true (g.1 n.1))),
)
verdict_iff false true f g = (
  (λ e. absurd (cc), λ n. absurd (n.1 (g.0 refl))),
  (λ e. absurd (cc), λ n. absurd (n.1 (g.0 refl))),
  (λ e. (λ y. false≢true (f.1 y), g.0 refl), λ n. refl),
  (λ e. absurd (cc), λ n. absurd (false≢true (f.1 n.0))),
)
verdict_iff false false f g = (
  (λ e. (λ y. false≢true (f.1 y), λ y. false≢true (g.1 y)), λ n. refl),
  (λ e. absurd (cc), λ n. absurd (false≢true (f.1 n.0))),
  (λ e. absurd (cc), λ n. absurd (false≢true (g.1 n.1))),
  (λ e. absurd (cc), λ n. absurd (false≢true (f.1 n.0))),
)

-- For any two maps, whatever order their keys come in, `Compare` answers `Equal` exactly when no
-- counter differs, `After` when none of the receiver's is lower and some is higher, `Before` when
-- none is higher and some is lower, and `Concurrent` when some is higher and some is lower.
pub compare-decides :
    (v w : VectorClock)
    → Distinct v
    → Distinct w
    → ((compare v w ≡ equal) ↔ (AtMost v w × AtMost w v))
      × ((compare v w ≡ after) ↔ (Exceeds v w × AtMost w v))
      × ((compare v w ≡ before) ↔ (AtMost v w × Exceeds w v))
      × ((compare v w ≡ concurrent) ↔ (Exceeds v w × Exceeds w v))
compare-decides v w h k =
    let (e, a, b, c) =
      verdict_iff (any_entry (above w) v) (any_entry (under w) v || any_entry (fresh v) w)
        (superset_iff v w h) (subset_iff v w h k) in
    rw (compare_flags v w) (
      (
        λ r. (AtMost-of v w (e.0 r).0, AtMost-of w v (e.0 r).1),
        λ r. e.1 (not-Exceeds v w r.0, not-Exceeds w v r.1),
      ),
      (λ r. ((a.0 r).0, AtMost-of w v (a.0 r).1), λ r. a.1 (r.0, not-Exceeds w v r.1)),
      (λ r. (AtMost-of v w (b.0 r).0, (b.0 r).1), λ r. b.1 (not-Exceeds v w r.0, r.1)),
      c,
    )

-- A device that merges another clock into its own and then increments its own counter, not past
-- the uint64 range, has a clock that both clocks happened before.
pub merge-increment-happened_after :
    (v w : VectorClock) (device : String)
    → Distinct v
    → Distinct w
    → get v device + 1 < 2 ^ 64
    → get w device + 1 < 2 ^ 64
    → (happened_before v (increment (merge v w) device) ≡ true)
      × (happened_before w (increment (merge v w) device) ≡ true)
unfolding happened_before
merge-increment-happened_after v w d h k small₁ small₂ = (
  let e : compare v u ≡ before = (compare-decides v u h distinct).2.1 (own, higher) in rw e,
  let e : compare w u ≡ before = (compare-decides w u k distinct).2.1 (others, highest) in rw e,
)
  where
    u : VectorClock
    u = increment (merge v w) d

    distinct : Distinct u
    distinct = increment-Distinct (merge v w) d (merge-Distinct v w h)

    reads : (j : String) → (get v j ≤ get u j) × (get w j ≤ get u j)
    reads j = ground (arith, get-increment (merge v w) d j, get-merge v w j k, eq_iff d j)

    own : AtMost v u
    own j = (reads j).0

    others : AtMost w u
    others j = (reads j).1

    higher : Exceeds u v
    higher = (d, ground (arith, get-increment (merge v w) d d, get-merge v w d k, eq_iff d d))

    highest : Exceeds u w
    highest = (d, ground (arith, get-increment (merge v w) d d, get-merge v w d k, eq_iff d d))

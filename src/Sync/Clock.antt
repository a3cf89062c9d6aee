-- ===== src/Sync/Clock.antt =====
-- Vector clocks (internal/sync/vector.go): a Go map from device ids to uint64 counters. A loop over
-- a map meets the entries in the order of the list, which is any order.
pub mod Order
pub mod Scan
pub mod Merge
use vault_drift.Common.{
  ℕ, ◌+◌, ◌%◌, ◌^◌, String, Bool, true, false, not, ◌&&◌, ◌≡◌, Option, none, some, [], ◌∷◌, ltb,
  if◌then◌else◌,
}
use vault_drift.Common.Dict.{Dict, lookup, insert}

abbrev pub VectorClock : Type 0
VectorClock = Dict ℕ

-- `type Ordering int`
pub data Ordering : Type 0 where
  before equal after concurrent : Ordering

-- `NewVectorClock`
abbrev pub new_vector_clock : VectorClock
new_vector_clock = []

abbrev pub or_zero : Option ℕ → ℕ
or_zero none = 0
or_zero (some n) = n

-- `Get`: a missing key reads as 0.
unfoldable pub get : VectorClock → String → ℕ
get v device = or_zero (lookup device v)

-- `Increment`
unfoldable pub increment : VectorClock → String → VectorClock
increment v device = insert device ((get v device + 1) % 2 ^ 64) v

-- `Merge`: the loop over `other`.
unfoldable pub merge : VectorClock → VectorClock → VectorClock
merge v [] = v
merge v ((device, counter) ∷ other) =
    merge (if ltb (get v device) counter then insert device counter v else v) other

abbrev pub exists : Option ℕ → Bool
exists none = false
exists (some n) = true

-- The two flags of `Compare`: `superset` and `subset`.
abbrev pub Flags : Type 0
Flags = Bool × Bool

-- The first loop of `Compare`, over the entries of the receiver.
unfoldable pub scan_own : VectorClock → VectorClock → Flags → Flags
scan_own [] other flags = flags
scan_own ((device, counter) ∷ v) other (superset, subset) = scan_own v other (
    if ltb (get other device) counter
    then (true, subset)
    else if ltb counter (get other device)
    then (superset, true)
    else (superset, subset))

-- The second loop, over the entries of the argument.
unfoldable pub scan_other : VectorClock → VectorClock → Flags → Flags
scan_other v [] flags = flags
scan_other v ((device, counter) ∷ other) (superset, subset) = scan_other v other (
    if not (exists (lookup device v)) && ltb 0 counter
    then (superset, true)
    else (superset, subset))

-- The `switch` of `Compare`.
abbrev pub verdict : Flags → Ordering
verdict (false, false) = equal
verdict (true, false) = after
verdict (false, true) = before
verdict (true, true) = concurrent

-- `Compare`
unfoldable pub compare : VectorClock → VectorClock → Ordering
unfolding scan_own scan_other
compare v other = verdict (scan_other v other (scan_own v other (false, false)))

abbrev is_concurrent_ordering : Ordering → Bool
is_concurrent_ordering concurrent = true
is_concurrent_ordering _ = false

abbrev is_before : Ordering → Bool
is_before before = true
is_before _ = false

-- `IsConcurrent`
unfoldable pub is_concurrent : VectorClock → VectorClock → Bool
is_concurrent v other = is_concurrent_ordering (compare v other)

-- `HappenedBefore`
unfoldable pub happened_before : VectorClock → VectorClock → Bool
happened_before v other = is_before (compare v other)

-- `Copy`: the loop that fills a fresh map.
unfoldable pub copy_into : VectorClock → VectorClock → VectorClock
copy_into copy [] = copy
copy_into copy ((device, counter) ∷ v) = copy_into (insert device counter copy) v

unfoldable pub copy : VectorClock → VectorClock
unfolding copy_into
copy v = copy_into [] v

-- A list is a Go map when no key comes twice.
abbrev pub Distinct : VectorClock → Type 0
Distinct [] = Unit
Distinct ((device, counter) ∷ v) = (exists (lookup device v) ≡ false) × Distinct v

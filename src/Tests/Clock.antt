-- ===== src/Tests/Clock.antt =====
-- Runs of the vector clocks.
use vault_drift.Common.{◌≡◌, refl, ◌↔◌, [], ◌∷◌}
use vault_drift.Common.Dict.{lookup}
use vault_drift.Sync.Clock.{VectorClock, Distinct, get, compare, equal, after, before, concurrent}
use vault_drift.Sync.Clock.Scan.{Exceeds}
use vault_drift.Sync.Clock.Order.{AtMost, compare-decides}

abbrev phone : VectorClock
phone = ("phone", 3) ∷ ("laptop", 1) ∷ []

abbrev laptop : VectorClock
laptop = ("laptop", 4) ∷ ("phone", 2) ∷ []

phone-Distinct : Distinct phone
unfolding lookup
phone-Distinct = (refl, (refl, tt))

laptop-Distinct : Distinct laptop
unfolding lookup
laptop-Distinct = (refl, (refl, tt))

compare_concurrent : compare phone laptop ≡ concurrent
unfolding compare get lookup
compare_concurrent = refl

compare-decides_example :
    ((compare phone laptop ≡ equal) ↔ (AtMost phone laptop × AtMost laptop phone))
    × ((compare phone laptop ≡ after) ↔ (Exceeds phone laptop × AtMost laptop phone))
    × ((compare phone laptop ≡ before) ↔ (AtMost phone laptop × Exceeds laptop phone))
    × ((compare phone laptop ≡ concurrent) ↔ (Exceeds phone laptop × Exceeds laptop phone))
compare-decides_example = compare-decides phone laptop phone-Distinct laptop-Distinct

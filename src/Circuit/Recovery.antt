-- ===== src/Circuit/Recovery.antt =====
-- `Execute` run alone refines a breaker with two states: closed with a count of failures, and
-- open since a clock reading. The half-open state is left before `Execute` returns.
use vault_drift.Common.{
  ℕ, ◌+◌, ◌-◌, ◌^◌, ◌<◌, ◌≡◌, ◌≢◌, Bool, true, Option, none, some, arith, ltb, leb, inl, inr,
  if◌then◌else◌,
}
use vault_drift.Circuit.Invariant.{State-cases}
use vault_drift.Circuit.{
  State, closed, open_circuit, half_open, Breaker, Config, Env, Error, circuit_is_open, Execution,
  execute_with_retries, execute,
}

-- The promise of the breaker, without the half-open slot.
pub data View : Type 0 where
  closed_after : ℕ → View
  open_since : ℕ → View

abbrev pub view_of : State → Breaker → View
view_of closed b = closed_after b.failures
view_of _ b = open_since b.last_failure

abbrev pub view : Breaker → View
view b = view_of b.state b

-- A call is let through unless the circuit is open and its timeout has not passed.
abbrev pub admits : ℕ → Config → View → Bool
admits now c (closed_after f) = true
admits now c (open_since t) = ltb c.timeout (now - t)

-- What an admitted call leaves behind.
abbrev pub settle : ℕ → Config → Option Error → View → View
settle done c none v = closed_after 0
settle done c (some e) (closed_after f) =
    if leb c.max_failures (f + 1) then open_since done else closed_after (f + 1)
settle done c (some e) (open_since t) = open_since done

abbrev pub observe : Execution → Option Error × ℕ × View
observe x = (x.error, x.calls, view x.after)

-- What the two-state breaker makes of a call.
abbrev pub promise : ℕ → ℕ → Env → Breaker → Option Error × ℕ × View
promise now done env b =
    let (err, calls) = execute_with_retries b.config env in
    if admits now b.config (view b)
    then (err, calls, settle done b.config err (view b))
    else (some (circuit_is_open b.name), 0, view b)

-- Between two calls the circuit is closed or open, and a closed one counts below `MaxFailures`.
pub record IsIdle (b : Breaker) : Type 0 where
  pub settled : b.state ≢ half_open
  pub below : b.state ≡ closed → b.failures < b.config.max_failures

-- Between calls, with a positive uint32 `MaxFailures`: a call that is let through starts `fn` as
-- often as the retry loop does, returns the loop's error and leaves the two-state breaker as
-- `settle` says; one that is not let through starts nothing, returns the open-circuit error and
-- leaves the two-state breaker as it was. Either way the breaker is between calls again, with
-- its name and configuration.
pub execute-refines :
    (now done : ℕ) (env : Env) (b : Breaker)
    → 0 < b.config.max_failures
    → b.config.max_failures < 2 ^ 32
    → IsIdle b
    → (observe (execute now done env b) ≡ promise now done env b)
      × IsIdle (execute now done env b).after
      × ((execute now done env b).after.config ≡ b.config)
      × ((execute now done env b).after.name ≡ b.name)
unfolding execute
execute-refines now done env b p w h = elim (State-cases b.state) [
  | inl c ↦ ground arith
  | inr (inl o) ↦ ground arith
  | inr (inr f) ↦ absurd (h.settled f)
]

-- A call that probes an open circuit whose timeout has passed leaves the uint32 count of half-open
-- calls at its largest value, whether it succeeds or fails: the outcome sets the count to 0, and the
-- deferred release then takes 1 away.
pub execute-underflows :
    (now done : ℕ) (env : Env) (b : Breaker)
    → b.state ≡ open_circuit
    → b.config.timeout < now - b.last_failure
    → (execute now done env b).after.half_open_calls ≡ 2 ^ 32 - 1
unfolding execute
execute-underflows now done env b o h = ground arith

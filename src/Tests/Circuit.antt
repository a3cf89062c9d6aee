-- ===== src/Tests/Circuit.antt =====
-- Runs of the circuit breaker.
use vault_drift.Common.{ℕ, ◌<◌, ◌≡◌, refl, ◌≤◌, ◌↔◌, none, some, [], ◌∷◌, arith, ltb, if◌then◌else◌}
use vault_drift.Common.Int.{pos}
use vault_drift.Common.Dict.{lookup}
use vault_drift.Circuit.{
  closed, open_circuit, Config, Breaker, Env, execute, new, returned_error, returned_ok, rounds,
  execute_with_retries, fn_error, after_retries, circuit_is_open,
}
use vault_drift.Circuit.Invariant.{
  run, IsSound, failure, enter, acquire, success, release, run-IsSound,
}
use vault_drift.Circuit.Recovery.{observe, promise, IsIdle, execute-refines, execute-underflows}
use vault_drift.Circuit.Retries.{SucceedsAt, retries-succeed_iff}
use vault_drift.Circuit.Invariant.{Transition, apply, apply-Transition}
use vault_drift.Circuit.Registry.{new_registry, IsValid}

abbrev small : Config
small = record { max_failures = 2; timeout = 10; max_retries = pos 1 }

abbrev fresh : Breaker
fresh = record {
  name = "db";
  config = small;
  state = closed;
  failures = 0;
  last_failure = 0;
  half_open_calls = 0;
}

abbrev tripped : Breaker
tripped = record fresh { state = open_circuit; failures = 2; last_failure = 5 }

abbrev failing : Env
failing = record { delay = λ _. none; call = λ _. returned_error "down" }

abbrev second_try : Env
second_try = record {
  delay = λ _. none;
  call = λ k. if ltb k 1 then returned_error "down" else returned_ok;
}

fails_twice :
    execute_with_retries small failing ≡ (some (after_retries (pos 1) (some (fn_error "down"))), 2)
unfolding execute_with_retries
fails_twice = refl

second_try_succeeds : execute_with_retries small second_try ≡ (none, 2)
unfolding execute_with_retries
second_try_succeeds = refl

open_refuses : (execute 14 15 failing tripped).error ≡ some (circuit_is_open "db")
unfolding execute
open_refuses = refl

fresh-IsIdle : IsIdle fresh
fresh-IsIdle = record { settled = λ e. absurd (cc); below = λ _. omega arith }

execute-refines_example :
    (observe (execute 5 6 failing fresh) ≡ promise 5 6 failing fresh)
    × IsIdle (execute 5 6 failing fresh).after
    × ((execute 5 6 failing fresh).after.config ≡ small)
    × ((execute 5 6 failing fresh).after.name ≡ "db")
execute-refines_example = execute-refines 5 6 failing fresh (omega arith) (omega arith) fresh-IsIdle

execute-underflows_example : (execute 20 21 second_try tripped).after.half_open_calls ≡ 4294967295
execute-underflows_example = execute-underflows 20 21 second_try tripped refl (omega arith)

retries-succeed_iff_example :
    (((execute_with_retries small second_try).0 ≡ none)
      ↔ ((k : ℕ) × (k < rounds (pos 1)) × SucceedsAt second_try 0 k))
    × ((execute_with_retries small second_try).1 ≤ rounds (pos 1))
retries-succeed_iff_example = retries-succeed_iff small second_try

second_try-SucceedsAt : SucceedsAt second_try 0 1
second_try-SucceedsAt = record {
  reached = omega arith;
  made = refl;
  succeeded = refl;
  retried = λ j low high. let first : j ≡ 0 = omega arith in rw first (refl, refl);
}

run-IsSound_example : IsSound small (
    run
      (enter 1 ∷ failure 2 ∷ failure 3 ∷ enter 20 ∷ acquire ∷ success ∷ release ∷ [])
      (new "db" small))
run-IsSound_example =
    run-IsSound "db" small
      (enter 1 ∷ failure 2 ∷ failure 3 ∷ enter 20 ∷ acquire ∷ success ∷ release ∷ []) (omega arith)
      (omega arith)

apply-Transition_example : Transition tripped (enter 20) (apply (enter 20) tripped).state
apply-Transition_example = apply-Transition (enter 20) tripped

new_registry-IsValid : IsValid new_registry
unfolding lookup
new_registry-IsValid = record {
  allocated = λ name p h. absurd (cc);
  unshared = λ a b p h k. absurd (cc);
}

-- ===== src/Circuit.antt =====
-- The circuit breaker of internal/circuit/breaker.go: its record, the operations that hold its
-- mutex for the whole of their body, and the retry loop and `Execute` over them. Times are
-- nanosecond readings of the clock, passed in where the code calls `time.Now` or `time.Since`.
-- The `uint32` fields wrap. `MaxRetries` is a Go `int`, so it may be negative.
pub mod Retries
pub mod Invariant
pub mod Recovery
pub mod Registry
use vault_drift.Common.{
  ℕ, zero, suc, ◌+◌, ◌-◌, ◌%◌, ◌^◌, String, Bool, true, false, ◌&&◌, Option, none, some, ltb, leb,
  if◌then◌else◌,
}
use vault_drift.Common.Int.{ℤ, pos, negsuc}

-- `type State int`
pub data State : Type 0 where
  closed open_circuit half_open : State

pub record Config : Type 0 where
  pub max_failures : ℕ
  pub timeout : ℕ
  pub max_retries : ℤ

pub record Breaker : Type 0 where
  pub name : String
  pub config : Config
  pub state : State
  pub failures : ℕ
  pub last_failure : ℕ
  pub half_open_calls : ℕ

abbrev pub u32 : ℕ → ℕ
u32 n = n % 2 ^ 32

-- `New`; the zero time is read as 0.
unfoldable pub new : String → Config → Breaker
new name config = record {
  name = name;
  config = config;
  state = closed;
  failures = 0;
  last_failure = 0;
  half_open_calls = 0;
}

abbrev pub is_open : State → Bool
is_open open_circuit = true
is_open _ = false

abbrev pub is_half_open : State → Bool
is_half_open half_open = true
is_half_open _ = false

-- `currentState`: an open circuit whose timeout has passed turns half-open.
unfoldable pub current_state : ℕ → Breaker → Breaker
current_state now b =
    if is_open b.state && ltb b.config.timeout (now - b.last_failure)
    then record b { state = half_open; half_open_calls = 0 }
    else b

-- `acquireHalfOpenSlot`
unfoldable pub acquire_half_open_slot : Breaker → Bool × Breaker
acquire_half_open_slot b =
    if ltb b.half_open_calls 1
    then (true, record b { half_open_calls = u32 (b.half_open_calls + 1) })
    else (false, b)

-- `releaseHalfOpenSlot`: `halfOpenCalls--` on a uint32.
unfoldable pub release_half_open_slot : Breaker → Breaker
release_half_open_slot b = record b { half_open_calls = u32 (b.half_open_calls + (2 ^ 32 - 1)) }

-- `recordSuccess`
unfoldable pub record_success : Breaker → Breaker
record_success b =
    if is_half_open b.state
    then record b { failures = 0; state = closed; half_open_calls = 0 }
    else record b { failures = 0 }

-- `recordFailure`
unfoldable pub record_failure : ℕ → Breaker → Breaker
record_failure now b =
    let counted = record b { failures = u32 (b.failures + 1); last_failure = now } in
    if is_half_open b.state
    then record counted { state = open_circuit; half_open_calls = 0 }
    else if leb b.config.max_failures counted.failures
    then record counted { state = open_circuit }
    else counted

-- How the second `select` of a round ends: the call returns, the context is done, or the
-- timeout fires.
pub data Outcome : Type 0 where
  returned_ok : Outcome
  returned_error : String → Outcome
  call_cancelled : String → Outcome
  timed_out : Outcome

-- The environment of one call of `executeWithRetries`. `delay k` is the context's error, if the
-- context is done while the loop waits for the retry delay before attempt `k`.
pub record Env : Type 0 where
  pub delay : ℕ → Option String
  pub call : ℕ → Outcome

pub data CallError : Type 0 where
  fn_error : String → CallError
  timeout_error : CallError

-- The errors that `Execute` returns. `after_retries` wraps the last error, `none` for nil.
pub data Error : Type 0 where
  circuit_is_open : String → Error
  context_error : String → Error
  after_retries : ℤ → Option CallError → Error

-- How often `attempt <= MaxRetries` lets the loop run.
abbrev pub rounds : ℤ → ℕ
rounds (pos n) = suc n
rounds (negsuc _) = 0

-- The first `select`, which only later attempts meet.
abbrev pub cancelled_before : ℕ → Env → Option String
cancelled_before attempt env = if ltb 0 attempt then env.delay attempt else none

-- What one round of the loop leads to: a `return`, with the number of calls of `fn` that the
-- round made, or the next round, with the error to remember.
pub data Round : Type 0 where
  returns : Option Error → ℕ → Round
  retries : CallError → Round

unfoldable pub round : Option String → Outcome → Round
round (some e) o = returns (some (context_error e)) 0
round none returned_ok = returns none 1
round none (returned_error e) = retries (fn_error e)
round none (call_cancelled e) = returns (some (context_error e)) 1
round none timed_out = retries timeout_error

-- The `for` of `executeWithRetries`, from attempt `attempt` with `left` rounds to go. It returns
-- the error, `none` for nil, and how often `fn` was started.
unfoldable pub retry_loop : ℕ → ℕ → ℤ → Option CallError → Env → ℕ → Option Error × ℕ
retry_loop zero attempt limit last env calls = (some (after_retries limit last), calls)
retry_loop (suc left) attempt limit last env calls =
    elim (round (cancelled_before attempt env) (env.call attempt)) [
      | returns err made ↦ (err, calls + made)
      | retries err ↦ retry_loop left (attempt + 1) limit (some err) env (calls + 1)
    ]

-- `executeWithRetries`
unfoldable pub execute_with_retries : Config → Env → Option Error × ℕ
unfolding retry_loop round
execute_with_retries c env = retry_loop (rounds c.max_retries) 0 c.max_retries none env 0

-- The end of `Execute`: the outcome is recorded, at clock reading `done` if it is an error.
unfoldable pub record_outcome : ℕ → Option Error → Breaker → Breaker
unfolding record_success record_failure
record_outcome done none b = record_success b
record_outcome done (some e) b = record_failure done b

pub record Execution : Type 0 where
  pub error : Option Error
  pub calls : ℕ
  pub after : Breaker

-- `Execute`, run alone: `now` is the clock at entry, `done` when the retry loop has ended. The
-- deferred release runs last.
unfoldable pub execute : ℕ → ℕ → Env → Breaker → Execution
unfolding current_state acquire_half_open_slot release_half_open_slot record_outcome
execute now done env b =
    let b₁ = current_state now b in
    let refused : Execution = record {
      error = some (circuit_is_open b.name);
      calls = 0;
      after = b₁;
    } in
    let (err, calls) = execute_with_retries b.config env in
    elim b₁.state [
      | open_circuit ↦ refused
      | half_open ↦
          let (acquired, b₂) = acquire_half_open_slot b₁ in
          if acquired
          then record {
            error = err;
            calls = calls;
            after = release_half_open_slot (record_outcome done err b₂);
          }
          else refused
      | closed ↦ record { error = err; calls = calls; after = record_outcome done err b₁ }
    ]

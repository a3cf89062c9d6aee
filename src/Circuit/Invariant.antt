-- ===== src/Circuit/Invariant.antt =====
-- The breaker under any interleaving of goroutines: each operation holds the mutex for the whole
-- of its body, so a run of the program is a sequence of them, in any order.
use vault_drift.Common.{
  ℕ, ◌+◌, ◌-◌, ◌^◌, ◌≤◌, ◌<◌, ◌≡◌, refl, ◌⊎◌, ◌&&◌, List, [], ◌∷◌, String, arith, ltb, leb,
  if◌then◌else◌, length, map, Bool-cases, inl, inr, ◌∙◌,
}
use vault_drift.Circuit.{
  State, closed, open_circuit, half_open, Breaker, Config, u32, is_open, is_half_open, new,
  current_state, acquire_half_open_slot, release_half_open_slot, record_success, record_failure,
}

-- The operations under the mutex, with the clock reading that each takes.
pub data Op : Type 0 where
  enter : ℕ → Op
  acquire : Op
  release : Op
  success : Op
  failure : ℕ → Op

unfoldable pub apply : Op → Breaker → Breaker
unfolding current_state acquire_half_open_slot release_half_open_slot record_success record_failure
apply (enter now) b = current_state now b
apply acquire b = (acquire_half_open_slot b).1
apply release b = release_half_open_slot b
apply success b = record_success b
apply (failure now) b = record_failure now b

unfoldable pub run : List Op → Breaker → Breaker
unfolding apply
run [] b = b
run (o ∷ os) b = run os (apply o b)

-- What `apply` may do to the state.
pub data Transition (b : Breaker) (o : Op) (s : State) : Type 0 where
  stays : s ≡ b.state → Transition b o s
  trips :
      (now : ℕ)
      → b.state ≡ closed
      → o ≡ failure now
      → b.config.max_failures ≤ u32 (b.failures + 1)
      → s ≡ open_circuit
      → Transition b o s
  probes :
      (now : ℕ)
      → b.state ≡ open_circuit
      → o ≡ enter now
      → b.config.timeout < now - b.last_failure
      → s ≡ half_open
      → Transition b o s
  closes : b.state ≡ half_open → o ≡ success → s ≡ closed → Transition b o s
  reopens : (now : ℕ) → b.state ≡ half_open → o ≡ failure now → s ≡ open_circuit → Transition b o s

-- A closed circuit has counted fewer failures than open it.
pub record IsSound (c : Config) (b : Breaker) : Type 0 where
  pub same_config : b.config ≡ c
  pub below : b.state ≡ closed → b.failures < c.max_failures

pub State-cases : (s : State) → (s ≡ closed) ⊎ ((s ≡ open_circuit) ⊎ (s ≡ half_open))
State-cases closed = inl refl
State-cases open_circuit = inr (inl refl)
State-cases half_open = inr (inr refl)

-- Whatever goroutine runs it, an operation keeps the state or follows the diagram of the breaker:
-- closed to open by a failure that brings the count to `MaxFailures`, open to half-open on entry
-- after the timeout, half-open to closed by a success and to open by a failure.
pub apply-Transition : (o : Op) (b : Breaker) → Transition b o (apply o b).state
unfolding apply
apply-Transition (enter now) b =
    elim (Bool-cases (is_open b.state && ltb b.config.timeout (now - b.last_failure))) [
      | inl h ↦ probes now (ground arith) refl (ground arith) (ground arith)
      | inr h ↦ stays (ground arith)
    ]
apply-Transition (failure now) b = elim (State-cases b.state) [
  | inl c ↦ elim (Bool-cases (leb b.config.max_failures (u32 (b.failures + 1)))) [
    | inl h ↦ trips now c refl (ground arith) (ground arith)
    | inr h ↦ stays (ground arith)
  ]
  | inr (inl o) ↦ stays (ground arith)
  | inr (inr h) ↦ reopens now h refl (ground arith)
]
apply-Transition success b = elim (Bool-cases (is_half_open b.state)) [
  | inl h ↦ closes (ground arith) refl (ground arith)
  | inr h ↦ stays (ground arith)
]
apply-Transition acquire b = stays (ground arith)
apply-Transition release b = stays (ground arith)

apply-IsSound :
    (c : Config) (o : Op) (b : Breaker)
    → 0 < c.max_failures
    → c.max_failures < 2 ^ 32
    → IsSound c b
    → IsSound c (apply o b)
unfolding apply
apply-IsSound c (enter now) b p w h = ground (arith, h.below)
apply-IsSound c o b p w h = ground (arith, h.below)

run-IsSound_from :
    (c : Config) (os : List Op) (b : Breaker)
    → 0 < c.max_failures
    → c.max_failures < 2 ^ 32
    → IsSound c b
    → IsSound c (run os b)
unfolding run
run-IsSound_from c [] b p w h = h
run-IsSound_from c (o ∷ os) b p w h =
    run-IsSound_from c os (apply o b) p w (apply-IsSound c o b p w h)

-- From `New`, with a positive uint32 `MaxFailures`, every interleaving of the operations keeps
-- the configuration, and leaves a closed circuit with fewer than `MaxFailures` failures counted.
pub run-IsSound :
    (name : String) (c : Config) (os : List Op)
    → 0 < c.max_failures
    → c.max_failures < 2 ^ 32
    → IsSound c (run os (new name c))
unfolding new
run-IsSound name c os p w =
    run-IsSound_from c os (new name c) p w (record { same_config = refl; below = λ _. p })

-- failures in a row, each at its clock reading
abbrev pub failures_at : List ℕ → List Op
failures_at = map failure

open-failures :
    (times : List ℕ) (b : Breaker)
    → b.state ≡ open_circuit
    → (run (failures_at times) b).state ≡ open_circuit
unfolding run
open-failures [] b h = h
open-failures (t ∷ ts) b h = open-failures ts (apply (failure t) b) (stay t b h)
  where
    stay :
        (t : ℕ) (b : Breaker) → b.state ≡ open_circuit → (apply (failure t) b).state ≡ open_circuit
    stay t b h = unfold apply in ground arith

-- what one failure does to a closed circuit
closed-failure :
    (t : ℕ) (b : Breaker)
    → b.state ≡ closed
    → b.failures < b.config.max_failures
    → b.config.max_failures < 2 ^ 32
    → (apply (failure t) b).state
      ≡ (if ltb (b.failures + 1) b.config.max_failures then closed else open_circuit)
unfolding apply
closed-failure t b s h w = ground arith

counted-failure :
    (t : ℕ) (b : Breaker)
    → b.state ≡ closed
    → b.failures < b.config.max_failures
    → b.config.max_failures < 2 ^ 32
    → ((apply (failure t) b).failures ≡ b.failures + 1) × ((apply (failure t) b).config ≡ b.config)
unfolding apply
counted-failure t b s h w = ground arith

-- A closed circuit that has counted `failures` below a uint32 `MaxFailures` is still closed after
-- failures in a row that do not bring the count to `MaxFailures`, and open after any that do,
-- whatever the clock reads.
pub failures-trip :
    (times : List ℕ) (b : Breaker)
    → b.state ≡ closed
    → b.failures < b.config.max_failures
    → b.config.max_failures < 2 ^ 32
    → (run (failures_at times) b).state
      ≡ (if ltb (b.failures + length times) b.config.max_failures then closed else open_circuit)
unfolding run
failures-trip [] b s h w = ground arith
failures-trip (t ∷ ts) b s h w =
    let (f, c) = counted-failure t b s h w in
    elim (Bool-cases (ltb (b.failures + 1) b.config.max_failures)) [
      | inl more ↦
          let s' : (apply (failure t) b).state ≡ closed = closed-failure t b s h w ∙ rw more in
          let ih = failures-trip ts (apply (failure t) b) s' (ground arith) (ground arith) in
          ih ∙ ground arith
      | inr stop ↦
          let s' : (apply (failure t) b).state ≡ open_circuit =
            closed-failure t b s h w ∙ rw stop in
          open-failures ts (apply (failure t) b) s' ∙ ground arith
    ]

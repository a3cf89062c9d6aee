-- ===== src/Circuit/Retries.antt =====
-- The retry loop of `executeWithRetries` against a description of the attempts it meets.
use vault_drift.Common.{
  ℕ, zero, suc, ◌+◌, ◌≤◌, ◌<◌, ◌≡◌, refl, ◌↔◌, ◌⊎◌, inl, inr, Bool, true, false, String, Option,
  none, some, arith, ◌∙◌, ap, ◌-◌,
}
use native.Mathlib.Decide.{ℕ_discrete}
use vault_drift.Common.Int.{ℤ}
use vault_drift.Circuit.{
  Outcome, returned_ok, returned_error, timed_out, Env, Config, CallError, Error, Round, returns,
  retries, round, rounds, cancelled_before, retry_loop, execute_with_retries,
}

-- The outcomes after which the loop tries again.
abbrev pub is_retry : Outcome → Bool
is_retry (returned_error e) = true
is_retry timed_out = true
is_retry _ = false

-- Attempt `j` is made, and fails in a way that is retried.
abbrev pub IsRetried : Env → ℕ → Type 0
IsRetried env j = (cancelled_before j env ≡ none) × (is_retry (env.call j) ≡ true)

-- Attempt `k` is made and returns without an error, after attempts that were all retried.
pub record SucceedsAt (env : Env) (from : ℕ) (k : ℕ) : Type 0 where
  pub reached : from ≤ k
  pub made : cancelled_before k env ≡ none
  pub succeeded : env.call k ≡ returned_ok
  pub retried : (j : ℕ) → from ≤ j → j < k → IsRetried env j

Round-cases :
    (r : Round)
    → ((e : Option Error) × (n : ℕ) × (r ≡ returns e n)) ⊎ ((e : CallError) × (r ≡ retries e))
Round-cases (returns e n) = inl (e, n, refl)
Round-cases (retries e) = inr (e, refl)

round-retries :
    (c : Option String) (o : Outcome) {e : CallError}
    → round c o ≡ retries e
    → (c ≡ none) × (is_retry o ≡ true)
unfolding round
round-retries c o h = ground arith

round-ok :
    (c : Option String) (o : Outcome) {n : ℕ}
    → round c o ≡ returns none n
    → (c ≡ none) × (o ≡ returned_ok)
unfolding round
round-ok c o h = ground arith

round-made :
    (c : Option String) (o : Outcome) {e : Option Error} {n : ℕ} → round c o ≡ returns e n → n ≤ 1
unfolding round
round-made c o h = ground arith

-- The other way round.
retries-round :
    (c : Option String) (o : Outcome)
    → c ≡ none
    → is_retry o ≡ true
    → (e : CallError) × (round c o ≡ retries e)
unfolding round
retries-round (some x) o h r = absurd (cc)
retries-round none (returned_error x) h r = (CallError.fn_error x, refl)
retries-round none timed_out h r = (CallError.timeout_error, refl)
retries-round none _ h r = absurd (cc)

ok-round :
    (c : Option String) (o : Outcome) → c ≡ none → o ≡ returned_ok → round c o ≡ returns none 1
unfolding round
ok-round c o h r = ground arith

module _ (limit : ℤ) (env : Env) where
  loop-returns :
      (left a : ℕ) (last : Option CallError) (n : ℕ) {e : Option Error} {m : ℕ}
      → round (cancelled_before a env) (env.call a) ≡ returns e m
      → retry_loop (suc left) a limit last env n ≡ (e, n + m)
  unfolding retry_loop
  loop-returns left a last n p = rw (p, retry_loop)

  loop-retries :
      (left a : ℕ) (last : Option CallError) (n : ℕ) {e : CallError}
      → round (cancelled_before a env) (env.call a) ≡ retries e
      → retry_loop (suc left) a limit last env n
        ≡ retry_loop left (a + 1) limit (some e) env (n + 1)
  unfolding retry_loop
  loop-retries left a last n p = rw (p, retry_loop)

  later : (a k : ℕ) → IsRetried env a → SucceedsAt env (a + 1) k → SucceedsAt env a k
  later a k r s = record {
    reached = omega (arith, s.reached);
    made = s.made;
    succeeded = s.succeeded;
    retried = λ j h l. elim (le_cases j h) [ inl e ↦ rw (← e) r | inr g ↦ s.retried j g l ];
  }
    where
      le_cases : (j : ℕ) → a ≤ j → (a ≡ j) ⊎ (a + 1 ≤ j)
      le_cases j h = grind arith

  loop-calls :
      (left a : ℕ) (last : Option CallError) (n : ℕ)
      → (retry_loop left a limit last env n).1 ≤ n + left
  unfolding retry_loop
  loop-calls zero a last n = omega arith
  loop-calls (suc left) a last n =
      elim (Round-cases (round (cancelled_before a env) (env.call a))) [
        | inl (e, m, p) ↦ rw (loop-returns left a last n p) (omega (arith, round-made _ _ p))
        | inr (e, p) ↦
            rw (loop-retries left a last n p)
              (omega (arith, loop-calls left (a + 1) (some e) (n + 1)))
      ]

  loop-ok :
      (left a : ℕ) (last : Option CallError) (n : ℕ)
      → (retry_loop left a limit last env n).0 ≡ none
      → (k : ℕ) × (k < a + left) × SucceedsAt env a k
  unfolding retry_loop
  loop-ok zero a last n h = absurd (cc)
  loop-ok (suc left) a last n h = elim (Round-cases (round (cancelled_before a env) (env.call a))) [
    | inl (e, m, p) ↦
        let ok : e ≡ none = rw (loop-returns left a last n p) at h in
        let (c, o) = round-ok _ _ (rw ok at p) in
        (
          a,
          omega arith,
          record {
            reached = omega arith;
            made = c;
            succeeded = o;
            retried = λ j g l. absurd (omega arith);
          },
        )
    | inr (e, p) ↦
        let (k, l, s) =
          loop-ok left (a + 1) (some e) (n + 1) (rw (loop-retries left a last n p) at h) in
        (k, omega arith, later a k (round-retries _ _ p) s)
  ]

  ok-loop :
      (left a k : ℕ) (last : Option CallError) (n : ℕ)
      → k < a + left
      → SucceedsAt env a k
      → retry_loop left a limit last env n ≡ (none, n + (k + 1 - a))
  ok-loop zero a k last n l s = absurd (omega (arith, s.reached))
  ok-loop (suc left) a k last n l s = elim (ℕ_discrete a k) [
    | yes e ↦
        let p : round (cancelled_before a env) (env.call a) ≡ returns none 1 =
          ok-round _ _ (rw e s.made) (rw e s.succeeded) in
        loop-returns left a last n p ∙ ap (λ m. (none, n + m)) (omega arith)
    | no d ↦
        let r = s.retried a (omega arith) (omega (arith, s.reached)) in
        let (e, p) = retries-round _ _ r.0 r.1 in
        let s' : SucceedsAt env (a + 1) k = record {
          reached = omega (arith, s.reached);
          made = s.made;
          succeeded = s.succeeded;
          retried = λ j g l. s.retried j (omega arith) l;
        } in
        loop-retries left a last n p
        ∙ ok-loop left (a + 1) k (some e) (n + 1) (omega arith) s'
        ∙ ap (λ m. (none, m)) (omega (arith, s.reached))
  ]

-- `executeWithRetries` returns nil exactly when some attempt within its `MaxRetries + 1` rounds
-- succeeds after attempts that were all retried; and it never starts `fn` more often than there
-- are rounds.
pub retries-succeed_iff :
    (c : Config) (env : Env)
    → (((execute_with_retries c env).0 ≡ none)
        ↔ ((k : ℕ) × (k < rounds c.max_retries) × SucceedsAt env 0 k))
      × ((execute_with_retries c env).1 ≤ rounds c.max_retries)
unfolding execute_with_retries
retries-succeed_iff c env = (
  (
    λ h. let (k, l, s) = loop-ok c.max_retries env r 0 none 0 h in (k, omega arith, s),
    λ w. ap (λ p. p.0) (ok-loop c.max_retries env r 0 w.0 none 0 (omega (arith, w.1)) w.2),
  ),
  omega (arith, loop-calls c.max_retries env r 0 none 0),
)
  where
    r : ℕ
    r = rounds c.max_retries

-- If attempt `k`, counted from 0, is within the rounds and succeeds after attempts that were all
-- retried, `executeWithRetries` returns nil and has started `fn` `k + 1` times.
pub retries-count :
    (c : Config) (env : Env) (k : ℕ)
    → k < rounds c.max_retries
    → SucceedsAt env 0 k
    → execute_with_retries c env ≡ (none, k + 1)
unfolding execute_with_retries
retries-count c env k l s =
    ok-loop c.max_retries env (rounds c.max_retries) 0 k none 0 (omega arith) s
    ∙ ap (λ m. (none, m)) (omega arith)

-- ===== src/RateLimit.antt =====
-- The rate limiter of internal/server/middleware.go. A time is a number of nanoseconds, and `limit` is
-- not negative. A request reads the clock, and then takes the mutex until its end, so requests come one after the
-- other, but their times need not: a theorem that needs the order of the times says so.
pub mod Cleanup
pub mod Log
pub mod Window
use vault_drift.Common.{
  ℕ, zero, suc, ◌+◌, ◌-◌, Bool, true, false, not, Option, none, some, String, List, [], ◌∷◌, ◌++◌,
  ltb, leb, if◌then◌else◌,
}
use vault_drift.Common.Dict.{Dict, lookup, insert}

-- `RateLimitMiddleware`
pub record Limiter : Type 0 where
  pub requests : Dict (List ℕ)
  pub limit : ℕ
  pub window : ℕ
  pub last_clean : ℕ

-- `NewRateLimitMiddleware` at a time.
abbrev pub new_limiter : ℕ → ℕ → ℕ → Limiter
new_limiter limit window now = record {
  requests = [];
  limit = limit;
  window = window;
  last_clean = now;
}

-- `time.Minute`
abbrev pub minute : ℕ
minute = 60000000000

-- `t.After(cutoff)`, where the cutoff is the window before now.
abbrev pub after_cutoff : ℕ → ℕ → ℕ → Bool
after_cutoff window now t = ltb now (t + window)

-- The value of `rl.requests[clientID]`, which is nil for an absent client.
abbrev pub times_of : Option (List ℕ) → List ℕ
times_of none = []
times_of (some times) = times

-- The loop that counts the requests after the cutoff.
unfoldable pub count_after : ℕ → ℕ → List ℕ → ℕ
count_after window now [] = 0
count_after window now (t ∷ times) =
    let rest = count_after window now times in if after_cutoff window now t then suc rest else rest

-- The loop that sets `hasRecent`.
unfoldable pub has_recent : ℕ → ℕ → List ℕ → Bool
has_recent window now [] = false
has_recent window now (t ∷ times) =
    let rest = has_recent window now times in if after_cutoff window now t then true else rest

-- `cleanupOldClients`
unfoldable pub cleanup_old_clients : ℕ → ℕ → Dict (List ℕ) → Dict (List ℕ)
unfolding has_recent
cleanup_old_clients window now [] = []
cleanup_old_clients window now ((client, times) ∷ rest) =
    let others = cleanup_old_clients window now rest in
    if has_recent window now times then (client, times) ∷ others else others

-- The cleanup that a request may do first.
unfoldable pub clean : ℕ → Limiter → Limiter
unfolding cleanup_old_clients
clean now l =
    if ltb minute (now - l.last_clean)
    then record l { requests = cleanup_old_clients l.window now l.requests; last_clean = now }
    else l

-- The end of a request: whether it is passed on, and the limiter after it.
unfoldable pub admit : String → ℕ → Limiter → Bool × Limiter
unfolding count_after lookup insert
admit client now l =
    let times = times_of (lookup client l.requests) in
    if leb l.limit (count_after l.window now times)
    then (false, l)
    else (true, record l { requests = insert client (times ++ now ∷ []) l.requests })

-- The handler of `Limit`.
unfoldable pub limit_request : String → ℕ → Limiter → Bool × Limiter
unfolding clean admit
limit_request client now l = admit client now (clean now l)

-- ===== src/RateLimit/Window.antt =====
-- What the rate limiter of internal/server/middleware.go promises: a bound in every window, and no more refusals
-- than the bound needs.
use vault_drift.Common.{
  ℕ, suc, ◌+◌, ◌≤◌, ◌<◌, ◌≡◌, refl, ap, ◌∙◌, ◌&&◌, Bool, true, false, String, List, [], ◌∷◌, ◌++◌,
  ltb, leb, str_eq, eq_iff, arith, Bool-cases, inl, inr, if◌then◌else◌,
}
use vault_drift.Common.Dict.{lookup}
use vault_drift.RateLimit.{
  Limiter, new_limiter, after_cutoff, count_after, clean, admit, limit_request,
}
use vault_drift.RateLimit.Cleanup.{times_in, IsMap, count_after-later}
use vault_drift.RateLimit.Log.{
  Trace, Ordered, last_of, serve, note, passed, Agrees, clean-Agrees, admit-Agrees, passed-Agrees,
}

-- The number of the times in the window that ends at a time.
unfoldable pub within : ℕ → ℕ → List ℕ → ℕ
within window at [] = 0
within window at (t ∷ times) =
    let rest = within window at times in
    if leb t at && after_cutoff window at t then suc rest else rest

within-count_after :
    (window at : ℕ) (log : List ℕ) → within window at log ≤ count_after window at log
unfolding within count_after
within-count_after window at [] = omega arith
within-count_after window at (t ∷ times) = ground (arith, within-count_after window at times)

within-append :
    (window at now : ℕ) (log : List ℕ)
    → within window at (log ++ now ∷ []) ≤ within window at log + (if leb now at then 1 else 0)
unfolding within
within-append window at now [] = ground arith
within-append window at now (t ∷ log) = ground (arith, within-append window at now log)

-- A request that is passed on keeps the bound in all windows.
within-note :
    (window limit at now : ℕ) (log : List ℕ)
    → ((at : ℕ) → within window at log ≤ limit)
    → count_after window now log < limit
    → within window at (log ++ now ∷ []) ≤ limit
within-note window limit at now log bounded free =
    let more = within-append window at now log in
    let seen = within-count_after window at log in
    let held = bounded at in
    elim (Bool-cases (leb now at)) [
      | inl past ↦
          let fewer = count_after-later window now at log (ground (arith, past)) in
          ground (arith, more, seen, fewer, free, past)
      | inr future ↦ ground (arith, more, held, future)
    ]

module _ (client : String) (limit window : ℕ) where
  -- The answer of a request, given that what is kept agrees with the log.
  admit-decides :
      (now : ℕ) (l : Limiter) (log : List ℕ)
      → Agrees client limit window now l log
      → (admit client now l).0 ≡ ltb (count_after window now log) limit
  unfolding admit
  admit-decides now l log agrees =
      let kept = ap (λ w. count_after w now (times_in client l.requests)) agrees.1 in
      let counted = agrees.3 now (omega arith) in
      let capped = agrees.0 in ground (arith, kept, counted, capped)

  abbrev Bounded : List ℕ → Type 0
  Bounded log = (at : ℕ) → within window at log ≤ limit

  note-Bounded :
      (own : String) (now : ℕ) (ok : Bool) (log : List ℕ)
      → (str_eq own client ≡ true → ok ≡ ltb (count_after window now log) limit)
      → Bounded log
      → Bounded (note client own now ok log)
  note-Bounded own now false log answer bounded = bounded
  note-Bounded own now true log answer bounded = elim (Bool-cases (str_eq own client)) [
    | inl same ↦ rw same (λ at.
        let free = answer same in
        within-note window limit at now log bounded (ground (arith, free)))
    | inr differ ↦ rw differ bounded
  ]

  passed-Bounded :
      (last : ℕ) (trace : Trace) (l : Limiter) (log : List ℕ)
      → Ordered last trace
      → Agrees client limit window last l log
      → Bounded log
      → Bounded (passed client trace l log)
  unfolding passed limit_request
  passed-Bounded last [] l log ordered agrees bounded = bounded
  passed-Bounded last ((own, now) ∷ trace) l log ordered agrees bounded =
      let ready = clean-Agrees client limit window last now l log ordered.0 agrees in
      passed-Bounded now trace _ _ ordered.1
        (admit-Agrees client limit window own now (clean now l) log ready)
        (note-Bounded own now (admit own now (clean now l)).0 log
          (λ same.
            ap (λ key. (admit key now (clean now l)).0) ((eq_iff own client).0 same)
            ∙ admit-decides now (clean now l) log ready)
          bounded)

  fresh-Agrees :
      (started : ℕ) → Agrees client limit window started (new_limiter limit window started) []
  unfolding count_after IsMap lookup
  fresh-Agrees started = (refl, refl, tt, λ later after. refl)

-- Of any sequence of requests of any clients, served by a new limiter, in which the clock does not go back, those
-- of a client that are passed on number at most `limit` in every window, wherever it ends.
pub passed-within :
    (client : String) (limit window started at : ℕ) (trace : Trace)
    → Ordered started trace
    → within window at (passed client trace (new_limiter limit window started) []) ≤ limit
unfolding within
passed-within client limit window started at trace ordered =
    passed-Bounded client limit window started trace (new_limiter limit window started) [] ordered
      (fresh-Agrees client limit window started) (λ anywhere. omega arith) at

-- After any sequence of requests, served by a new limiter, in which the clock does not go back, a next request is
-- passed on exactly when fewer than `limit` requests of its client were passed on after the cutoff: neither
-- the requests of other clients, nor those refused, nor the cleanups count.
pub limit_request-decides :
    (client : String) (limit window started now : ℕ) (trace : Trace)
    → Ordered started trace
    → last_of started trace ≤ now
    → (limit_request client now (serve trace (new_limiter limit window started))).0
      ≡ ltb
          (count_after window now (passed client trace (new_limiter limit window started) []))
          limit
unfolding limit_request
limit_request-decides client limit window started now trace ordered past =
    let l = new_limiter limit window started in
    let served =
      passed-Agrees client limit window started trace l [] ordered
        (fresh-Agrees client limit window started) in
    admit-decides client limit window now (clean now (serve trace l)) (passed client trace l []) (
      clean-Agrees client limit window (last_of started trace) now (serve trace l)
        (passed client trace l []) past served)

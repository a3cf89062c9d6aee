-- ===== src/RateLimit/Log.antt =====
-- Sequences of requests to the rate limiter of internal/server/middleware.go, with a log of the
-- requests of a client that it passed on.
use vault_drift.Common.{
  ℕ, ◌+◌, ◌-◌, ◌≤◌, ◌≡◌, sym, ap, ◌∙◌, ◌&&◌, Bool, true, String, List, [], ◌∷◌, ◌++◌, ltb, leb,
  str_eq, eq_iff, arith, Bool-cases, inl, inr, if◌then◌else◌,
}
use vault_drift.Common.Dict.{Dict, insert, lookup-insert}
use vault_drift.RateLimit.{
  Limiter, minute, count_after, cleanup_old_clients, clean, admit, limit_request,
}
use vault_drift.RateLimit.Cleanup.{
  times_in, IsMap, insert-IsMap, cleanup_old_clients-IsMap, cleanup_old_clients-counts,
  count_after-append,
}

-- Requests in the order in which they take the mutex: the client, and the time that it reads.
abbrev pub Trace : Type 0
Trace = List (String × ℕ)

-- The clock does not go back.
abbrev pub Ordered : ℕ → Trace → Type 0
Ordered last [] = Unit
Ordered last ((client, now) ∷ trace) = (last ≤ now) × Ordered now trace

abbrev pub last_of : ℕ → Trace → ℕ
last_of last [] = last
last_of last ((client, now) ∷ trace) = last_of now trace

-- The limiter after the requests.
unfoldable pub serve : Trace → Limiter → Limiter
serve [] l = l
serve ((own, now) ∷ trace) l = serve trace (limit_request own now l).1

-- The log of a client after a request.
abbrev pub note : String → String → ℕ → Bool → List ℕ → List ℕ
note client own now ok log = if ok && str_eq own client then log ++ now ∷ [] else log

-- The times of the requests of a client that were passed on, after those logged before.
unfoldable pub passed : String → Trace → Limiter → List ℕ → List ℕ
passed client [] l log = log
passed client ((own, now) ∷ trace) l log =
    let done = limit_request own now l in
    passed client trace done.1 (note client own now done.0 log)

-- What the limiter keeps of a client counts, from a time on, as the log does.
abbrev pub Agrees : String → ℕ → ℕ → ℕ → Limiter → List ℕ → Type 0
Agrees client limit window last l log =
    (l.limit ≡ limit)
    × (l.window ≡ window)
    × IsMap l.requests
    × ((later : ℕ)
        → last ≤ later
        → count_after window later (times_in client l.requests) ≡ count_after window later log)

-- The map and the log grow together.
noted-counts :
    (client own : String) (window now later : ℕ) (m : Dict (List ℕ)) (log : List ℕ)
    → count_after window later (times_in client m) ≡ count_after window later log
    → count_after window later (times_in client (insert own (times_in own m ++ now ∷ []) m))
      ≡ count_after window later (note client own now true log)
noted-counts client own window now later m log agree =
    let stored = lookup-insert own client (times_in own m ++ now ∷ []) m in
    elim (Bool-cases (str_eq own client)) [
      | inl same ↦
          rw (stored, same)
            (ap (λ key. count_after window later (times_in key m ++ now ∷ []))
                ((eq_iff own client).0 same)
              ∙ count_after-append window later (times_in client m) (now ∷ [])
              ∙ ap (λ n. n + count_after window later (now ∷ [])) agree
              ∙ sym (count_after-append window later log (now ∷ [])))
      | inr differ ↦ rw (stored, differ) agree
    ]

module _ (client : String) (limit window : ℕ) where
  pub clean-Agrees :
      (last now : ℕ) (l : Limiter) (log : List ℕ)
      → last ≤ now
      → Agrees client limit window last l log
      → Agrees client limit window now (clean now l) log
  unfolding clean
  clean-Agrees last now l log past agrees = elim (Bool-cases (ltb minute (now - l.last_clean))) [
    | inl due ↦ rw due (
      agrees.0,
      agrees.1,
      cleanup_old_clients-IsMap l.window now l.requests agrees.2,
      λ later after.
          ap
            (λ w.
              count_after w later (times_in client (cleanup_old_clients l.window now l.requests)))
            (sym agrees.1)
          ∙ cleanup_old_clients-counts l.window now later client l.requests after agrees.2
          ∙ ap (λ w. count_after w later (times_in client l.requests)) agrees.1
          ∙ agrees.3 later (omega (arith, past, after)),
    )
    | inr early ↦
        rw early
          (agrees.0, agrees.1, agrees.2, λ later after. agrees.3 later (omega (arith, past, after)))
  ]

  pub admit-Agrees :
      (own : String) (now : ℕ) (l : Limiter) (log : List ℕ)
      → Agrees client limit window now l log
      → Agrees client limit window now
          (admit own now l).1
          (note client own now (admit own now l).0 log)
  unfolding admit
  admit-Agrees own now l log agrees =
      elim (Bool-cases (leb l.limit (count_after l.window now (times_in own l.requests)))) [
        | inl full ↦ rw full agrees
        | inr free ↦ rw free (
          agrees.0,
          agrees.1,
          insert-IsMap own (times_in own l.requests ++ now ∷ []) l.requests agrees.2,
          λ later after.
              noted-counts client own window now later l.requests log (agrees.3 later after),
        )
      ]

  pub passed-Agrees :
      (last : ℕ) (trace : Trace) (l : Limiter) (log : List ℕ)
      → Ordered last trace
      → Agrees client limit window last l log
      → Agrees client limit window (last_of last trace) (serve trace l) (passed client trace l log)
  unfolding serve passed limit_request
  passed-Agrees last [] l log ordered agrees = agrees
  passed-Agrees last ((own, now) ∷ trace) l log ordered agrees =
      passed-Agrees now trace _ _ ordered.1
        (admit-Agrees own now (clean now l) log (clean-Agrees last now l log ordered.0 agrees))

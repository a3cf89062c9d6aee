-- ===== src/Tests/RateLimit.antt =====
-- Runs of the rate limiter.
use vault_drift.Common.{◌≡◌, ◌≤◌, refl, [], ◌∷◌, ltb, arith}
use vault_drift.RateLimit.{Limiter, new_limiter, count_after, limit_request}
use vault_drift.RateLimit.Log.{Trace, Ordered, serve, passed}
use vault_drift.RateLimit.Window.{within, passed-within, limit_request-decides}

-- Two clients, with a limit of two requests in ten nanoseconds.
abbrev arrivals : Trace
arrivals =
    ("ann", 3) ∷ ("bob", 4) ∷ ("ann", 5) ∷ ("ann", 6) ∷ ("ann", 14) ∷ ("ann", 90000000000) ∷ []

abbrev fresh : Limiter
fresh = new_limiter 2 10 0

log_of_ann : passed "ann" arrivals fresh [] ≡ 3 ∷ 5 ∷ 14 ∷ 90000000000 ∷ []
unfolding passed limit_request
log_of_ann = refl

arrivals-Ordered : Ordered 0 arrivals
arrivals-Ordered =
    (omega arith, (omega arith, (omega arith, (omega arith, (omega arith, (omega arith, tt))))))

passed-within_example : within 10 7 (passed "ann" arrivals fresh []) ≤ 2
passed-within_example = passed-within "ann" 2 10 0 7 arrivals arrivals-Ordered

limit_request-decides_example :
    (limit_request "ann" 90000000001 (serve arrivals fresh)).0
    ≡ ltb (count_after 10 90000000001 (passed "ann" arrivals fresh [])) 2
limit_request-decides_example =
    limit_request-decides "ann" 2 10 0 90000000001 arrivals arrivals-Ordered (omega arith)

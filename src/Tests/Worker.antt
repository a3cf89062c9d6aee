-- ===== src/Tests/Worker.antt =====
-- Runs of the job queue and of the pool.
use vault_drift.Common.{
  ◌≤◌, ◌≡◌, refl, none, true, some, String, List, [], ◌∷◌, ◌++◌, map, arith, length,
}
use vault_drift.Common.Int.{ℤ, pos}
use mathlib.Core.List.{Perm}
use vault_drift.Worker.Queue.{Job, greater, pop}
use vault_drift.Worker.Queue.Order.{arrive, of_priority, pop-arrive}
use vault_drift.Worker.Pool.{Pool, HandlerResult, output, error, work_all}
use vault_drift.Worker.Pool.Retry.{budget, job_ids, work_all-drains}

abbrev job : String → ℤ → Job
job id priority = record {
  id = id;
  job_type = "thumbnail";
  payload = "";
  priority = priority;
  retries = 0;
  max_retries = 1;
}

abbrev queued : List Job
queued = job "a" (pos 5) ∷ job "b" (pos 1) ∷ []

-- The last of three jobs has the priority of the first one, and waits behind it.
abbrev later : List Job
later = job "b" (pos 5) ∷ job "c" (pos 5) ∷ []

order :
    arrive (job "a" (pos 1) ∷ later) [] ≡ job "b" (pos 5) ∷ job "c" (pos 5) ∷ job "a" (pos 1) ∷ []
unfolding arrive
order = refl

pop-arrive_example :
    (next : Job) × (rest : List Job) × (pop (arrive (job "a" (pos 1) ∷ later) [])
      ≡ some (next, rest))
    × (of_priority next.priority (job "a" (pos 1) ∷ later) ≡ next ∷ of_priority next.priority rest)
    × ((p : ℤ) → greater p next.priority ≡ true → of_priority p (job "a" (pos 1) ∷ later) ≡ [])
    × ((p : ℤ) → of_priority p (next ∷ rest) ≡ of_priority p (job "a" (pos 1) ∷ later))
pop-arrive_example = pop-arrive (job "a" (pos 1)) later

abbrev pool : Pool
pool = record { queue = queued; handlers = ("thumbnail", tt) ∷ []; results = [] }

abbrev answers : List HandlerResult
answers = error "busy" none ∷ output "" ∷ error "busy" none ∷ error "busy" none ∷ []

work_all-drains_example :
    ((work_all answers pool).queue ≡ [])
    × Perm
        (map (λ r. r.job_id) (work_all answers pool).results)
        (job_ids queued ++ map (λ r. r.job_id) pool.results)
work_all-drains_example = work_all-drains answers pool enough
  where
    enough : budget queued ≤ length answers
    enough = omega arith

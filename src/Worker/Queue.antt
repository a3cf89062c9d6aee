-- ===== src/Worker/Queue.antt =====
-- `MemoryQueue` of internal/worker/pool.go. Each method holds the mutex for its whole body; a
-- payload and a handler's output are texts.
pub mod Order
use vault_drift.Common.{
  ℕ, ◌+◌, ◌≤◌, ◌<◌, Bool, true, false, String, Option, none, some, List, [], ◌∷◌, ltb, leb,
  if◌then◌else◌, length,
}
use vault_drift.Common.Int.{ℤ, pos, negsuc}

-- `Job`; `Priority` is a Go `int`.
pub record Job : Type 0 where
  pub id : String
  pub job_type : String
  pub payload : String
  pub priority : ℤ
  pub retries : ℕ
  pub max_retries : ℕ

-- `a > b` on ints.
abbrev pub greater : ℤ → ℤ → Bool
greater (pos a) (pos b) = ltb b a
greater (pos a) (negsuc b) = true
greater (negsuc a) (pos b) = false
greater (negsuc a) (negsuc b) = ltb a b

-- `Push`: the job goes before the first job of lower priority, or to the end.
unfoldable pub push : Job → List Job → List Job
push job [] = job ∷ []
push job (j ∷ jobs) = if greater job.priority j.priority then job ∷ j ∷ jobs else j ∷ push job jobs

-- `Pop`, once the queue holds a job; `none` is the state in which `Pop` waits.
unfoldable pub pop : List Job → Option (Job × List Job)
pop [] = none
pop (j ∷ jobs) = some (j, jobs)

-- `Len`
unfoldable pub queue_length : List Job → ℕ
queue_length jobs = length jobs

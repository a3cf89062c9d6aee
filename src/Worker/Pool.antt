-- ===== src/Worker/Pool.antt =====
-- `WorkerPool` of internal/worker/pool.go: `Submit`, the registration of handlers, and what a
-- worker does with one job. A handler's result is an input of the step that runs it. The waits
-- between retries, the timeout of a job and the number of workers leave no trace in the state.
pub mod Retry
use vault_drift.Common.{
  ℕ, ◌+◌, Bool, true, false, String, Option, none, some, List, [], ◌∷◌, ◌++◌, not, ◌&&◌, ltb, ◌==◌,
  if◌then◌else◌,
}
use vault_drift.Common.Dict.{Dict, lookup, insert}
use vault_drift.Worker.Queue.{Job, push, pop}

-- What a handler returns: its output, or an error with the output next to it, which may be nil.
pub data HandlerResult : Type 0 where
  output : String → HandlerResult
  error : String → Option String → HandlerResult

-- `Result`: an error is the handler's or that of a job with no handler.
pub data Failure : Type 0 where
  no_handler : String → Failure
  failed : String → Failure

pub record JobResult : Type 0 where
  pub job_id : String
  pub success : Bool
  pub failure : Option Failure
  pub output : Option String

-- The queue, the names of the job types with a handler, and the results sent so far.
pub record Pool : Type 0 where
  pub queue : List Job
  pub handlers : Dict (Unit {0})
  pub results : List JobResult

-- `RegisterHandler`
unfoldable pub register_handler : String → Pool → Pool
register_handler job_type p = record p { handlers = insert job_type tt p.handlers }

-- `Submit`: a limit of 0 retries is read as 3.
unfoldable pub submit : Job → Pool → Pool
submit job p =
    let limited = if job.max_retries == 0 then record job { max_retries = 3 } else job in
    record p { queue = push limited p.queue }

abbrev pub succeeded : HandlerResult → Bool
succeeded (output o) = true
succeeded (error e o) = false

abbrev pub failure_of : HandlerResult → Option Failure
failure_of (output o) = none
failure_of (error e o) = some (failed e)

abbrev pub output_of : HandlerResult → Option String
output_of (output o) = some o
output_of (error e o) = o

abbrev pub send : JobResult → Pool → Pool
send r p = record p { results = p.results ++ r ∷ [] }

-- `processJob` for a job with a handler, whose call gives `r`.
unfoldable pub handle_job : Job → HandlerResult → Pool → Pool
handle_job job r p =
    if not (succeeded r) && ltb job.retries job.max_retries
    then record p { queue = push (record job { retries = job.retries + 1 }) p.queue }
    else send
        (record {
          job_id = job.id;
          success = succeeded r;
          failure = failure_of r;
          output = output_of r;
        })
        p

-- `processJob`
unfoldable pub process_job : Job → HandlerResult → Pool → Pool
unfolding handle_job
process_job job r p = elim (lookup job.job_type p.handlers) [
  | none ↦
      send
        (record {
          job_id = job.id;
          success = false;
          failure = some (no_handler job.job_type);
          output = none;
        })
        p
  | some h ↦ handle_job job r p
]

-- One round of `worker` with the result of the handler. While the queue is empty `Pop` waits.
unfoldable pub work : HandlerResult → Pool → Pool
unfolding process_job
work r p = elim (pop p.queue) [
  | none ↦ p
  | some (job, rest) ↦ process_job job r (record p { queue = rest })
]

-- The loop of `worker`, with a sequence of handler results: the rounds of all workers one after the other,
-- whichever of them runs each.
unfoldable pub work_all : List HandlerResult → Pool → Pool
unfolding work
work_all [] p = p
work_all (r ∷ rs) p = work_all rs (work r p)

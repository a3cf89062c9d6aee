-- ===== src/Worker/Pool/Retry.antt =====
-- Every job that the queue holds ends in one result, after at most `MaxRetries + 1` tries.
use mathlib.Core.List.{Perm, perm_append_comm, append_assoc, map-append}
use mathlib.Core.Path.{subst}
use mathlib.Core.List.Perm
use vault_drift.Common.{
  ℕ, ◌+◌, ◌-◌, ◌≤◌, ◌<◌, ◌≡◌, refl, ap, sym, not, ◌&&◌, true, false, String, none, some, List, [],
  ◌∷◌, ◌++◌, map, arith, ltb, length, Bool-cases, Option-cases, inl, inr, ◌⊎◌,
}
use vault_drift.Common.Dict.{lookup}
use vault_drift.Worker.Queue.{Job, greater, push, pop}
use vault_drift.Worker.Pool.{
  HandlerResult, succeeded, failure_of, output_of, no_handler, JobResult, Pool, handle_job,
  process_job, work, work_all, send,
}

-- How often a job may still be tried.
abbrev pub tries : Job → ℕ
tries j = j.max_retries - j.retries + 1

abbrev pub budget : List Job → ℕ
budget [] = 0
budget (j ∷ jobs) = tries j + budget jobs

-- The jobs that the pool answers for: those in the queue and those with a result.
abbrev pub job_ids : List Job → List String
job_ids = map (λ j. j.id)

abbrev pub known : Pool → List String
known p = job_ids p.queue ++ map (λ r. r.job_id) p.results

budget-push : (job : Job) (jobs : List Job) → budget (push job jobs) ≡ tries job + budget jobs
unfolding push
budget-push job [] = refl
budget-push job (j ∷ jobs) = elim (Bool-cases (greater job.priority j.priority)) [
  | inl g ↦ rw g
  | inr g ↦ rw g (omega (arith, budget-push job jobs))
]

job_ids-push :
    (job : Job) (jobs : List Job) → Perm (job_ids (push job jobs)) (job.id ∷ job_ids jobs)
unfolding push
job_ids-push job [] = Perm.refl (job.id ∷ [])
job_ids-push job (j ∷ jobs) = elim (Bool-cases (greater job.priority j.priority)) [
  | inl g ↦ rw g (Perm.refl (job.id ∷ j.id ∷ job_ids jobs))
  | inr g ↦
      rw g
        (Perm.trans (Perm.cons j.id (job_ids-push job jobs)) (Perm.swap job.id j.id (job_ids jobs)))
]

handle_job-budget :
    (job : Job) (r : HandlerResult) (p : Pool)
    → budget (handle_job job r p).queue < tries job + budget p.queue
unfolding handle_job
handle_job-budget job r p =
    elim (Bool-cases (not (succeeded r) && ltb job.retries job.max_retries)) [
      | inl again ↦ rw again (
          omega
            (arith, again_lt again, budget-push (record job { retries = job.retries + 1 }) p.queue))
      | inr done ↦ rw done (omega arith)
    ]
  where
    again_lt :
        (not (succeeded r) && ltb job.retries job.max_retries) ≡ true
        → job.retries < job.max_retries
    again_lt h = ground arith

perm_snoc : {A : Type 0} (xs ys : List A) (a : A) → Perm (xs ++ (ys ++ a ∷ [])) (a ∷ xs ++ ys)
perm_snoc xs ys a = rw (sym (append_assoc xs ys (a ∷ []))) (perm_append_comm (xs ++ ys) (a ∷ []))

send-known : (r : JobResult) (p : Pool) → Perm (known (send r p)) (r.job_id ∷ known p)
send-known r p =
    rw (map-append (λ (k : JobResult). k.job_id) p.results (r ∷ []))
      (perm_snoc (job_ids p.queue) (map (λ r. r.job_id) p.results) r.job_id)

handle_job-known :
    (job : Job) (r : HandlerResult) (p : Pool)
    → Perm (known (handle_job job r p)) (job.id ∷ known p)
unfolding handle_job
handle_job-known job r p =
    elim (Bool-cases (not (succeeded r) && ltb job.retries job.max_retries)) [
      | inl again ↦
          rw again
            (Perm.append_right _ (job_ids-push (record job { retries = job.retries + 1 }) p.queue))
      | inr done ↦ rw done (
          send-known
            (record {
              job_id = job.id;
              success = succeeded r;
              failure = failure_of r;
              output = output_of r;
            })
            p)
    ]

process_job-absent :
    (job : Job) (r : HandlerResult) (p : Pool)
    → lookup job.job_type p.handlers ≡ none
    → process_job job r p
      ≡ send
          (record {
            job_id = job.id;
            success = false;
            failure = some (no_handler job.job_type);
            output = none;
          })
          p
unfolding process_job
process_job-absent job r p absent = rw (absent, process_job)

process_job-found :
    (job : Job) (r : HandlerResult) (p : Pool) {h : Unit {0}}
    → lookup job.job_type p.handlers ≡ some h
    → process_job job r p ≡ handle_job job r p
unfolding process_job
process_job-found job r p found = rw (found, process_job)

process_job-budget :
    (job : Job) (r : HandlerResult) (p : Pool)
    → budget (process_job job r p).queue < tries job + budget p.queue
process_job-budget job r p = elim (Option-cases (lookup job.job_type p.handlers)) [
  | inl absent ↦ rw (process_job-absent job r p absent) (omega arith)
  | inr (h, found) ↦ rw (process_job-found job r p found) (handle_job-budget job r p)
]

process_job-known :
    (job : Job) (r : HandlerResult) (p : Pool)
    → Perm (known (process_job job r p)) (job.id ∷ known p)
process_job-known job r p = elim (Option-cases (lookup job.job_type p.handlers)) [
  | inl absent ↦ rw (process_job-absent job r p absent) (send-known _ p)
  | inr (h, found) ↦ rw (process_job-found job r p found) (handle_job-known job r p)
]

Queue-cases : (q : List Job) → (q ≡ []) ⊎ ((job : Job) × (rest : List Job) × (q ≡ job ∷ rest))
Queue-cases [] = inl refl
Queue-cases (j ∷ js) = inr (j, js, refl)

work-empty : (r : HandlerResult) (p : Pool) → p.queue ≡ [] → work r p ≡ p
unfolding work pop
work-empty r p e = rw (ap pop e, work)

work-next :
    (r : HandlerResult) (p : Pool) {job : Job} {rest : List Job}
    → p.queue ≡ job ∷ rest
    → work r p ≡ process_job job r (record p { queue = rest })
unfolding work pop
work-next r p e = rw (ap pop e, work)

work-known : (r : HandlerResult) (p : Pool) → Perm (known (work r p)) (known p)
work-known r p = elim (Queue-cases p.queue) [
  | inl e ↦ rw (work-empty r p e) (Perm.refl _)
  | inr (job, rest, e) ↦
      rw (work-next r p e) (rw e (process_job-known job r (record p { queue = rest })))
]

work-budget : (r : HandlerResult) (p : Pool) → budget (work r p).queue ≤ budget p.queue - 1
work-budget r p = elim (Queue-cases p.queue) [
  | inl e ↦ rw (work-empty r p e) (rw e (omega arith))
  | inr (job, rest, e) ↦
      rw (work-next r p e)
        (rw e (omega (arith, process_job-budget job r (record p { queue = rest }))))
]

work_all-known : (rs : List HandlerResult) (p : Pool) → Perm (known (work_all rs p)) (known p)
unfolding work_all
work_all-known [] p = Perm.refl _
work_all-known (r ∷ rs) p = Perm.trans (work_all-known rs (work r p)) (work-known r p)

work_all-budget :
    (rs : List HandlerResult) (p : Pool) → budget (work_all rs p).queue ≤ budget p.queue - length rs
unfolding work_all
work_all-budget [] p = omega arith
work_all-budget (r ∷ rs) p = omega (arith, work-budget r p, work_all-budget rs (work r p))

budget-zero : (jobs : List Job) → budget jobs ≡ 0 → jobs ≡ []
budget-zero [] h = refl
budget-zero (j ∷ jobs) h = absurd (omega arith)

-- Whatever the handlers answer, after as many rounds of the workers as the queued jobs have tries
-- left the queue is empty, and the results are, by job id and up to order, one for each job that
-- was queued besides those sent before.
pub work_all-drains :
    (rs : List HandlerResult) (p : Pool)
    → budget p.queue ≤ length rs
    → ((work_all rs p).queue ≡ [])
      × Perm
          (map (λ r. r.job_id) (work_all rs p).results)
          (job_ids p.queue ++ map (λ r. r.job_id) p.results)
work_all-drains rs p h =
    let empty = budget-zero (work_all rs p).queue (omega (arith, work_all-budget rs p)) in
    (
      empty,
      subst (λ q. Perm (job_ids q ++ map (λ r. r.job_id) (work_all rs p).results) (known p)) empty
          (work_all-known rs p),
    )

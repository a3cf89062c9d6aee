-- ===== src/Worker/Queue/Order.antt =====
-- The queue serves the highest priority first, and jobs of one priority in their order of arrival.
use mathlib.Core.List.{append-nil, append_assoc}
use vault_drift.Common.{
  ◌≡◌, ◌∙◌, refl, ap, sym, Bool, true, false, some, List, [], ◌∷◌, ◌++◌, arith, if◌then◌else◌, All,
  Bool-cases, inl, inr, not, ◌&&◌,
}
use vault_drift.Common.Int.{ℤ}
use vault_drift.Worker.Queue.{Job, greater, push, pop}

-- No job stands behind one of lower priority.
abbrev pub IsSorted : List Job → Type 0
IsSorted [] = Unit
IsSorted (j ∷ jobs) = All (λ k. greater k.priority j.priority ≡ false) jobs × IsSorted jobs

greater_trans : (a b c : ℤ) → greater b a ≡ false → greater c b ≡ false → greater c a ≡ false
greater_trans a b c h k = ground arith

greater_asymm : (a b : ℤ) → greater a b ≡ true → greater b a ≡ false
greater_asymm a b h = ground arith

-- nothing in front of a job is of lower priority than what the queue holds behind it
All-weaken :
    (a b : ℤ) (jobs : List Job)
    → greater b a ≡ false
    → All (λ k. greater k.priority b ≡ false) jobs
    → All (λ k. greater k.priority a ≡ false) jobs
All-weaken a b [] h all = tt
All-weaken a b (k ∷ jobs) h all =
    (greater_trans a b k.priority h all.0, All-weaken a b jobs h all.1)

All-push :
    (a : ℤ) (job : Job) (jobs : List Job)
    → greater job.priority a ≡ false
    → All (λ k. greater k.priority a ≡ false) jobs
    → All (λ k. greater k.priority a ≡ false) (push job jobs)
unfolding push
All-push a job [] h all = (h, tt)
All-push a job (k ∷ jobs) h all = elim (Bool-cases (greater job.priority k.priority)) [
  | inl g ↦ rw g (h, all)
  | inr g ↦ rw g (all.0, All-push a job jobs h all.1)
]

push-IsSorted : (job : Job) (jobs : List Job) → IsSorted jobs → IsSorted (push job jobs)
unfolding push
push-IsSorted job [] h = (tt, tt)
push-IsSorted job (k ∷ jobs) h = elim (Bool-cases (greater job.priority k.priority)) [
  | inl g ↦
      let less = greater_asymm job.priority k.priority g in
      rw g ((less, All-weaken job.priority k.priority jobs less h.0), h)
  | inr g ↦ rw g (All-push k.priority job jobs g h.0, push-IsSorted job jobs h.1)
]

greater_irrefl : (a : ℤ) → greater a a ≡ false
greater_irrefl a = ground arith

abbrev pub same_priority : ℤ → ℤ → Bool
same_priority a b = not (greater a b) && not (greater b a)

-- The jobs of one priority, in the order of the queue.
abbrev pub of_priority : ℤ → List Job → List Job
of_priority p [] = []
of_priority p (j ∷ jobs) =
    let rest = of_priority p jobs in if same_priority j.priority p then j ∷ rest else rest

-- behind a job of lower priority there is no job of priority `p`
of_priority-lower :
    (p a : ℤ) (jobs : List Job)
    → greater p a ≡ true
    → All (λ k. greater k.priority a ≡ false) jobs
    → of_priority p jobs ≡ []
of_priority-lower p a [] h all = refl
of_priority-lower p a (k ∷ jobs) h all =
    ground (arith, of_priority-lower p a jobs, greater_trans p k.priority a)

greater-same : (a b p : ℤ) → same_priority a p ≡ true → greater a b ≡ true → greater p b ≡ true
greater-same a b p e g = ground arith

of_priority-push :
    (p : ℤ) (job : Job) (jobs : List Job)
    → IsSorted jobs
    → of_priority p (push job jobs)
      ≡ of_priority p jobs ++ (if same_priority job.priority p then job ∷ [] else [])
unfolding push
of_priority-push p job [] h = refl
of_priority-push p job (k ∷ jobs) h = elim (Bool-cases (greater job.priority k.priority)) [
  | inl g ↦ rw g (elim (Bool-cases (same_priority job.priority p)) [
    | inl e ↦
        let behind : of_priority p (k ∷ jobs) ≡ [] =
          of_priority-lower p k.priority (k ∷ jobs) (greater-same job.priority k.priority p e g)
            (greater_irrefl k.priority, h.0) in
        rw e (rw behind)
    | inr e ↦ rw e (sym (append-nil (of_priority p (k ∷ jobs))))
  ])
  | inr g ↦ rw g (elim (Bool-cases (same_priority k.priority p)) [
    | inl e ↦ rw e (ap (λ l. k ∷ l) (of_priority-push p job jobs h.1))
    | inr e ↦ rw e (of_priority-push p job jobs h.1)
  ])
]

-- The queue after jobs that arrive one after the other.
unfoldable pub arrive : List Job → List Job → List Job
unfolding push
arrive [] queue = queue
arrive (job ∷ jobs) queue = arrive jobs (push job queue)

arrive-IsSorted : (jobs queue : List Job) → IsSorted queue → IsSorted (arrive jobs queue)
unfolding arrive
arrive-IsSorted [] queue h = h
arrive-IsSorted (job ∷ jobs) queue h =
    arrive-IsSorted jobs (push job queue) (push-IsSorted job queue h)

one_first :
    (p : ℤ) (job : Job) (front jobs : List Job)
    → (front ++ (if same_priority job.priority p then job ∷ [] else [])) ++ of_priority p jobs
      ≡ front ++ of_priority p (job ∷ jobs)
one_first p job front jobs = elim (Bool-cases (same_priority job.priority p)) [
  | inl e ↦ rw e (append_assoc front (job ∷ []) (of_priority p jobs))
  | inr e ↦ rw (e, append-nil front) refl
]

-- The queue has the jobs of each priority in their order of arrival.
arrive-of_priority :
    (p : ℤ) (jobs queue : List Job)
    → IsSorted queue
    → of_priority p (arrive jobs queue) ≡ of_priority p queue ++ of_priority p jobs
unfolding arrive
arrive-of_priority p [] queue h = sym (append-nil (of_priority p queue))
arrive-of_priority p (job ∷ jobs) queue h =
    arrive-of_priority p jobs (push job queue) (push-IsSorted job queue h)
    ∙ ap (λ front. front ++ of_priority p jobs) (of_priority-push p job queue h)
    ∙ one_first p job (of_priority p queue) jobs

-- What is at the front of an ordered queue.
front-ordered :
    (job : Job) (rest : List Job)
    → IsSorted (job ∷ rest)
    → (of_priority job.priority (job ∷ rest) ≡ job ∷ of_priority job.priority rest)
      × ((p : ℤ) → greater p job.priority ≡ true → of_priority p (job ∷ rest) ≡ [])
front-ordered job rest h = (
  rw (greater_irrefl job.priority) refl,
  λ p above. of_priority-lower p job.priority (job ∷ rest) above (greater_irrefl job.priority, h.0),
)

lost : (first : Job) (jobs : List Job) → [] ≡ of_priority first.priority (first ∷ jobs) → ⊥
lost first jobs e =
    let own : of_priority first.priority (first ∷ jobs) ≡ first ∷ of_priority first.priority jobs =
      rw (greater_irrefl first.priority) refl in
    absurd (cc (e, own))

-- When jobs have arrived in an empty queue, one after the other and one at least, `Pop` returns a job, and
-- it is the first of its priority that arrived; no job of a higher priority arrived; and of every priority
-- the queue had the jobs, and no others, in their order of arrival.
pub pop-arrive :
    (first : Job) (jobs : List Job)
    → (job : Job) × (rest : List Job) × (pop (arrive (first ∷ jobs) []) ≡ some (job, rest))
      × (of_priority job.priority (first ∷ jobs) ≡ job ∷ of_priority job.priority rest)
      × ((p : ℤ) → greater p job.priority ≡ true → of_priority p (first ∷ jobs) ≡ [])
      × ((p : ℤ) → of_priority p (job ∷ rest) ≡ of_priority p (first ∷ jobs))
pop-arrive first jobs =
    served (arrive (first ∷ jobs) []) (arrive-IsSorted (first ∷ jobs) [] tt)
      (λ p. arrive-of_priority p (first ∷ jobs) [] tt)
  where
    served :
        (queue : List Job)
        → IsSorted queue
        → ((p : ℤ) → of_priority p queue ≡ of_priority p (first ∷ jobs))
        → (job : Job) × (rest : List Job) × (pop queue ≡ some (job, rest))
          × (of_priority job.priority (first ∷ jobs) ≡ job ∷ of_priority job.priority rest)
          × ((p : ℤ) → greater p job.priority ≡ true → of_priority p (first ∷ jobs) ≡ [])
          × ((p : ℤ) → of_priority p (job ∷ rest) ≡ of_priority p (first ∷ jobs))
    served [] sorted same = absurd (lost first jobs (same first.priority))
    served (job ∷ rest) sorted same =
        let (own, above) = front-ordered job rest sorted in
        (
          job,
          rest,
          unfold pop in refl,
          sym (same job.priority) ∙ own,
          λ p higher. sym (same p) ∙ above p higher,
          same,
        )

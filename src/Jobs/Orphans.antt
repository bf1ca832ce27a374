-- ===== src/Jobs/Orphans.antt =====
-- worker/ipc_listener.py and worker/__main__.py: the jobs that nothing finishes.
use pfsense_backups.Prelude.{
  ℕ, ◌≡◌, refl, ◌⊎◌, inl, inr, false, none, some, List, [], ◌∷◌, Bool-cases,
}
use pfsense_backups.Store.{Text}
use pfsense_backups.Replication.{codes}
use pfsense_backups.Jobs.{
  JobStatus, queued, running, success, failure, cancelled, Job, catch, attempt, is_pending,
  find_job, fail_pending, fail_orphaned, fail_orphaned_job, mark_stale_jobs,
}
use pfsense_backups.Jobs.Rules.{Triple, OfJobs, OfJob, IsKnown, update_job-OfJob}

-- A job that neither waits nor runs.
abbrev pub IsOver : Job → Type 0
IsOver j = is_pending j.status ≡ false

abbrev pub IsSettled : ℕ → List Job → Type 0
IsSettled jid jobs = OfJob IsOver (find_job jid jobs)

fail_pending-IsOver : (now : ℕ) (message : Text) (j : Job) → IsOver (fail_pending now message j)
fail_pending-IsOver now message j = elim (Bool-cases (is_pending j.status)) [
  | inl e ↦ rw e refl
  | inr e ↦ rw e e
]

fail_pending-id : (now : ℕ) (message : Text) (j : Job) → (fail_pending now message j).id ≡ j.id
fail_pending-id now message j = elim (Bool-cases (is_pending j.status)) [
  | inl e ↦ rw e refl
  | inr e ↦ rw e refl
]

-- If the write itself does not fail, the job of the payload is over.
pub fail_orphaned_job_rule :
    (now jid : ℕ) (message : Text)
    → Triple
        (OfJobs (IsKnown jid))
        (fail_orphaned_job none now (some jid) message)
        (λ u. OfJobs (IsSettled jid))
        (λ w. ⊥)
unfolding fail_orphaned_job fail_orphaned catch attempt
fail_orphaned_job_rule now jid message = record {
  run = λ w p.
      update_job-OfJob (λ j. Unit) IsOver jid (fail_pending now message) w.jobs
        (fail_pending-id now message) (λ j h. fail_pending-IsOver now message j) p;
}

-- A job that was queued or running has failed, with the time and the reason.
pub record IsFailedBy (now : ℕ) (why : Text) (j j' : Job) : Type 0 where
  pub was_pending : (j.status ≡ queued) ⊎ (j.status ≡ running)
  pub same_id : j'.id ≡ j.id
  pub has_failed : j'.status ≡ failure
  pub ended : j'.finished_at ≡ some now
  pub reason : j'.message ≡ some why
  pub same_start : j'.started_at ≡ j.started_at

-- What a boot does to a job: one that was queued or running has failed, and one that has ended is
-- untouched.
abbrev pub IsSwept : ℕ → Job → Job → Type 0
IsSwept now j j' =
    IsFailedBy now (codes "worker restarted during execution") j j'
    ⊎ (((j.status ≡ success) ⊎ ((j.status ≡ failure) ⊎ (j.status ≡ cancelled))) × (j' ≡ j))

abbrev pub Pairwise : (Job → Job → Type 0) → List Job → List Job → Type 0
Pairwise R [] [] = Unit
Pairwise R (j ∷ js) (k ∷ ks) = R j k × Pairwise R js ks
Pairwise R _ _ = ⊥

-- Both at once, by the job's status.
fail_pending-IsSwept :
    (now : ℕ) (j : Job)
    → IsSwept now j (fail_pending now (codes "worker restarted during execution") j)
fail_pending-IsSwept now j = by_status j.status refl
  where
    by_status :
        (st : JobStatus)
        → j.status ≡ st
        → IsSwept now j (fail_pending now (codes "worker restarted during execution") j)
    by_status queued e = rw e (
        inl (record {
          was_pending = inl refl;
          same_id = refl;
          has_failed = refl;
          ended = refl;
          reason = refl;
          same_start = refl;
        }))
    by_status running e = rw e (
        inl (record {
          was_pending = inr refl;
          same_id = refl;
          has_failed = refl;
          ended = refl;
          reason = refl;
          same_start = refl;
        }))
    by_status success e = rw e (inr (inl refl, refl))
    by_status failure e = rw e (inr (inr (inl refl), refl))
    by_status cancelled e = rw e (inr (inr (inr refl), refl))

-- When the worker starts, each job that was queued or running has failed, at that time and with the
-- restart as its message, with its id and start as they were; and each job that had succeeded, failed
-- or been cancelled is exactly as it was. The jobs are as many and in the same order.
pub mark_stale_jobs-IsSwept :
    (now : ℕ) (jobs : List Job) → Pairwise (IsSwept now) jobs (mark_stale_jobs now jobs)
unfolding mark_stale_jobs
mark_stale_jobs-IsSwept now [] = tt
mark_stale_jobs-IsSwept now (j ∷ js) = (fail_pending-IsSwept now j, mark_stale_jobs-IsSwept now js)

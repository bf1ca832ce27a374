-- ===== src/Scheduler.antt =====
-- worker/scheduler.py: the jobs that APScheduler holds for the instances. What croniter, ZoneInfo and
-- CronTrigger accept is a parameter. APScheduler's store of jobs is a list, the newest first; jobs of
-- other kinds have ids that do not begin with `instance-`.
pub mod Loaded
mod Examples
use pfsense_backups.Prelude.{
  ℕ, Bool, true, false, not, ◌&&◌, Option, none, some, List, [], ◌∷◌, ◌==◌, select, if◌then◌else◌,
}
use pfsense_backups.Store.{Text}
use pfsense_backups.Replication.{codes}
use pfsense_backups.Staleness.{Instance}

-- `_job_id(instance_id)`, or the id of another job.
pub data JobId : Type 0 where
  instance_job : ℕ → JobId
  other_job : ℕ → JobId

-- `add_job` with its trigger, a cron expression in a timezone.
pub record Scheduled : Type 0 where
  pub id : JobId
  pub cron : Text
  pub tz : Text

-- `ZoneInfo(tz)` returns, raises ZoneInfoNotFoundError, or raises another exception, which nothing
-- catches: a ValueError for a key that is no relative path.
pub data ZoneAnswer : Type 0 where
  zone_found zone_not_found zone_error : ZoneAnswer

pub record Checks : Type 0 where
  pub cron_is_valid : Text → Bool
  pub zone_info : Text → ZoneAnswer
  pub trigger_accepts : Text → Text → Bool

abbrev pub same_job : JobId → JobId → Bool
same_job (instance_job i) (instance_job j) = i == j
same_job (other_job i) (other_job j) = i == j
same_job _ _ = false

abbrev pub is_instance_job : JobId → Bool
is_instance_job (instance_job i) = true
is_instance_job (other_job i) = false

-- `remove_job`; a job that is not there is passed over.
unfoldable pub remove_job : ℕ → List Scheduled → List Scheduled
remove_job iid jobs = select (λ (j : Scheduled). not (same_job j.id (instance_job iid))) jobs

-- What a call leaves of the jobs, and whether an exception has left it.
abbrev pub Left : Type 0
Left = List Scheduled × Bool

-- The timezone of the instance's own, or the default.
unfoldable pub effective_tz : (ℕ → Text) → Text → Instance → Text
effective_tz zone default_tz i = elim (zone i.id) [ [] ↦ default_tz | x ∷ xs ↦ x ∷ xs ]

module _ (c : Checks) where
  -- The part of `_add_or_update` after the check of the expression.
  unfoldable pub install : ZoneAnswer → ℕ → Text → Text → List Scheduled → Left
  unfolding remove_job
  install zone_not_found iid cron tz jobs = (jobs, false)
  install zone_error iid cron tz jobs = (jobs, true)
  install zone_found iid cron tz jobs =
      if c.trigger_accepts cron tz
      then ((record { id = instance_job iid; cron = cron; tz = tz }) ∷ remove_job iid jobs, false)
      else (jobs, false)

  -- `_add_or_update`: without an expression the job goes, with one that is not valid nothing is done.
  unfoldable pub add_or_update : ℕ → Option Text → Text → List Scheduled → Left
  unfolding remove_job install
  add_or_update iid none tz jobs = (remove_job iid jobs, false)
  add_or_update iid (some []) tz jobs = (remove_job iid jobs, false)
  add_or_update iid (some (x ∷ xs)) tz jobs =
      if c.cron_is_valid (x ∷ xs)
      then install (c.zone_info tz) iid (x ∷ xs) tz jobs
      else (jobs, false)

  module _ (zone : ℕ → Text) (default_tz : Text) where
    -- The loop goes on unless an exception has left the call.
    unfoldable pub go_on : Left → (List Scheduled → Left) → Left
    go_on (jobs, true) rest = (jobs, true)
    go_on (jobs, false) rest = rest jobs

    unfoldable pub load_jobs : List Instance → List Scheduled → Left
    unfolding add_or_update effective_tz go_on
    load_jobs [] jobs = (jobs, false)
    load_jobs (i ∷ is) jobs =
        let loaded =
          go_on (add_or_update i.id i.cron_expression (effective_tz zone default_tz i) jobs)
            (load_jobs is) in
        let passed = load_jobs is jobs in if i.enabled then loaded else passed

    -- `reload_all`: every job of an instance is dropped, and `load_all_jobs` runs.
    unfoldable pub reload_all : List Instance → List Scheduled → Left
    unfolding load_jobs
    reload_all is jobs = load_jobs is (select (λ (j : Scheduled). not (is_instance_job j.id)) jobs)

    -- `reload_instance`, of the row that was found.
    unfoldable pub reload_instance : ℕ → Option Instance → List Scheduled → Left
    unfolding add_or_update effective_tz
    reload_instance iid none jobs = (remove_job iid jobs, false)
    reload_instance iid (some i) jobs =
        if i.enabled
        then add_or_update i.id i.cron_expression (effective_tz zone default_tz i) jobs
        else (remove_job iid jobs, false)

-- ===== src/Scheduler/Examples.antt =====
-- Three instances and a job of another kind, on which the results about the schedule are applied.
use pfsense_backups.Prelude.{
  ℕ, ◌≡◌, refl, true, false, not, Option, none, some, List, [], ◌∷◌, any, All, text_eq,
  if◌then◌else◌,
}
use pfsense_backups.Store.{Text}
use pfsense_backups.Replication.{codes}
use pfsense_backups.Staleness.{Instance}
use pfsense_backups.Scheduler.{
  instance_job, other_job, zone_found, zone_error, Scheduled, Checks, reload_all, reload_instance,
}
use pfsense_backups.Scheduler.Loaded.{IsDue, is_job_of, reload_all-IsDue}

-- The only expression that is refused is `bad`.
abbrev checks : Checks
checks = record {
  cron_is_valid = λ cron. not (text_eq cron (codes "bad"));
  zone_info = λ tz. if text_eq tz (codes "../UTC") then zone_error else zone_found;
  trigger_accepts = λ cron tz. true;
}

abbrev instance_of : ℕ → Option Text → Instance
instance_of iid cron = record {
  id = iid;
  name = [];
  enabled = true;
  cron_expression = cron;
  stale_after_hours = none;
  created_at = none;
  stale_notified_at = none;
}

abbrev zone : ℕ → Text
zone iid = []

abbrev fleet : List Instance
fleet =
    instance_of 1 (some (codes "0 3 * * *"))
    ∷ instance_of 2 (some (codes "bad"))
    ∷ instance_of 3 none
    ∷ []

abbrev jobs : List Scheduled
jobs =
    record { id = other_job 0; cron = []; tz = [] }
    ∷ record { id = instance_job 2; cron = codes "5 5 * * *"; tz = codes "UTC" }
    ∷ []

-- An expression that is no longer valid leaves the job of the one before.
stale_job_stays :
    any
      (is_job_of 2)
      (reload_instance checks zone
        (codes "UTC")
        2
        (some (instance_of 2 (some (codes "bad"))))
        jobs).0
    ≡ true
unfolding reload_instance
stale_job_stays = refl

stale_job_dropped : any (is_job_of 2) (reload_all checks zone (codes "UTC") fleet jobs).0 ≡ false
unfolding reload_all
stale_job_dropped = refl

reload_all-IsDue_example :
    All (IsDue checks zone (codes "UTC") fleet) (reload_all checks zone (codes "UTC") fleet jobs).0
reload_all-IsDue_example = reload_all-IsDue checks zone (codes "UTC") fleet jobs

-- With a default timezone that is no relative path, an exception leaves the loop.
unscheduled : ((reload_all checks zone (codes "../UTC") fleet []).1 ≡ true)
unfolding reload_all
unscheduled = refl

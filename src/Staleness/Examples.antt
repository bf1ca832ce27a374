-- ===== src/Staleness/Examples.antt =====
-- One silent instance and one that is backed up, on which the results about staleness are applied.
use pfsense_backups.Prelude.{
  ℕ, ◌*◌, ◌≡◌, refl, true, ◌&&◌, not, Option, none, some, List, [], ◌∷◌, arith, map, select,
}
use pfsense_backups.Store.{Text, Table}
use pfsense_backups.Replication.Upload.Samples.{row}
use pfsense_backups.Staleness.{Instance, hour_us, check_stale_instances}
use pfsense_backups.Staleness.Quiet.{
  is_due, after, check_stale_instances-due, check_stale_instances-twice,
}

abbrev instance_of : ℕ → Instance
instance_of iid = record {
  id = iid;
  name = 97 ∷ iid ∷ [];
  enabled = true;
  cron_expression = some (42 ∷ []);
  stale_after_hours = some 5;
  created_at = some 0;
  stale_notified_at = none;
}

abbrev gap : Text → ℕ → Option ℕ
gap cron now = some hour_us

-- Instance 7 has a backup at the hour 9, instance 8 has none.
abbrev table : Table
table = record row { instance_id = 7; started_at = 9 * hour_us; success = true } ∷ []

abbrev fleet : List Instance
fleet = instance_of 7 ∷ instance_of 8 ∷ []

one_alert : (check_stale_instances gap table (10 * hour_us) fleet).alerted ≡ 8 ∷ []
unfolding check_stale_instances
one_alert = refl

check_stale_instances-due_example :
    ((check_stale_instances gap table (10 * hour_us) fleet).alerted
      ≡ map (λ i. i.id) (select (is_due gap table (10 * hour_us)) fleet))
    × ((check_stale_instances gap table (10 * hour_us) fleet).instances
        ≡ map (after gap table (10 * hour_us)) fleet)
check_stale_instances-due_example = check_stale_instances-due gap table (10 * hour_us) fleet

check_stale_instances-twice_example :
    (check_stale_instances gap table
      (15 * hour_us)
      (check_stale_instances gap table (10 * hour_us) fleet).instances).alerted
    ≡ map
        (λ i. i.id)
        (select
          (λ i. is_due gap table (15 * hour_us) i && not (is_due gap table (10 * hour_us) i))
          fleet)
check_stale_instances-twice_example =
    check_stale_instances-twice gap table (10 * hour_us) (15 * hour_us) fleet (omega arith)

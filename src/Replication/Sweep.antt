-- ===== src/Replication/Sweep.antt =====
-- `sweep_pending` of worker/replication.py: the retry pass over rows whose upload is outstanding.
-- The rows are read once, before the first upload.
pub mod Bound
pub mod Effect
pub mod Progress
mod Examples
use pfsense_backups.Prelude.{
  ℕ, ◌+◌, Bool, true, false, ◌&&◌, Option, none, some, List, [], ◌∷◌, ltb, ◌==◌, length, select,
  if◌then◌else◌,
}
use pfsense_backups.Store.{Text, Status, never, pending, done, failed, skipped, Row, Table}
use pfsense_backups.Replication.{Outcome, ok, raise, ReplicationConfig}
use pfsense_backups.Replication.Backoff.{attempt_due}
use pfsense_backups.Replication.Upload.{Target, Disk, Env, replicate_backup}

abbrev pub max_attempts : ℕ
max_attempts = 8

abbrev pub alert_after_attempts : ℕ
alert_after_attempts = 3

-- `Backup.replica_status.in_(["pending", "failed"])`
abbrev pub is_outstanding : Status → Bool
is_outstanding pending = true
is_outstanding failed = true
is_outstanding _ = false

unfoldable pub is_eligible : Row → Bool
is_eligible r =
    is_outstanding r.replica_status && ltb r.replica_attempts max_attempts && r.local_present

-- An alert names the instance and the backup.
pub record Alert : Type 0 where
  pub instance_name : Text
  pub backup_id : ℕ

-- `overflowed`: the OverflowError of `_attempt_due` has left the loop; what was done until then stands.
pub record Sweep (S : Type 0) : Type 0 where
  pub table : Table
  pub remote : S
  pub successes : ℕ
  pub alerts : List Alert
  pub overflowed : Bool

module _ {S : Type 0} (env : Env S) (disk : Disk) (cfg : ReplicationConfig) (notifies : Bool)
    (now stamp : ℕ) where
  -- The body of the loop for a row that is due. `stamp` is what `_mark` writes.
  unfoldable pub sweep_row : Bool → Row → Sweep S → Sweep S
  unfolding replicate_backup
  sweep_row false r st = st
  sweep_row true r st =
      let (t, s, success) = replicate_backup env disk (some cfg) stamp r.id st.table st.remote in
      record st {
        table = t;
        remote = s;
        successes = if success then st.successes + 1 else st.successes;
        alerts =
            if success
            then st.alerts
            else if (r.replica_attempts + 1) == alert_after_attempts && notifies
            then record { instance_name = env.instance_name r.instance_id; backup_id = r.id }
              ∷ st.alerts
            else st.alerts;
      }

  -- One round, before the rest of the loop.
  unfoldable pub sweep_next : Option Bool → Row → (Sweep S → Sweep S) → Sweep S → Sweep S
  unfolding sweep_row
  sweep_next none r rest st = record st { overflowed = true }
  sweep_next (some due) r rest st = rest (sweep_row due r st)

  -- The loop; `now` is the sweep's instant.
  unfoldable pub sweep_rows : List Row → Sweep S → Sweep S
  unfolding sweep_next attempt_due
  sweep_rows [] st = st
  sweep_rows (r ∷ rs) st =
      sweep_next (attempt_due r.replica_attempts r.replica_at now) r (sweep_rows rs) st

-- `metrics.set_replication_pending` after the loop.
unfoldable pub pending_gauge : Table → ℕ
pending_gauge t = length (select (λ r. is_outstanding r.replica_status) t)

-- `make_target` may raise before anything is done. Without a configuration nothing happens.
unfoldable pub sweep_pending :
    {S : Type 0}
    → Env S
    → Disk
    → Option ReplicationConfig
    → Bool
    → ℕ
    → ℕ
    → Table
    → S
    → Outcome (Sweep S)
unfolding sweep_rows is_eligible
sweep_pending env disk none notifies now stamp t s =
    ok (record { table = t; remote = s; successes = 0; alerts = []; overflowed = false })
sweep_pending env disk (some cfg) notifies now stamp t s = elim env.target [
  | raise p ↦ raise p
  | ok target ↦ ok (
      sweep_rows env disk cfg notifies now stamp (select is_eligible t)
        (record { table = t; remote = s; successes = 0; alerts = []; overflowed = false }))
]

-- ===== src/Replication/Verify.antt =====
-- `verify_replicas` of worker/replication.py: the rows that are `done` are compared with the remote
-- side.
pub mod Sound
mod Examples
use pfsense_backups.Prelude.{
  ℕ, suc, Bool, true, false, ◌&&◌, Option, none, some, List, [], ◌∷◌, ◌==◌, select, if◌then◌else◌,
}
use pfsense_backups.Prelude.{text_eq}
use pfsense_backups.Store.{
  Text, Bytes, Status, done, failed, Problem, remote_missing, remote_corrupt, bad_key, Row, Table,
  update,
}
use pfsense_backups.Replication.{Outcome, ok, raise, ReplicationConfig}
use pfsense_backups.Replication.Upload.{Target, Env}

abbrev pub is_done : Status → Bool
is_done done = true
is_done _ = false

module _ {S : Type 0} (sha256 : Bytes → Text) (t : Target S) (deep : Bool) (s : S) where
  -- `hashlib.sha256(blob).hexdigest() != sha`
  unfoldable pub check_digest : Text → Outcome Bytes → Option Problem
  check_digest sha (raise p) = some p
  check_digest sha (ok blob) = if text_eq (sha256 blob) sha then none else some remote_corrupt

  -- `elif deep and sha`
  unfoldable pub check_contents : Text → Option Text → Option Problem
  unfolding check_digest
  check_contents key none = none
  check_contents key (some []) = none
  check_contents key (some (c ∷ cs)) =
      if deep then check_digest (c ∷ cs) (t.download key s) else none

  unfoldable pub check_object : Text → Option Text → Outcome (Option ℕ) → Option Problem
  unfolding check_contents
  check_object key sha (raise p) = some p
  check_object key sha (ok none) = some remote_missing
  check_object key sha (ok (some size)) = check_contents key sha

  -- The problem of one row; a NULL key makes the transport raise.
  unfoldable pub check_replica : Option Text → Option Text → Option Problem
  unfolding check_object
  check_replica none sha = some bad_key
  check_replica (some key) sha = check_object key sha (t.head_size key s)

unfoldable pub flag : Problem → Row → Row
flag p row = record row { replica_status = failed; replica_error = some p }

pub record Verdict : Type 0 where
  pub table : Table
  pub checked : ℕ
  pub flagged : ℕ

-- `if problem is None: continue`, and the flip back to `failed`.
unfoldable pub settle : ℕ → Option Problem → Verdict → Verdict
unfolding flag update
settle bid none v = record v { checked = suc v.checked }
settle bid (some p) v = record {
  table = update bid (flag p) v.table;
  checked = suc v.checked;
  flagged = suc v.flagged;
}

module _ {S : Type 0} (sha256 : Bytes → Text) (t : Target S) (deep : Bool) (s : S) where
  unfoldable pub verify_rows : List Row → Verdict → Verdict
  unfolding check_replica settle
  verify_rows [] v = v
  verify_rows (r ∷ rs) v =
      verify_rows rs (settle r.id (check_replica sha256 t deep s r.replica_key r.replica_sha256) v)

-- `Backup.instance_id == instance_id`, where one is given.
abbrev pub of_instance : Option ℕ → Row → Bool
of_instance none r = true
of_instance (some i) r = r.instance_id == i

abbrev pub is_checked : Option ℕ → Row → Bool
is_checked instance_id r = is_done r.replica_status && of_instance instance_id r

unfoldable pub verify_replicas :
    {S : Type 0} → Env S → Option ReplicationConfig → Option ℕ → Bool → Table → S → Outcome Verdict
unfolding verify_rows
verify_replicas env none instance_id deep t s = ok (record { table = t; checked = 0; flagged = 0 })
verify_replicas env (some cfg) instance_id deep t s = elim env.target [
  | raise p ↦ raise p
  | ok target ↦ ok (
      verify_rows env.sha256 target deep s (select (is_checked instance_id) t)
        (record { table = t; checked = 0; flagged = 0 }))
]

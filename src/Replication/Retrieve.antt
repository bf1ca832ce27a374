-- ===== src/Replication/Retrieve.antt =====
-- `retrieve_replica` of worker/replication.py: an off-site copy is brought back.
pub mod Restored
mod Examples
use pfsense_backups.Prelude.{
  ℕ, Bool, true, false, not, Option, none, some, List, [], ◌∷◌, length, if◌then◌else◌,
}
use pfsense_backups.Store.{
  Text, Bytes, Status, done, Problem, disabled, no_such_backup, no_replica, bad_digest, Row, Table,
  find, update,
}
use pfsense_backups.Replication.{Outcome, ok, raise, ◌>>=◌, ReplicationConfig, undo_payload}
use pfsense_backups.Replication.Upload.{Target, Env}
use pfsense_backups.Replication.Verify.{is_done}
use pfsense_backups.Prelude.{text_eq}

-- The table, and the file that was written, if any.
pub record Retrieval : Type 0 where
  pub table : Table
  pub written : Option (Text × Bytes)

-- `if sha and sha256(payload) != sha: raise`
unfoldable pub check_sha : (Bytes → Text) → Option Text → Bytes → Outcome Bytes
check_sha sha256 none payload = ok payload
check_sha sha256 (some []) payload = ok payload
check_sha sha256 (some (c ∷ cs)) payload =
    if text_eq (sha256 payload) (c ∷ cs) then ok payload else raise bad_digest

-- `row.replica_status != "done" or not row.replica_key`
unfoldable pub recorded_key : Row → Outcome Text
recorded_key row = elim row.replica_key [
  | none ↦ raise no_replica
  | some [] ↦ raise no_replica
  | some (c ∷ cs) ↦ if is_done row.replica_status then ok (c ∷ cs) else raise no_replica
]

unfoldable pub restored : ℕ → Row → Row
restored size row = record row { local_present = true; size_bytes = size }

module _ {S : Type 0} (env : Env S) (cfg : ReplicationConfig) (s : S) where
  -- The bytes for the local path: download, check, undo.
  unfoldable pub fetch : Row → Outcome Bytes
  unfolding check_sha recorded_key
  fetch row = do
    key ← recorded_key row
    target ← env.target
    payload ← target.download key s
    checked ← check_sha env.sha256 row.replica_sha256 payload
    undo_payload env.codec checked key row.encrypted row.compressed cfg

  unfoldable pub retrieve_row : ℕ → Table → Row → Outcome Retrieval
  unfolding fetch restored update
  retrieve_row bid t row =
      if row.local_present
      then ok (record { table = t; written = none })
      else (fetch row >>= λ local_bytes. ok (record {
        table = update bid (restored (length local_bytes)) t;
        written = some (row.path, local_bytes);
      }))

unfoldable pub retrieve_found :
    {S : Type 0} → Env S → ReplicationConfig → ℕ → Table → Option Row → S → Outcome Retrieval
unfolding retrieve_row
retrieve_found env cfg bid t none s = raise no_such_backup
retrieve_found env cfg bid t (some row) s = retrieve_row env cfg s bid t row

unfoldable pub retrieve_replica :
    {S : Type 0} → Env S → Option ReplicationConfig → ℕ → Table → S → Outcome Retrieval
unfolding retrieve_found find
retrieve_replica env none bid t s = raise disabled
retrieve_replica env (some cfg) bid t s = retrieve_found env cfg bid t (find bid t) s

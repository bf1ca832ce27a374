-- ===== src/Replication/Upload.antt =====
-- `replicate_backup` of worker/replication.py: one upload attempt for one backup. The target, the
-- salt, the clock and the digest are the environment's; the disk is read only here.
pub mod Verified
pub mod Effect
pub mod Samples
mod Examples
use pfsense_backups.Prelude.{
  ℕ, ◌+◌, ◌≡◌, Bool, true, false, not, Option, none, some, List, [], ◌∷◌, ◌==◌, length,
  if◌then◌else◌,
}
use pfsense_backups.Store.{
  Text, Bytes, Status, pending, done, failed, skipped, Problem, pruned, missing_on_disk,
  verify_mismatch, Row, Table, find, update,
}
use pfsense_backups.Replication.{
  Outcome, ok, raise, ◌>>=◌, ReplicationConfig, Codec, prepare_payload, object_key,
}

-- `ReplicationTarget`, over the state `S` of the remote side: a call may raise, and may have
-- changed the remote side when it does.
pub record Target (S : Type 0) : Type 0 where
  pub upload : Text → Bytes → S → Outcome (Unit {0}) × S
  pub head_size : Text → S → Outcome (Option ℕ)
  pub download : Text → S → Outcome Bytes

-- What stands at a local path.
abbrev pub Disk : Type 0
Disk = Text → Option (Outcome Bytes)

pub record Env (S : Type 0) : Type 0 where
  pub codec : Codec
  pub sha256 : Bytes → Text
  pub salt : Bytes
  pub instance_name : ℕ → Text
  pub target : Outcome (Target S)

-- The three ways in which the `try` block ends.
pub data Attempt : Type 0 where
  skip : Attempt
  fail : Problem → Attempt
  uploaded : Text → Text → Attempt

-- The comparison of the remote size with that of the payload.
unfoldable pub check_size : Text → Text → ℕ → Outcome (Option ℕ) → Attempt
check_size key sha sent (raise p) = fail p
check_size key sha sent (ok none) = fail verify_mismatch
check_size key sha sent (ok (some size)) =
    if size == sent then uploaded key sha else fail verify_mismatch

module _ {S : Type 0} (env : Env S) where
  unfoldable pub after_upload : Target S → Text → Bytes → Outcome (Unit {0}) × S → Attempt × S
  unfolding check_size
  after_upload t key payload (raise p, s) = (fail p, s)
  after_upload t key payload (ok _, s) =
      (check_size key (env.sha256 payload) (length payload) (t.head_size key s), s)

  -- `tgt = target or make_target(cfg)`, `tgt.upload`, and the check.
  unfoldable pub send : Outcome (Target S) → Text → Bytes → S → Attempt × S
  unfolding after_upload
  send (raise p) key payload s = (fail p, s)
  send (ok t) key payload s = after_upload t key payload (t.upload key payload s)

  unfoldable pub ship : ReplicationConfig → Row → Outcome (Bytes × Text) → S → Attempt × S
  unfolding send
  ship cfg row (raise p) s = (fail p, s)
  ship cfg row (ok (payload, suffix)) s =
      send env.target (object_key cfg (env.instance_name row.instance_id) row.filename suffix)
        payload s

  unfoldable pub read_and_ship : ReplicationConfig → Row → Option (Outcome Bytes) → S → Attempt × S
  unfolding ship
  read_and_ship cfg row none s = (skip, s)
  read_and_ship cfg row (some (raise p)) s = (fail p, s)
  read_and_ship cfg row (some (ok raw)) s =
      ship cfg row (prepare_payload env.codec env.salt raw row.encrypted row.compressed cfg) s

  unfoldable pub attempt : ReplicationConfig → Disk → Row → S → Attempt × S
  unfolding read_and_ship
  attempt cfg disk row s =
      if row.local_present then read_and_ship cfg row (disk row.path) s else (fail pruned, s)

-- `_mark`, with the fields that each of its three calls sets.
unfoldable pub mark : ℕ → Attempt → Row → Row
mark now skip row = record row {
  replica_status = skipped;
  replica_at = some now;
  replica_error = some missing_on_disk;
}
mark now (fail p) row = record row {
  replica_status = failed;
  replica_at = some now;
  replica_attempts = row.replica_attempts + 1;
  replica_error = some p;
}
mark now (uploaded key sha) row = record row {
  replica_status = done;
  replica_at = some now;
  replica_key = some key;
  replica_sha256 = some sha;
  replica_error = none;
}

abbrev pub succeeded : Attempt → Bool
succeeded (uploaded key sha) = true
succeeded _ = false

unfoldable pub replicate_row :
    {S : Type 0}
    → Env S
    → Disk
    → ReplicationConfig
    → ℕ
    → ℕ
    → Table
    → Option Row
    → S
    → Table × S × Bool
unfolding attempt mark update
replicate_row env disk cfg now bid t none s = (t, s, false)
replicate_row env disk cfg now bid t (some row) s =
    let (a, s') = attempt env cfg disk row s in (update bid (mark now a) t, s', succeeded a)

-- The new table, the remote side, and the result. `cfg` is what `load_config` gave.
unfoldable pub replicate_backup :
    {S : Type 0} → Env S → Disk → Option ReplicationConfig → ℕ → ℕ → Table → S → Table × S × Bool
unfolding replicate_row find
replicate_backup env disk none now bid t s = (t, s, false)
replicate_backup env disk (some cfg) now bid t s =
    replicate_row env disk cfg now bid t (find bid t) s

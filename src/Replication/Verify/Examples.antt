-- ===== src/Replication/Verify/Examples.antt =====
-- The result about verification, worker/replication.py, applied to the sample environment.
use pfsense_backups.Prelude.{◌≡◌, refl, true, none, some, [], ◌∷◌}
use pfsense_backups.Store.{Row, find, done}
use pfsense_backups.Replication.{ok, codes}
use pfsense_backups.Replication.Upload.Samples.{env, cfg, row, object_store}
use pfsense_backups.Replication.Verify.{Verdict, verify_replicas}
use pfsense_backups.Replication.Verify.Sound.{IsRemote, verify_replicas-IsRemote}

abbrev uploaded : Row
uploaded = record row {
  replica_status = done;
  replica_key = some (codes "off/fw/a.xml.enc");
  replica_sha256 = some (codes "pwxml");
}

abbrev verdict : Verdict
verdict = record { table = uploaded ∷ []; checked = 1; flagged = 0 }

verified :
    verify_replicas env (some cfg) none true (uploaded ∷ []) (some (codes "pwxml")) ≡ ok verdict
unfolding verify_replicas
verified = refl

verify_replicas-IsRemote_example :
    IsRemote env.sha256 object_store true (some (codes "pwxml")) uploaded × (uploaded ≡ uploaded)
unfolding find
verify_replicas-IsRemote_example =
    verify_replicas-IsRemote env cfg none true (uploaded ∷ []) (some (codes "pwxml")) object_store
      verdict 7 uploaded uploaded refl (tt, tt) verified refl refl refl refl

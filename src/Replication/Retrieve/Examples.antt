-- ===== src/Replication/Retrieve/Examples.antt =====
-- The result about retrieval, worker/replication.py, applied to the sample environment.
use pfsense_backups.Prelude.{◌≡◌, refl, true, false, some, [], ◌∷◌, length}
use pfsense_backups.Store.{Bytes, Row, find, done}
use pfsense_backups.Replication.{ok, codes, enc, unwrapped, prepare_payload, object_key, ends_with}
use pfsense_backups.Replication.Suffix.{stem}
use pfsense_backups.Replication.Upload.Samples.{toy_codec, env, cfg, row, object_store, full_disk}
use pfsense_backups.Replication.Upload.Verified.{IsVerified}
use pfsense_backups.Replication.Upload.Effect.{IsDone}
use pfsense_backups.Replication.Retrieve.{Retrieval, retrieve_replica}
use pfsense_backups.Replication.Retrieve.Restored.{retrieve_replica-IsVerified}

abbrev off_site : Row
off_site = record row {
  local_present = false;
  replica_status = done;
  replica_key = some (object_key cfg (codes "fw") (codes "a.xml.gz") enc);
  replica_sha256 = some (codes "pwxml");
  replica_at = some 9;
}

verified :
    IsVerified env cfg full_disk row
      (object_key cfg (codes "fw") (codes "a.xml.gz") enc)
      (codes "pwxml")
      (some (codes "pwxml"))
unfolding prepare_payload
verified = record {
  raw = 1 ∷ codes "xml";
  payload = codes "pwxml";
  suffix = enc;
  present = refl;
  on_disk = refl;
  prepared = refl;
  named = refl;
  digest = refl;
  target = object_store;
  reached = refl;
  sized = refl;
}

off_site-IsDone :
    IsDone off_site 9 (object_key cfg (codes "fw") (codes "a.xml.gz") enc) (codes "pwxml")
off_site-IsDone = record {
  status = refl;
  key_set = refl;
  sha_set = refl;
  error_cleared = refl;
  stamped = refl;
}

retrieve_replica-IsVerified_example :
    (out : Bytes) × (back : Row) × (r : Retrieval) × (retrieve_replica env
        (some cfg)
        7
        (off_site ∷ [])
        (some (codes "pwxml"))
      ≡ ok r)
    × (r.written ≡ some (codes "/d/a.xml.gz", out))
    × (unwrapped toy_codec true out ≡ ok (codes "xml"))
    × (find 7 r.table ≡ some back)
    × (back.local_present ≡ true)
    × (back.size_bytes ≡ length out)
unfolding stem ends_with object_key find verified
retrieve_replica-IsVerified_example =
    retrieve_replica-IsVerified env cfg full_disk row off_site
      (object_key cfg (codes "fw") (codes "a.xml.gz") enc) (codes "pwxml") (codes "xml") 9 7
      (some (codes "pwxml")) (some (codes "pwxml")) (off_site ∷ []) verified off_site-IsDone refl
      refl refl refl refl refl refl (λ e. cc) refl

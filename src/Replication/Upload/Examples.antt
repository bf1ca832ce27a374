-- ===== src/Replication/Upload/Examples.antt =====
-- The results about uploads and payloads, worker/replication.py, applied to the sample environment.
use mathlib.Core.Option
use pfsense_backups.Prelude.{ℕ, ◌≡◌, refl, ◌⊎◌, true, false, none, some, [], ◌∷◌, ◌++◌, map}
use pfsense_backups.Store.{Text, Bytes, Row, find}
use pfsense_backups.Replication.{
  ok, codes, ends_with, enc, unwrapped, prepare_payload, undo_payload, object_key,
}
use pfsense_backups.Replication.Suffix.{stem}
use pfsense_backups.Replication.Payload.{
  HasPassword, prepare_payload-IsSealed, undo_payload-prepare_payload,
}
use pfsense_backups.Replication.Upload.{replicate_backup}
use pfsense_backups.Replication.Upload.Verified.{IsUploaded}
use pfsense_backups.Replication.Upload.Effect.{
  IsDone, IsNotDone, local_columns, replicate_backup-IsDone, replicate_backup-IsNotDone,
  replicate_backup-frame,
}
use pfsense_backups.Replication.Upload.Samples.{toy_codec, env, cfg, row, full_disk, no_disk}

sealed : prepare_payload toy_codec [] (1 ∷ codes "xml") false true cfg ≡ ok (codes "pwxml", enc)
unfolding prepare_payload
sealed = refl

prepare_payload-IsSealed_example :
    (blob : Bytes) × (password : Text) × (unwrapped toy_codec true (1 ∷ codes "xml") ≡ ok blob)
    × HasPassword cfg password
    × (codes "pwxml" ≡ password ++ blob)
    × (enc ≡ enc)
prepare_payload-IsSealed_example =
    prepare_payload-IsSealed toy_codec [] (1 ∷ codes "xml") true cfg (codes "pwxml") enc refl sealed

undo_payload-prepare_payload_example :
    (out : Bytes) × (undo_payload toy_codec
        (codes "pwxml")
        (object_key cfg (codes "fw") (codes "a.xml.gz") enc)
        false
        true
        cfg
      ≡ ok out)
    × (unwrapped toy_codec true out ≡ ok (codes "xml"))
unfolding stem ends_with
undo_payload-prepare_payload_example =
    undo_payload-prepare_payload toy_codec [] (1 ∷ codes "xml") (codes "xml") false true cfg
      (codes "fw") (codes "a.xml.gz") (codes "pwxml") enc sealed refl refl refl

replicate_backup-IsDone_example :
    (key : Text) × (sha : Text) × (row' : Row) × IsUploaded env cfg full_disk row key sha none
      (replicate_backup env full_disk (some cfg) 9 7 (row ∷ []) none).1
    × (find 7 (replicate_backup env full_disk (some cfg) 9 7 (row ∷ []) none).0 ≡ some row')
    × IsDone row' 9 key sha
unfolding replicate_backup prepare_payload object_key
replicate_backup-IsDone_example =
    replicate_backup-IsDone env full_disk cfg 9 7 (row ∷ []) none row refl refl

replicate_backup-IsNotDone_example :
    (row' : Row) × (find 7 (replicate_backup env no_disk (some cfg) 9 7 (row ∷ []) none).0
      ≡ some row')
    × IsNotDone row row'
unfolding replicate_backup
replicate_backup-IsNotDone_example =
    replicate_backup-IsNotDone env no_disk (some cfg) 9 7 (row ∷ []) none row refl refl

replicate_backup-frame_example :
    (map (λ (r : Row). r.id) (replicate_backup env full_disk (some cfg) 9 7 (row ∷ []) none).0
      ≡ 7 ∷ [])
    × (◌≡◌ {A = ℕ} 7 7
        ⊎ (find 7 (replicate_backup env full_disk (some cfg) 9 7 (row ∷ []) none).0 ≡ some row))
    × (Option.map local_columns
          (find 7 (replicate_backup env full_disk (some cfg) 9 7 (row ∷ []) none).0)
        ≡ some (local_columns row))
unfolding find
replicate_backup-frame_example = replicate_backup-frame env full_disk cfg 9 7 (row ∷ []) none 7

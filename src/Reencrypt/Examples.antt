-- ===== src/Reencrypt/Examples.antt =====
-- Two stored backups under a new password: worker/backup_manager.py.
use pfsense_backups.Prelude.{◌≡◌, ◌↔◌, refl, true, false, none, some, List, [], ◌∷◌, ◌++◌}
use pfsense_backups.Store.{Text, Bytes, transport, bad_padding}
use pfsense_backups.Replication.{Outcome, ok, raise, Codec, codes}
use pfsense_backups.Jobs.{success}
use pfsense_backups.Reencrypt.{
  Fernet, SealedRow, Task, Disk, Faults, task_of, reencrypt_task, reencrypt_rows,
  finalize_reencrypt_job,
}
use pfsense_backups.Reencrypt.Kept.{read_backup, reencrypt_task-keeps}
use pfsense_backups.Reencrypt.Count.{finalize_reencrypt_job_iff}

-- The password is put before the text; a Fernet token is the text with a mark.
abbrev strip_prefix : Text → Bytes → Outcome Bytes
strip_prefix [] b = ok b
strip_prefix (c ∷ cs) [] = raise bad_padding
strip_prefix (c ∷ cs) (d ∷ ds) = strip_prefix cs ds

strip_prefix-append : (p : Text) (b : Bytes) → strip_prefix p (p ++ b) ≡ ok b
strip_prefix-append [] b = refl
strip_prefix-append (c ∷ cs) b = strip_prefix-append cs b

abbrev drop_mark : Bytes → Text
drop_mark [] = []
drop_mark (c ∷ cs) = cs

abbrev toy : Codec
toy = record {
  gzip = λ b. b;
  gunzip = λ b. ok b;
  encrypt = λ salt b password. password ++ b;
  decrypt = λ b password. strip_prefix password b;
  plausible = λ b. true;
  gunzip-gzip = λ b. refl;
  decrypt-encrypt = λ salt b password h. strip_prefix-append password b;
}

abbrev fernet : Fernet
fernet = record { seal = λ t. 128 ∷ t; unseal = drop_mark }

abbrev row : SealedRow
row = record {
  id = 4;
  path = codes "office.xml";
  compressed = true;
  encrypt_password_ct = 128 ∷ codes "old";
  size_bytes = 9;
}

abbrev disk : Disk
disk = record { rows = row ∷ []; files = (codes "office.xml", codes "old" ++ codes "<xml/>") ∷ [] }

abbrev fine : Faults
fine = record { staging = none; committing = none; swapping = none; reverting = false }

abbrev stuck : Faults
stuck = record {
  staging = none;
  committing = none;
  swapping = some (transport 1);
  reverting = false;
}

reencrypt_task-keeps_example :
    read_backup toy fernet 4
      (reencrypt_task toy fernet stuck [] (task_of toy fernet (codes "new") row) disk).1
    ≡ ok (codes "<xml/>")
unfolding pfsense_backups.Diff.Rows.lookup pfsense_backups.Reencrypt.find_row
reencrypt_task-keeps_example =
    reencrypt_task-keeps toy fernet stuck [] (codes "new") row (codes "<xml/>") (λ t. refl) refl
      refl disk refl refl

abbrev tasks : List (Faults × (Bytes × Task))
tasks =
    (stuck, ([], task_of toy fernet (codes "new") row))
    ∷ (fine, ([], task_of toy fernet (codes "new") row))
    ∷ []

finalize_reencrypt_job_iff_example :
    ((finalize_reencrypt_job
        (λ n. n ∷ [])
        (reencrypt_rows toy fernet tasks disk).0.0
        (reencrypt_rows toy fernet tasks disk).0.1
        2).0
      ≡ success)
    ↔ ((reencrypt_rows toy fernet tasks disk).0.0 ≡ 2)
finalize_reencrypt_job_iff_example = finalize_reencrypt_job_iff toy fernet (λ n. n ∷ []) tasks disk

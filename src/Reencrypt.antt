-- ===== src/Reencrypt.antt =====
-- worker/backup_manager.py: the re-encryption of stored backups under a new password.
pub mod Kept
pub mod Files
pub mod Count
mod Examples
use pfsense_backups.Prelude.{
  ℕ, ◌+◌, ◌-◌, Bool, true, false, ◌&&◌, Option, none, some, List, [], ◌∷◌, ◌++◌, length, ◌==◌,
  if◌then◌else◌, text_eq,
}
use pfsense_backups.Store.{Text, Bytes, Problem, missing_on_disk}
use pfsense_backups.Replication.{Outcome, ok, raise, ◌>>=◌, Codec, codes}
use pfsense_backups.Jobs.{JobStatus, success, failure}
use pfsense_backups.Diff.Rows.{Keyed, put_key, lookup}

-- Fernet of the cryptography package, over the key of the application.
pub record Fernet : Type 0 where
  pub seal : Text → Bytes
  pub unseal : Bytes → Text

-- The columns of a row of `backups` that this job reads and writes.
pub record SealedRow : Type 0 where
  pub id : ℕ
  pub path : Text
  pub compressed : Bool
  pub encrypt_password_ct : Bytes
  pub size_bytes : ℕ

pub record Task : Type 0 where
  pub backup_id : ℕ
  pub path : Text
  pub compressed : Bool
  pub old_password : Text
  pub new_password : Text

-- The files by their paths.
pub record Disk : Type 0 where
  pub rows : List SealedRow
  pub files : Keyed Bytes

-- The operations that can fail on their own: the file that is staged, the commit of the new password,
-- the swap, and the write that takes the password back.
pub record Faults : Type 0 where
  pub staging : Option Problem
  pub committing : Option Problem
  pub swapping : Option Problem
  pub reverting : Bool

unfoldable pub remove_key : Text → Keyed Bytes → Keyed Bytes
remove_key k [] = []
remove_key k (e ∷ es) = let rest = remove_key k es in if text_eq e.0 k then rest else e ∷ rest

-- `path.with_name(path.name + ".new")`
abbrev pub new_name : Text → Text
new_name path = path ++ codes ".new"

unfoldable pub find_row : ℕ → List SealedRow → Option SealedRow
find_row bid [] = none
find_row bid (r ∷ rs) = if r.id == bid then some r else find_row bid rs

unfoldable pub update_row : ℕ → (SealedRow → SealedRow) → List SealedRow → List SealedRow
update_row bid f [] = []
update_row bid f (r ∷ rs) =
    let rest = update_row bid f rs in if r.id == bid then f r ∷ rs else r ∷ rest

module _ (codec : Codec) (fernet : Fernet) where
  abbrev pub unzip : Bool → Bytes → Outcome Bytes
  unzip compressed raw = if compressed then codec.gunzip raw else ok raw

  abbrev pub zip : Bool → Bytes → Bytes
  zip compressed raw = if compressed then codec.gzip raw else raw

  abbrev pub read_file : Option Bytes → Outcome Bytes
  read_file none = raise missing_on_disk
  read_file (some b) = ok b

  -- What `_reencrypt_one_subprocess` writes; the salt is the state of the random source.
  unfoldable pub new_contents : Bytes → Task → Keyed Bytes → Outcome Bytes
  new_contents salt task files = do
    stored ← read_file (lookup task.path files)
    raw ← unzip task.compressed stored
    plain ← codec.decrypt raw task.old_password
    ok (zip task.compressed (codec.encrypt salt plain task.new_password))

  -- The file is staged; one that cannot be written is unlinked.
  abbrev pub stage : Option Problem → Text → Outcome Bytes → Keyed Bytes → Outcome ℕ × Keyed Bytes
  stage fault new_path (raise p) files = (raise p, files)
  stage none new_path (ok bytes) files = (ok (length bytes), put_key new_path bytes files)
  stage (some p) new_path (ok bytes) files = (raise p, remove_key new_path files)

  unfoldable pub reencrypt_one_subprocess :
      Option Problem → Bytes → Task → Keyed Bytes → Outcome ℕ × Keyed Bytes
  reencrypt_one_subprocess fault salt task files =
      stage fault (new_name task.path) (new_contents salt task files) files

  abbrev pub size_of : Option SealedRow → ℕ → ℕ
  size_of none n = n
  size_of (some r) n = r.size_bytes

  abbrev pub with_password : Bytes → ℕ → SealedRow → SealedRow
  with_password ct size r = record r { encrypt_password_ct = ct; size_bytes = size }

  abbrev pub take_back : Bool → Task → ℕ → List SealedRow → List SealedRow
  take_back true task size rows = rows
  take_back false task size rows =
      update_row task.backup_id (with_password (fernet.seal task.old_password) size) rows

  -- A swap that fails takes the password back.
  abbrev pub undo_swap : Faults → Task → ℕ → Problem → Disk → Outcome ℕ × Disk
  undo_swap faults task old_size p d = (
    raise p,
    record {
      rows = take_back faults.reverting task old_size d.rows;
      files = remove_key (new_name task.path) d.files;
    },
  )

  -- `os.replace(new_path, final_path)`, after the new password was committed.
  abbrev pub swap : Faults → Task → ℕ → Disk → Option Problem → Option Bytes → Outcome ℕ × Disk
  swap faults task old_size d none (some b) = (
    ok old_size,
    record d { files = put_key task.path b (remove_key (new_name task.path) d.files) },
  )
  swap faults task old_size d none none = undo_swap faults task old_size missing_on_disk d
  swap faults task old_size d (some p) staged = undo_swap faults task old_size p d

  abbrev pub commit : Task → ℕ → Disk → Disk
  commit task new_size d = record d {
    rows =
        update_row task.backup_id (with_password (fernet.seal task.new_password) new_size) d.rows;
  }

  abbrev pub committed : Faults → Task → ℕ → Disk → Option Problem → Outcome ℕ × Disk
  committed faults task new_size d (some p) =
      (raise p, record d { files = remove_key (new_name task.path) d.files })
  committed faults task new_size d none =
      swap faults task (size_of (find_row task.backup_id d.rows) new_size) (commit task new_size d)
        faults.swapping (lookup (new_name task.path) d.files)

  -- What the parent does with the result of one task.
  unfoldable pub apply_result : Faults → Task → Outcome ℕ → Disk → Outcome ℕ × Disk
  apply_result faults task (raise p) d = (raise p, d)
  apply_result faults task (ok new_size) d = committed faults task new_size d faults.committing

  unfoldable pub reencrypt_task : Faults → Bytes → Task → Disk → Outcome ℕ × Disk
  reencrypt_task faults salt task d =
      let (result, files) = reencrypt_one_subprocess faults.staging salt task d.files in
      apply_result faults task result (record d { files = files })

  -- A task of a row.
  abbrev pub task_of : Text → SealedRow → Task
  task_of new_password r = record {
    backup_id = r.id;
    path = r.path;
    compressed = r.compressed;
    old_password = fernet.unseal r.encrypt_password_ct;
    new_password = new_password;
  }

  -- The loop over the futures, in the order in which they are done: successes and failures.
  unfoldable pub reencrypt_rows : List (Faults × (Bytes × Task)) → Disk → (ℕ × ℕ) × Disk
  reencrypt_rows [] d = ((0, 0), d)
  reencrypt_rows (t ∷ ts) d =
      let (result, d1) = reencrypt_task t.0 t.1.0 t.1.1 d in
      let (counts, d2) = reencrypt_rows ts d1 in
      elim result [
        | ok n ↦ ((1 + counts.0, counts.1), d2)
        | raise p ↦ ((counts.0, 1 + counts.1), d2)
      ]

-- `_finalize_reencrypt_job`: the status and the message of the job; `str` is of a number.
abbrev pub verdict : Bool → JobStatus
verdict true = success
verdict false = failure

abbrev pub part : (ℕ → Text) → ℕ → Text → Text
part str n words = if n == 0 then [] else codes "; " ++ (str n ++ words)

unfoldable pub finalize_reencrypt_job : (ℕ → Text) → ℕ → ℕ → ℕ → JobStatus × Text
finalize_reencrypt_job str succeeded failed total_tasks =
    let unprocessed = total_tasks - (succeeded + failed) in
    let overall_ok = failed == 0 && unprocessed == 0 in
    let head =
      codes "Re-encrypted "
      ++ (str succeeded ++ (codes "/" ++ (str total_tasks ++ codes " backup(s)"))) in
    (
      verdict overall_ok,
      if total_tasks == 0
          then codes "No encrypted backups to re-encrypt"
          else if overall_ok
          then head
          else head
            ++ (part str failed (codes " failed")
                ++ part str unprocessed (codes " unprocessed (worker crash)")),
    )

-- ===== src/Reencrypt/Kept.antt =====
-- worker/backup_manager.py: no re-encryption loses a backup.
use pfsense_backups.Prelude.{ℕ, ◌≡◌, refl, ap, ◌∙◌, Bool, true, false, Option, none, some, length}
use pfsense_backups.Store.{Text, Bytes, Problem, no_such_backup}
use pfsense_backups.Replication.{Outcome, ok, raise, ◌>>=◌, Codec}
use pfsense_backups.Diff.Rows.{Keyed, put_key, lookup}
use pfsense_backups.Reencrypt.{
  Fernet, SealedRow, Task, Disk, Faults, remove_key, new_name, find_row, unzip, zip, read_file,
  new_contents, stage, reencrypt_one_subprocess, with_password, size_of, swap, commit, committed,
  apply_result, reencrypt_task, task_of,
}
use pfsense_backups.Reencrypt.Files.{
  lookup-put_key_same, lookup-put_key_other, lookup-remove_key_other, new_name-other,
  find_row-update_row,
}

bind-ok :
    {A B : Type 0} (o : Outcome A) (f : A → Outcome B) (b : B)
    → (o >>= f) ≡ ok b
    → (a : A) × ((o ≡ ok a) × (f a ≡ ok b))
bind-ok (ok a) f b h = (a, (refl, h))
bind-ok (raise p) f b h = absurd (clash h)
  where
    clash : raise p ≡ ok b → ⊥
    clash q = cc

module _ (codec : Codec) (fernet : Fernet) where
  -- What a stored backup decrypts to, by its row.
  abbrev pub read_row : Keyed Bytes → Option SealedRow → Outcome Bytes
  read_row files none = raise no_such_backup
  read_row files (some r) =
      (read_file codec fernet (lookup r.path files) >>= unzip codec fernet r.compressed) >>= λ raw.
      codec.decrypt raw (fernet.unseal r.encrypt_password_ct)

  abbrev pub read_backup : ℕ → Disk → Outcome Bytes
  read_backup bid d = read_row d.files (find_row bid d.rows)

  unzip-zip : (c : Bool) (b : Bytes) → unzip codec fernet c (zip codec fernet c b) ≡ ok b
  unzip-zip true b = codec.gunzip-gzip b
  unzip-zip false b = refl

  module _ (faults : Faults) (salt : Bytes) (new_password : Text) (row : SealedRow) (plain : Bytes)
      (unsealed : (t : Text) → fernet.unseal (fernet.seal t) ≡ t)
      (sound : codec.plausible plain ≡ true) (reverts : faults.reverting ≡ false) where
    abbrev task : Task
    task = task_of codec fernet new_password row

    abbrev next : Bytes
    next = zip codec fernet row.compressed (codec.encrypt salt plain new_password)

    new_contents-eq :
        (files : Keyed Bytes)
        → read_row files (some row) ≡ ok plain
        → new_contents codec fernet salt task files ≡ ok next
    unfolding new_contents
    new_contents-eq files h =
        let (raw, (opened, decrypted)) =
          bind-ok
            (read_file codec fernet (lookup row.path files) >>= unzip codec fernet row.compressed) _
            plain h in
        let (stored, (there, unzipped)) =
          bind-ok (read_file codec fernet (lookup row.path files)) _ raw opened in
        rw there (rw unzipped (rw decrypted refl))

    -- A row under the old password with its file, or under the new one with the new file.
    read_old :
        (files files' : Keyed Bytes) (r : SealedRow)
        → lookup row.path files' ≡ lookup row.path files
        → r.path ≡ row.path
        → r.compressed ≡ row.compressed
        → fernet.unseal r.encrypt_password_ct ≡ fernet.unseal row.encrypt_password_ct
        → read_row files (some row) ≡ ok plain
        → read_row files' (some r) ≡ ok plain
    read_old files files' r f p c u h = rw (p, c, u, f) h

    read_new :
        (files : Keyed Bytes) (size : ℕ)
        → lookup row.path files ≡ some next
        → read_row files (some (with_password codec fernet (fernet.seal new_password) size row))
          ≡ ok plain
    read_new files size f =
        rw
          (
            f,
            unzip-zip row.compressed (codec.encrypt salt plain new_password),
            unsealed new_password,
          )
          (codec.decrypt-encrypt salt plain new_password sound)

    module _ (d : Disk) (found : find_row row.id d.rows ≡ some row)
        (readable : read_row d.files (some row) ≡ ok plain) where
      abbrev staged_files : Keyed Bytes
      staged_files = put_key (new_name row.path) next d.files

      abbrev staged : Disk
      staged = record d { files = staged_files }

      staged-old : lookup row.path staged_files ≡ lookup row.path d.files
      staged-old =
          lookup-put_key_other (new_name row.path) row.path next d.files (new_name-other row.path)

      unstaged-old :
          (files : Keyed Bytes)
          → lookup row.path (remove_key (new_name row.path) files) ≡ lookup row.path files
      unstaged-old files =
          lookup-remove_key_other (new_name row.path) row.path files (new_name-other row.path)

      same_row :
          (files : Keyed Bytes)
          → lookup row.path files ≡ lookup row.path d.files
          → read_backup row.id (record d { files = files }) ≡ ok plain
      same_row files f =
          ap (read_row files) found ∙ read_old d.files files row f refl refl refl readable

      swap_keeps :
          (size old_size : ℕ) (s : Option Problem)
          → read_backup row.id
              (swap codec fernet faults task old_size
                (commit codec fernet task size staged)
                s
                (some next)).1
            ≡ ok plain
      swap_keeps size old_size none =
          let path = row.path in
          ap (read_row (put_key path next (remove_key (new_name path) staged_files)))
            (find_row-update_row row.id _ d.rows row (λ q. refl) found)
          ∙ read_new (put_key path next (remove_key (new_name path) staged_files)) size
              (lookup-put_key_same path next (remove_key (new_name path) staged_files))
      swap_keeps size old_size (some p) =
          let files = remove_key (new_name row.path) staged_files in
          let once =
            find_row-update_row row.id (with_password codec fernet (fernet.seal new_password) size)
              d.rows row (λ q. refl) found in
          let old =
            with_password codec fernet (fernet.seal (fernet.unseal row.encrypt_password_ct))
              old_size in
          let twice = find_row-update_row row.id old _ _ (λ q. refl) once in
          rw reverts (
            ap (read_row files) twice
            ∙ read_old d.files files
                (old (with_password codec fernet (fernet.seal new_password) size row))
                (unstaged-old staged_files ∙ staged-old) refl refl
                (unsealed (fernet.unseal row.encrypt_password_ct)) readable)

      committed_keeps :
          (size : ℕ) (c : Option Problem)
          → read_backup row.id (committed codec fernet faults task size staged c).1 ≡ ok plain
      committed_keeps size (some p) = same_row _ (unstaged-old staged_files ∙ staged-old)
      committed_keeps size none =
          ap
            (λ o.
              read_backup row.id
                (swap codec fernet faults task (size_of codec fernet (find_row row.id d.rows) size)
                  (commit codec fernet task size staged) faults.swapping o).1)
            (lookup-put_key_same (new_name row.path) next d.files)
          ∙ swap_keeps size (size_of codec fernet (find_row row.id d.rows) size) faults.swapping

      -- Whatever fails on the way (the new file, the commit of the new password, the swap), a stored
      -- backup that decrypts under the password of its row does so after the task of its re-encryption,
      -- to the same text; if that text is plausible, Fernet opens what it sealed, and the write that
      -- takes the password back does not fail.
      pub reencrypt_task-keeps :
          read_backup row.id (reencrypt_task codec fernet faults salt task d).1 ≡ ok plain
      unfolding reencrypt_task reencrypt_one_subprocess apply_result
      reencrypt_task-keeps =
          ap
            (λ o.
              read_backup row.id
                (finish (stage codec fernet faults.staging (new_name row.path) o d.files)).1)
            (new_contents-eq d.files readable)
          ∙ staged_keeps faults.staging
        where
          finish : Outcome ℕ × Keyed Bytes → Outcome ℕ × Disk
          finish s = apply_result codec fernet faults task s.0 (record d { files = s.1 })

          staged_keeps :
              (f : Option Problem)
              → read_backup row.id
                  (finish (stage codec fernet f (new_name row.path) (ok next) d.files)).1
                ≡ ok plain
          staged_keeps none = committed_keeps (length next) faults.committing
          staged_keeps (some p) = same_row _ (unstaged-old d.files)

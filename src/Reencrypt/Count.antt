-- ===== src/Reencrypt/Count.antt =====
-- worker/backup_manager.py: what the job of a re-encryption says.
use pfsense_backups.Prelude.{
  ℕ, zero, suc, ◌+◌, ◌-◌, ◌≡◌, ◌↔◌, refl, ap, true, false, ◌&&◌, List, [], ◌∷◌, arith, length, ◌==◌,
}
use pfsense_backups.Store.{Text, Bytes}
use pfsense_backups.Replication.{Outcome, ok, raise, Codec}
use pfsense_backups.Jobs.{success, failure}
use pfsense_backups.Reencrypt.{
  Fernet, Task, Disk, Faults, reencrypt_task, reencrypt_rows, verdict, finalize_reencrypt_job,
}

module _ (codec : Codec) (fernet : Fernet) where
  reencrypt_rows-total :
      (ts : List (Faults × (Bytes × Task))) (d : Disk)
      → (reencrypt_rows codec fernet ts d).0.0 + (reencrypt_rows codec fernet ts d).0.1 ≡ length ts
  unfolding reencrypt_rows
  reencrypt_rows-total [] d = refl
  reencrypt_rows-total (t ∷ ts) d =
      go (reencrypt_task codec fernet t.0 t.1.0 t.1.1 d).0
        (reencrypt_rows-total ts (reencrypt_task codec fernet t.0 t.1.0 t.1.1 d).1)
    where
      after : Disk
      after = (reencrypt_task codec fernet t.0 t.1.0 t.1.1 d).1

      counted : Outcome ℕ → (ℕ × ℕ) × Disk
      counted o = elim o [
        | ok n ↦ (
          (
            1 + (reencrypt_rows codec fernet ts after).0.0,
            (reencrypt_rows codec fernet ts after).0.1,
          ),
          (reencrypt_rows codec fernet ts after).1,
        )
        | raise p ↦ (
          (
            (reencrypt_rows codec fernet ts after).0.0,
            1 + (reencrypt_rows codec fernet ts after).0.1,
          ),
          (reencrypt_rows codec fernet ts after).1,
        )
      ]

      go :
          (o : Outcome ℕ)
          → (reencrypt_rows codec fernet ts after).0.0 + (reencrypt_rows codec fernet ts after).0.1
            ≡ length ts
          → (counted o).0.0 + (counted o).0.1 ≡ suc (length ts)
      go (ok n) h = omega (arith, h)
      go (raise p) h = omega (arith, h)

  verdict-all : (s f n : ℕ) → s + f ≡ n → (verdict (f == 0 && n - (s + f) == 0) ≡ success) ↔ (s ≡ n)
  verdict-all s zero n h =
      let nothing : (n - (s + 0) == 0) ≡ true = ground (arith, h) in
      (λ v. omega (arith, h), λ e. ap verdict nothing)
  verdict-all s (suc f) n h =
      let some_failed : (suc f == 0) ≡ false = ground arith in
      (λ v. absurd (refuted (rw some_failed at v)), λ e. absurd (omega (arith, h, e)))
    where
      refuted : failure ≡ success → ⊥
      refuted q = cc

  -- After a run in which every future came back, the job is marked a success exactly if as many tasks
  -- succeeded as there were.
  pub finalize_reencrypt_job_iff :
      (str : ℕ → Text) (ts : List (Faults × (Bytes × Task))) (d : Disk)
      → let counts = (reencrypt_rows codec fernet ts d).0 in
        ((finalize_reencrypt_job str counts.0 counts.1 (length ts)).0 ≡ success)
        ↔ (counts.0 ≡ length ts)
  unfolding finalize_reencrypt_job
  finalize_reencrypt_job_iff str ts d =
      verdict-all _ (reencrypt_rows codec fernet ts d).0.1 (length ts) (reencrypt_rows-total ts d)

-- ===== src/Cleanup/Examples.antt =====
-- Three backups of two instances, on which the results about the cleanup are applied.
use pfsense_backups.Prelude.{
  ℕ, ◌≡◌, refl, ◌⊎◌, inl, inr, true, false, Option, none, some, [], ◌∷◌, arith,
}
use pfsense_backups.Store.{Text, Row, Table, done, never, find}
use pfsense_backups.Retention.{compute_keep_ids}
use pfsense_backups.Cleanup.{
  Unlink, removed, Settings, Cleaned, is_candidate, replica_of, off_site, cleanup_old_backups,
}
use pfsense_backups.Replication.Sweep.Bound.{IsKeyed}
use pfsense_backups.Cleanup.Newest.{IsLatest, cleanup_old_backups-newest}
use pfsense_backups.Cleanup.Replicas.{cleanup_old_backups-replica, cleanup_old_backups-kept}

abbrev settings : Settings
settings = record {
  instance_id = 7;
  policy = record {
    count_cap = 1;
    keep_all_days = none;
    daily_days = none;
    weekly_weeks = none;
    monthly_months = none;
  };
  repl_enabled = true;
  repl_mirror = false;
}

abbrev backup : ℕ → ℕ → ℕ → Option Text → Row
backup bid iid at key = record {
  id = bid;
  instance_id = iid;
  path = 97 ∷ bid ∷ [];
  filename = 97 ∷ bid ∷ [];
  started_at = at;
  success = true;
  encrypted = false;
  compressed = false;
  size_bytes = 10;
  local_present = true;
  replica_status = elim key [ none ↦ never | some _ ↦ done ];
  replica_key = key;
  replica_at = none;
  replica_error = none;
  replica_attempts = 0;
  replica_sha256 = none;
}

abbrev new_ : Row
new_ = backup 3 7 300 none

abbrev old_ : Row
old_ = backup 1 7 100 (some (107 ∷ []))

abbrev other : Row
other = backup 2 8 200 none

abbrev table : Table
table = old_ ∷ other ∷ new_ ∷ []

abbrev unlink : Text → Unlink
unlink path = removed

abbrev result : Cleaned
result = record { table = off_site old_ ∷ other ∷ new_ ∷ []; remote_deletes = []; count = 0 }

run : cleanup_old_backups settings unlink 1000 table ≡ some result
unfolding cleanup_old_backups compute_keep_ids off_site
run = refl

new_-IsLatest : IsLatest 7 new_ table
unfolding IsLatest
new_-IsLatest q (inl e) c = inr (rw e (omega arith))
new_-IsLatest q (inr (inl e)) c = absurd (other_ q e c)
  where
    other_ : (x : Row) → x ≡ other → is_candidate 7 x ≡ true → ⊥
    other_ x e' c' = let h = rw e' at c' in ground arith
new_-IsLatest q (inr (inr (inl e))) c = inl e
new_-IsLatest q (inr (inr (inr none_))) c = absurd none_

keyed : IsKeyed table
keyed = (((λ e. ground arith), ((λ e. ground arith), tt)), (((λ e. ground arith), tt), (tt, tt)))

cleanup_old_backups-newest_example : find 3 result.table ≡ some new_
cleanup_old_backups-newest_example =
    cleanup_old_backups-newest settings unlink 1000 table result new_ keyed (inr (inr (inl refl)))
      refl new_-IsLatest run

cleanup_old_backups-replica_example :
    (find 1 result.table ≡ some old_) ⊎ (find 1 result.table ≡ some (off_site old_))
unfolding replica_of
cleanup_old_backups-replica_example =
    cleanup_old_backups-replica settings unlink 1000 table result old_ (107 ∷ []) keyed (inl refl)
      refl refl replica run
  where
    replica : replica_of old_ ≡ some (107 ∷ [])
    replica = refl

cleanup_old_backups-kept_example : find 2 result.table ≡ some other
cleanup_old_backups-kept_example =
    cleanup_old_backups-kept settings unlink 1000 table result other keyed (inr (inl refl))
      (inl refl) run

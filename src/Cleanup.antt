-- ===== src/Cleanup.antt =====
-- `_cleanup_old_backups` of worker/backup_manager.py: retention over the `backups` table. The file
-- system is a function that says how an unlink ends.
pub mod Kept
pub mod Newest
pub mod Replicas
mod Examples
use pfsense_backups.Prelude.{
  ℕ, suc, Bool, true, false, not, ◌&&◌, ◌||◌, Option, none, some, List, [], ◌∷◌, ◌++◌, ltb, leb,
  ◌==◌, elem, map, select, if◌then◌else◌, ◌>>=◌,
}
use pfsense_backups.Store.{Text, Status, done, Row, Table, update, remove}
use pfsense_backups.Retention.{Backup, RetentionPolicy, has_tiers, compute_keep_ids}
use pfsense_backups.Replication.{codes, starts_with}
use pfsense_backups.Replication.Verify.{is_done}

pub data Unlink : Type 0 where
  removed absent os_error : Unlink

pub record Settings : Type 0 where
  pub instance_id : ℕ
  pub policy : RetentionPolicy
  pub repl_enabled : Bool
  pub repl_mirror : Bool

pub record Cleaned : Type 0 where
  pub table : Table
  pub remote_deletes : List Text
  pub count : ℕ

-- `resolve_backup_path` of pfsense_shared/paths.py.
unfoldable pub resolve_backup_path : Text → Text
resolve_backup_path raw = if starts_with (codes "/") raw then raw else codes "/backups/" ++ raw

-- The rows that the query selects.
abbrev pub is_candidate : ℕ → Row → Bool
is_candidate iid r = r.instance_id == iid && (r.success && r.local_present)

-- `order_by(Backup.started_at.desc())`
unfoldable pub insert_row : Row → List Row → List Row
insert_row r [] = r ∷ []
insert_row r (q ∷ qs) =
    let later = insert_row r qs in if leb q.started_at r.started_at then r ∷ q ∷ qs else q ∷ later

unfoldable pub by_age : List Row → List Row
unfolding insert_row
by_age [] = []
by_age (r ∷ rs) = insert_row r (by_age rs)

abbrev pub pairs : List Row → List Backup
pairs rs = map {B = Backup} (λ (r : Row). (r.id, r.started_at)) rs

-- `row.replica_status == "done" and row.replica_key`, with the key that is there.
unfoldable pub replica_of : Row → Option Text
replica_of r = elim r.replica_key [
  | none ↦ none
  | some [] ↦ none
  | some (c ∷ cs) ↦ if is_done r.replica_status then some (c ∷ cs) else none
]

-- Only a path that is set is unlinked; a file that is gone is no error.
unfoldable pub unlinks : (Text → Unlink) → Text → Bool
unfolding resolve_backup_path
unlinks unlink [] = true
unlinks unlink (c ∷ cs) = elim (unlink (resolve_backup_path (c ∷ cs))) [
  | os_error ↦ false
  | _ ↦ true
]

unfoldable pub off_site : Row → Row
off_site r = record r { local_present = false }

-- What becomes of a row whose file is gone: off-site only, or deleted.
unfoldable pub drop_row : Settings → Row → Option Text → Cleaned → Cleaned
unfolding off_site update remove
drop_row cfg r none st = record st { table = remove r.id st.table; count = suc st.count }
drop_row cfg r (some key) st =
    if cfg.repl_enabled && not cfg.repl_mirror
    then record st { table = update r.id off_site st.table }
    else record st {
      table = remove r.id st.table;
      remote_deletes =
          if cfg.repl_enabled && cfg.repl_mirror
          then st.remote_deletes ++ key ∷ []
          else st.remote_deletes;
      count = suc st.count;
    }

-- The body of the loop; an unlink that fails keeps the row.
unfoldable pub clean_row : Settings → (Text → Unlink) → Row → Cleaned → Cleaned
unfolding unlinks drop_row replica_of
clean_row cfg unlink r st = if unlinks unlink r.path then drop_row cfg r (replica_of r) st else st

unfoldable pub clean_rows : Settings → (Text → Unlink) → List Row → Cleaned → Cleaned
unfolding clean_row
clean_rows cfg unlink [] st = st
clean_rows cfg unlink (r ∷ rs) st = clean_rows cfg unlink rs (clean_row cfg unlink r st)

abbrev pub untouched : Table → Cleaned
untouched t = record { table = t; remote_deletes = []; count = 0 }

-- `none` is the OverflowError of `compute_keep_ids`.
unfoldable pub cleanup_old_backups : Settings → (Text → Unlink) → ℕ → Table → Option Cleaned
unfolding clean_rows by_age has_tiers
cleanup_old_backups cfg unlink now t =
    let successful = by_age (select (is_candidate cfg.instance_id) t) in
    if leb cfg.policy.count_cap 0 && not (has_tiers cfg.policy)
    then some (untouched t)
    else (compute_keep_ids (pairs successful) cfg.policy now >>= λ keep_ids.
        some
          (clean_rows cfg unlink (select (λ r. not (elem r.id keep_ids)) successful) (untouched t)))

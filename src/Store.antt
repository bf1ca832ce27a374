-- ===== src/Store.antt =====
-- The `backups` table of pfsense_shared/models.py, as far as replication and retention use it, and
-- the two accesses that the worker makes: `s.get(Backup, id)`, and a write to that row.
pub mod Laws
use pfsense_backups.Prelude.{ℕ, Bool, Option, none, some, List, [], ◌∷◌, ◌==◌, if◌then◌else◌}

-- A text by its code points, and the contents of a file.
abbrev pub Text : Type 0
Text = List ℕ

abbrev pub Bytes : Type 0
Bytes = List ℕ

-- `replica_status`: NULL, or one of four words.
pub data Status : Type 0 where
  never pending done failed skipped : Status

-- `replica_error`: what `str(exc)` says.
pub data Problem : Type 0 where
  pruned missing_on_disk verify_mismatch no_password remote_missing remote_corrupt bad_key disabled
        no_such_backup no_replica bad_digest no_markers no_body not_base64 too_short no_prefix
        bad_block bad_padding not_plausible :
      Problem
  transport : ℕ → Problem

pub record Row : Type 0 where
  pub id : ℕ
  pub instance_id : ℕ
  pub path : Text
  pub filename : Text
  pub started_at : ℕ
  pub success : Bool
  pub encrypted : Bool
  pub compressed : Bool
  pub size_bytes : ℕ
  pub local_present : Bool
  pub replica_status : Status
  pub replica_key : Option Text
  pub replica_at : Option ℕ
  pub replica_error : Option Problem
  pub replica_attempts : ℕ
  pub replica_sha256 : Option Text

abbrev pub Table : Type 0
Table = List Row

-- `s.get(Backup, bid)`
unfoldable pub find : ℕ → Table → Option Row
find bid [] = none
find bid (r ∷ rs) = if r.id == bid then some r else find bid rs

-- A write to the fields of that row; nothing happens if there is none.
unfoldable pub update : ℕ → (Row → Row) → Table → Table
update bid f [] = []
update bid f (r ∷ rs) = let rest = update bid f rs in if r.id == bid then f r ∷ rs else r ∷ rest

-- `s.delete(row)`
unfoldable pub remove : ℕ → Table → Table
remove bid [] = []
remove bid (r ∷ rs) = let rest = remove bid rs in if r.id == bid then rs else r ∷ rest

-- ===== src/Replication/Upload/Effect.antt =====
-- What one call of `replicate_backup`, worker/replication.py, leaves in the table.
use mathlib.Core.Option
use pfsense_backups.Prelude.{
  ℕ, ◌+◌, ◌≤◌, ◌≡◌, refl, sym, ap, ◌∙◌, ◌⊎◌, inl, inr, Bool, true, false, Option, none, some, arith,
  map, Bool-cases, ◌==◌,
}
use native.Mathlib.Decide.{ℕ_discrete}
use pfsense_backups.Store.{Text, done, failed, skipped, Row, Table, find}
use pfsense_backups.Store.Laws.{find-update, find-update_ne, find-update_self, ids-update}
use pfsense_backups.Replication.{ReplicationConfig}
use pfsense_backups.Replication.Upload.{
  Disk, Env, Attempt, skip, fail, uploaded, attempt, mark, succeeded, replicate_row,
  replicate_backup,
}
use pfsense_backups.Replication.Upload.Verified.{mark-KeepsId, IsUploaded, attempt-IsUploaded}

-- The row after a verified upload.
pub record IsDone (row' : Row) (now : ℕ) (key sha : Text) : Type 0 where
  pub status : row'.replica_status ≡ done
  pub key_set : row'.replica_key ≡ some key
  pub sha_set : row'.replica_sha256 ≡ some sha
  pub error_cleared : row'.replica_error ≡ none
  pub stamped : row'.replica_at ≡ some now

-- The row after an attempt that did not succeed: skipped for want of a local file, or failed and
-- counted; the key and digest of an earlier replica stand.
pub record IsNotDone (row row' : Row) : Type 0 where
  pub verdict :
      ((row'.replica_status ≡ failed) × (row'.replica_attempts ≡ row.replica_attempts + 1))
      ⊎ ((row'.replica_status ≡ skipped) × (row'.replica_attempts ≡ row.replica_attempts))
  pub key_kept : row'.replica_key ≡ row.replica_key
  pub sha_kept : row'.replica_sha256 ≡ row.replica_sha256

-- The columns that describe the local copy.
abbrev pub local_columns : Row → ℕ × Text × Text × ℕ × Bool × Bool × Bool × ℕ × Bool
local_columns r = (
  r.instance_id, r.path, r.filename, r.started_at, r.success, r.encrypted, r.compressed,
  r.size_bytes, r.local_present,
)

mark-local :
    (now : ℕ) (a : Attempt) (row : Row) → local_columns (mark now a row) ≡ local_columns row
unfolding mark
mark-local now skip row = refl
mark-local now (fail p) row = refl
mark-local now (uploaded key sha) row = refl

mark-IsNotDone :
    (now : ℕ) (a : Attempt) (row : Row) → succeeded a ≡ false → IsNotDone row (mark now a row)
unfolding mark
mark-IsNotDone now skip row e = record {
  verdict = inr (refl, refl);
  key_kept = refl;
  sha_kept = refl;
}
mark-IsNotDone now (fail p) row e = record {
  verdict = inl (refl, refl);
  key_kept = refl;
  sha_kept = refl;
}
mark-IsNotDone now (uploaded key sha) row e = cc

mark-IsDone :
    (now : ℕ) (key sha : Text) (row : Row) → IsDone (mark now (uploaded key sha) row) now key sha
unfolding mark
mark-IsDone now key sha row = record {
  status = refl;
  key_set = refl;
  sha_set = refl;
  error_cleared = refl;
  stamped = refl;
}

abbrev attempts_of : ℕ → Option Row → ℕ
attempts_of d none = d
attempts_of d (some r) = r.replica_attempts

mark-attempts :
    (now : ℕ) (a : Attempt) (row : Row)
    → (mark now a row).replica_attempts ≤ row.replica_attempts + 1
unfolding mark
mark-attempts now skip row = omega arith
mark-attempts now (fail p) row = omega arith
mark-attempts now (uploaded key sha) row = omega arith

map-mark_local :
    (now : ℕ) (a : Attempt) (o : Option Row)
    → Option.map local_columns (Option.map (mark now a) o) ≡ Option.map local_columns o
map-mark_local now a none = refl
map-mark_local now a (some r) = ap some (mark-local now a r)

module _ {S : Type 0} (env : Env S) (disk : Disk) (cfg : ReplicationConfig) (now bid : ℕ)
    (t : Table) where
  -- What `replicate_row` makes of an attempt.
  row-true :
      (row row' : Row) (r : Attempt × S) (s' : S)
      → succeeded r.0 ≡ true
      → r.1 ≡ s'
      → (key : Text) × (sha : Text) × (r ≡ (uploaded key sha, s'))
  row-true row row' (skip, s) s' ok_ e = cc
  row-true row row' (fail p, s) s' ok_ e = cc
  row-true row row' (uploaded key sha, s) s' ok_ e = (key, sha, ap (λ x. (uploaded key sha, x)) e)

  -- Where replication is configured and the row exists, a call that returns `True` has called
  -- `upload` of the target with the payload that the local file and the configuration make, under the
  -- name that the row makes, and the call returned; after it the object has the payload's size; and
  -- the row is done, with the name, the payload's digest, the time and no error.
  pub replicate_backup-IsDone :
      (s : S) (row : Row)
      → find bid t ≡ some row
      → (replicate_backup env disk (some cfg) now bid t s).2 ≡ true
      → (key : Text) × (sha : Text) × (row' : Row) × IsUploaded env cfg disk row key sha s
          (replicate_backup env disk (some cfg) now bid t s).1
        × (find bid (replicate_backup env disk (some cfg) now bid t s).0 ≡ some row')
        × IsDone row' now key sha
  unfolding replicate_backup replicate_row
  replicate_backup-IsDone s row found e =
      let r = attempt env cfg disk row s in
      let (key, sha, ran) = row-true row row r r.1 (rw found at e) refl in
      rw found (
        key,
        sha,
        mark now (uploaded key sha) row,
        attempt-IsUploaded env cfg disk row s r.1 key sha ran,
        rw ran (
            find-update_self bid (mark now (uploaded key sha)) t
              (mark-KeepsId now (uploaded key sha)) found),
        mark-IsDone now key sha row,
      )

  row-IsNotDone :
      (s : S) (row : Row)
      → find bid t ≡ some row
      → (replicate_backup env disk (some cfg) now bid t s).2 ≡ false
      → (row' : Row) × (find bid (replicate_backup env disk (some cfg) now bid t s).0 ≡ some row')
        × IsNotDone row row'
  unfolding replicate_backup replicate_row
  row-IsNotDone s row found e =
      let a = (attempt env cfg disk row s).0 in
      rw found (
        mark now a row,
        find-update_self bid (mark now a) t (mark-KeepsId now a) found,
        mark-IsNotDone now a row (rw found at e),
      )

  row-frame :
      (o : Option Row) (s : S) (j : ℕ)
      → (map (λ (r : Row). r.id) (replicate_row env disk cfg now bid t o s).0
          ≡ map (λ (r : Row). r.id) t)
        × ((j ≡ bid) ⊎ (find j (replicate_row env disk cfg now bid t o s).0 ≡ find j t))
        × (Option.map local_columns (find j (replicate_row env disk cfg now bid t o s).0)
            ≡ Option.map local_columns (find j t))
  unfolding replicate_row
  row-frame none s j = (refl, inr refl, refl)
  row-frame (some row) s j =
      let f = mark now (attempt env cfg disk row s).0 in
      let k = mark-KeepsId now (attempt env cfg disk row s).0 in
      (
        ids-update bid f t k,
        elim (ℕ_discrete j bid) [
          | yes e ↦ inl e
          | no ne ↦ inr (find-update_ne bid j f t k (λ e. ne (sym e)))
        ],
        rw (find-update bid j f t k) (elim (Bool-cases (j == bid)) [
          | inl e ↦ rw e (map-mark_local now (attempt env cfg disk row s).0 (find j t))
          | inr e ↦ rw e
        ]),
      )

  -- Whatever the attempt does, it adds and drops no row, leaves every other row as it was, and
  -- leaves the columns about the local copy of its own row.
  pub replicate_backup-frame :
      (s : S) (j : ℕ)
      → (map (λ (r : Row). r.id) (replicate_backup env disk (some cfg) now bid t s).0
          ≡ map (λ (r : Row). r.id) t)
        × ((j ≡ bid) ⊎ (find j (replicate_backup env disk (some cfg) now bid t s).0 ≡ find j t))
        × (Option.map local_columns (find j (replicate_backup env disk (some cfg) now bid t s).0)
            ≡ Option.map local_columns (find j t))
  unfolding replicate_backup replicate_row
  replicate_backup-frame s j = row-frame (find bid t) s j

  -- One call counts at most one attempt.
  pub replicate_backup-attempts :
      (s : S) (row row' : Row)
      → find bid t ≡ some row
      → find bid (replicate_backup env disk (some cfg) now bid t s).0 ≡ some row'
      → row'.replica_attempts ≤ row.replica_attempts + 1
  unfolding replicate_backup replicate_row
  replicate_backup-attempts s row row' found found' =
      let a = (attempt env cfg disk row s).0 in
      let e : some (mark now a row) ≡ some row' =
        sym (find-update_self bid (mark now a) t (mark-KeepsId now a) found)
        ∙ (rw found at found') in
      omega (arith, mark-attempts now a row, ap (attempts_of 0) e)

-- What a call that returns `False` leaves, by the configuration: without one, nothing has changed.
abbrev pub Unreplicated :
    {S : Type 0} → Option ReplicationConfig → ℕ → Table → S → Row → Table × S × Bool → Type 0
Unreplicated none bid t s row r = (r.0 ≡ t) × (r.1 ≡ s)
Unreplicated (some cfg) bid t s row r =
    (row' : Row) × (find bid r.0 ≡ some row') × IsNotDone row row'

-- A call that returns `False` for a row that exists: where no replication is configured, it has
-- changed neither the table nor the remote side; otherwise the row is marked failed, and the attempt
-- counted, or skipped, and an earlier replica's key and digest stay recorded.
pub replicate_backup-IsNotDone :
    {S : Type 0} (env : Env S) (disk : Disk) (cfg : Option ReplicationConfig) (now bid : ℕ)
    (t : Table) (s : S) (row : Row)
    → find bid t ≡ some row
    → (replicate_backup env disk cfg now bid t s).2 ≡ false
    → Unreplicated cfg bid t s row (replicate_backup env disk cfg now bid t s)
unfolding replicate_backup
replicate_backup-IsNotDone env disk none now bid t s row found e = (refl, refl)
replicate_backup-IsNotDone env disk (some cfg) now bid t s row found e =
    row-IsNotDone env disk cfg now bid t s row found e

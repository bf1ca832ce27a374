-- ===== src/Replication/Sweep/Effect.antt =====
-- What a whole sweep, worker/replication.py, leaves in the table.
use mathlib.Core.Option
use pfsense_backups.Prelude.{
  ℕ, ◌≡◌, refl, sym, ap, ◌∙◌, ◌≢◌, inl, inr, Bool, true, false, some, [], ◌∷◌, select, All, In,
  Bool-cases,
}
use pfsense_backups.Store.{Row, Table, find}
use pfsense_backups.Replication.{Outcome, ok, raise, ReplicationConfig}
use pfsense_backups.Replication.Upload.{Target, Disk, Env}
use pfsense_backups.Replication.Upload.Effect.{local_columns}
use pfsense_backups.Replication.Sweep.{is_eligible, Sweep, sweep_rows, sweep_pending}
use pfsense_backups.Replication.Sweep.Bound.{
  IsKeyed, select-IsKeyed, find-of_In, IsBounded, select-Untried, sweep_rows-IsBounded,
  sweep_rows-find, sweep_rows-columns,
}

-- An id whose row is not eligible is not among those selected.
not_selected :
    (t u : Table) (j : ℕ) (q : Row)
    → IsKeyed u
    → ((x : Row) → In x t → In x u)
    → find j u ≡ some q
    → is_eligible q ≡ false
    → All (λ (x : Row). x.id ≢ j) (select is_eligible t)
not_selected [] u j q k sub found idle = tt
not_selected (r ∷ rs) u j q k sub found idle =
    let later = not_selected rs u j q k (λ x m. sub x (inr m)) found idle in
    elim (Bool-cases (is_eligible r)) [
      | inl e ↦ rw e (
        λ same.
            let mine = find-of_In r u k (sub r (inl refl)) in
            let eq : some r ≡ some q = sym mine ∙ (ap (λ x. find x u) same ∙ found) in
            differ eq e idle,
        later,
      )
      | inr e ↦ rw e later
    ]
  where
    differ : some r ≡ some q → is_eligible r ≡ true → is_eligible q ≡ false → ⊥
    differ eq e idle = cc

module _ {S : Type 0} (env : Env S) (disk : Disk) (cfg : ReplicationConfig) (notifies : Bool)
    (now stamp : ℕ) (t : Table) (s : S) where
  sweep-eq-ok :
      (out : Sweep S)
      → sweep_pending env disk (some cfg) notifies now stamp t s ≡ ok out
      → out
        ≡ sweep_rows env disk cfg notifies now stamp
            (select is_eligible t)
            (record { table = t; remote = s; successes = 0; alerts = []; overflowed = false })
  unfolding sweep_pending
  sweep-eq-ok out e = past env.target e
    where
      past :
          (o : Outcome (Target S))
          → elim o as (λ x. Outcome (Sweep S)) [
            | raise p ↦ raise p
            | ok target ↦ ok (
                sweep_rows env disk cfg notifies now stamp (select is_eligible t) (record {
                  table = t;
                  remote = s;
                  successes = 0;
                  alerts = [];
                  overflowed = false;
                }))
          ]
            ≡ ok out
          → out
            ≡ sweep_rows env disk cfg notifies now stamp
                (select is_eligible t)
                (record { table = t; remote = s; successes = 0; alerts = []; overflowed = false })
      past (raise p) h = cc
      past (ok target) h = cc

  -- Over a table with unique ids whose rows have at most `MAX_ATTEMPTS` failed attempts counted, a sweep leaves no
  -- row with more failed attempts counted.
  pub sweep_pending-IsBounded :
      (out : Sweep S)
      → IsKeyed t
      → IsBounded t
      → sweep_pending env disk (some cfg) notifies now stamp t s ≡ ok out
      → IsBounded out.table
  sweep_pending-IsBounded out k b e = rw (sweep-eq-ok out e) (
      sweep_rows-IsBounded env disk cfg notifies now stamp (select is_eligible t)
        (record { table = t; remote = s; successes = 0; alerts = []; overflowed = false })
        (select-IsKeyed is_eligible t k) (select-Untried t t k (λ q m. m)) b)

  -- A sweep leaves every row as it was that is not eligible: uploaded or skipped or never queued,
  -- out of attempts, or without a local file.
  pub sweep_pending-idle :
      (out : Sweep S) (j : ℕ) (q : Row)
      → IsKeyed t
      → find j t ≡ some q
      → is_eligible q ≡ false
      → sweep_pending env disk (some cfg) notifies now stamp t s ≡ ok out
      → find j out.table ≡ some q
  sweep_pending-idle out j q k found idle e = rw (sweep-eq-ok out e) (
      sweep_rows-find env disk cfg notifies now stamp (select is_eligible t)
        (record { table = t; remote = s; successes = 0; alerts = []; overflowed = false }) j
        (not_selected t t j q k (λ x m. m) found idle)
      ∙ found)

  -- A sweep leaves the columns of every row that describe its local copy.
  pub sweep_pending-columns :
      (out : Sweep S) (j : ℕ)
      → sweep_pending env disk (some cfg) notifies now stamp t s ≡ ok out
      → Option.map local_columns (find j out.table) ≡ Option.map local_columns (find j t)
  sweep_pending-columns out j e = rw (sweep-eq-ok out e) (
      sweep_rows-columns env disk cfg notifies now stamp (select is_eligible t)
        (record { table = t; remote = s; successes = 0; alerts = []; overflowed = false }) j)

-- ===== src/Replication/Sweep/Examples.antt =====
-- A table with one backup to retry and one that is done, on which the results about sweeps are
-- applied.
use pfsense_backups.Prelude.{
  ℕ, ◌+◌, ◌≡◌, refl, inl, inr, true, false, Option, none, some, List, [], ◌∷◌, arith,
}
use pfsense_backups.Store.{Row, Table, find, failed, done, pruned}
use pfsense_backups.Replication.{ok}
use pfsense_backups.Replication.Backoff.{cap_us}
use pfsense_backups.Replication.Upload.Samples.{object_store, env, cfg, row, full_disk}
use pfsense_backups.Replication.Sweep.{Sweep, sweep_pending}
use pfsense_backups.Replication.Sweep.Bound.{IsKeyed, IsBounded}
use pfsense_backups.Replication.Sweep.Progress.{IsAsking, IsTried, sweep_pending-IsTried}
use pfsense_backups.Replication.Sweep.Effect.{sweep_pending-IsBounded}

abbrev tried : Row
tried = record row { replica_status = failed; replica_attempts = 7; replica_error = some pruned }

abbrev kept : Row
kept = record row { id = 8; replica_status = done; replica_attempts = 1 }

abbrev table : Table
table = tried ∷ kept ∷ []

after : Sweep (Option (List ℕ))
unfolding sweep_pending
after = elim (sweep_pending env full_disk (some cfg) true 9 9 table none) [
  | ok out ↦ out
  | _ ↦ record { table = []; remote = none; successes = 0; alerts = []; overflowed = false }
]

swept : sweep_pending env full_disk (some cfg) true 9 9 table none ≡ ok after
unfolding sweep_pending after
swept = refl

table-IsKeyed : IsKeyed table
table-IsKeyed = ((omega arith, tt), (tt, tt))

table-IsBounded : IsBounded table
unfolding find
table-IsBounded j q e = ground arith

sweep_pending-IsBounded_example : IsBounded after.table
sweep_pending-IsBounded_example =
    sweep_pending-IsBounded env full_disk cfg true 9 9 table none after table-IsKeyed
      table-IsBounded swept

-- The row was last tried a day ago.
abbrev waiting : Row
waiting = record tried { replica_at = some 9 }

waiting-IsAsking : IsAsking waiting (9 + cap_us)
waiting-IsAsking = record {
  outstanding = inr refl;
  tries = omega arith;
  present = refl;
  waited = inr (9, (refl, omega arith));
}

sweep_pending-IsTried_example :
    (out : Sweep (Option (List ℕ))) × ((sweep_pending env full_disk
          (some cfg)
          true
          (9 + cap_us)
          (9 + cap_us)
          (waiting ∷ kept ∷ [])
          none
        ≡ ok out)
      × ((out.overflowed ≡ false) × IsTried (9 + cap_us) (find 7 out.table)))
sweep_pending-IsTried_example =
    sweep_pending-IsTried env full_disk cfg true (9 + cap_us) (9 + cap_us) object_store
      (waiting ∷ kept ∷ []) none waiting refl ((omega arith, tt), (tt, tt)) (inl refl)
      waiting-IsAsking

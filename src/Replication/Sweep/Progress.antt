-- ===== src/Replication/Sweep/Progress.antt =====
-- `sweep_pending`, worker/replication.py: a backup that asks for an upload gets an attempt.
use pfsense_backups.Prelude.{
  ℕ, ◌+◌, ◌≤◌, ◌<◌, ◌≡◌, refl, sym, ap, ◌∙◌, ◌≢◌, subst, ◌⊎◌, inl, inr, Bool, true, false, Option,
  none, some, List, [], ◌∷◌, arith, select, select-passed, select-In, All, All-In, All-of_In, In,
}
use pfsense_backups.Store.{pending, done, failed, skipped, Row, Table, find}
use pfsense_backups.Store.Laws.{find-update_self}
use pfsense_backups.Replication.{Outcome, ok, raise, ReplicationConfig}
use pfsense_backups.Replication.Backoff.{
  attempt_due, cap_us, attempt_due_in_a_day, attempt_due-some,
}
use pfsense_backups.Replication.Upload.{
  Target, Disk, Env, Attempt, skip, fail, uploaded, attempt, mark, replicate_row, replicate_backup,
}
use pfsense_backups.Replication.Upload.Verified.{mark-KeepsId}
use pfsense_backups.Replication.Sweep.{
  is_eligible, Sweep, sweep_row, sweep_next, sweep_rows, sweep_pending,
}
use pfsense_backups.Replication.Sweep.Bound.{
  IsKeyed, select-IsKeyed, find-of_In, sweep_row-find, sweep_rows-find,
}

-- A row whose upload is outstanding, which has a local file and fewer than eight failed attempts, and
-- whose last attempt, if there was one, is a day ago.
pub record IsAsking (r : Row) (now : ℕ) : Type 0 where
  pub outstanding : (r.replica_status ≡ pending) ⊎ (r.replica_status ≡ failed)
  pub tries : r.replica_attempts < 8
  pub present : r.local_present ≡ true
  pub waited :
      (r.replica_at ≡ none) ⊎ ((last : ℕ) × ((r.replica_at ≡ some last) × (last + cap_us ≤ now)))

-- The row of an attempt at a time: the upload succeeded or failed, or there was no file.
abbrev pub IsTried : ℕ → Option Row → Type 0
IsTried stamp o =
    (row : Row) × ((o ≡ some row)
      × ((row.replica_at ≡ some stamp)
          × ((row.replica_status ≡ done)
              ⊎ ((row.replica_status ≡ failed) ⊎ (row.replica_status ≡ skipped)))))

mark-IsTried : (stamp : ℕ) (a : Attempt) (row : Row) → IsTried stamp (some (mark stamp a row))
unfolding mark
mark-IsTried stamp skip row = (_, (refl, (refl, inr (inr refl))))
mark-IsTried stamp (fail p) row = (_, (refl, (refl, inr (inl refl))))
mark-IsTried stamp (uploaded key sha) row = (_, (refl, (refl, inl refl)))

is_eligible-asking : (r : Row) (now : ℕ) → IsAsking r now → is_eligible r ≡ true
unfolding is_eligible
is_eligible-asking r now a = elim a.outstanding [
  | inl e ↦ let h = a.tries in let p = a.present in ground arith
  | inr e ↦ let h = a.tries in let p = a.present in ground arith
]

due-asking :
    (r : Row) (now : ℕ)
    → IsAsking r now
    → attempt_due r.replica_attempts r.replica_at now ≡ some true
unfolding attempt_due
due-asking r now a = elim a.waited [
  | inl e ↦ rw e refl
  | inr (last, (e, late)) ↦
      rw e (attempt_due_in_a_day r.replica_attempts last now (let t = a.tries in omega arith) late)
]

abbrev IsSmall : Row → Type 0
IsSmall r = r.replica_attempts ≤ 38

eligible-IsSmall : (r : Row) → is_eligible r ≡ true → IsSmall r
unfolding is_eligible
eligible-IsSmall r e = ground arith

module _ {S : Type 0} (env : Env S) (disk : Disk) (cfg : ReplicationConfig) (notifies : Bool)
    (now stamp : ℕ) where
  replicate_backup-IsTried :
      (bid : ℕ) (t : Table) (s : S) (row : Row)
      → find bid t ≡ some row
      → IsTried stamp (find bid (replicate_backup env disk (some cfg) stamp bid t s).0)
  unfolding replicate_backup replicate_row
  replicate_backup-IsTried bid t s row found =
      let a = (attempt env cfg disk row s).0 in
      rw found (
        subst (IsTried stamp)
          (sym (find-update_self bid (mark stamp a) t (mark-KeepsId stamp a) found))
          (mark-IsTried stamp a row))

  sweep_row-overflowed :
      (due : Bool) (r : Row) (st : Sweep S)
      → (sweep_row env disk cfg notifies now stamp due r st).overflowed ≡ st.overflowed
  unfolding sweep_row
  sweep_row-overflowed false r st = refl
  sweep_row-overflowed true r st = refl

  -- Where no row has more than 38 failed attempts, the loop reaches its end.
  sweep_rows-overflowed :
      (rs : List Row) (st : Sweep S)
      → All IsSmall rs
      → (sweep_rows env disk cfg notifies now stamp rs st).overflowed ≡ st.overflowed
  unfolding sweep_rows sweep_next
  sweep_rows-overflowed [] st h = refl
  sweep_rows-overflowed (r ∷ rs) st h =
      let (due, e) = attempt_due-some r.replica_attempts r.replica_at now h.0 in
      rw e (
        sweep_rows-overflowed rs (sweep_row env disk cfg notifies now stamp due r st) h.1
        ∙ sweep_row-overflowed due r st)

  sweep_rows-IsTried :
      (rs : List Row) (st : Sweep S) (r : Row)
      → IsKeyed rs
      → All IsSmall rs
      → In r rs
      → find r.id st.table ≡ some r
      → attempt_due r.replica_attempts r.replica_at now ≡ some true
      → IsTried stamp (find r.id (sweep_rows env disk cfg notifies now stamp rs st).table)
  unfolding sweep_rows sweep_next sweep_row
  sweep_rows-IsTried [] st r k h m found d = absurd m
  sweep_rows-IsTried (x ∷ xs) st r k h (inr m) found d =
      let (due, e) = attempt_due-some x.replica_attempts x.replica_at now h.0 in
      let ne = All-In (λ (q : Row). q.id ≢ x.id) xs k.0 m in
      rw e (
        sweep_rows-IsTried xs (sweep_row env disk cfg notifies now stamp due x st) r k.1 h.1 m
          (sweep_row-find env disk cfg notifies now stamp due x st r.id (λ same. ne (sym same))
            ∙ found)
          d)
  sweep_rows-IsTried (x ∷ xs) st r k h (inl e) found d =
      rw (e, ap (λ (q : Row). attempt_due q.replica_attempts q.replica_at now) (sym e) ∙ d)
        (subst (IsTried stamp)
          (sym (
            sweep_rows-find env disk cfg notifies now stamp xs
              (sweep_row env disk cfg notifies now stamp true x st) x.id k.0))
          (replicate_backup-IsTried x.id st.table st.remote r
            (ap (λ (q : Row). find q.id st.table) (sym e) ∙ found)))

  -- A sweep whose target can be made reaches its end without an overflow, and each row of a table
  -- with unique ids that is pending or failed, has a local file and fewer than eight failed attempts,
  -- and was never tried or last tried a day ago or earlier, gets an attempt: afterwards it carries the
  -- time of this sweep and is done, failed or skipped.
  pub sweep_pending-IsTried :
      (target : Target S) (t : Table) (s : S) (r : Row)
      → env.target ≡ ok target
      → IsKeyed t
      → In r t
      → IsAsking r now
      → (out : Sweep S) × ((sweep_pending env disk (some cfg) notifies now stamp t s ≡ ok out)
          × ((out.overflowed ≡ false) × IsTried stamp (find r.id out.table)))
  unfolding sweep_pending
  sweep_pending-IsTried target t s r made k m a =
      let rs = select is_eligible t in
      let st : Sweep S = record {
        table = t;
        remote = s;
        successes = 0;
        alerts = [];
        overflowed = false;
      } in
      let small = All-of_In IsSmall rs (λ x n.
        eligible-IsSmall x
          (All-In (λ q. is_eligible q ≡ true) rs (select-passed is_eligible t) n)) in
      (
        sweep_rows env disk cfg notifies now stamp rs st,
        (
          ap
              (λ o. elim o as (λ x. Outcome (Sweep S)) [
                | raise p ↦ raise p
                | ok t' ↦ ok (sweep_rows env disk cfg notifies now stamp rs st)
              ])
              made,
          (
            sweep_rows-overflowed rs st small,
            sweep_rows-IsTried rs st r (select-IsKeyed is_eligible t k) small
                (select-In is_eligible t r m (is_eligible-asking r now a)) (find-of_In r t k m)
                (due-asking r now a),
          ),
        ),
      )

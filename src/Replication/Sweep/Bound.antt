-- ===== src/Replication/Sweep/Bound.antt =====
-- One round of the loop of `sweep_pending`, worker/replication.py, and the loop.
use mathlib.Core.Option
use pfsense_backups.Prelude.{
  ℕ, ◌+◌, ◌≤◌, ◌<◌, ◌≡◌, refl, sym, ap, ◌∙◌, ◌≢◌, inl, inr, Bool, true, false, Option, none, some,
  List, [], ◌∷◌, arith, select, select-All, All, In, All-In, Bool-cases, Option-cases,
}
use native.Mathlib.Decide.{ℕ_discrete}
use pfsense_backups.Store.{Row, Table, find}
use pfsense_backups.Replication.{ReplicationConfig}
use pfsense_backups.Replication.Backoff.{attempt_due}
use pfsense_backups.Replication.Upload.{Disk, Env}
use pfsense_backups.Replication.Upload.Effect.{
  local_columns, replicate_backup-frame, replicate_backup-attempts,
}
use pfsense_backups.Replication.Sweep.{
  max_attempts, is_eligible, Sweep, sweep_row, sweep_next, sweep_rows,
}

-- The primary key: no two rows have one id.
abbrev pub IsKeyed : Table → Type 0
IsKeyed [] = Unit
IsKeyed (r ∷ rs) = All (λ (q : Row). q.id ≢ r.id) rs × IsKeyed rs

pub select-IsKeyed : (p : Row → Bool) (t : Table) → IsKeyed t → IsKeyed (select p t)
select-IsKeyed p [] h = tt
select-IsKeyed p (r ∷ rs) h = elim (Bool-cases (p r)) [
  | inl e ↦ rw e (select-All (λ (q : Row). q.id ≢ r.id) p rs h.0, select-IsKeyed p rs h.1)
  | inr e ↦ rw e (select-IsKeyed p rs h.1)
]

-- Under a primary key, a row of the table is what its id finds.
pub find-of_In : (r : Row) (t : Table) → IsKeyed t → In r t → find r.id t ≡ some r
unfolding find
find-of_In r [] h m = absurd m
find-of_In r (q ∷ qs) h (inl e) = rw e (ground arith)
find-of_In r (q ∷ qs) h (inr m) =
    let ne = All-In (λ (x : Row). x.id ≢ q.id) qs h.0 m in ground (arith, find-of_In r qs h.1 m)

-- What a sweep may assume of a row that it has still to try.
abbrev pub Untried : Table → Row → Type 0
Untried t r = (q : Row) → find r.id t ≡ some q → q.replica_attempts < max_attempts

abbrev pub IsBounded : Table → Type 0
IsBounded t = (j : ℕ) (q : Row) → find j t ≡ some q → q.replica_attempts ≤ max_attempts

pub select-Untried :
    (t u : Table)
    → IsKeyed u
    → ((q : Row) → In q t → In q u)
    → All (Untried u) (select is_eligible t)
unfolding is_eligible
select-Untried [] u k sub = tt
select-Untried (r ∷ rs) u k sub = elim (Bool-cases (is_eligible r)) [
  | inl e ↦ rw e (
    λ q found. let same = find-of_In r u k (sub r (inl refl)) in ground arith,
    select-Untried rs u k (λ q m. sub q (inr m)),
  )
  | inr e ↦ rw e (select-Untried rs u k (λ q m. sub q (inr m)))
]

none-ne-some : {A : Type 0} {a : A} → ◌≡◌ {A = Option A} none (some a) → ⊥
none-ne-some e = cc

module _ {S : Type 0} (env : Env S) (disk : Disk) (cfg : ReplicationConfig) (notifies : Bool)
    (now stamp : ℕ) where
  -- One round changes at most the row that it tries.
  pub sweep_row-find :
      (due : Bool) (r : Row) (st : Sweep S) (j : ℕ)
      → r.id ≢ j
      → find j (sweep_row env disk cfg notifies now stamp due r st).table ≡ find j st.table
  unfolding sweep_row
  sweep_row-find false r st j ne = refl
  sweep_row-find true r st j ne =
      elim (replicate_backup-frame env disk cfg stamp r.id st.table st.remote j).1 [
        | inl same ↦ absurd (ne (sym same))
        | inr h ↦ h
      ]

  -- One round leaves the columns about the local copies.
  sweep_row-columns :
      (due : Bool) (r : Row) (st : Sweep S) (j : ℕ)
      → Option.map local_columns (find j (sweep_row env disk cfg notifies now stamp due r st).table)
        ≡ Option.map local_columns (find j st.table)
  unfolding sweep_row
  sweep_row-columns false r st j = refl
  sweep_row-columns true r st j =
      (replicate_backup-frame env disk cfg stamp r.id st.table st.remote j).2

  -- One round tries a row at most once.
  sweep_row-attempts :
      (due : Bool) (r : Row) (st : Sweep S) (q q' : Row)
      → find r.id st.table ≡ some q
      → find r.id (sweep_row env disk cfg notifies now stamp due r st).table ≡ some q'
      → q'.replica_attempts ≤ q.replica_attempts + 1
  unfolding sweep_row
  sweep_row-attempts false r st q q' found found' =
      let same : some q ≡ some q' = sym found ∙ found' in ground arith
  sweep_row-attempts true r st q q' found found' =
      replicate_backup-attempts env disk cfg stamp r.id st.table st.remote q q' found found'

  -- The rows still to try, after one round.
  Untried-after :
      (due : Bool) (r : Row) (st : Sweep S) (rs : List Row)
      → All (λ (x : Row). x.id ≢ r.id) rs
      → All (Untried st.table) rs
      → All (Untried (sweep_row env disk cfg notifies now stamp due r st).table) rs
  Untried-after due r st [] ne h = tt
  Untried-after due r st (x ∷ xs) ne h = (
    λ q found. h.0 q (sym (sweep_row-find due r st x.id (λ e. ne.0 (sym e))) ∙ found),
    Untried-after due r st xs ne.1 h.1,
  )

  IsBounded-after :
      (due : Bool) (r : Row) (st : Sweep S)
      → Untried st.table r
      → IsBounded st.table
      → IsBounded (sweep_row env disk cfg notifies now stamp due r st).table
  IsBounded-after due r st un b j q found = elim (ℕ_discrete r.id j) [
    | yes e ↦
        let found' = rw (← e) at found in
        elim (Option-cases (find r.id st.table)) [
          | inl gone ↦ absurd (
              none-ne-some (
                sym (ap (Option.map local_columns) gone)
                ∙ sym (sweep_row-columns due r st r.id)
                ∙ ap (Option.map local_columns) found'))
          | inr (p, here_) ↦
              let few = un p here_ in omega (arith, sweep_row-attempts due r st p q here_ found')
        ]
    | no ne ↦ b j q (sym (sweep_row-find due r st j ne) ∙ found)
  ]

  -- One round has what an overflow has, and what the rest of the loop has after it.
  sweep_next-cases :
      (P : Sweep S → Type 0) (o : Option Bool) (r : Row) (rest : Sweep S → Sweep S) (st : Sweep S)
      → P (record st { overflowed = true })
      → ((due : Bool) → P (rest (sweep_row env disk cfg notifies now stamp due r st)))
      → P (sweep_next env disk cfg notifies now stamp o r rest st)
  unfolding sweep_next
  sweep_next-cases P none r rest st over go = over
  sweep_next-cases P (some due) r rest st over go = go due

  pub sweep_rows-IsBounded :
      (rs : List Row) (st : Sweep S)
      → IsKeyed rs
      → All (Untried st.table) rs
      → IsBounded st.table
      → IsBounded (sweep_rows env disk cfg notifies now stamp rs st).table
  unfolding sweep_rows
  sweep_rows-IsBounded [] st k un b = b
  sweep_rows-IsBounded (r ∷ rs) st k un b =
      sweep_next-cases (λ x. IsBounded x.table) (attempt_due r.replica_attempts r.replica_at now) r
        (sweep_rows env disk cfg notifies now stamp rs) st b
        (λ due.
          sweep_rows-IsBounded rs (sweep_row env disk cfg notifies now stamp due r st) k.1
            (Untried-after due r st rs k.0 un.1) (IsBounded-after due r st un.0 b))

  pub sweep_rows-find :
      (rs : List Row) (st : Sweep S) (j : ℕ)
      → All (λ (x : Row). x.id ≢ j) rs
      → find j (sweep_rows env disk cfg notifies now stamp rs st).table ≡ find j st.table
  unfolding sweep_rows
  sweep_rows-find [] st j h = refl
  sweep_rows-find (r ∷ rs) st j h =
      sweep_next-cases (λ x. find j x.table ≡ find j st.table)
        (attempt_due r.replica_attempts r.replica_at now) r
        (sweep_rows env disk cfg notifies now stamp rs) st refl
        (λ due.
          sweep_rows-find rs (sweep_row env disk cfg notifies now stamp due r st) j h.1
          ∙ sweep_row-find due r st j h.0)

  pub sweep_rows-columns :
      (rs : List Row) (st : Sweep S) (j : ℕ)
      → Option.map local_columns (find j (sweep_rows env disk cfg notifies now stamp rs st).table)
        ≡ Option.map local_columns (find j st.table)
  unfolding sweep_rows
  sweep_rows-columns [] st j = refl
  sweep_rows-columns (r ∷ rs) st j =
      sweep_next-cases
        (λ x.
          Option.map local_columns (find j x.table) ≡ Option.map local_columns (find j st.table))
        (attempt_due r.replica_attempts r.replica_at now) r
        (sweep_rows env disk cfg notifies now stamp rs) st refl
        (λ due.
          sweep_rows-columns rs (sweep_row env disk cfg notifies now stamp due r st) j
          ∙ sweep_row-columns due r st j)

-- ===== src/Replication/Verify/Sound.antt =====
-- After a verification, worker/replication.py, what is still `done` is on the remote side.
use pfsense_backups.Prelude.{
  ℕ, suc, ◌+◌, ◌≡◌, refl, sym, ap, ◌∙◌, ◌≢◌, ◌⊎◌, inl, inr, Bool, true, false, Option, none, some,
  List, [], ◌∷◌, arith, ◌==◌, select, length, All, In, All-In, Bool-cases,
}
use pfsense_backups.Store.{Text, Bytes, Problem, remote_corrupt, Row, Table, find, done}
use pfsense_backups.Store.Laws.{KeepsId, find-update_ne, find-update_self}
use pfsense_backups.Replication.{Outcome, ok, raise, ReplicationConfig}
use pfsense_backups.Replication.Upload.{Target, Env}
use pfsense_backups.Replication.Sweep.Bound.{IsKeyed, select-IsKeyed}
use pfsense_backups.Replication.Verify.{
  text_eq, check_digest, check_contents, check_object, check_replica, flag, Verdict, settle,
  verify_rows, is_checked, verify_replicas,
}

flag-KeepsId : (p : Problem) → KeepsId (flag p)
unfolding flag
flag-KeepsId p r = refl

settle-ne :
    (bid j : ℕ) (o : Option Problem) (v : Verdict)
    → bid ≢ j
    → find j (settle bid o v).table ≡ find j v.table
unfolding settle
settle-ne bid j none v ne = refl
settle-ne bid j (some p) v ne = find-update_ne bid j (flag p) v.table (flag-KeepsId p) ne

settle-checked :
    (bid : ℕ) (o : Option Problem) (v : Verdict) → (settle bid o v).checked ≡ suc v.checked
unfolding settle
settle-checked bid none v = refl
settle-checked bid (some p) v = refl

-- What a row is after its own round.
settle_self :
    (bid : ℕ) (o : Option Problem) (v : Verdict) (r q : Row)
    → find bid v.table ≡ some r
    → find bid (settle bid o v).table ≡ some q
    → q.replica_status ≡ done
    → (o ≡ none) × (q ≡ r)
unfolding settle flag
settle_self bid none v r q found found' st = (refl, cc)
settle_self bid (some p) v r q found found' st =
    let e = find-update_self bid (flag p) v.table (flag-KeepsId p) found in cc

module _ {S : Type 0} (sha256 : Bytes → Text) (t : Target S) (deep : Bool) (s : S) where
  abbrev problem_of : Row → Option Problem
  problem_of r = check_replica sha256 t deep s r.replica_key r.replica_sha256

  verify_rows-ne :
      (rs : List Row) (v : Verdict) (j : ℕ)
      → All (λ (x : Row). x.id ≢ j) rs
      → find j (verify_rows sha256 t deep s rs v).table ≡ find j v.table
  unfolding verify_rows
  verify_rows-ne [] v j h = refl
  verify_rows-ne (r ∷ rs) v j h =
      verify_rows-ne rs (settle r.id (problem_of r) v) j h.1 ∙ settle-ne r.id j (problem_of r) v h.0

  verify_rows-done :
      (rs : List Row) (v : Verdict) (r q : Row)
      → IsKeyed rs
      → In r rs
      → find r.id v.table ≡ some r
      → find r.id (verify_rows sha256 t deep s rs v).table ≡ some q
      → q.replica_status ≡ done
      → (problem_of r ≡ none) × (q ≡ r)
  unfolding verify_rows
  verify_rows-done [] v r q k m found found' st = absurd m
  verify_rows-done (x ∷ xs) v r q k (inl e) found found' st =
      settle_self r.id (problem_of r) v r q found
        (sym (verify_rows-ne xs (settle r.id (problem_of r) v) r.id (rw e k.0))
          ∙ (rw (← e) at found'))
        st
  verify_rows-done (x ∷ xs) v r q k (inr m) found found' st =
      let ne = All-In (λ (y : Row). y.id ≢ x.id) xs k.0 m in
      verify_rows-done xs (settle x.id (problem_of x) v) r q k.1 m
        (settle-ne x.id r.id (problem_of x) v (λ e. ne (sym e)) ∙ found) found' st

  verify_rows-count :
      (rs : List Row) (v : Verdict)
      → (verify_rows sha256 t deep s rs v).checked ≡ v.checked + length rs
  unfolding verify_rows
  verify_rows-count [] v = omega arith
  verify_rows-count (r ∷ rs) v = omega (
    arith,
    verify_rows-count rs (settle r.id (problem_of r) v),
    settle-checked r.id (problem_of r) v,
  )

-- What `check_replica` finds nothing wrong with: the object is there, and under `deep` its digest is
-- the recorded one, where one is recorded.
pub record IsRemote {S : Type 0} (sha256 : Bytes → Text) (t : Target S) (deep : Bool) (s : S)
    (row : Row) : Type 0 where
  pub key : Text
  pub named : row.replica_key ≡ some key
  pub size : ℕ
  pub there : t.head_size key s ≡ ok (some size)
  pub intact :
      (deep ≡ false)
      ⊎ (row.replica_sha256 ≡ none)
      ⊎ (row.replica_sha256 ≡ some [])
      ⊎ ((blob : Bytes) × (t.download key s ≡ ok blob) × (row.replica_sha256 ≡ some (sha256 blob)))

text_eq-eq : (a b : Text) → text_eq a b ≡ true → a ≡ b
text_eq-eq [] [] h = refl
text_eq-eq [] (b ∷ bs) h = cc
text_eq-eq (a ∷ as') [] h = cc
text_eq-eq (a ∷ as') (b ∷ bs) h = ground (arith, text_eq-eq as' bs)

module _ {S : Type 0} (sha256 : Bytes → Text) (t : Target S) (deep : Bool) (s : S) where
  abbrev Intact : Text → Option Text → Type 0
  Intact key sha =
      (deep ≡ false)
      ⊎ (sha ≡ none)
      ⊎ (sha ≡ some [])
      ⊎ ((blob : Bytes) × (t.download key s ≡ ok blob) × (sha ≡ some (sha256 blob)))

  digest-Intact :
      (key sha : Text) (o : Outcome Bytes)
      → t.download key s ≡ o
      → check_digest sha256 t deep s sha o ≡ none
      → (blob : Bytes) × (t.download key s ≡ ok blob) × (sha ≡ sha256 blob)
  unfolding check_digest
  digest-Intact key sha (raise p) e h = cc
  digest-Intact key sha (ok blob) e h = elim (Bool-cases (text_eq (sha256 blob) sha)) [
    | inl same ↦ (blob, e, sym (text_eq-eq (sha256 blob) sha same))
    | inr other ↦ absurd (none-ne (rw other at h))
  ]
    where
      none-ne : some remote_corrupt ≡ none → ⊥
      none-ne q = cc

  contents-Intact :
      (key : Text) (sha : Option Text)
      → check_contents sha256 t deep s key sha ≡ none
      → Intact key sha
  unfolding check_contents
  contents-Intact key none h = inr (inl refl)
  contents-Intact key (some []) h = inr (inr (inl refl))
  contents-Intact key (some (c ∷ cs)) h = elim (Bool-cases deep) [
    | inl on ↦
        let (blob, e, same) = digest-Intact key (c ∷ cs) (t.download key s) refl (rw on at h) in
        inr (inr (inr (blob, e, ap some same)))
    | inr off ↦ inl off
  ]

  object-there :
      (key : Text) (sha : Option Text) (o : Outcome (Option ℕ))
      → check_object sha256 t deep s key sha o ≡ none
      → (size : ℕ) × (o ≡ ok (some size)) × Intact key sha
  unfolding check_object
  object-there key sha (raise p) h = cc
  object-there key sha (ok none) h = cc
  object-there key sha (ok (some size)) h = (size, refl, contents-Intact key sha h)

  replica-IsRemote :
      (row : Row) (k : Option Text)
      → row.replica_key ≡ k
      → check_replica sha256 t deep s k row.replica_sha256 ≡ none
      → IsRemote sha256 t deep s row
  unfolding check_replica
  replica-IsRemote row none e h = cc
  replica-IsRemote row (some key) e h =
      let (size, there, intact) = object-there key row.replica_sha256 (t.head_size key s) h in
      record { key = key; named = e; size = size; there = there; intact = intact }

In-select : (p : Row → Bool) (r : Row) (t : Table) → In r t → p r ≡ true → In r (select p t)
In-select p r [] m h = absurd m
In-select p r (x ∷ xs) (inl e) h = let px : p x ≡ true = ap p (sym e) ∙ h in rw px (inl e)
In-select p r (x ∷ xs) (inr m) h = elim (Bool-cases (p x)) [
  | inl e ↦ rw e (inr (In-select p r xs m h))
  | inr e ↦ rw e (In-select p r xs m h)
]

In-of_find : (j : ℕ) (t : Table) (r : Row) → find j t ≡ some r → In r t × (r.id ≡ j)
unfolding find
In-of_find j [] r e = cc
In-of_find j (x ∷ xs) r e = elim (Bool-cases (x.id == j)) [
  | inl h ↦ let same : some x ≡ some r = rw h at e in (inl (cc), ground arith)
  | inr h ↦ let (m, i) = In-of_find j xs r (rw h at e) in (inr m, i)
]

-- Over a table with unique ids: a row of the given instance (or of any) that was `done` and still is
-- after the verification is unchanged, its remote object is there, and, where `deep` asks for it and
-- a digest is recorded, the object's digest is that one.
pub verify_replicas-IsRemote :
    {S : Type 0} (env : Env S) (cfg : ReplicationConfig) (instance_id : Option ℕ) (deep : Bool)
    (t : Table) (s : S) (target : Target S) (out : Verdict) (j : ℕ) (r q : Row)
    → env.target ≡ ok target
    → IsKeyed t
    → verify_replicas env (some cfg) instance_id deep t s ≡ ok out
    → find j t ≡ some r
    → is_checked instance_id r ≡ true
    → find j out.table ≡ some q
    → q.replica_status ≡ done
    → IsRemote env.sha256 target deep s r × (q ≡ r)
unfolding verify_replicas
verify_replicas-IsRemote env cfg instance_id deep t s target out j r q reached k e found mine found'
      st =
    let rs = select (is_checked instance_id) t in
    let v = verify_rows env.sha256 target deep s rs (start t) in
    let ran : ok v ≡ ok out = rw reached at e in
    let same : v ≡ out = cc in
    let (m, i) = In-of_find j t r found in
    let (fine, eq) =
      verify_rows-done env.sha256 target deep s rs (start t) r q
        (select-IsKeyed (is_checked instance_id) t k)
        (In-select (is_checked instance_id) r t m mine) (ap (λ x. find x t) i ∙ found)
        (ap (λ (x : Verdict). find r.id x.table) same ∙ ap (λ x. find x out.table) i ∙ found') st in
    (replica-IsRemote env.sha256 target deep s r r.replica_key refl fine, eq)
  where
    start : Table → Verdict
    start u = record { table = u; checked = 0; flagged = 0 }

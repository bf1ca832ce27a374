-- ===== src/Cleanup/Newest.antt =====
-- `_cleanup_old_backups`, worker/backup_manager.py: the newest backup of the instance stays.
use pfsense_backups.Prelude.{
  ℕ, ◌≤◌, ◌<◌, ◌≡◌, refl, sym, ap, subst, ◌⊎◌, inl, inr, Bool, true, not, some, List, [], ◌∷◌,
  arith, elem, select, In, All-In, Bool-cases,
}
use pfsense_backups.Store.{Text, Row, Table, find}
use pfsense_backups.Retention.{Backup, compute_keep_ids}
use pfsense_backups.Retention.Newest.{IsNewest, compute_keep_ids-IsNewest}
use pfsense_backups.Replication.Sweep.Bound.{IsKeyed, find-of_In}
use pfsense_backups.Cleanup.{
  Unlink, Settings, Cleaned, is_candidate, by_age, pairs, untouched, cleanup_old_backups,
}
use pfsense_backups.Cleanup.Kept.{cleanup-cases, clean_rows-ne, kept_ids, In-by_age, In-by_age_of}

pub In-select : (p : Row → Bool) (q : Row) (t : Table) → In q (select p t) → In q t × (p q ≡ true)
In-select p q [] m = absurd m
In-select p q (r ∷ rs) m = elim (Bool-cases (p r)) [
  | inl e ↦ elim (rw e at m) [
    | inl same ↦ (inl same, subst (λ (x : Row). p x ≡ true) (sym same) e)
    | inr i ↦ let h = In-select p q rs i in (inr h.0, h.1)
  ]
  | inr e ↦ let h = In-select p q rs (rw e at m) in (inr h.0, h.1)
]

In-select_of : (p : Row → Bool) (q : Row) (t : Table) → In q t → p q ≡ true → In q (select p t)
In-select_of p q [] m h = m
In-select_of p q (r ∷ rs) (inl same) h =
    let e = subst (λ (x : Row). p x ≡ true) same h in rw e (inl same)
In-select_of p q (r ∷ rs) (inr i) h = elim (Bool-cases (p r)) [
  | inl e ↦ rw e (inr (In-select_of p q rs i h))
  | inr e ↦ rw e (In-select_of p q rs i h)
]

In-pairs :
    (x : Backup) (rs : List Row)
    → In x (pairs rs)
    → (q : Row) × In q rs × (x ≡ (q.id, q.started_at))
In-pairs x [] m = absurd m
In-pairs x (r ∷ rs) (inl e) = (r, inl refl, e)
In-pairs x (r ∷ rs) (inr m) = let (q, i, e) = In-pairs x rs m in (q, inr i, e)

In-pairs_of : (q : Row) (rs : List Row) → In q rs → In (q.id, q.started_at) (pairs rs)
In-pairs_of q [] m = absurd m
In-pairs_of q (r ∷ rs) (inl e) = inl (ap (λ (x : Row). (x.id, x.started_at)) e)
In-pairs_of q (r ∷ rs) (inr m) = inr (In-pairs_of q rs m)

-- `b` is strictly newer than each other row that the query selects.
unfoldable pub IsLatest : ℕ → Row → Table → Type 0
IsLatest iid b t =
    (q : Row) → In q t → is_candidate iid q ≡ true → (q ≡ b) ⊎ (q.started_at < b.started_at)

-- Such a row is in every keep-set that is computed of the query's rows.
latest_kept :
    (cfg : Settings) (now : ℕ) (t : Table) (b : Row) (keep : List ℕ)
    → In b t
    → is_candidate cfg.instance_id b ≡ true
    → IsLatest cfg.instance_id b t
    → compute_keep_ids (pairs (by_age (select (is_candidate cfg.instance_id) t))) cfg.policy now
      ≡ some keep
    → elem b.id keep ≡ true
unfolding IsLatest IsNewest
latest_kept cfg now t b keep m c latest e =
    let p = is_candidate cfg.instance_id in
    let rows = by_age (select p t) in
    let mine = In-pairs_of b rows (In-by_age_of b (select p t) (In-select_of p b t m c)) in
    let (x, (i, no_later), kept) =
      compute_keep_ids-IsNewest (pairs rows) cfg.policy now keep
        (λ empty. subst (λ (l : List Backup). In (b.id, b.started_at) l) empty mine) e in
    let (q, iq, same) = In-pairs x rows i in
    let (qt, qc) = In-select p q t (In-by_age q (select p t) iq) in
    let le = All-In (λ (y : Backup). y.1 ≤ x.1) (pairs rows) no_later mine in
    elim (latest q qt qc) [
      | inl is_b ↦ subst (λ (k : ℕ). elem k keep ≡ true) (by_id x q same is_b) kept
      | inr lt ↦ absurd (older x q same le lt)
    ]
  where
    by_id : (x : Backup) (q : Row) → x ≡ (q.id, q.started_at) → q ≡ b → x.0 ≡ b.id
    by_id x q same is_b = cc

    older :
        (x : Backup) (q : Row)
        → x ≡ (q.id, q.started_at)
        → b.started_at ≤ x.1
        → q.started_at < b.started_at
        → ⊥
    older x q same le lt = let e = ap (λ (y : Backup). y.1) same in omega (arith, e, le, lt)

-- When a cleanup of a table with a primary key ends, the newest successful on-disk backup of the
-- instance, strictly newer than the others of these, still has its row, and the row is unchanged,
-- whatever the policy is and however the unlinks end.
pub cleanup_old_backups-newest :
    (cfg : Settings) (unlink : Text → Unlink) (now : ℕ) (t : Table) (out : Cleaned) (b : Row)
    → IsKeyed t
    → In b t
    → is_candidate cfg.instance_id b ≡ true
    → IsLatest cfg.instance_id b t
    → cleanup_old_backups cfg unlink now t ≡ some out
    → find b.id out.table ≡ some b
cleanup_old_backups-newest cfg unlink now t out b k m c latest h =
    elim (cleanup-cases cfg unlink now t out h) [
      | inl e ↦ rw e (find-of_In b t k m)
      | inr (keep, ek, e) ↦
          let rows = by_age (select (is_candidate cfg.instance_id) t) in
          let kept = latest_kept cfg now t b keep m c latest ek in
          let same =
            clean_rows-ne cfg unlink (select (λ r. not (elem r.id keep)) rows) (untouched t) b.id
              (kept_ids keep rows b.id kept) in
          rw e (rw same (find-of_In b t k m))
    ]

-- ===== src/Cleanup/Replicas.antt =====
-- `_cleanup_old_backups`, worker/backup_manager.py: what becomes of one row of the table.
use pfsense_backups.Prelude.{
  ℕ, ◌≡◌, refl, sym, ap, ◌∙◌, subst, ◌⊎◌, inl, inr, true, false, not, Option, some, List, [], ◌∷◌,
  arith, elem, select, In, Bool-cases,
}
use native.Mathlib.Decide.{ℕ_discrete}
use pfsense_backups.Store.{Text, Row, Table, find, update}
use pfsense_backups.Store.Laws.{find-update_self}
use pfsense_backups.Replication.Sweep.Bound.{IsKeyed, find-of_In}
use pfsense_backups.Cleanup.{
  Unlink, Settings, Cleaned, is_candidate, by_age, replica_of, unlinks, off_site, drop_row,
  clean_row, clean_rows, untouched, cleanup_old_backups,
}
use pfsense_backups.Cleanup.Kept.{cleanup-cases, clean_row-ne, In-by_age, off_site-KeepsId}
use pfsense_backups.Cleanup.Newest.{In-select}

some-inj : {a b : Row} → some a ≡ some b → a ≡ b
some-inj e = cc

-- Under a primary key, a row of the table with the id of another is that row.
same_row : (q r : Row) (t : Table) → IsKeyed t → In q t → In r t → q.id ≡ r.id → q ≡ r
same_row q r t k mq mr e =
    let fq = find-of_In q t k mq in
    let fr = find-of_In r t k mr in some-inj (sym fq ∙ ap (λ j. find j t) e ∙ fr)

clean_rows-invariant :
    (P : Option Row → Type 0) (cfg : Settings) (unlink : Text → Unlink) (r : Row) (rs : List Row)
    (st : Cleaned)
    → ((q : Row) → In q rs → q.id ≡ r.id → q ≡ r)
    → (In r rs
        → (s : Cleaned) → P (find r.id s.table)
        → P (find r.id (clean_row cfg unlink r s).table))
    → P (find r.id st.table)
    → P (find r.id (clean_rows cfg unlink rs st).table)
unfolding clean_rows
clean_rows-invariant P cfg unlink r [] st same step h = h
clean_rows-invariant P cfg unlink r (q ∷ qs) st same step h =
    clean_rows-invariant P cfg unlink r qs (clean_row cfg unlink q st) (λ x m. same x (inr m))
      (λ m. step (inr m))
      (elim (ℕ_discrete q.id r.id) [
        | yes e ↦
            subst (λ (x : Row). P (find r.id (clean_row cfg unlink x st).table))
              (sym (same q (inl refl) e)) (step (inl (sym (same q (inl refl) e))) st h)
        | no ne ↦ subst P (sym (clean_row-ne cfg unlink q st r.id ne)) h
      ])

-- What holds of a row, and stays true when the loop visits the row, holds of it after a cleanup.
cleanup-invariant :
    (P : Option Row → Type 0) (cfg : Settings) (unlink : Text → Unlink) (now : ℕ) (t : Table)
    (out : Cleaned) (r : Row)
    → IsKeyed t
    → In r t
    → ((is_candidate cfg.instance_id r ≡ true)
        → (s : Cleaned) → P (find r.id s.table)
        → P (find r.id (clean_row cfg unlink r s).table))
    → P (some r)
    → cleanup_old_backups cfg unlink now t ≡ some out
    → P (find r.id out.table)
cleanup-invariant P cfg unlink now t out r k m step h ran =
    elim (cleanup-cases cfg unlink now t out ran) [
      | inl e ↦ rw e (rw (find-of_In r t k m) h)
      | inr (keep, ek, e) ↦
          let p = is_candidate cfg.instance_id in
          let stale = select (λ (x : Row). not (elem x.id keep)) (by_age (select p t)) in
          let from = λ (q : Row) (i : In q stale). In-select p q t (
            In-by_age q (select p t)
              (In-select (λ (x : Row). not (elem x.id keep)) q (by_age (select p t)) i).0) in
          rw e (
            clean_rows-invariant P cfg unlink r stale (untouched t)
              (λ q i eq. same_row q r t k (from q i).0 m eq) (λ i. step (from r i).1)
              (rw (find-of_In r t k m) h))
    ]

abbrev OnlyOffSite : Row → Option Row → Type 0
OnlyOffSite r o = (o ≡ some r) ⊎ (o ≡ some (off_site r))

clean_row-replica :
    (cfg : Settings) (unlink : Text → Unlink) (r : Row) (key : Text) (s : Cleaned)
    → cfg.repl_enabled ≡ true
    → cfg.repl_mirror ≡ false
    → replica_of r ≡ some key
    → OnlyOffSite r (find r.id s.table)
    → OnlyOffSite r (find r.id (clean_row cfg unlink r s).table)
unfolding clean_row drop_row off_site
clean_row-replica cfg unlink r key s on off rep h = elim (Bool-cases (unlinks unlink r.path)) [
  | inr e ↦ rw e h
  | inl e ↦ rw e (rw rep (rw on (rw off (inr (moved h)))))
]
  where
    moved :
        OnlyOffSite r (find r.id s.table)
        → find r.id (update r.id off_site s.table) ≡ some (off_site r)
    moved (inl e) = find-update_self r.id off_site s.table off_site-KeepsId e
    moved (inr e) = find-update_self r.id off_site s.table off_site-KeepsId e

-- With replication on and mirroring of deletes off, a row of the table with a replica that is done
-- is never deleted by a cleanup that ends: it is as it was, or only its `local_present` is now
-- false.
pub cleanup_old_backups-replica :
    (cfg : Settings) (unlink : Text → Unlink) (now : ℕ) (t : Table) (out : Cleaned) (r : Row)
    (key : Text)
    → IsKeyed t
    → In r t
    → cfg.repl_enabled ≡ true
    → cfg.repl_mirror ≡ false
    → replica_of r ≡ some key
    → cleanup_old_backups cfg unlink now t ≡ some out
    → (find r.id out.table ≡ some r) ⊎ (find r.id out.table ≡ some (off_site r))
cleanup_old_backups-replica cfg unlink now t out r key k m on off rep ran =
    cleanup-invariant (OnlyOffSite r) cfg unlink now t out r k m
      (λ c s h. clean_row-replica cfg unlink r key s on off rep h) (inl refl) ran

-- When a cleanup ends, a row that the query does not select, one of another instance, of a failed
-- run or with no file on disk, and a row whose file could not be unlinked are as they were.
pub cleanup_old_backups-kept :
    (cfg : Settings) (unlink : Text → Unlink) (now : ℕ) (t : Table) (out : Cleaned) (r : Row)
    → IsKeyed t
    → In r t
    → (is_candidate cfg.instance_id r ≡ false) ⊎ (unlinks unlink r.path ≡ false)
    → cleanup_old_backups cfg unlink now t ≡ some out
    → find r.id out.table ≡ some r
unfolding clean_row
cleanup_old_backups-kept cfg unlink now t out r k m spared ran =
    cleanup-invariant (λ o. o ≡ some r) cfg unlink now t out r k m (step spared) refl ran
  where
    step :
        (is_candidate cfg.instance_id r ≡ false) ⊎ (unlinks unlink r.path ≡ false)
        → is_candidate cfg.instance_id r ≡ true
        → (s : Cleaned) → find r.id s.table ≡ some r
        → find r.id (clean_row cfg unlink r s).table ≡ some r
    step (inl no_) c s h = ground arith
    step (inr e) c s h = rw e h

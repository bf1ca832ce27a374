-- ===== src/Cleanup/Kept.antt =====
-- What `_cleanup_old_backups`, worker/backup_manager.py, leaves as it was.
use pfsense_backups.Prelude.{
  ℕ, ◌≡◌, refl, sym, ap, ◌∙◌, ◌≢◌, ◌⊎◌, inl, inr, true, not, ◌&&◌, Option, none, some, List, [],
  ◌∷◌, arith, leb, elem, select, All, In, Bool-cases, >>=-eq-some,
}
use pfsense_backups.Store.{Text, Row, Table, find, remove}
use pfsense_backups.Store.Laws.{KeepsId, find-update_ne}
use pfsense_backups.Retention.{has_tiers, compute_keep_ids}
use pfsense_backups.Cleanup.{
  Unlink, Settings, Cleaned, is_candidate, insert_row, by_age, pairs, replica_of, unlinks, off_site,
  drop_row, clean_row, clean_rows, untouched, cleanup_old_backups,
}

pub find-remove_ne : (bid j : ℕ) (t : Table) → bid ≢ j → find j (remove bid t) ≡ find j t
unfolding find remove
find-remove_ne bid j [] ne = refl
find-remove_ne bid j (r ∷ rs) ne = ground (arith, find-remove_ne bid j rs ne)

pub off_site-KeepsId : KeepsId off_site
unfolding off_site
off_site-KeepsId r = refl

drop_row-ne :
    (cfg : Settings) (r : Row) (key : Option Text) (st : Cleaned) (j : ℕ)
    → r.id ≢ j
    → find j (drop_row cfg r key st).table ≡ find j st.table
unfolding drop_row
drop_row-ne cfg r none st j ne = find-remove_ne r.id j st.table ne
drop_row-ne cfg r (some key) st j ne = elim (Bool-cases (cfg.repl_enabled && not cfg.repl_mirror)) [
  | inl e ↦ rw e (find-update_ne r.id j off_site st.table off_site-KeepsId ne)
  | inr e ↦ rw e (find-remove_ne r.id j st.table ne)
]

pub clean_row-ne :
    (cfg : Settings) (unlink : Text → Unlink) (r : Row) (st : Cleaned) (j : ℕ)
    → r.id ≢ j
    → find j (clean_row cfg unlink r st).table ≡ find j st.table
unfolding clean_row
clean_row-ne cfg unlink r st j ne = elim (Bool-cases (unlinks unlink r.path)) [
  | inl e ↦ rw e (drop_row-ne cfg r (replica_of r) st j ne)
  | inr e ↦ rw e
]

pub clean_rows-ne :
    (cfg : Settings) (unlink : Text → Unlink) (rs : List Row) (st : Cleaned) (j : ℕ)
    → All (λ (x : Row). x.id ≢ j) rs
    → find j (clean_rows cfg unlink rs st).table ≡ find j st.table
unfolding clean_rows
clean_rows-ne cfg unlink [] st j h = refl
clean_rows-ne cfg unlink (r ∷ rs) st j h =
    clean_rows-ne cfg unlink rs (clean_row cfg unlink r st) j h.1
    ∙ clean_row-ne cfg unlink r st j h.0

-- A cleanup that ends has changed nothing, or has swept the rows that its keep-set leaves out.
pub cleanup-cases :
    (cfg : Settings) (unlink : Text → Unlink) (now : ℕ) (t : Table) (out : Cleaned)
    → cleanup_old_backups cfg unlink now t ≡ some out
    → (out ≡ untouched t)
      ⊎ ((keep : List ℕ) × (compute_keep_ids
              (pairs (by_age (select (is_candidate cfg.instance_id) t)))
              cfg.policy
              now
            ≡ some keep)
          × (out
              ≡ clean_rows cfg unlink
                  (select
                    (λ r. not (elem r.id keep))
                    (by_age (select (is_candidate cfg.instance_id) t)))
                  (untouched t)))
unfolding cleanup_old_backups
cleanup-cases cfg unlink now t out h =
    let rows = by_age (select (is_candidate cfg.instance_id) t) in
    elim (Bool-cases (leb cfg.policy.count_cap 0 && not (has_tiers cfg.policy))) [
      | inl e ↦ inl (some-inj (sym (rw e at h)))
      | inr e ↦
          let (keep, ek, r) =
            >>=-eq-some (compute_keep_ids (pairs rows) cfg.policy now) _ (rw e at h) in
          inr (keep, ek, some-inj (sym r))
    ]
  where
    some-inj : {a b : Cleaned} → some a ≡ some b → a ≡ b
    some-inj e = cc

pub kept_ids :
    (keep : List ℕ) (rs : List Row) (j : ℕ)
    → elem j keep ≡ true
    → All (λ (x : Row). x.id ≢ j) (select (λ r. not (elem r.id keep)) rs)
kept_ids keep [] j h = tt
kept_ids keep (r ∷ rs) j h = elim (Bool-cases (not (elem r.id keep))) [
  | inl e ↦ rw e ((λ same. clash (ap (λ x. elem x keep) same) e h), kept_ids keep rs j h)
  | inr e ↦ rw e (kept_ids keep rs j h)
]
  where
    clash : elem r.id keep ≡ elem j keep → not (elem r.id keep) ≡ true → elem j keep ≡ true → ⊥
    clash same e' h' = ground arith

In-insert_row_of : (r q : Row) (rs : List Row) → (q ≡ r) ⊎ In q rs → In q (insert_row r rs)
unfolding insert_row
In-insert_row_of r q [] h = h
In-insert_row_of r q (x ∷ xs) h = elim (Bool-cases (leb x.started_at r.started_at)) [
  | inl e ↦ rw e h
  | inr e ↦ rw e (past (In-insert_row_of r q xs) h)
]
  where
    past :
        ((q ≡ r) ⊎ In q xs → In q (insert_row r xs))
        → (q ≡ r) ⊎ In q (x ∷ xs)
        → In q (x ∷ insert_row r xs)
    past ih (inl p) = inr (ih (inl p))
    past ih (inr (inl p)) = inl p
    past ih (inr (inr p)) = inr (ih (inr p))

pub In-by_age_of : (q : Row) (rs : List Row) → In q rs → In q (by_age rs)
unfolding by_age
In-by_age_of q [] m = m
In-by_age_of q (r ∷ rs) (inl e) = In-insert_row_of r q (by_age rs) (inl e)
In-by_age_of q (r ∷ rs) (inr m) = In-insert_row_of r q (by_age rs) (inr (In-by_age_of q rs m))

In-insert_row : (r q : Row) (rs : List Row) → In q (insert_row r rs) → (q ≡ r) ⊎ In q rs
unfolding insert_row
In-insert_row r q [] h = h
In-insert_row r q (x ∷ xs) h = elim (Bool-cases (leb x.started_at r.started_at)) [
  | inl e ↦ rw e at h
  | inr e ↦ past (In-insert_row r q xs) (rw e at h)
]
  where
    past :
        (In q (insert_row r xs) → (q ≡ r) ⊎ In q xs)
        → In q (x ∷ insert_row r xs)
        → (q ≡ r) ⊎ In q (x ∷ xs)
    past ih (inl p) = inr (inl p)
    past ih (inr p) = elim (ih p) [ inl a ↦ inl a | inr b ↦ inr (inr b) ]

pub In-by_age : (q : Row) (rs : List Row) → In q (by_age rs) → In q rs
unfolding by_age
In-by_age q [] m = m
In-by_age q (r ∷ rs) m = elim (In-insert_row r q (by_age rs) m) [
  | inl e ↦ inl e
  | inr i ↦ inr (In-by_age q rs i)
]

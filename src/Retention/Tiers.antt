-- ===== src/Retention/Tiers.antt =====
-- The loops of pfsense_shared/retention.py, one tier at a time.
use native.Mathlib.Nat.{le_refl}
use pfsense_backups.Prelude.{
  ℕ, ◌-◌, ◌*◌, ◌≤◌, ◌≡◌, refl, sym, subst, ◌⊎◌, inl, inr, true, false, ◌||◌, Option, none, some,
  List, [], ◌∷◌, arith, leb, ltb, ◌==◌, ==_iff, elem, add, In, elem-add, elem-add_self, All-In,
  Bool-cases, if◌then◌else◌,
}
use pfsense_backups.Retention.{Backup, RetentionPolicy, keep_since, newest_per_bucket, tier}
use pfsense_backups.Retention.Order.{IsNewestFirst}
use pfsense_backups.Retention.Calendar.{day_us, date, iso_week, year_month}

-- Nothing of the first is lost in the second.
abbrev pub Grows : List ℕ → List ℕ → Type 0
Grows xs ys = (x : ℕ) → elem x xs ≡ true → elem x ys ≡ true

pub keep_since-Grows :
    (cutoff : ℕ) (bs : List Backup) (keep : List ℕ) → Grows keep (keep_since cutoff bs keep)
unfolding keep_since
keep_since-Grows cutoff [] keep x m = m
keep_since-Grows cutoff (b ∷ bs) keep x m =
    keep_since-Grows cutoff bs (if leb cutoff b.1 then add b.0 keep else keep) x
      (ground (arith, elem-add x b.0 keep))

pub bucket-Grows :
    (cutoff : ℕ) (bucket_of : ℕ → ℕ) (seen : List ℕ) (bs : List Backup) (keep : List ℕ)
    → Grows keep (newest_per_bucket cutoff bucket_of seen bs keep)
unfolding newest_per_bucket
bucket-Grows cutoff bucket_of seen [] keep x m = m
bucket-Grows cutoff bucket_of seen (b ∷ bs) keep x m =
    let skip = ltb b.1 cutoff || elem (bucket_of b.1) seen in
    bucket-Grows cutoff bucket_of (if skip then seen else bucket_of b.1 ∷ seen) bs
      (if skip then keep else add b.0 keep) x (ground (arith, elem-add x b.0 keep))

-- Every backup in the window of `keep_all_days` is kept.
pub keep_since-elem :
    (cutoff : ℕ) (bs : List Backup) (keep : List ℕ) (b : Backup)
    → In b bs
    → cutoff ≤ b.1
    → elem b.0 (keep_since cutoff bs keep) ≡ true
unfolding keep_since
keep_since-elem cutoff [] keep b m le = absurd m
keep_since-elem cutoff (c ∷ cs) keep b (inl e) le =
    keep_since-Grows cutoff cs (if leb cutoff c.1 then add c.0 keep else keep) b.0
      (rw (← e) (ground (arith, elem-add_self b.0 keep)))
keep_since-elem cutoff (c ∷ cs) keep b (inr m) le =
    keep_since-elem cutoff cs (if leb cutoff c.1 then add c.0 keep else keep) b m le

-- A kept backup of the list, in the bucket of `b` and not older than it.
abbrev pub Represented : (ℕ → ℕ) → Backup → List Backup → List ℕ → Type 0
Represented bucket_of b bs keep =
    (c : Backup) × In c bs × (bucket_of c.1 ≡ bucket_of b.1) × (b.1 ≤ c.1) × (elem c.0 keep ≡ true)

bucket-Represented :
    (cutoff : ℕ) (bucket_of : ℕ → ℕ) (seen : List ℕ) (bs : List Backup) (keep : List ℕ) (b : Backup)
    → IsNewestFirst bs
    → In b bs
    → cutoff ≤ b.1
    → (elem (bucket_of b.1) seen ≡ true)
      ⊎ Represented bucket_of b bs (newest_per_bucket cutoff bucket_of seen bs keep)
unfolding newest_per_bucket
bucket-Represented cutoff bucket_of seen [] keep b sorted m le = absurd m
bucket-Represented cutoff bucket_of seen (d ∷ ds) keep b sorted (inl e) le =
    elim (Bool-cases (elem (bucket_of b.1) seen)) [
      | inl old ↦ inl old
      | inr new ↦ inr (
        d,
        inl refl,
        rw e refl,
        rw e (le_refl d.1),
        bucket-Grows cutoff bucket_of _ ds _ d.0
            (rw (← e) (ground (arith, elem-add_self b.0 keep, new))),
      )
    ]
bucket-Represented cutoff bucket_of seen (d ∷ ds) keep b sorted (inr m) le =
    elim (Bool-cases (ltb d.1 cutoff || elem (bucket_of d.1) seen)) [
      | inl skip ↦
          rw skip (past _ (bucket-Represented cutoff bucket_of seen ds keep b sorted.1 m le))
      | inr take_it ↦ rw take_it (
          fresh (Bool-cases (bucket_of b.1 == bucket_of d.1)) (
            bucket-Represented cutoff bucket_of (bucket_of d.1 ∷ seen) ds (add d.0 keep) b sorted.1
              m le))
    ]
  where
    past :
        (out : List ℕ)
        → (elem (bucket_of b.1) seen ≡ true) ⊎ Represented bucket_of b ds out
        → (elem (bucket_of b.1) seen ≡ true) ⊎ Represented bucket_of b (d ∷ ds) out
    past out (inl old) = inl old
    past out (inr (c, i, same, later, kept)) = inr (c, inr i, same, later, kept)

    after : List ℕ
    after = newest_per_bucket cutoff bucket_of (bucket_of d.1 ∷ seen) ds (add d.0 keep)

    fresh :
        ((bucket_of b.1 == bucket_of d.1) ≡ true) ⊎ ((bucket_of b.1 == bucket_of d.1) ≡ false)
        → (elem (bucket_of b.1) (bucket_of d.1 ∷ seen) ≡ true) ⊎ Represented bucket_of b ds after
        → (elem (bucket_of b.1) seen ≡ true) ⊎ Represented bucket_of b (d ∷ ds) after
    fresh (inl e) r = inr (
      d,
      inl refl,
      sym ((==_iff (bucket_of b.1) (bucket_of d.1)).0 e),
      All-In (λ (x : Backup). x.1 ≤ d.1) ds sorted.0 m,
      bucket-Grows cutoff bucket_of (bucket_of d.1 ∷ seen) ds (add d.0 keep) d.0
          (elem-add_self d.0 keep),
    )
    fresh (inr e) (inl old) = inl (ground arith)
    fresh (inr e) (inr r) = past after (inr r)

pub tier-Grows :
    (limit : Option ℕ) (unit now : ℕ) (run : ℕ → List ℕ → List ℕ) (keep : List ℕ) {out : List ℕ}
    → ((cutoff : ℕ) (s : List ℕ) → Grows s (run cutoff s))
    → tier limit unit now run keep ≡ some out
    → Grows keep out
unfolding tier
tier-Grows none unit now run keep step e x m = ground arith
tier-Grows (some n) unit now run keep step e x m = ground (arith, step (now - n * unit) keep x m)

-- The tiers that keep one backup for each bucket.
pub data Tier : Type 0 where
  daily weekly monthly : Tier

abbrev pub limit_of : Tier → RetentionPolicy → Option ℕ
limit_of daily p = p.daily_days
limit_of weekly p = p.weekly_weeks
limit_of monthly p = p.monthly_months

abbrev pub unit_of : Tier → ℕ
unit_of daily = day_us
unit_of weekly = 7 * day_us
unit_of monthly = 31 * day_us

abbrev pub bucket_for : Tier → ℕ → ℕ
bucket_for daily = date
bucket_for weekly = iso_week
bucket_for monthly = year_month

pub Represented-Grows :
    (bucket_of : ℕ → ℕ) (b : Backup) (bs : List Backup) (keep out : List ℕ)
    → Grows keep out
    → Represented bucket_of b bs keep
    → Represented bucket_of b bs out
Represented-Grows bucket_of b bs keep out g (c, i, same, later, kept) =
    (c, i, same, later, g c.0 kept)

-- A tier that is set runs its loop from the cutoff.
pub tier-run :
    (n unit now : ℕ) (run : ℕ → List ℕ → List ℕ) (keep : List ℕ) {out : List ℕ}
    → tier (some n) unit now run keep ≡ some out
    → run (now - n * unit) keep ≡ out
unfolding tier
tier-run n unit now run keep e = ground arith

pub run-Represented :
    (limit : Option ℕ) (n unit now : ℕ) (bucket_of : ℕ → ℕ) (bs : List Backup) (keep out : List ℕ)
    (b : Backup)
    → limit ≡ some n
    → tier limit unit now (λ cutoff. newest_per_bucket cutoff bucket_of [] bs) keep ≡ some out
    → IsNewestFirst bs
    → In b bs
    → now - n * unit ≤ b.1
    → Represented bucket_of b bs out
run-Represented limit n unit now bucket_of bs keep out b set e sorted m le =
    let run = λ (cutoff : ℕ). newest_per_bucket cutoff bucket_of [] bs in
    let ran = tier-run n unit now run keep (rw set at e) in
    elim (bucket-Represented (now - n * unit) bucket_of [] bs keep b sorted m le) [
      | inl old ↦ cc
      | inr r ↦ subst (Represented bucket_of b bs) ran r
    ]

-- ===== src/Retention/Total.antt =====
-- pfsense_shared/retention.py on the policies that pfsense_shared/schemas.py accepts: it raises
-- nothing.
use pfsense_backups.Prelude.{
  ℕ, ◌-◌, ◌*◌, ◌≤◌, ◌≡◌, refl, ◌⊎◌, inl, inr, Option, none, some, List, [], ◌∷◌, arith, true, elem,
  add, Bool-cases,
}
use pfsense_backups.Retention.{
  Backup, RetentionPolicy, has_tiers, newest_first, keep_since, newest_per_bucket, tier, tier_union,
  apply_cap, legacy_keep, keep_ordered, compute_keep_ids,
}
use pfsense_backups.Retention.Newest.{IsNewest, compute_keep_ids-IsNewest}
use pfsense_backups.Retention.Calendar.{day_us, date, iso_week, year_month}

-- The windows of a policy reach back no further than year 1.
pub record IsReachable (p : RetentionPolicy) (now : ℕ) : Type 0 where
  pub all_days : (n : ℕ) → p.keep_all_days ≡ some n → n * day_us ≤ now
  pub days : (n : ℕ) → p.daily_days ≡ some n → n * day_us ≤ now
  pub weeks : (n : ℕ) → p.weekly_weeks ≡ some n → n * (7 * day_us) ≤ now
  pub months : (n : ℕ) → p.monthly_months ≡ some n → n * (31 * day_us) ≤ now

tier-total :
    (limit : Option ℕ) (unit now : ℕ) (run : ℕ → List ℕ → List ℕ) (keep : List ℕ)
    → ((n : ℕ) → limit ≡ some n → n * unit ≤ now)
    → (out : List ℕ) × (tier limit unit now run keep ≡ some out)
unfolding tier
tier-total none unit now run keep h = (keep, refl)
tier-total (some n) unit now run keep h = (run (now - n * unit) keep, ground (arith, h n))

tier_union-total :
    (p : RetentionPolicy) (now : ℕ) (bs : List Backup)
    → IsReachable p now
    → (out : List ℕ) × (tier_union p now bs ≡ some out)
unfolding tier_union
tier_union-total p now bs r =
    let loop = λ (bucket_of : ℕ → ℕ) (cutoff : ℕ). newest_per_bucket cutoff bucket_of [] bs in
    let (a, ea) =
      tier-total p.keep_all_days day_us now (λ cutoff. keep_since cutoff bs) [] r.all_days in
    let (d, ed) = tier-total p.daily_days day_us now (loop date) a r.days in
    let (w, ew) = tier-total p.weekly_weeks (7 * day_us) now (loop iso_week) d r.weeks in
    let (m, em) = tier-total p.monthly_months (31 * day_us) now (loop year_month) w r.months in
    (m, rw ea (rw ed (rw ew em)))

keep_ordered-total :
    (p : RetentionPolicy) (now : ℕ) (bs : List Backup)
    → IsReachable p now
    → (keep : List ℕ) × (keep_ordered p now bs ≡ some keep)
unfolding keep_ordered
keep_ordered-total p now [] r = ([], refl)
keep_ordered-total p now (b ∷ bs) r = elim (Bool-cases (has_tiers p)) [
  | inl e ↦
      let (u, eu) = tier_union-total p now (b ∷ bs) r in
      (apply_cap p.count_cap b.0 (b ∷ bs) (add b.0 u), rw e (rw eu))
  | inr e ↦ (legacy_keep p.count_cap b.0 (b ∷ bs), rw e)
]

reachable-total :
    (backups : List Backup) (p : RetentionPolicy) (now : ℕ)
    → IsReachable p now
    → (keep : List ℕ) × (compute_keep_ids backups p now ≡ some keep)
unfolding compute_keep_ids
reachable-total backups p now r = keep_ordered-total p now (newest_first backups) r

-- `Field(default=None, ge=0, le=...)`
abbrev pub AtMost : ℕ → Option ℕ → Type 0
AtMost bound none = Unit
AtMost bound (some n) = n ≤ bound

AtMost-le : (bound : ℕ) (o : Option ℕ) (n : ℕ) → AtMost bound o → o ≡ some n → n ≤ bound
AtMost-le bound o n h e = rw e at h

-- The limits of `InstanceCreate` and `InstanceUpdate` on the tiers of a policy.
pub record IsAccepted (p : RetentionPolicy) : Type 0 where
  pub all_days : AtMost 3650 p.keep_all_days
  pub days : AtMost 3650 p.daily_days
  pub weeks : AtMost 520 p.weekly_weeks
  pub months : AtMost 120 p.monthly_months

IsAccepted-IsReachable :
    (p : RetentionPolicy) (now : ℕ) → IsAccepted p → 3720 * day_us ≤ now → IsReachable p now
IsAccepted-IsReachable p now a late = record {
  all_days = λ n e. let h = AtMost-le 3650 p.keep_all_days n a.all_days e in omega arith;
  days = λ n e. let h = AtMost-le 3650 p.daily_days n a.days e in omega arith;
  weeks = λ n e. let h = AtMost-le 520 p.weekly_weeks n a.weeks e in omega arith;
  months = λ n e. let h = AtMost-le 120 p.monthly_months n a.months e in omega arith;
}

-- For every policy whose tiers are within the limits of the API, and at every time that is 3,720 days
-- or more after the start of year 1, the computation raises nothing: it returns a keep-set, and if
-- there are backups, a newest one is in it.
pub compute_keep_ids-IsTotal :
    (backups : List Backup) (p : RetentionPolicy) (now : ℕ)
    → IsAccepted p
    → 3720 * day_us ≤ now
    → (keep : List ℕ) × ((compute_keep_ids backups p now ≡ some keep)
        × ((backups ≡ []) ⊎ ((b : Backup) × IsNewest b backups × (elem b.0 keep ≡ true))))
compute_keep_ids-IsTotal [] p now a late =
    let (keep, e) = reachable-total [] p now (IsAccepted-IsReachable p now a late) in
    (keep, (e, inl refl))
compute_keep_ids-IsTotal (c ∷ cs) p now a late =
    let (keep, e) = reachable-total (c ∷ cs) p now (IsAccepted-IsReachable p now a late) in
    (keep, (e, inr (compute_keep_ids-IsNewest (c ∷ cs) p now keep (λ h. cc) e)))

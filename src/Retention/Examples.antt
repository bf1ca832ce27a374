-- ===== src/Retention/Examples.antt =====
-- A small history and two policies, on which the results about retention are applied.
use pfsense_backups.Prelude.{
  ℕ, ◌+◌, ◌*◌, ◌≤◌, ◌≡◌, refl, ◌⊎◌, inl, inr, true, none, some, List, [], ◌∷◌, arith, elem, length,
}
use pfsense_backups.Retention.{Backup, RetentionPolicy, compute_keep_ids}
use pfsense_backups.Retention.Calendar.{day_us, date}
use pfsense_backups.Retention.Newest.{IsNewest, compute_keep_ids-IsNewest}
use pfsense_backups.Retention.Bounds.{compute_keep_ids-le_cap}
use pfsense_backups.Retention.Tiers.{Represented, daily, bucket_for}
use pfsense_backups.Retention.Coverage.{compute_keep_ids-Represented}
use pfsense_backups.Retention.Total.{IsAccepted, compute_keep_ids-IsTotal}

-- Hour `h` of day `d`.
abbrev at : ℕ → ℕ → ℕ
at d h = d * day_us + h * (3600 * 1000000)

abbrev history : List Backup
history = (1, at 100 1) ∷ (4, at 102 9) ∷ (2, at 101 5) ∷ (3, at 102 3) ∷ (5, at 40 0) ∷ []

abbrev tiered : ℕ → RetentionPolicy
tiered cap = record {
  count_cap = cap;
  keep_all_days = none;
  daily_days = some 7;
  weekly_weeks = none;
  monthly_months = none;
}

kept_daily : compute_keep_ids history (tiered 0) (at 103 0) ≡ some (1 ∷ 2 ∷ 4 ∷ [])
unfolding compute_keep_ids date
kept_daily = refl

kept_capped : compute_keep_ids history (tiered 2) (at 103 0) ≡ some (4 ∷ 2 ∷ [])
unfolding compute_keep_ids date
kept_capped = refl

compute_keep_ids-IsNewest_example :
    (b : Backup) × IsNewest b history × (elem b.0 (4 ∷ 2 ∷ []) ≡ true)
compute_keep_ids-IsNewest_example =
    compute_keep_ids-IsNewest history (tiered 2) (at 103 0) (4 ∷ 2 ∷ []) (λ e. cc) kept_capped

compute_keep_ids-le_cap_example : length {A = ℕ} (4 ∷ 2 ∷ []) ≤ 2
compute_keep_ids-le_cap_example =
    compute_keep_ids-le_cap history (tiered 2) (at 103 0) (4 ∷ 2 ∷ []) (omega arith) kept_capped

compute_keep_ids-Represented_example :
    Represented (bucket_for daily) (3, at 102 3) history (1 ∷ 2 ∷ 4 ∷ [])
compute_keep_ids-Represented_example =
    compute_keep_ids-Represented history (tiered 0) (at 103 0) (1 ∷ 2 ∷ 4 ∷ []) daily 7
      (3, at 102 3) refl refl kept_daily (inr (inr (inr (inl refl)))) (omega arith)

abbrev all_week : RetentionPolicy
all_week = record {
  count_cap = 0;
  keep_all_days = some 7;
  daily_days = none;
  weekly_weeks = none;
  monthly_months = none;
}

all_week-IsAccepted : IsAccepted all_week
all_week-IsAccepted = record { all_days = omega arith; days = tt; weeks = tt; months = tt }

-- Day 4,000, in the year 11.
compute_keep_ids-IsTotal_example :
    (keep : List ℕ) × ((compute_keep_ids history all_week (at 4000 0) ≡ some keep)
      × ((history ≡ []) ⊎ ((b : Backup) × IsNewest b history × (elem b.0 keep ≡ true))))
compute_keep_ids-IsTotal_example =
    compute_keep_ids-IsTotal history all_week (at 4000 0) all_week-IsAccepted (omega arith)

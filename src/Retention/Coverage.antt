-- ===== src/Retention/Coverage.antt =====
-- What the union of the tiers of pfsense_shared/retention.py keeps.
use pfsense_backups.Prelude.{
  ℕ, ◌-◌, ◌*◌, ◌≤◌, ◌≡◌, subst, true, some, List, [], ◌∷◌, arith, elem, In, elem-add, >>=-eq-some,
}
use pfsense_backups.Retention.{
  Backup, RetentionPolicy, has_tiers, newest_first, keep_since, newest_per_bucket, tier, tier_union,
  apply_cap, keep_ordered, compute_keep_ids,
}
use pfsense_backups.Retention.Order.{
  IsNewestFirst, newest_first-IsNewestFirst, In-newest_first, In-newest_first_of,
}
use pfsense_backups.Retention.Calendar.{day_us, date, iso_week, year_month}
use pfsense_backups.Retention.Tiers.{
  Grows, bucket-Grows, keep_since-elem, Represented, tier-Grows, Tier, daily, weekly, monthly,
  limit_of, unit_of, bucket_for, Represented-Grows, tier-run, run-Represented,
}

-- What the union of the tiers keeps, tier by tier, of a list in order.
tier_union-Represented :
    (p : RetentionPolicy) (now : ℕ) (bs : List Backup) (t : Tier) (n : ℕ) (out : List ℕ)
    (b : Backup)
    → tier_union p now bs ≡ some out
    → limit_of t p ≡ some n
    → IsNewestFirst bs
    → In b bs
    → now - n * unit_of t ≤ b.1
    → Represented (bucket_for t) b bs out
unfolding tier_union
tier_union-Represented p now bs t n out b e set sorted m le =
    let loop = λ (bucket_of : ℕ → ℕ) (cutoff : ℕ). newest_per_bucket cutoff bucket_of [] bs in
    let (a, ea, ra) =
      >>=-eq-some (tier p.keep_all_days day_us now (λ cutoff. keep_since cutoff bs) []) _ e in
    let (d, ed, rd) = >>=-eq-some (tier p.daily_days day_us now (loop date) a) _ ra in
    let (w, ew, rw') = >>=-eq-some (tier p.weekly_weeks (7 * day_us) now (loop iso_week) d) _ rd in
    let gw =
      tier-Grows p.weekly_weeks (7 * day_us) now (loop iso_week) d
        (λ k s. bucket-Grows k iso_week [] bs s) ew in
    let gm =
      tier-Grows p.monthly_months (31 * day_us) now (loop year_month) w
        (λ k s. bucket-Grows k year_month [] bs s) rw' in
    pick t set le a d w ed ew rw' gw gm
  where
    pick :
        (t' : Tier)
        → limit_of t' p ≡ some n
        → now - n * unit_of t' ≤ b.1
        → (a d w : List ℕ)
        → tier p.daily_days day_us now (λ cutoff. newest_per_bucket cutoff date [] bs) a ≡ some d
        → tier p.weekly_weeks (7 * day_us) now (λ cutoff. newest_per_bucket cutoff iso_week [] bs) d
          ≡ some w
        → tier p.monthly_months
            (31 * day_us)
            now
            (λ cutoff. newest_per_bucket cutoff year_month [] bs)
            w
          ≡ some out
        → Grows d w
        → Grows w out
        → Represented (bucket_for t') b bs out
    pick daily st le' a d w ed ew em gw gm =
        Represented-Grows date b bs d out (λ x i. gm x (gw x i))
          (run-Represented p.daily_days n day_us now date bs a d b st ed sorted m le')
    pick weekly st le' a d w ed ew em gw gm =
        Represented-Grows iso_week b bs w out gm
          (run-Represented p.weekly_weeks n (7 * day_us) now iso_week bs d w b st ew sorted m le')
    pick monthly st le' a d w ed ew em gw gm =
        run-Represented p.monthly_months n (31 * day_us) now year_month bs w out b st em sorted m
          le'

limit_of-has_tiers :
    (t : Tier) (p : RetentionPolicy) (n : ℕ) → limit_of t p ≡ some n → has_tiers p ≡ true
unfolding has_tiers
limit_of-has_tiers daily p n h = ground arith
limit_of-has_tiers weekly p n h = ground arith
limit_of-has_tiers monthly p n h = ground arith

-- With a tier and no cap, the union of the tiers is kept.
keep_ordered-union :
    (p : RetentionPolicy) (now : ℕ) (bs : List Backup) (b : Backup) {keep : List ℕ}
    → has_tiers p ≡ true
    → p.count_cap ≡ 0
    → In b bs
    → keep_ordered p now bs ≡ some keep
    → (u : List ℕ) × (tier_union p now bs ≡ some u) × Grows u keep
unfolding keep_ordered apply_cap
keep_ordered-union p now [] b tiers nocap i h = absurd i
keep_ordered-union p now (d ∷ ds) b tiers nocap i h =
    let (u, eu, r) = >>=-eq-some (tier_union p now (d ∷ ds)) _ (rw tiers at h) in
    (u, eu, λ x m. ground (arith, elem-add x d.0 u))

-- Whichever tier (daily, weekly or monthly) is set to `n`, and with no count cap, every backup in
-- the tier's window is represented: a backup of the same day, ISO week or month is kept, which is
-- not older.
pub compute_keep_ids-Represented :
    (backups : List Backup) (p : RetentionPolicy) (now : ℕ) (keep : List ℕ) (t : Tier) (n : ℕ)
    (b : Backup)
    → p.count_cap ≡ 0
    → limit_of t p ≡ some n
    → compute_keep_ids backups p now ≡ some keep
    → In b backups
    → now - n * unit_of t ≤ b.1
    → Represented (bucket_for t) b backups keep
unfolding compute_keep_ids
compute_keep_ids-Represented backups p now keep t n b nocap set h m le =
    let bs = newest_first backups in
    let i = In-newest_first_of b backups m in
    let (u, eu, g) = keep_ordered-union p now bs b (limit_of-has_tiers t p n set) nocap i h in
    let (c, j, same, later, kept) =
      Represented-Grows (bucket_for t) b bs u keep g (
        tier_union-Represented p now bs t n u b eu set (newest_first-IsNewestFirst backups) i le) in
    (c, In-newest_first c backups j, same, later, kept)

keep_all-union :
    (p : RetentionPolicy) (now : ℕ) (bs : List Backup) (n : ℕ) (out : List ℕ) (b : Backup)
    → tier_union p now bs ≡ some out
    → p.keep_all_days ≡ some n
    → In b bs
    → now - n * day_us ≤ b.1
    → elem b.0 out ≡ true
unfolding tier_union
keep_all-union p now bs n out b e set m le =
    let all = λ (cutoff : ℕ). keep_since cutoff bs in
    let loop = λ (bucket_of : ℕ → ℕ) (cutoff : ℕ). newest_per_bucket cutoff bucket_of [] bs in
    let (a, ea, ra) = >>=-eq-some (tier p.keep_all_days day_us now all []) _ e in
    let (d, ed, rd) = >>=-eq-some (tier p.daily_days day_us now (loop date) a) _ ra in
    let (w, ew, em) = >>=-eq-some (tier p.weekly_weeks (7 * day_us) now (loop iso_week) d) _ rd in
    tier-Grows p.monthly_months (31 * day_us) now (loop year_month) w
      (λ k s. bucket-Grows k year_month [] bs s) em b.0
      (tier-Grows p.weekly_weeks (7 * day_us) now (loop iso_week) d
        (λ k s. bucket-Grows k iso_week [] bs s) ew b.0
        (tier-Grows p.daily_days day_us now (loop date) a (λ k s. bucket-Grows k date [] bs s) ed
          b.0
          (subst (λ s. elem b.0 s ≡ true) (tier-run n day_us now all [] (rw set at ea))
            (keep_since-elem (now - n * day_us) bs [] b m le))))

-- With `keep_all_days` set to `n` and no count cap, every backup of the last `n` days is kept.
pub compute_keep_ids-keep_all :
    (backups : List Backup) (p : RetentionPolicy) (now : ℕ) (keep : List ℕ) (n : ℕ) (b : Backup)
    → p.count_cap ≡ 0
    → p.keep_all_days ≡ some n
    → compute_keep_ids backups p now ≡ some keep
    → In b backups
    → now - n * day_us ≤ b.1
    → elem b.0 keep ≡ true
unfolding compute_keep_ids has_tiers
compute_keep_ids-keep_all backups p now keep n b nocap set h m le =
    let bs = newest_first backups in
    let i = In-newest_first_of b backups m in
    let (u, eu, g) = keep_ordered-union p now bs b (ground arith) nocap i h in
    g b.0 (keep_all-union p now bs n u b eu set i le)

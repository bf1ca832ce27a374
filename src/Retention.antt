-- ===== src/Retention.antt =====
-- pfsense_shared/retention.py: which backups of an instance a retention policy keeps.
-- A `datetime` is its number of microseconds since 0001-01-01T00:00 UTC, a Monday. `none` is the
-- OverflowError that `datetime` raises for an instant before year 1.
pub mod Calendar
pub mod Order
pub mod Newest
pub mod Bounds
pub mod Tiers
pub mod Coverage
pub mod Total
mod Examples
use Calendar.{day_us, date, iso_week, year_month}
use pfsense_backups.Prelude.{
  ℕ, ◌-◌, ◌*◌, Bool, true, false, ◌||◌, ◌&&◌, Option, none, some, List, [], ◌∷◌, map, ltb, leb,
  if◌then◌else◌, ◌>>=◌, length, take, select, elem, add, to_set,
}

-- An id and its `started_at`.
abbrev pub Backup : Type 0
Backup = ℕ × ℕ

pub record RetentionPolicy : Type 0 where
  pub count_cap : ℕ
  pub keep_all_days : Option ℕ
  pub daily_days : Option ℕ
  pub weekly_weeks : Option ℕ
  pub monthly_months : Option ℕ

abbrev pub is_some : Option ℕ → Bool
is_some none = false
is_some (some n) = true

unfoldable pub has_tiers : RetentionPolicy → Bool
has_tiers p =
    is_some p.keep_all_days
    || is_some p.daily_days
    || is_some p.weekly_weeks
    || is_some p.monthly_months

-- `sorted(..., key=started_at, reverse=True)`, which keeps the order of equal instants.
pub insert_newest : Backup → List Backup → List Backup
insert_newest b [] = b ∷ []
insert_newest b (c ∷ cs) =
    let later = insert_newest b cs in if leb c.1 b.1 then b ∷ c ∷ cs else c ∷ later

unfoldable pub newest_first : List Backup → List Backup
unfolding insert_newest
newest_first [] = []
newest_first (b ∷ bs) = insert_newest b (newest_first bs)

abbrev pub ids : List Backup → List ℕ
ids bs = map (λ b. b.0) bs

-- `now - timedelta(...)`
unfoldable pub before : ℕ → ℕ → Option ℕ
before now span = if leb span now then some (now - span) else none

-- `keep.update(bid for bid, ts in ordered if ts >= cutoff)`
unfoldable pub keep_since : ℕ → List Backup → List ℕ → List ℕ
keep_since cutoff [] keep = keep
keep_since cutoff (b ∷ bs) keep =
    keep_since cutoff bs (if leb cutoff b.1 then add b.0 keep else keep)

-- The loop of `newest_per_bucket`, over `seen` and `keep`.
unfoldable pub newest_per_bucket : ℕ → (ℕ → ℕ) → List ℕ → List Backup → List ℕ → List ℕ
newest_per_bucket cutoff bucket_of seen [] keep = keep
newest_per_bucket cutoff bucket_of seen (b ∷ bs) keep =
    let skip = ltb b.1 cutoff || elem (bucket_of b.1) seen in
    newest_per_bucket cutoff bucket_of (if skip then seen else bucket_of b.1 ∷ seen) bs
      (if skip then keep else add b.0 keep)

-- One `if policy.<tier> is not None:` block: `cutoff` and the loop that it runs.
unfoldable pub tier : Option ℕ → ℕ → ℕ → (ℕ → List ℕ → List ℕ) → List ℕ → Option (List ℕ)
unfolding before
tier none unit now run keep = some keep
tier (some n) unit now run keep = before now (n * unit) >>= λ cutoff. some (run cutoff keep)

-- The union of the tiers.
unfoldable pub tier_union : RetentionPolicy → ℕ → List Backup → Option (List ℕ)
unfolding tier keep_since newest_per_bucket
tier_union p now ordered = do
  a ← tier p.keep_all_days day_us now (λ cutoff. keep_since cutoff ordered) []
  b ← tier p.daily_days day_us now (λ cutoff. newest_per_bucket cutoff date [] ordered) a
  c ←
      tier p.weekly_weeks (7 * day_us) now (λ cutoff. newest_per_bucket cutoff iso_week [] ordered)
        b
  tier p.monthly_months (31 * day_us) now (λ cutoff. newest_per_bucket cutoff year_month [] ordered)
      c

-- The count cap, after the union; `newest` is `ordered[0][0]`.
unfoldable pub apply_cap : ℕ → ℕ → List Backup → List ℕ → List ℕ
apply_cap cap newest ordered keep =
    if ltb 0 cap && ltb cap (length keep)
    then add newest (to_set (take cap (select (λ bid. elem bid keep) (ids ordered))))
    else keep

-- No tier is set: the newest `count_cap`, or the newest if that is none.
unfoldable pub legacy_keep : ℕ → ℕ → List Backup → List ℕ
legacy_keep cap newest ordered = if ltb 0 cap then to_set (take cap (ids ordered)) else newest ∷ []

unfoldable pub keep_ordered : RetentionPolicy → ℕ → List Backup → Option (List ℕ)
unfolding has_tiers legacy_keep tier_union apply_cap
keep_ordered p now [] = some []
keep_ordered p now (b ∷ bs) =
    if has_tiers p
    then (do
      keep ← tier_union p now (b ∷ bs)
      some (apply_cap p.count_cap b.0 (b ∷ bs) (add b.0 keep)))
    else some (legacy_keep p.count_cap b.0 (b ∷ bs))

unfoldable pub compute_keep_ids : List Backup → RetentionPolicy → ℕ → Option (List ℕ)
unfolding newest_first keep_ordered add to_set
compute_keep_ids backups p now = keep_ordered p now (newest_first backups)

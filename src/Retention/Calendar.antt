-- ===== src/Retention/Calendar.antt =====
-- The buckets of pfsense_shared/retention.py: `ts.date()`, `ts.isocalendar()[:2]` and
-- `(ts.year, ts.month)` of a number of microseconds since 0001-01-01, each as one number.
use pfsense_backups.Prelude.{ℕ, ◌+◌, ◌-◌, ◌*◌, ◌/◌, ◌%◌, ltb, if◌then◌else◌, ◌≡◌, refl}

abbrev pub day_us : ℕ
day_us = 86400 * 1000000

unfoldable pub date : ℕ → ℕ
date ts = ts / day_us

-- Day 0 is a Monday, so an ISO year and week are one block of seven days.
unfoldable pub iso_week : ℕ → ℕ
unfolding date
iso_week ts = date ts / 7

-- The day within a Gregorian 400-year cycle that begins on 1 March, as year and month.
year_in_era : ℕ → ℕ
year_in_era doe = (doe + doe / 36524 - doe / 1460 - doe / 146096) / 365

day_of_year : ℕ → ℕ → ℕ
day_of_year doe yoe = doe + yoe / 100 - 365 * yoe - yoe / 4

-- Twelve times the year plus the month.
unfoldable pub year_month : ℕ → ℕ
unfolding date year_in_era day_of_year
year_month ts =
    let z = date ts + 306 in
    let doe = z % 146097 in
    let yoe = year_in_era doe in
    let mp = (5 * day_of_year doe yoe + 2) / 153 in
    let month = if ltb mp 10 then mp + 3 else mp - 9 in
    let year = yoe + 400 * (z / 146097) + (if ltb mp 10 then 0 else 1) in 12 * year + month

-- 2024-02-29, 2024-03-01 and 0001-01-01.
leap_day :
    (year_month (738944 * day_us) ≡ 12 * 2024 + 2)
    × (year_month (738945 * day_us) ≡ 12 * 2024 + 3)
    × (year_month 0 ≡ 12 * 1 + 1)
unfolding year_month
leap_day = (refl, refl, refl)

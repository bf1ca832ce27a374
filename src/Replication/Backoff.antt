-- ===== src/Replication/Backoff.antt =====
-- `_attempt_due` of worker/replication.py: when a failed upload is tried again. Instants are
-- microseconds, so `now - last >= backoff` is written without a subtraction.
use pfsense_backups.Prelude.{
  ℕ, zero, suc, ◌+◌, ◌-◌, ◌*◌, ◌^◌, ◌≤◌, ◌≡◌, refl, min, subst, Bool, true, false, Option, none,
  some, arith, ltb, leb, ◌>>=◌, if◌then◌else◌,
}
use native.Mathlib.Nat.{pow-suc}

abbrev pub minute_us : ℕ
minute_us = 60 * 1000000

abbrev pub backoff_base_minutes : ℕ
backoff_base_minutes = 10

abbrev pub backoff_cap_hours : ℕ
backoff_cap_hours = 24

-- `timedelta(minutes=m)`, in microseconds; `none` is the OverflowError of a span of a billion days.
unfoldable pub timedelta_minutes : ℕ → Option ℕ
timedelta_minutes m = if ltb m (1440 * 1000000000) then some (minute_us * m) else none

-- `max(attempts - 1, 0)` is the truncated subtraction.
unfoldable pub backoff : ℕ → Option ℕ
unfolding timedelta_minutes
backoff attempts = do
  span ← timedelta_minutes (backoff_base_minutes * 2 ^ (attempts - 1))
  some (min span (60 * minute_us * backoff_cap_hours))

unfoldable pub attempt_due : ℕ → Option ℕ → ℕ → Option Bool
unfolding backoff
attempt_due attempts none now = some true
attempt_due attempts (some last) now = backoff attempts >>= λ wait. some (leb (last + wait) now)

pow_grows : (a b : ℕ) → 2 ^ a ≤ 2 ^ (a + b)
pow_grows a zero = let e : a + 0 ≡ a = omega arith in rw e (omega arith)
pow_grows a (suc b) =
    let e : a + suc b ≡ suc (a + b) = omega arith in
    rw e (omega (arith, pow-suc 2 (a + b), pow_grows a b))

pow_le : (a b : ℕ) → a ≤ b → 2 ^ a ≤ 2 ^ b
pow_le a b h =
    let e : a + (b - a) ≡ b = omega arith in subst (λ n. 2 ^ a ≤ 2 ^ n) e (pow_grows a (b - a))

abbrev pub cap_us : ℕ
cap_us = backoff_cap_hours * (60 * minute_us)

-- Up to 38 attempts the wait is computed, and it is a day at most.
pub backoff-le :
    (attempts : ℕ) → attempts ≤ 38 → (wait : ℕ) × ((backoff attempts ≡ some wait) × (wait ≤ cap_us))
unfolding backoff timedelta_minutes
backoff-le attempts h =
    let small : 2 ^ (attempts - 1) ≤ 2 ^ 37 = pow_le (attempts - 1) 37 (omega arith) in
    let fits : ltb (backoff_base_minutes * 2 ^ (attempts - 1)) (1440 * 1000000000) ≡ true =
      ground arith in
    (
      min (minute_us * (backoff_base_minutes * 2 ^ (attempts - 1)))
          (60 * minute_us * backoff_cap_hours),
      (rw fits, omega arith),
    )

-- With 39 failed attempts or more, the wait is too long for a timedelta.
pub backoff_overflows : (attempts : ℕ) → 39 ≤ attempts → backoff attempts ≡ none
unfolding backoff timedelta_minutes
backoff_overflows attempts h =
    let large : 2 ^ 38 ≤ 2 ^ (attempts - 1) = pow_le 38 (attempts - 1) (omega arith) in
    let past : ltb (backoff_base_minutes * 2 ^ (attempts - 1)) (1440 * 1000000000) ≡ false =
      ground arith in
    rw past

-- Up to 38 attempts, an attempt is due again once a day has passed.
pub attempt_due_in_a_day :
    (attempts last now : ℕ)
    → attempts ≤ 38
    → last + cap_us ≤ now
    → attempt_due attempts (some last) now ≡ some true
unfolding attempt_due
attempt_due_in_a_day attempts last now h late =
    let (wait, (e, le)) = backoff-le attempts h in rw e ground arith

-- Up to 38 attempts, the test does not overflow.
pub attempt_due-some :
    (attempts : ℕ) (last : Option ℕ) (now : ℕ)
    → attempts ≤ 38
    → (due : Bool) × (attempt_due attempts last now ≡ some due)
unfolding attempt_due
attempt_due-some attempts none now h = (true, refl)
attempt_due-some attempts (some last) now h =
    let (wait, (e, le)) = backoff-le attempts h in (leb (last + wait) now, rw e)

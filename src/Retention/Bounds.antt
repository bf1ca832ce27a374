-- ===== src/Retention/Bounds.antt =====
-- pfsense_shared/retention.py: the keep-set holds only ids that were given, and at most
-- `count_cap` of them.
use pfsense_backups.Prelude.{
  ℕ, zero, suc, ◌≤◌, ◌<◌, ◌≡◌, refl, inl, inr, Bool, true, ◌||◌, Option, none, some, List, ◌-◌, ◌*◌,
  [], ◌∷◌, arith, leb, ltb, ◌==◌, ==_iff, elem, add, to_set, take, select, length, In, elem-add,
  elem-add_self, add_of_elem, elem-to_set, elem-take, length-take-le, length-to_set-le, Bool-cases,
  if◌then◌else◌, >>=-eq-some, or-true,
}
use pfsense_backups.Retention.{
  Backup, RetentionPolicy, has_tiers, newest_first, ids, keep_since, newest_per_bucket, tier,
  tier_union, apply_cap, legacy_keep, keep_ordered, compute_keep_ids,
}
use pfsense_backups.Retention.Order.{In-newest_first}
use pfsense_backups.Retention.Calendar.{day_us, date, iso_week, year_month}

-- `xs` holds nothing but what `ys` holds.
abbrev pub IsWithin : List ℕ → List ℕ → Type 0
IsWithin xs ys = (x : ℕ) → elem x xs ≡ true → elem x ys ≡ true

elem-select : (x : ℕ) (p : ℕ → Bool) (xs : List ℕ) → elem x (select p xs) ≡ true → elem x xs ≡ true
elem-select x p [] h = ground arith
elem-select x p (y ∷ ys) h = ground (arith, elem-select x p ys)

keep_since-IsWithin :
    (cutoff : ℕ) (bs : List Backup) (keep : List ℕ) (all : List ℕ)
    → IsWithin keep all
    → IsWithin (ids bs) all
    → IsWithin (keep_since cutoff bs keep) all
unfolding keep_since
keep_since-IsWithin cutoff [] keep all h k = h
keep_since-IsWithin cutoff (b ∷ bs) keep all h k =
    keep_since-IsWithin cutoff bs (if leb cutoff b.1 then add b.0 keep else keep) all
      (λ x m. ground (arith, h x, k x, elem-add x b.0 keep)) (λ x m. k x (ground arith))

bucket-IsWithin :
    (cutoff : ℕ) (bucket_of : ℕ → ℕ) (seen : List ℕ) (bs : List Backup) (keep : List ℕ)
    (all : List ℕ)
    → IsWithin keep all
    → IsWithin (ids bs) all
    → IsWithin (newest_per_bucket cutoff bucket_of seen bs keep) all
unfolding newest_per_bucket
bucket-IsWithin cutoff bucket_of seen [] keep all h k = h
bucket-IsWithin cutoff bucket_of seen (b ∷ bs) keep all h k =
    let skip = ltb b.1 cutoff || elem (bucket_of b.1) seen in
    bucket-IsWithin cutoff bucket_of (if skip then seen else bucket_of b.1 ∷ seen) bs
      (if skip then keep else add b.0 keep) all
      (λ x m. ground (arith, h x, k x, elem-add x b.0 keep)) (λ x m. k x (ground arith))

module _ (all : List ℕ) where
  tier-IsWithin :
      (limit : Option ℕ) (unit now : ℕ) (run : ℕ → List ℕ → List ℕ) (keep : List ℕ) {out : List ℕ}
      → ((cutoff : ℕ) (s : List ℕ) → IsWithin s all → IsWithin (run cutoff s) all)
      → IsWithin keep all
      → tier limit unit now run keep ≡ some out
      → IsWithin out all
  unfolding tier
  tier-IsWithin none unit now run keep step h e x m = h x (ground arith)
  tier-IsWithin (some n) unit now run keep step h e x m =
      step (now - n * unit) keep h x (ground arith)

tier_union-IsWithin :
    (p : RetentionPolicy) (now : ℕ) (bs : List Backup) {out : List ℕ}
    → tier_union p now bs ≡ some out
    → IsWithin out (ids bs)
unfolding tier_union
tier_union-IsWithin p now bs e =
    let all = ids bs in
    let (a, ea, ra) =
      >>=-eq-some (tier p.keep_all_days day_us now (λ cutoff. keep_since cutoff bs) []) _ e in
    let (b, eb, rb) =
      >>=-eq-some (tier p.daily_days day_us now (λ cutoff. newest_per_bucket cutoff date [] bs) a) _
        ra in
    let (c, ec, rc) =
      >>=-eq-some
        (tier p.weekly_weeks (7 * day_us) now (λ cutoff. newest_per_bucket cutoff iso_week [] bs) b)
        _ rb in
    let ha =
      tier-IsWithin all p.keep_all_days day_us now _ []
        (λ k s h. keep_since-IsWithin k bs s all h (λ x m. m)) (λ x m. ground arith) ea in
    let hb =
      tier-IsWithin all p.daily_days day_us now _ a
        (λ k s h. bucket-IsWithin k date [] bs s all h (λ x m. m)) ha eb in
    let hc =
      tier-IsWithin all p.weekly_weeks (7 * day_us) now _ b
        (λ k s h. bucket-IsWithin k iso_week [] bs s all h (λ x m. m)) hb ec in
    tier-IsWithin all p.monthly_months (31 * day_us) now _ c
      (λ k s h. bucket-IsWithin k year_month [] bs s all h (λ x m. m)) hc rc

keep_ordered-IsWithin :
    (p : RetentionPolicy) (now : ℕ) (bs : List Backup) {keep : List ℕ}
    → keep_ordered p now bs ≡ some keep
    → IsWithin keep (ids bs)
unfolding keep_ordered apply_cap legacy_keep
keep_ordered-IsWithin p now [] h x m = ground arith
keep_ordered-IsWithin p now (b ∷ bs) h x m = elim (Bool-cases (has_tiers p)) [
  | inl e ↦
      let (u, eu, r) = >>=-eq-some (tier_union p now (b ∷ bs)) _ (rw e at h) in
      let keep = add b.0 u in
      let kept = select (λ bid. elem bid keep) (ids (b ∷ bs)) in
      ground (
        arith,
        tier_union-IsWithin p now (b ∷ bs) eu x,
        elem-add x b.0 u,
        elem-add x b.0 (to_set (take p.count_cap kept)),
        elem-to_set x (take p.count_cap kept),
        elem-take x p.count_cap kept,
        elem-select x (λ bid. elem bid keep) (ids (b ∷ bs)),
      )
  | inr e ↦ ground (
    arith,
    elem-to_set x (take p.count_cap (ids (b ∷ bs))),
    elem-take x p.count_cap (ids (b ∷ bs)),
  )
]

In-of_elem :
    (x : ℕ) (bs : List Backup) → elem x (ids bs) ≡ true → (b : Backup) × In b bs × (b.0 ≡ x)
In-of_elem x [] h = cc
In-of_elem x (b ∷ bs) h = elim (or-true (x == b.0) (elem x (ids bs)) h) [
  | inl e ↦ (b, inl refl, ground (arith, ==_iff x b.0))
  | inr m ↦ let (c, i, e) = In-of_elem x bs m in (c, inr i, e)
]

elem_of_In : (b : Backup) (bs : List Backup) → In b bs → elem b.0 (ids bs) ≡ true
elem_of_In b [] m = absurd m
elem_of_In b (c ∷ cs) (inl e) = rw (← e) (ground arith)
elem_of_In b (c ∷ cs) (inr m) = ground (arith, elem_of_In b cs m)

-- Whatever the policy, the keep-set holds only ids of the given backups.
pub compute_keep_ids-IsWithin :
    (backups : List Backup) (p : RetentionPolicy) (now : ℕ) (keep : List ℕ)
    → compute_keep_ids backups p now ≡ some keep
    → IsWithin keep (ids backups)
unfolding compute_keep_ids
compute_keep_ids-IsWithin backups p now keep h x m =
    let (b, i, e) = In-of_elem x (newest_first backups) (keep_ordered-IsWithin p now _ h x m) in
    rw e at (elem_of_In b backups (In-newest_first b backups i))

-- A cap leaves at most `cap` ids, since the newest id is the first that it takes.
apply_cap-le :
    (cap : ℕ) (b : Backup) (bs : List Backup) (keep : List ℕ)
    → 0 < cap
    → elem b.0 keep ≡ true
    → length (apply_cap cap b.0 (b ∷ bs) keep) ≤ cap
unfolding apply_cap
apply_cap-le zero b bs keep pos h = absurd (omega arith)
apply_cap-le (suc n) b bs keep pos h =
    let kept = select (λ bid. elem bid keep) (ids (b ∷ bs)) in
    ground (
      arith,
      elem-to_set b.0 (take (suc n) kept),
      add_of_elem b.0 (to_set (take (suc n) kept)),
      length-to_set-le (take (suc n) kept),
      length-take-le (suc n) kept,
    )

keep_ordered-le_cap :
    (p : RetentionPolicy) (now : ℕ) (bs : List Backup) {keep : List ℕ}
    → 0 < p.count_cap
    → keep_ordered p now bs ≡ some keep
    → length keep ≤ p.count_cap
unfolding keep_ordered legacy_keep
keep_ordered-le_cap p now [] pos h = ground arith
keep_ordered-le_cap p now (b ∷ bs) pos h = elim (Bool-cases (has_tiers p)) [
  | inl e ↦
      let (u, eu, r) = >>=-eq-some (tier_union p now (b ∷ bs)) _ (rw e at h) in
      ground (arith, apply_cap-le p.count_cap b bs (add b.0 u) pos (elem-add_self b.0 u))
  | inr e ↦
      let newest = take p.count_cap (ids (b ∷ bs)) in
      ground (arith, length-to_set-le newest, length-take-le p.count_cap (ids (b ∷ bs)))
]

-- With a positive count cap, at most that many ids are kept.
pub compute_keep_ids-le_cap :
    (backups : List Backup) (p : RetentionPolicy) (now : ℕ) (keep : List ℕ)
    → 0 < p.count_cap
    → compute_keep_ids backups p now ≡ some keep
    → length keep ≤ p.count_cap
unfolding compute_keep_ids
compute_keep_ids-le_cap backups p now keep pos h =
    keep_ordered-le_cap p now (newest_first backups) pos h

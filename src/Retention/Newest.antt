-- ===== src/Retention/Newest.antt =====
-- pfsense_shared/retention.py: the newest backup survives, and nothing is kept that was not given.
use pfsense_backups.Prelude.{
  ℕ, ◌≤◌, suc, ◌≡◌, refl, ◌≢◌, inl, inr, true, Option, none, some, List, [], zero, ◌∷◌, arith, elem,
  add, to_set, take, select, In, All-In, All-of_In, elem-add_self, elem-to_set, Bool-cases, ◌>>=◌,
}
use native.Mathlib.Nat.{le_refl}
use pfsense_backups.Retention.{
  Backup, RetentionPolicy, has_tiers, newest_first, ids, tier_union, apply_cap, legacy_keep,
  keep_ordered, compute_keep_ids,
}
use pfsense_backups.Retention.Order.{
  NoLater, IsNewestFirst, newest_first-IsNewestFirst, In-newest_first, In-newest_first_of,
}

-- The head of the sorted list is one of the backups, and no other is newer.
unfoldable pub IsNewest : Backup → List Backup → Type 0
IsNewest b bs = In b bs × NoLater b bs

newest_in_cap :
    (cap newest : ℕ) (ordered : List Backup) (keep : List ℕ)
    → elem newest keep ≡ true
    → elem newest (apply_cap cap newest ordered keep) ≡ true
unfolding apply_cap
newest_in_cap cap newest ordered keep h =
    ground (
      arith,
      elem-add_self newest (to_set (take cap (select (λ bid. elem bid keep) (ids ordered)))),
    )

newest_in_legacy :
    (cap : ℕ) (b : Backup) (bs : List Backup) → elem b.0 (legacy_keep cap b.0 (b ∷ bs)) ≡ true
unfolding legacy_keep
newest_in_legacy zero b bs = ground arith
newest_in_legacy (suc n) b bs = ground (arith, elem-to_set b.0 (take (suc n) (ids (b ∷ bs))))

keep_ordered-newest :
    (p : RetentionPolicy) (now : ℕ) (b : Backup) (bs : List Backup) (keep : List ℕ)
    → keep_ordered p now (b ∷ bs) ≡ some keep
    → elem b.0 keep ≡ true
unfolding keep_ordered
keep_ordered-newest p now b bs keep h = elim (Bool-cases (has_tiers p)) [
  | inl e ↦ tiered (tier_union p now (b ∷ bs)) (rw e at h)
  | inr e ↦ ground (arith, newest_in_legacy p.count_cap b bs)
]
  where
    tiered :
        (o : Option (List ℕ))
        → (o >>= λ u. some (apply_cap p.count_cap b.0 (b ∷ bs) (add b.0 u))) ≡ some keep
        → elem b.0 keep ≡ true
    tiered none e = cc
    tiered (some u) e =
        ground (arith, newest_in_cap p.count_cap b.0 (b ∷ bs) (add b.0 u) (elem-add_self b.0 u))

-- For a non-empty list of backups, whatever the policy, one of the newest backups survives: some
-- backup of the list, than which no other of the list is newer, has its id in the keep-set.
pub compute_keep_ids-IsNewest :
    (backups : List Backup) (p : RetentionPolicy) (now : ℕ) (keep : List ℕ)
    → backups ≢ []
    → compute_keep_ids backups p now ≡ some keep
    → (b : Backup) × IsNewest b backups × (elem b.0 keep ≡ true)
unfolding compute_keep_ids IsNewest
compute_keep_ids-IsNewest [] p now keep ne h = absurd (ne refl)
compute_keep_ids-IsNewest (c ∷ cs) p now keep ne h =
    pick (newest_first (c ∷ cs)) refl (newest_first-IsNewestFirst (c ∷ cs)) h
  where
    pick :
        (ordered : List Backup)
        → newest_first (c ∷ cs) ≡ ordered
        → IsNewestFirst ordered
        → keep_ordered p now ordered ≡ some keep
        → (b : Backup) × (In b (c ∷ cs) × NoLater b (c ∷ cs)) × (elem b.0 keep ≡ true)
    pick [] e sorted r = absurd (rw e at (In-newest_first_of c (c ∷ cs) (inl refl)))
    pick (b ∷ bs) e sorted r = (
      b,
      (
        In-newest_first b (c ∷ cs) (rw e (inl refl)),
        All-of_In (λ (x : Backup). x.1 ≤ b.1) (c ∷ cs)
            λ x m.
              All-In (λ (y : Backup). y.1 ≤ b.1) (b ∷ bs) (le_refl b.1, sorted.0)
                (rw e at (In-newest_first_of x (c ∷ cs) m)),
      ),
      keep_ordered-newest p now b bs keep r,
    )

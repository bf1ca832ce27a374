-- ===== src/Summary/Limit.antt =====
-- pfsense_shared/backup_diff_storage.py: the labels of a diff, and when there is a summary.
use pfsense_backups.Prelude.{
  ℕ, ◌≤◌, ◌<◌, ◌≡◌, refl, inl, inr, true, false, Option, none, some, List, [], ◌∷◌, ◌++◌, length,
  length-append, arith, leb, All, Bool-cases, ◌↔◌, ◌==◌, ◌&&◌,
}
use pfsense_backups.Store.{Text}
use pfsense_backups.Diff.{SectionDiff}
use pfsense_backups.Summary.{
  ConfigDiff, summarise_diff, section_labels, append_all, collect, change_labels, ChangeSummary,
  build_change_summary,
}

append_all-bounded :
    (limit : ℕ) (labels xs : List Text)
    → length labels < limit
    → (length (append_all limit labels xs).0 ≤ limit)
      × ((append_all limit labels xs).1 ≡ false → length (append_all limit labels xs).0 < limit)
unfolding append_all
append_all-bounded limit labels [] h = (omega (arith, h), λ e. h)
append_all-bounded limit labels (x ∷ xs) h =
    let n = length-append labels (x ∷ []) in
    elim (Bool-cases (leb limit (length (labels ++ x ∷ [])))) [
      | inl e ↦ rw e (omega (arith, n, h), λ clash. absurd (differ clash))
      | inr e ↦ rw e (append_all-bounded limit (labels ++ x ∷ []) xs (ground arith))
    ]
  where
    differ : true ≡ false → ⊥
    differ e = ground arith

collect-bounded :
    (limit : ℕ) (labels : List Text) (diff : ConfigDiff)
    → length labels < limit
    → length (collect limit labels diff) ≤ limit
unfolding collect
collect-bounded limit labels [] h = omega (arith, h)
collect-bounded limit labels (s ∷ ss) h =
    let (le, open_) = append_all-bounded limit labels (section_labels s.0 s.1) h in
    elim (Bool-cases (append_all limit labels (section_labels s.0 s.1)).1) [
      | inl e ↦ rw e le
      | inr e ↦
          rw e (
            collect-bounded limit (append_all limit labels (section_labels s.0 s.1)).0 ss (open_ e))
    ]

-- With a positive limit, no more labels are collected than it says.
pub change_labels-le :
    (diff : ConfigDiff) (limit : ℕ) → 0 < limit → length (change_labels diff limit) ≤ limit
unfolding change_labels
change_labels-le diff limit h = collect-bounded limit [] diff h

-- No row was added, removed or modified; rows may have moved.
abbrev pub OnlyMoved : SectionDiff → Type 0
OnlyMoved s = (length s.added ≡ 0) × ((length s.removed ≡ 0) × (length s.modified ≡ 0))

summarise_diff-moved :
    (diff : ConfigDiff)
    → All (λ (s : Text × SectionDiff). OnlyMoved s.1) diff
    → ((summarise_diff diff).added ≡ 0)
      × (((summarise_diff diff).removed ≡ 0) × ((summarise_diff diff).modified ≡ 0))
unfolding summarise_diff
summarise_diff-moved [] h = (refl, (refl, refl))
summarise_diff-moved (s ∷ ss) h =
    let (a, (r, m)) = summarise_diff-moved ss h.1 in
    (omega (arith, a, h.0.0), (omega (arith, r, h.0.1.0), omega (arith, m, h.0.1.1)))

-- No totals, no rows in any section.
summarise_diff-none :
    (diff : ConfigDiff)
    → (summarise_diff diff).added ≡ 0
    → (summarise_diff diff).removed ≡ 0
    → (summarise_diff diff).modified ≡ 0
    → All (λ (s : Text × SectionDiff). OnlyMoved s.1) diff
unfolding summarise_diff
summarise_diff-none [] a r m = tt
summarise_diff-none (s ∷ ss) a r m = (
  (omega (arith, a), (omega (arith, r), omega (arith, m))),
  summarise_diff-none ss (omega (arith, a)) (omega (arith, r)) (omega (arith, m)),
)

none-OnlyMoved :
    (diff : ConfigDiff)
    → build_change_summary diff ≡ none
    → All (λ (s : Text × SectionDiff). OnlyMoved s.1) diff
unfolding build_change_summary
none-OnlyMoved diff e = summarise_diff-none diff (ground arith) (ground arith) (ground arith)

OnlyMoved-none :
    (diff : ConfigDiff)
    → All (λ (s : Text × SectionDiff). OnlyMoved s.1) diff
    → build_change_summary diff ≡ none
unfolding build_change_summary
OnlyMoved-none diff h = let (a, (r, m)) = summarise_diff-moved diff h in rw (a, r, m) refl

-- A summary, if there is one, has at most five labels.
abbrev pub FewLabels : Option ChangeSummary → Type 0
FewLabels none = Unit
FewLabels (some c) = length c.labels ≤ 5

build_change_summary-FewLabels : (diff : ConfigDiff) → FewLabels (build_change_summary diff)
unfolding build_change_summary
build_change_summary-FewLabels diff =
    let n = summarise_diff diff in
    elim (Bool-cases (n.added == 0 && (n.removed == 0 && n.modified == 0))) [
      | inl e ↦ rw e tt
      | inr e ↦ rw e (change_labels-le diff 5 (omega arith))
    ]

-- A diff has no change summary exactly when none of its sections reports an added, a removed or a
-- modified row, whatever rows have moved; and a summary has at most five labels.
pub build_change_summary_iff :
    (diff : ConfigDiff)
    → ((build_change_summary diff ≡ none) ↔ All (λ (s : Text × SectionDiff). OnlyMoved s.1) diff)
      × FewLabels (build_change_summary diff)
build_change_summary_iff diff =
    ((none-OnlyMoved diff, OnlyMoved-none diff), build_change_summary-FewLabels diff)

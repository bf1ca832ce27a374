-- ===== src/Summary/Examples.antt =====
-- A diff in which two firewall rules have changed places, on which the results about summaries are
-- applied.
use pfsense_backups.Prelude.{◌≡◌, refl, none, [], ◌∷◌, ◌↔◌, All}
use pfsense_backups.Store.{Text}
use pfsense_backups.Replication.{codes}
use pfsense_backups.Diff.{SectionDiff, no_diff}
use pfsense_backups.Summary.{ConfigDiff, summarise_diff, build_change_summary}
use pfsense_backups.Summary.Limit.{OnlyMoved, FewLabels, build_change_summary_iff}

abbrev swapped : ConfigDiff
swapped =
    (
      codes "firewall_rules",
      record no_diff {
        reordered =
            (record { key = 97 ∷ []; label = []; old_index = 0; new_index = 1 })
            ∷ (record { key = 98 ∷ []; label = []; old_index = 1; new_index = 0 })
            ∷ [];
        unchanged_count = 2;
      },
    )
    ∷ []

build_change_summary_iff_example :
    ((build_change_summary swapped ≡ none)
      ↔ All (λ (s : Text × SectionDiff). OnlyMoved s.1) swapped)
    × FewLabels (build_change_summary swapped)
build_change_summary_iff_example = build_change_summary_iff swapped

-- The firewall rules have changed places, and there is no summary.
unannounced : build_change_summary swapped ≡ none
unfolding build_change_summary summarise_diff
unannounced = refl

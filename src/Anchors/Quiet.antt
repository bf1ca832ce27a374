-- ===== src/Anchors/Quiet.antt =====
-- pfsense_shared/anchor_events.py after pfsense_shared/pfsense_diff.py: equal configurations.
use pfsense_backups.Prelude.{
  ◌≡◌, refl, inl, inr, Bool, true, false, ◌&&◌, Option, none, some, List, [], ◌∷◌, Bool-cases, All,
  String, text_eq,
}
use pfsense_backups.Store.{Text}
use pfsense_backups.Replication.{codes}
use pfsense_backups.Diff.Data.{Value, Fields}
use pfsense_backups.Diff.{SectionDiff, is_nil, is_empty}
use pfsense_backups.Diff.Rows.{lookup}
use pfsense_backups.Diff.Labels.{Python, str}
use pfsense_backups.Diff.Configs.{ParsedConfig, Section, model, rows, scalar, plan, diff_configs}
use pfsense_backups.Diff.SameConfigs.{IsConfig, diff_configs_same}
use pfsense_backups.Summary.{ConfigDiff}
use pfsense_backups.Anchors.{
  AnchorEvent, row_events, changed_events, all_row_events, singleton_events,
}
use pfsense_backups.Anchors.Members.{All-every, flat_map-nil}
use pfsense_backups.Anchors.Spec.{RowSpec, section_spec, singleton_spec}
use pfsense_backups.Anchors.Packages.{package_events, package_row_hits, package_row_events}
use pfsense_backups.Anchors.Project.{all_singleton_events, diff_to_anchor_events}

-- `getattr(diff, name)` reads the fields of a ConfigDiff by their names.
abbrev pub section_name : Section → String
section_name (model name) = name
section_name (rows name _ _ _) = name
section_name (scalar name) = name

abbrev zip_names : List Section → List SectionDiff → ConfigDiff
zip_names [] ds = []
zip_names (s ∷ ss) [] = []
zip_names (s ∷ ss) (d ∷ ds) = (codes (section_name s), d) ∷ zip_names ss ds

unfoldable pub named_diff : Python → ParsedConfig → ParsedConfig → ConfigDiff
named_diff py a b = zip_names plan (diff_configs py a b)

abbrev IsQuiet : Option SectionDiff → Type 0
IsQuiet none = Unit
IsQuiet (some s) = is_empty s ≡ true

abbrev AllQuiet : ConfigDiff → Type 0
AllQuiet diff = All (λ e. is_empty e.1 ≡ true) diff

lookup-IsQuiet : (k : Text) (diff : ConfigDiff) → AllQuiet diff → IsQuiet (lookup k diff)
unfolding lookup
lookup-IsQuiet k [] h = tt
lookup-IsQuiet k (e ∷ es) h = elim (Bool-cases (text_eq e.0 k)) [
  | inl i ↦ rw i h.0
  | inr i ↦ rw i (lookup-IsQuiet k es h.1)
]

zip_names-AllQuiet :
    (ss : List Section) (ds : List SectionDiff)
    → All (λ d. is_empty d ≡ true) ds
    → AllQuiet (zip_names ss ds)
zip_names-AllQuiet [] ds h = tt
zip_names-AllQuiet (s ∷ ss) [] h = tt
zip_names-AllQuiet (s ∷ ss) (d ∷ ds) h = (h.0, zip_names-AllQuiet ss ds h.1)

-- A section with nothing in it.
abbrev IsBare : SectionDiff → Type 0
IsBare s = (s.added ≡ []) × ((s.removed ≡ []) × ((s.modified ≡ []) × (s.reordered ≡ [])))

is_nil-eq : {A : Type 0} (xs : List A) → is_nil xs ≡ true → xs ≡ []
is_nil-eq [] h = refl
is_nil-eq (x ∷ xs) h = absurd (clash h)
  where
    clash : false ≡ true → ⊥
    clash q = cc

both-true : (a b : Bool) → (a && b) ≡ true → (a ≡ true) × (b ≡ true)
both-true true b h = (refl, h)
both-true false b h = absurd (clash h)
  where
    clash : false ≡ true → ⊥
    clash q = cc

is_empty-IsBare : (s : SectionDiff) → is_empty s ≡ true → IsBare s
is_empty-IsBare s h =
    let (a, h1) = both-true (is_nil s.added) _ h in
    let (r, h2) = both-true (is_nil s.removed) _ h1 in
    let (m, o) = both-true (is_nil s.modified) _ h2 in
    (
      is_nil-eq s.added a,
      (is_nil-eq s.removed r, (is_nil-eq s.modified m, is_nil-eq s.reordered o)),
    )

module _ (str_of : Value → Text) where
  row_events-quiet :
      (spec : RowSpec) (o : Option SectionDiff) (rs : List Fields)
      → IsQuiet o
      → row_events str_of spec o rs ≡ []
  unfolding row_events changed_events
  row_events-quiet spec none rs h = refl
  row_events-quiet spec (some s) rs h =
      let (a, (r, (m, o))) = is_empty-IsBare s h in rw a (rw r (rw m (rw o refl)))

  singleton_events-quiet :
      (name scope : Text) (o : Option SectionDiff) → IsQuiet o → singleton_events name scope o ≡ []
  unfolding singleton_events
  singleton_events-quiet name scope none h = refl
  singleton_events-quiet name scope (some s) h =
      let (a, (r, (m, o))) = is_empty-IsBare s h in rw a (rw r (rw m refl))

  package_events-quiet :
      (o : Option SectionDiff) (pkgs : Option Fields)
      → IsQuiet o
      → package_events str_of o pkgs ≡ []
  unfolding package_events package_row_hits package_row_events
  package_events-quiet none pkgs h = refl
  package_events-quiet (some s) pkgs h =
      let (a, (r, (m, o))) = is_empty-IsBare s h in rw a (rw r (rw m refl))

  module _ (diff : ConfigDiff) (quiet : AllQuiet diff) (parsed : ParsedConfig) where
    all_row_events-quiet : all_row_events str_of diff parsed ≡ []
    unfolding all_row_events
    all_row_events-quiet = flat_map-nil of_spec section_spec (
        All-every section_spec (λ spec.
          row_events-quiet spec (of_name spec.section) (parsed.lists spec.section)
            (lookup-IsQuiet (codes spec.section) diff quiet)))
      where
        of_name : String → Option SectionDiff
        of_name name = lookup (codes name) diff

        of_spec : RowSpec → List AnchorEvent
        of_spec spec = row_events str_of spec (of_name spec.section) (parsed.lists spec.section)

    all_singleton_events-quiet : all_singleton_events diff ≡ []
    unfolding all_singleton_events
    all_singleton_events-quiet = flat_map-nil of_scope singleton_spec (
        All-every singleton_spec (λ s.
          singleton_events-quiet (codes s.0) (codes s.1) (lookup (codes s.0) diff)
            (lookup-IsQuiet (codes s.0) diff quiet)))
      where
        of_scope : String × String → List AnchorEvent
        of_scope s = singleton_events (codes s.0) (codes s.1) (lookup (codes s.0) diff)

    diff_to_anchor_events-quiet : diff_to_anchor_events str_of diff parsed ≡ []
    unfolding diff_to_anchor_events
    diff_to_anchor_events-quiet = rw all_row_events-quiet (
        rw all_singleton_events-quiet (
          package_events-quiet (lookup (codes "installedpackages") diff)
            (parsed.models "installedpackages")
            (lookup-IsQuiet (codes "installedpackages") diff quiet)))

-- A backup whose configuration is the one before leaves no event: the diff of a configuration, in
-- which no dict holds a key twice, with itself projects to none.
pub diff_to_anchor_events_same :
    (py : Python) (c : ParsedConfig)
    → IsConfig c
    → diff_to_anchor_events (str py) (named_diff py c c) c ≡ []
unfolding named_diff
diff_to_anchor_events_same py c h =
    diff_to_anchor_events-quiet (str py) (named_diff py c c)
      (zip_names-AllQuiet plan (diff_configs py c c) (diff_configs_same py c h)) c

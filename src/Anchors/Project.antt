-- ===== src/Anchors/Project.antt =====
-- `diff_to_anchor_events` and `enumerate_anchors` of pfsense_shared/anchor_events.py.
use pfsense_backups.Prelude.{Option, none, some, List, [], ◌∷◌, ◌++◌, String}
use pfsense_backups.Store.{Text}
use pfsense_backups.Replication.{codes}
use pfsense_backups.Diff.Data.{Value, null, dict, Fields, end, field, get}
use pfsense_backups.Diff.Rows.{lookup}
use pfsense_backups.Diff.Configs.{ParsedConfig}
use pfsense_backups.Summary.{ConfigDiff}
use pfsense_backups.Anchors.{
  AnchorEvent, flat_map, row_anchor_id, all_row_events, singleton_events, rescope,
}
use pfsense_backups.Anchors.Spec.{
  RowSpec, section_spec, singleton_spec, Rescope, rescope_map, package_singleton_spec, PackageRow,
  package_row_spec, field_id, row_spec,
}
use pfsense_backups.Anchors.Packages.{package_events, package_rows}

unfoldable pub all_singleton_events : ConfigDiff → List AnchorEvent
unfolding singleton_events singleton_spec lookup
all_singleton_events diff =
    flat_map
      (λ (s : String × String). singleton_events (codes s.0) (codes s.1) (lookup (codes s.0) diff))
      singleton_spec

abbrev pub Anchor : Type 0
Anchor = Text × Value

abbrev pub anchor_at : Value → Option Text → List Anchor
anchor_at v none = []
anchor_at v (some i) = (i, v) ∷ []

abbrev pub field_anchor : Value → Option (Text × Text) → List Anchor
field_anchor v none = []
field_anchor v (some p) = (field_id p.0 p.1, v) ∷ []

-- The fields of a dump, of which a name with a dot is left out.
unfoldable pub field_anchors : Rescope → Text → Fields → List Anchor
unfolding rescope
field_anchors m scope end = []
field_anchors m scope (field k v rest) =
    field_anchor v (rescope m scope k) ++ field_anchors m scope rest

abbrev pub model_anchors : Rescope → Text → Option Fields → List Anchor
model_anchors m scope none = []
model_anchors m scope (some d) = field_anchors m scope d

abbrev pub package_anchors : Text → Value → List Anchor
package_anchors scope (dict d) = field_anchors [] scope d
package_anchors scope _ = []

abbrev pub package_value : Text → Option Fields → Value
package_value pkg none = null
package_value pkg (some d) = get pkg d

module _ (str_of : Value → Text) where
  unfoldable pub diff_to_anchor_events : ConfigDiff → ParsedConfig → List AnchorEvent
  unfolding all_row_events all_singleton_events package_events lookup
  diff_to_anchor_events diff parsed =
      let pkgs = parsed.models "installedpackages" in
      all_row_events str_of diff parsed
      ++ (all_singleton_events diff
          ++ package_events str_of (lookup (codes "installedpackages") diff) pkgs)

  -- The rows of a section; the field of the diff's key does not matter here.
  unfoldable pub row_anchors : RowSpec → List Fields → List Anchor
  unfolding row_anchor_id
  row_anchors spec rows =
      flat_map (λ (row : Fields). anchor_at (dict row) (row_anchor_id str_of spec row)) rows

  abbrev pub spec_of_package : PackageRow → RowSpec
  spec_of_package p = row_spec p.list_path p.anchor_kind p.anchor_key_field p.anchor_key_field

  unfoldable pub all_row_anchors : ParsedConfig → List Anchor
  unfolding row_anchors section_spec
  all_row_anchors parsed =
      flat_map (λ (s : RowSpec). row_anchors s (parsed.lists s.section)) section_spec

  unfoldable pub enumerate_anchors : ParsedConfig → List Anchor
  unfolding all_row_anchors row_anchors field_anchors rescope_map singleton_spec
      package_singleton_spec package_row_spec package_rows
  enumerate_anchors parsed =
      let pkgs = parsed.models "installedpackages" in
      all_row_anchors parsed
      ++ (flat_map
            (λ (s : String × String).
              model_anchors (rescope_map (codes s.0)) (codes s.1) (parsed.models s.1))
            singleton_spec
          ++ (flat_map
                (λ (p : String × String).
                  package_anchors (codes p.1) (package_value (codes p.0) pkgs))
                package_singleton_spec
              ++ flat_map
                  (λ (p : PackageRow). row_anchors (spec_of_package p) (package_rows p pkgs))
                  package_row_spec))

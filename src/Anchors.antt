-- ===== src/Anchors.antt =====
-- pfsense_shared/anchor_events.py: the events of a diff, and the anchors of a configuration.
pub mod Spec
pub mod Decode
pub mod Current
pub mod Quiet
pub mod Packages
pub mod Project
pub mod Members
pub mod Resolve
pub mod Found
mod Examples
use Spec.{
  RowSpec, section_spec, singleton_spec, Rescope, rescope_map, package_singleton_spec, PackageRow,
  package_row_spec, safe, xref, field_id,
}
use pfsense_backups.Prelude.{
  ℕ, ◌+◌, Bool, true, false, not, ◌&&◌, ◌||◌, Option, none, some, List, [], ◌∷◌, ◌++◌, map, length,
  drop, leb, ◌==◌, elem, any, String, if◌then◌else◌,
}
use pfsense_backups.Store.{Text}
use pfsense_backups.Replication.{codes}
use pfsense_backups.Prelude.{text_eq}
use pfsense_backups.Diff.Data.{Value, null, items, dict, Values, nil, cons, Fields, end, field, get}
use pfsense_backups.Diff.{FieldChange, ItemDiff, ReorderEvent, SectionDiff, is_nil}
use pfsense_backups.Diff.Rows.{Keyed, put_key, lookup}
use pfsense_backups.Diff.Configs.{ParsedConfig}
use pfsense_backups.Summary.{ConfigDiff}

pub data EventKind : Type 0 where
  added removed modified reordered : EventKind

pub record AnchorEvent : Type 0 where
  pub anchor_id : Text
  pub kind : EventKind
  pub value : Value

abbrev pub event : Text → EventKind → Value → AnchorEvent
event i k v = record { anchor_id = i; kind = k; value = v }

-- The events of all members of a list, in order.
abbrev pub flat_map {ℓ} : {A : Type ℓ} {B : Type 0} → (A → List B) → List A → List B
flat_map f [] = []
flat_map f (x ∷ xs) = f x ++ flat_map f xs

abbrev pub changes_of : ItemDiff → List FieldChange
changes_of i = i.changes

-- The kind of a change and the value that its event carries.
unfoldable pub change_kind : Value → Value → EventKind × Value
change_kind null null = (modified, null)
change_kind null after = (added, after)
change_kind before null = (removed, before)
change_kind before after = (modified, after)

-- `None` has no key, and every other value is written by `str`.
module _ (str_of : Value → Text) where
  unfoldable pub id_of_key : Text → Value → Option Text
  unfolding safe
  id_of_key kind null = none
  id_of_key kind v = some (xref kind (safe (str_of v)))

  -- `_row_anchor_id`
  unfoldable pub row_anchor_id : RowSpec → Fields → Option Text
  unfolding id_of_key
  row_anchor_id spec row =
      id_of_key (codes spec.anchor_kind) (get (codes spec.anchor_key_field) row)

  abbrev pub event_at : EventKind → Fields → Option Text → List AnchorEvent
  event_at kind row none = []
  event_at kind row (some i) = event i kind (dict row) ∷ []

  unfoldable pub row_event : RowSpec → EventKind → Fields → List AnchorEvent
  unfolding row_anchor_id
  row_event spec kind row = event_at kind row (row_anchor_id spec row)

  abbrev pub put_row : Value → Fields → Keyed Fields → Keyed Fields
  put_row null row acc = acc
  put_row k row acc = put_key (str_of k) row acc

  -- `by_diff_key`, over the rows before.
  unfoldable pub by_diff_key : Text → List Fields → Keyed Fields → Keyed Fields
  unfolding put_key
  by_diff_key key [] acc = acc
  by_diff_key key (d ∷ ds) acc = by_diff_key key ds (put_row (get key d) d acc)

  abbrev pub event_found : RowSpec → EventKind → Option Fields → List AnchorEvent
  event_found spec kind none = []
  event_found spec kind (some row) = row_event spec kind row

  unfoldable pub changed_events : RowSpec → SectionDiff → List Fields → List AnchorEvent
  unfolding by_diff_key lookup row_event
  changed_events spec s rows =
      let by = by_diff_key (codes spec.diff_key_field) rows [] in
      let found = λ (kind : EventKind) (key : Text). event_found spec kind (lookup key by) in
      if is_nil s.modified && is_nil s.reordered
      then []
      else flat_map (λ (i : ItemDiff). found modified i.key) s.modified
        ++ flat_map (λ (r : ReorderEvent). found reordered r.key) s.reordered

  -- The body of the loop over SECTION_SPEC.
  unfoldable pub row_events : RowSpec → Option SectionDiff → List Fields → List AnchorEvent
  unfolding changed_events row_event
  row_events spec none rows = []
  row_events spec (some s) rows =
      flat_map (row_event spec added) s.added
      ++ (flat_map (row_event spec removed) s.removed ++ changed_events spec s rows)

  unfoldable pub all_row_events : ConfigDiff → ParsedConfig → List AnchorEvent
  unfolding row_events section_spec lookup
  all_row_events diff parsed =
      flat_map
        (λ (spec : RowSpec).
          row_events spec (lookup (codes spec.section) diff) (parsed.lists spec.section))
        section_spec

abbrev pub rescoped : Text → Text → Option (Text × Text) → Text × Text
rescoped scope name none = (scope, name)
rescoped scope name (some p) = p

-- `_rescope`
unfoldable pub rescope : Rescope → Text → Text → Option (Text × Text)
unfolding lookup
rescope m scope name = if elem 46 name then none else some (rescoped scope name (lookup name m))

abbrev pub field_at : EventKind → Value → Option (Text × Text) → List AnchorEvent
field_at kind v none = []
field_at kind v (some p) = event (field_id p.0 p.1) kind v ∷ []

unfoldable pub field_event : Rescope → Text → Text → EventKind → Value → List AnchorEvent
unfolding rescope
field_event m scope name kind v = field_at kind v (rescope m scope name)

unfoldable pub dict_events : Rescope → Text → EventKind → Fields → List AnchorEvent
unfolding field_event
dict_events m scope kind end = []
dict_events m scope kind (field k v rest) =
    field_event m scope k kind v ++ dict_events m scope kind rest

unfoldable pub change_event : Rescope → Text → FieldChange → List AnchorEvent
unfolding field_event change_kind
change_event m scope c =
    let (kind, v) = change_kind c.old c.new in field_event m scope c.path kind v

-- The body of the loop over SINGLETON_SPEC.
unfoldable pub singleton_events : Text → Text → Option SectionDiff → List AnchorEvent
unfolding rescope_map dict_events change_event
singleton_events name scope none = []
singleton_events name scope (some s) =
    let m = rescope_map name in
    flat_map (dict_events m scope added) s.added
    ++ (flat_map (dict_events m scope removed) s.removed
        ++ flat_map (change_event m scope) (flat_map changes_of s.modified))

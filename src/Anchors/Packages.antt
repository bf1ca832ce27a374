-- ===== src/Anchors/Packages.antt =====
-- The package part of `diff_to_anchor_events` in pfsense_shared/anchor_events.py.
use pfsense_backups.Prelude.{
  ℕ, Bool, true, false, ◌&&◌, Option, none, some, List, [], ◌∷◌, ◌++◌, length, drop, leb, ◌==◌,
  elem, any, String, if◌then◌else◌,
}
use pfsense_backups.Store.{Text}
use pfsense_backups.Replication.{codes}
use pfsense_backups.Prelude.{text_eq}
use pfsense_backups.Diff.Data.{Value, null, items, dict, Values, nil, cons, Fields, end, field, get}
use pfsense_backups.Diff.{FieldChange, SectionDiff}
use pfsense_backups.Diff.Rows.{Keyed, lookup}
use pfsense_backups.Anchors.{
  EventKind, added, removed, AnchorEvent, event, flat_map, changes_of, change_kind,
}
use pfsense_backups.Anchors.Spec.{
  package_singleton_spec, PackageRow, package_row_spec, safe, xref, field_id,
}

-- The first part of `s` put before a character.
abbrev pub grow_head : ℕ → List Text → List Text
grow_head c [] = (c ∷ []) ∷ []
grow_head c (t ∷ ts) = (c ∷ t) ∷ ts

-- `s.split(".")`
unfoldable pub split_dots : Text → List Text
split_dots [] = [] ∷ []
split_dots (c ∷ cs) = let rest = split_dots cs in if c == 46 then [] ∷ rest else grow_head c rest

-- The leaves of a package that came or went.
unfoldable pub leaf_events : Text → EventKind → Fields → List AnchorEvent
leaf_events scope kind end = []
leaf_events scope kind (field leaf v rest) =
    let later = leaf_events scope kind rest in
    if elem 46 leaf then later else event (field_id scope leaf) kind v ∷ later

abbrev pub package_leaves : Text → EventKind → Value → List AnchorEvent
package_leaves scope kind (dict d) = leaf_events scope kind d
package_leaves scope kind _ = []

unfoldable pub whole_package_events : EventKind → Fields → List AnchorEvent
unfolding leaf_events package_singleton_spec
whole_package_events kind whole =
    flat_map (λ (p : String × String). package_leaves (codes p.1) kind (get (codes p.0) whole))
      package_singleton_spec

-- PACKAGE_SINGLETON_SPEC.get(pkg)
unfoldable pub package_scope : Text → List (String × String) → Option Text
package_scope pkg [] = none
package_scope pkg (p ∷ ps) =
    let later = package_scope pkg ps in if text_eq (codes p.0) pkg then some (codes p.1) else later

abbrev pub package_field : Option Text → Text → Value → Value → List AnchorEvent
package_field none leaf before after = []
package_field (some scope) leaf before after =
    let (kind, v) = change_kind before after in event (field_id scope leaf) kind v ∷ []

abbrev pub package_parts : List Text → Value → Value → List AnchorEvent
package_parts (pkg ∷ leaf ∷ []) before after =
    package_field (package_scope pkg package_singleton_spec) leaf before after
package_parts _ before after = []

-- The event of a change `<pkg>.<leaf>`.
unfoldable pub package_change_event : FieldChange → List AnchorEvent
unfolding split_dots package_scope package_singleton_spec change_kind
package_change_event c = package_parts (split_dots c.path) c.old c.new

-- `parts[:len(prefix)] == prefix`
abbrev pub begins_with : List Text → List Text → Bool
begins_with [] parts = true
begins_with (t ∷ ts) [] = false
begins_with (t ∷ ts) (p ∷ ps) = text_eq p t && begins_with ts ps

unfoldable pub row_list_of : List Text → List PackageRow → Option PackageRow
unfolding split_dots
row_list_of parts [] = none
row_list_of parts (c ∷ cs) =
    let later = row_list_of parts cs in
    if begins_with (split_dots (codes c.list_path)) parts then some c else later

-- An entry of `package_row_hits`.
pub record Hit : Type 0 where
  pub list : PackageRow
  pub row_key : Text
  pub kind : EventKind

abbrev pub is_hit : PackageRow → Text → Hit → Bool
is_hit l k h = text_eq (codes h.list.list_path) (codes l.list_path) && text_eq h.row_key k

abbrev pub kind_of_change : FieldChange → EventKind
kind_of_change c = (change_kind c.old c.new).0

-- The first change of a row decides its kind.
abbrev pub hit_at : PackageRow → List Text → EventKind → List Hit → List Hit
hit_at l [] kind hits = hits
hit_at l (k ∷ ks) kind hits =
    if any (is_hit l k) hits
    then hits
    else hits ++ (record { list = l; row_key = k; kind = kind }) ∷ []

abbrev pub hit_in : Option PackageRow → List Text → EventKind → List Hit → List Hit
hit_in none parts kind hits = hits
hit_in (some l) parts kind hits =
    hit_at l (drop (length (split_dots (codes l.list_path))) parts) kind hits

-- `package_row_hits`, over the hits before.
unfoldable pub package_row_hits : List FieldChange → List Hit → List Hit
unfolding split_dots row_list_of package_row_spec change_kind
package_row_hits [] hits = hits
package_row_hits (c ∷ cs) hits =
    let parts = split_dots c.path in
    let hits' = hit_in (row_list_of parts package_row_spec) parts (kind_of_change c) hits in
    package_row_hits cs (if leb 4 (length parts) then hits' else hits)

-- `_descend`, of a dump.
unfoldable pub descend : Value → List Text → Value
descend v [] = v
descend (dict d) (p ∷ ps) = descend (get p d) ps
descend _ (p ∷ ps) = null

abbrev pub dump_row : Value → Fields
dump_row (dict d) = d
dump_row _ = end

abbrev pub rows_in : Values → List Fields
rows_in nil = []
rows_in (cons v vs) = dump_row v ∷ rows_in vs

abbrev pub rows_of : Value → List Fields
rows_of (items vs) = rows_in vs
rows_of _ = []

abbrev pub installed : Option Fields → Value
installed none = null
installed (some d) = dict d

unfoldable pub package_rows : PackageRow → Option Fields → List Fields
unfolding descend split_dots
package_rows l pkgs = rows_of (descend (installed pkgs) (split_dots (codes l.list_path)))

-- `d.setdefault(k, row)`
unfoldable pub set_default : Text → Fields → Keyed Fields → Keyed Fields
set_default k row [] = (k, row) ∷ []
set_default k row (e ∷ es) =
    let rest = set_default k row es in if text_eq e.0 k then e ∷ es else e ∷ rest

module _ (str_of : Value → Text) where
  -- `by_key`, over the rows before.
  unfoldable pub row_map : Text → List Fields → Keyed Fields → Keyed Fields
  unfolding set_default
  row_map key [] acc = acc
  row_map key (d ∷ ds) acc =
      let named = set_default (str_of (get key d)) d acc in
      row_map key ds (set_default (str_of (get (codes "key") d)) d named)

  abbrev pub key_or : Text → Value → Text
  key_or k null = safe k
  key_or k v = safe (str_of v)

  -- The event of a row that is found, or of one that is not there.
  abbrev pub hit_event : Hit → Option Fields → AnchorEvent
  hit_event h none = event (xref (codes h.list.anchor_kind) (safe h.row_key)) h.kind null
  hit_event h (some row) =
      let key = key_or h.row_key (get (codes h.list.anchor_key_field) row) in
      event (xref (codes h.list.anchor_kind) key) h.kind (dict row)

  unfoldable pub package_row_events : List Hit → Option Fields → List AnchorEvent
  unfolding package_rows row_map lookup safe
  package_row_events [] pkgs = []
  package_row_events (h ∷ hs) pkgs =
      let by = row_map (codes h.list.anchor_key_field) (package_rows h.list pkgs) [] in
      hit_event h (lookup h.row_key by) ∷ package_row_events hs pkgs

  -- What follows from the section `installedpackages`.
  unfoldable pub package_events : Option SectionDiff → Option Fields → List AnchorEvent
  unfolding whole_package_events package_change_event package_row_hits package_row_events
  package_events none pkgs = []
  package_events (some s) pkgs =
      let changes = flat_map changes_of s.modified in
      flat_map (whole_package_events added) s.added
      ++ (flat_map (whole_package_events removed) s.removed
          ++ (flat_map package_change_event changes
              ++ package_row_events (package_row_hits changes []) pkgs))

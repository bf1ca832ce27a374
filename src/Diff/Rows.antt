-- ===== src/Diff/Rows.antt =====
-- `_diff_list` of pfsense_shared/pfsense_diff.py. The dicts keep the order of insertion; a set of keys
-- is gone through in that order, which the sorts at the end make good.
use pfsense_backups.Prelude.{
  ℕ, suc, Bool, true, false, not, Option, none, some, List, [], ◌∷◌, map, ◌==◌, select,
  if◌then◌else◌,
}
use pfsense_backups.Store.{Text}
use pfsense_backups.Prelude.{text_eq}
use pfsense_backups.Diff.Data.{Value, Fields, get}
use pfsense_backups.Diff.{
  FieldChange, ItemDiff, ReorderEvent, SectionDiff, no_diff, sort_by, field_changes,
}

-- A dict with the keys of the rows.
abbrev pub Keyed : Type 0 → Type 0
Keyed V = List (Text × V)

module _ {V : Type 0} where
  -- `d[k] = v`
  unfoldable pub put_key : Text → V → Keyed V → Keyed V
  put_key k v [] = (k, v) ∷ []
  put_key k v (e ∷ es) =
      let rest = put_key k v es in if text_eq e.0 k then (e.0, v) ∷ es else e ∷ rest

  unfoldable pub lookup : Text → Keyed V → Option V
  lookup k [] = none
  lookup k (e ∷ es) = if text_eq e.0 k then some e.1 else lookup k es

  abbrev pub has_row : Text → Keyed V → Bool
  has_row k [] = false
  has_row k (e ∷ es) = if text_eq e.0 k then true else has_row k es

-- `str` of a value; the label of a row; the attribute that identifies a row.
module _ (str_of : Value → Text) (label_fn : Fields → Text) (key : Text) where
  abbrev pub row_key : Fields → Text
  row_key d = str_of (get key d)

  -- `{str(d.get(key)): d for d in dump}`, over the rows before.
  unfoldable pub by_key : List Fields → Keyed Fields → Keyed Fields
  unfolding put_key
  by_key [] acc = acc
  by_key (d ∷ ds) acc = by_key ds (put_key (row_key d) d acc)

  -- `{str(d.get(key)): i for i, d in enumerate(dump)}`
  unfoldable pub index_by_key : ℕ → List Fields → Keyed ℕ → Keyed ℕ
  unfolding put_key
  index_by_key i [] acc = acc
  index_by_key i (d ∷ ds) acc = index_by_key (suc i) ds (put_key (row_key d) i acc)

  abbrev pub row_of : Text × Fields → Fields
  row_of e = e.1

  -- `[x[k] for k in x.keys() - y.keys()]`, sorted.
  unfoldable pub rows_without : Keyed Fields → Keyed Fields → List Fields
  unfolding sort_by
  rows_without xs ys = sort_by row_key (map row_of (select (λ e. not (has_row e.0 ys)) xs))

  unfoldable pub compare_row : Text → Fields → List FieldChange → SectionDiff → SectionDiff
  compare_row k b [] acc = record acc { unchanged_count = suc acc.unchanged_count }
  compare_row k b (c ∷ cs) acc = record acc {
    modified = (record { key = k; label = label_fn b; changes = c ∷ cs }) ∷ acc.modified;
  }

  unfoldable pub compare_index : Text → Fields → Option ℕ → Option ℕ → SectionDiff → SectionDiff
  compare_index k b (some i) (some j) acc = if i == j then acc else record acc {
    reordered =
        (record { key = k; label = label_fn b; old_index = i; new_index = j }) ∷ acc.reordered;
  }
  compare_index k b _ _ acc = acc

  module _ (order_sensitive : Bool) (a_index b_index : Keyed ℕ) where
    -- The body of the loop over the common keys; `none` is a key of the first dict alone.
    unfoldable pub visit_row : Text → Fields → Option Fields → SectionDiff → SectionDiff
    unfolding compare_row compare_index lookup field_changes
    visit_row k a none acc = acc
    visit_row k a (some b) acc =
        let compared = compare_row k b (field_changes [] a b) acc in
        if order_sensitive
        then compare_index k b (lookup k a_index) (lookup k b_index) compared
        else compared

    unfoldable pub visit_rows : Keyed Fields → Keyed Fields → SectionDiff → SectionDiff
    unfolding visit_row lookup
    visit_rows [] b_by acc = acc
    visit_rows (e ∷ es) b_by acc = visit_rows es b_by (visit_row e.0 e.1 (lookup e.0 b_by) acc)

abbrev pub item_key : ItemDiff → Text
item_key m = m.key

abbrev pub position : ReorderEvent → Text
position r = r.new_index ∷ []

module _ (str_of : Value → Text) where
  unfoldable pub diff_list : List Fields → List Fields → Text → (Fields → Text) → Bool → SectionDiff
  unfolding by_key index_by_key rows_without visit_rows sort_by
  diff_list a b key label_fn order_sensitive =
      let a_by = by_key str_of label_fn key a [] in
      let b_by = by_key str_of label_fn key b [] in
      let a_index = index_by_key str_of label_fn key 0 a [] in
      let b_index = index_by_key str_of label_fn key 0 b [] in
      let seen = visit_rows str_of label_fn key order_sensitive a_index b_index a_by b_by no_diff in
      record {
        added = rows_without str_of label_fn key b_by a_by;
        removed = rows_without str_of label_fn key a_by b_by;
        modified = sort_by item_key seen.modified;
        reordered = sort_by position seen.reordered;
        unchanged_count = seen.unchanged_count;
      }

-- ===== src/Diff.antt =====
-- pfsense_shared/pfsense_diff.py: the comparison of two parsed configurations.
pub mod Data
pub mod Rows
pub mod Labels
pub mod Configs
pub mod Same
pub mod SameRows
pub mod SameConfigs
pub mod Complete
pub mod Count
mod Examples
use pfsense_backups.Prelude.{
  ℕ, suc, Bool, true, false, not, ◌&&◌, ◌||◌, Option, none, some, List, [], ◌∷◌, ◌++◌, map, length,
  leb, ◌==◌, select, if◌then◌else◌,
}
use pfsense_backups.Store.{Text}
use pfsense_backups.Replication.{codes}
use pfsense_backups.Prelude.{text_eq}
use Data.{Value, null, dict, Fields, end, field, value_eq, get, has_key, texts_leb}

pub record FieldChange : Type 0 where
  pub path : Text
  pub old : Value
  pub new : Value

pub record ItemDiff : Type 0 where
  pub key : Text
  pub label : Text
  pub changes : List FieldChange

pub record ReorderEvent : Type 0 where
  pub key : Text
  pub label : Text
  pub old_index : ℕ
  pub new_index : ℕ

pub record SectionDiff : Type 0 where
  pub added : List Fields
  pub removed : List Fields
  pub modified : List ItemDiff
  pub reordered : List ReorderEvent
  pub unchanged_count : ℕ

abbrev pub is_nil {ℓ} : {A : Type ℓ} → List A → Bool
is_nil [] = true
is_nil (_ ∷ _) = false

abbrev pub is_empty : SectionDiff → Bool
is_empty d = is_nil d.added && (is_nil d.removed && (is_nil d.modified && is_nil d.reordered))

abbrev pub no_diff : SectionDiff
no_diff = record { added = []; removed = []; modified = []; reordered = []; unchanged_count = 0 }

-- A stable sort by a text.
module _ {A : Type 0} (key_of : A → Text) where
  unfoldable pub insert_by : A → List A → List A
  insert_by x [] = x ∷ []
  insert_by x (y ∷ ys) =
      let rest = insert_by x ys in if texts_leb (key_of x) (key_of y) then x ∷ y ∷ ys else y ∷ rest

  unfoldable pub sort_by : List A → List A
  unfolding insert_by
  sort_by [] = []
  sort_by (x ∷ xs) = insert_by x (sort_by xs)

abbrev pub Group : Type 0
Group = Text × List FieldChange

abbrev pub name_of : Group → Text
name_of g = g.0

abbrev pub joined : List Group → List FieldChange
joined [] = []
joined (g ∷ gs) = g.1 ++ joined gs

-- `_field_changes`: the changes at each key of either dict, in the order of the keys.
-- `value_changes` is the loop's body, `groups` collects what it yields at the keys of the first dict
-- and `new_keys` at those of the second alone.
abbrev pub leaf_change : Text → Value → Value → List FieldChange
leaf_change path av bv =
    if value_eq av bv then [] else (record { path = path; old = av; new = bv }) ∷ []

abbrev pub new_keys : Text → Fields → Fields → List Group
new_keys prefix a end = []
new_keys prefix a (field k bv rest) =
    let later = new_keys prefix a rest in
    if has_key k a then later else (k, leaf_change (prefix ++ k) null bv) ∷ later

abbrev pub dotted : Text → Text
dotted path = path ++ codes "."

unfoldable mutual
  pub value_changes : Text → Value → Value → List FieldChange
  value_changes path (dict a) (dict b) =
      let deeper =
        joined (sort_by name_of (groups (dotted path) a b ++ new_keys (dotted path) a b)) in
      if value_eq (dict a) (dict b) then [] else deeper
  value_changes path av bv = leaf_change path av bv

  pub groups : Text → Fields → Fields → List Group
  groups prefix end b = []
  groups prefix (field k av rest) b =
      (k, value_changes (prefix ++ k) av (get k b)) ∷ groups prefix rest b

unfoldable pub field_changes : Text → Fields → Fields → List FieldChange
unfolding groups sort_by
field_changes prefix a b = joined (sort_by name_of (groups prefix a b ++ new_keys prefix a b))

abbrev pub one_item : Text → List FieldChange → List ItemDiff
one_item label changes = (record { key = label; label = label; changes = changes }) ∷ []

unfoldable pub diff_scalar : Value → Value → Text → SectionDiff
diff_scalar a b name =
    if value_eq a b then record no_diff { unchanged_count = 1 } else record no_diff {
      modified = one_item name ((record { path = name; old = a; new = b }) ∷ []);
    }

abbrev pub diff_model : List FieldChange → Text → SectionDiff
diff_model [] label = record no_diff { unchanged_count = 1 }
diff_model (c ∷ cs) label = record no_diff { modified = one_item label (c ∷ cs) }

unfoldable pub diff_optional_model : Option Fields → Option Fields → Text → SectionDiff
unfolding field_changes
diff_optional_model none none label = no_diff
diff_optional_model none (some b) label = record no_diff { added = b ∷ [] }
diff_optional_model (some a) none label = record no_diff { removed = a ∷ [] }
diff_optional_model (some a) (some b) label = diff_model (field_changes [] a b) label

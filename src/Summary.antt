-- ===== src/Summary.antt =====
-- The roll-up of a diff in pfsense_shared/backup_diff_storage.py. A ConfigDiff is its fields, each
-- with its name.
pub mod Limit
mod Examples
use pfsense_backups.Prelude.{
  ℕ, ◌+◌, Bool, true, false, not, ◌&&◌, Option, none, some, List, [], ◌∷◌, ◌++◌, map, length, leb,
  ◌==◌, if◌then◌else◌,
}
use pfsense_backups.Store.{Text}
use pfsense_backups.Replication.{codes}
use pfsense_backups.Diff.Data.{Value, text, Fields, get}
use pfsense_backups.Diff.{ItemDiff, SectionDiff, is_empty}

abbrev pub ConfigDiff : Type 0
ConfigDiff = List (Text × SectionDiff)

-- The totals `added`, `removed` and `modified`.
pub record Totals : Type 0 where
  pub added : ℕ
  pub removed : ℕ
  pub modified : ℕ

unfoldable pub summarise_diff : ConfigDiff → Totals
summarise_diff [] = record { added = 0; removed = 0; modified = 0 }
summarise_diff (s ∷ ss) =
    let rest = summarise_diff ss in
    record {
      added = length s.1.added + rest.added;
      removed = length s.1.removed + rest.removed;
      modified = length s.1.modified + rest.modified;
    }

-- A field that is a text and not empty, or else what comes next.
abbrev pub text_or : Value → Option Text → Option Text
text_or (text (c ∷ cs)) next = some (c ∷ cs)
text_or _ next = next

unfoldable pub row_label : Fields → Option Text
row_label row =
    text_or (get (codes "name") row)
      (text_or (get (codes "descr") row) (text_or (get (codes "key") row) none))

-- `section_name.replace("_", " ")`
abbrev pub pretty : Text → Text
pretty name = map (λ (c : ℕ). if c == 95 then 32 else c) name

abbrev pub item_label : Text → ItemDiff → Text
item_label name item = pretty name ++ (codes ": " ++ item.label)

abbrev pub row_text : Text → Text → Option Text → Text
row_text name kind none = pretty name ++ (codes ": row " ++ kind)
row_text name kind (some label) = pretty name ++ (codes " " ++ (kind ++ (codes ": " ++ label)))

-- The labels of one section, in the order in which the loops append them.
unfoldable pub section_labels : Text → SectionDiff → List Text
unfolding row_label
section_labels name s =
    let of_kind = λ (kind : Text) (row : Fields). row_text name kind (row_label row) in
    if is_empty s
    then []
    else map (item_label name) s.modified
      ++ (map (of_kind (codes "added")) s.added ++ map (of_kind (codes "removed")) s.removed)

-- `labels.append(x)`, and the return once there are `limit`.
unfoldable pub append_all : ℕ → List Text → List Text → List Text × Bool
append_all limit labels [] = (labels, false)
append_all limit labels (x ∷ xs) =
    let more = append_all limit (labels ++ x ∷ []) xs in
    if leb limit (length (labels ++ x ∷ [])) then (labels ++ x ∷ [], true) else more

unfoldable pub collect : ℕ → List Text → ConfigDiff → List Text
unfolding section_labels append_all
collect limit labels [] = labels
collect limit labels (s ∷ ss) =
    let (grown, full) = append_all limit labels (section_labels s.0 s.1) in
    let rest = collect limit grown ss in if full then grown else rest

unfoldable pub change_labels : ConfigDiff → ℕ → List Text
unfolding collect
change_labels diff limit = collect limit [] diff

pub record ChangeSummary : Type 0 where
  pub totals : Totals
  pub labels : List Text

unfoldable pub build_change_summary : ConfigDiff → Option ChangeSummary
unfolding summarise_diff change_labels
build_change_summary diff =
    let n = summarise_diff diff in
    if n.added == 0 && (n.removed == 0 && n.modified == 0)
    then none
    else some (record { totals = n; labels = change_labels diff 5 })

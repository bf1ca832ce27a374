-- ===== src/Diff/SameRows.antt =====
-- `_diff_list` of pfsense_shared/pfsense_diff.py on equal lists.
use pfsense_backups.Prelude.{
  ℕ, ◌≡◌, refl, ◌∙◌, Bool, true, false, not, inl, inr, Option, none, some, List, [], ◌∷◌, select,
  arith, ◌==◌, All, Bool-cases, text_eq, text_eq_refl,
}
use pfsense_backups.Store.{Text}
use pfsense_backups.Diff.Data.{Value, Fields}
use pfsense_backups.Diff.{SectionDiff, is_empty, no_diff, sort_by}
use pfsense_backups.Diff.Rows.{
  Keyed, put_key, lookup, has_row, row_key, by_key, index_by_key, rows_without, compare_row,
  compare_index, visit_row, visit_rows, diff_list,
}
use pfsense_backups.Diff.Same.{IsDict, field_changes_same}

text_eq_sym : (a b : Text) → text_eq a b ≡ text_eq b a
text_eq_sym [] [] = refl
text_eq_sym [] (d ∷ ds) = refl
text_eq_sym (c ∷ cs) [] = refl
text_eq_sym (c ∷ cs) (d ∷ ds) = ground (arith, text_eq_sym cs ds)

-- The rows under distinct keys, each a proper dict.
abbrev IsTable : Keyed Fields → Type 0
IsTable [] = Unit
IsTable (e ∷ es) = (has_row e.0 es ≡ false) × (IsDict e.1 × IsTable es)

has_row-put_key :
    (j k : Text) (d : Fields) (es : Keyed Fields)
    → text_eq k j ≡ false
    → has_row j (put_key k d es) ≡ has_row j es
unfolding put_key
has_row-put_key j k d [] ne = rw ne
has_row-put_key j k d (e ∷ es) ne = elim (Bool-cases (text_eq e.0 k)) [
  | inl same ↦ rw same
  | inr other ↦ rw other (rw (has_row-put_key j k d es ne))
]

put_key-IsTable :
    (k : Text) (d : Fields) (es : Keyed Fields) → IsDict d → IsTable es → IsTable (put_key k d es)
unfolding put_key
put_key-IsTable k d [] h t = (refl, (h, tt))
put_key-IsTable k d (e ∷ es) h t = elim (Bool-cases (text_eq e.0 k)) [
  | inl same ↦ rw same (t.0, (h, t.1.1))
  | inr other ↦ rw other (
    has_row-put_key e.0 k d es (text_eq_sym k e.0 ∙ other) ∙ t.0,
    (t.1.0, put_key-IsTable k d es h t.1.1),
  )
]

pub by_key-IsTable :
    (str_of : Value → Text) (label_fn : Fields → Text) (key : Text) (ds : List Fields)
    (acc : Keyed Fields)
    → All IsDict ds
    → IsTable acc
    → IsTable (by_key str_of label_fn key ds acc)
unfolding by_key
by_key-IsTable str_of label_fn key [] acc h t = t
by_key-IsTable str_of label_fn key (d ∷ ds) acc h t =
    by_key-IsTable str_of label_fn key ds (put_key (row_key str_of label_fn key d) d acc) h.1
      (put_key-IsTable (row_key str_of label_fn key d) d acc h.0 t)

-- The rows of the first are rows of the second.
abbrev Within : Keyed Fields → Keyed Fields → Type 0
Within es xs =
    All (λ (e : Text × Fields). (lookup e.0 xs ≡ some e.1) × ((has_row e.0 xs ≡ true) × IsDict e.1))
      es

Within-weaken :
    (es xs : Keyed Fields) (x : Text × Fields)
    → has_row x.0 es ≡ false
    → Within es xs
    → Within es (x ∷ xs)
unfolding lookup
Within-weaken [] xs x f w = tt
Within-weaken (e ∷ es) xs x f w = elim (Bool-cases (text_eq e.0 x.0)) [
  | inl same ↦ absurd (clash (rw same at f))
  | inr other ↦
      let ne = text_eq_sym x.0 e.0 ∙ other in
      ((rw ne (w.0.0), (rw ne (w.0.1.0), w.0.1.1)), Within-weaken es xs x (rw other at f) w.1)
]
  where
    clash : true ≡ false → ⊥
    clash h = ground arith

Within-refl : (es : Keyed Fields) → IsTable es → Within es es
unfolding lookup
Within-refl [] t = tt
Within-refl (e ∷ es) t = (
  (rw (text_eq_refl e.0) refl, (rw (text_eq_refl e.0) refl, t.1.0)),
  Within-weaken es es e t.0 (Within-refl es t.1.1),
)

rows_without_same :
    (es xs : Keyed Fields) → Within es xs → select (λ e. not (has_row e.0 xs)) es ≡ []
rows_without_same [] xs w = refl
rows_without_same (e ∷ es) xs w = rw (w.0.1.0) (rows_without_same es xs w.1)

abbrev IsQuiet : SectionDiff → Type 0
IsQuiet acc = (acc.modified ≡ []) × (acc.reordered ≡ [])

module _ (str_of : Value → Text) (label_fn : Fields → Text) (key : Text) where
  compare_index_same :
      (k : Text) (b : Fields) (o : Option ℕ) (acc : SectionDiff)
      → IsQuiet acc
      → IsQuiet (compare_index str_of label_fn key k b o o acc)
  unfolding compare_index
  compare_index_same k b none acc q = q
  compare_index_same k b (some i) acc q = elim (Bool-cases (i == i)) [
    | inl e ↦ rw e q
    | inr e ↦ absurd (differ e)
  ]
    where
      differ : (i == i) ≡ false → ⊥
      differ e = ground arith

  visit_row_same :
      (ordered : Bool) (index : Keyed ℕ) (k : Text) (d : Fields) (acc : SectionDiff)
      → IsDict d
      → IsQuiet acc
      → IsQuiet (visit_row str_of label_fn key ordered index index k d (some d) acc)
  unfolding visit_row compare_row
  visit_row_same true index k d acc h q =
      rw (field_changes_same d h) (compare_index_same k d (lookup k index) _ q)
  visit_row_same false index k d acc h q = rw (field_changes_same d h) q

  visit_rows_same :
      (ordered : Bool) (index : Keyed ℕ) (es xs : Keyed Fields) (acc : SectionDiff)
      → Within es xs
      → IsQuiet acc
      → IsQuiet (visit_rows str_of label_fn key ordered index index es xs acc)
  unfolding visit_rows
  visit_rows_same ordered index [] xs acc w q = q
  visit_rows_same ordered index (e ∷ es) xs acc w q =
      rw (visit_rows, w.0.0)
        (visit_rows_same ordered index es xs
          (visit_row str_of label_fn key ordered index index e.0 e.1 (some e.1) acc) w.1
          (visit_row_same ordered index e.0 e.1 acc w.0.1.1 q))

-- Comparing a list of rows, each a proper dict, with itself reports no row added, removed, modified
-- or moved.
pub diff_list_same :
    (str_of : Value → Text) (rows : List Fields) (key : Text) (label_fn : Fields → Text)
    (ordered : Bool)
    → All IsDict rows
    → is_empty (diff_list str_of rows rows key label_fn ordered) ≡ true
unfolding diff_list rows_without sort_by
diff_list_same str_of rows key label_fn ordered h =
    let xs = by_key str_of label_fn key rows [] in
    let w = Within-refl xs (by_key-IsTable str_of label_fn key rows [] h tt) in
    let index = index_by_key str_of label_fn key 0 rows [] in
    let (m, o) = visit_rows_same str_of label_fn key ordered index xs xs no_diff w (refl, refl) in
    rw (rows_without_same xs xs w, m, o) refl

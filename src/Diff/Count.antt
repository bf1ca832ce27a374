-- ===== src/Diff/Count.antt =====
-- `_diff_list` of pfsense_shared/pfsense_diff.py: each row of the old list is accounted for once.
use pfsense_backups.Prelude.{
  ℕ, suc, ◌+◌, ◌≡◌, refl, ap, ◌∙◌, Bool, true, false, not, inl, inr, Option, none, some, List, [],
  ◌∷◌, map, select, length, arith, Bool-cases, Option-cases, text_eq,
}
use pfsense_backups.Store.{Text}
use pfsense_backups.Diff.Data.{Value, Fields}
use pfsense_backups.Diff.{FieldChange, SectionDiff, no_diff, insert_by, sort_by, field_changes}
use pfsense_backups.Diff.Rows.{
  Keyed, lookup, has_row, row_key, row_of, by_key, index_by_key, rows_without, compare_row,
  compare_index, visit_row, visit_rows, diff_list, item_key,
}

module _ {A : Type 0} (key_of : A → Text) where
  length-insert_by : (x : A) (xs : List A) → length (insert_by key_of x xs) ≡ suc (length xs)
  unfolding insert_by
  length-insert_by x [] = refl
  length-insert_by x (y ∷ ys) = ground (arith, length-insert_by x ys)

  length-sort_by : (xs : List A) → length (sort_by key_of xs) ≡ length xs
  unfolding sort_by
  length-sort_by [] = refl
  length-sort_by (x ∷ xs) = omega (arith, length-insert_by x (sort_by key_of xs), length-sort_by xs)

length-map : {A B : Type 0} (f : A → B) (xs : List A) → length (map f xs) ≡ length xs
length-map f [] = refl
length-map f (x ∷ xs) = ap suc (length-map f xs)

has_row-lookup :
    (k : Text) (xs : Keyed Fields) (d : Fields) → lookup k xs ≡ some d → has_row k xs ≡ true
unfolding lookup
has_row-lookup k [] d e = cc
has_row-lookup k (x ∷ xs) d e = elim (Bool-cases (text_eq x.0 k)) [
  | inl same ↦ rw same refl
  | inr other ↦ rw other (has_row-lookup k xs d (rw other at e))
]

has_row-missing : (k : Text) (xs : Keyed Fields) → lookup k xs ≡ none → has_row k xs ≡ false
unfolding lookup
has_row-missing k [] e = refl
has_row-missing k (x ∷ xs) e = elim (Bool-cases (text_eq x.0 k)) [
  | inl same ↦ absurd (clash (rw same at e))
  | inr other ↦ rw other (has_row-missing k xs (rw other at e))
]
  where
    clash : {d : Fields} → some d ≡ none → ⊥
    clash h = cc

-- The rows that the loop has found modified or unchanged.
abbrev pub compared : SectionDiff → ℕ
compared acc = length acc.modified + acc.unchanged_count

module _ (str_of : Value → Text) (label_fn : Fields → Text) (key : Text) where
  visit_row-missing :
      (ordered : Bool) (ia ib : Keyed ℕ) (k : Text) (a : Fields) (acc : SectionDiff)
      → compared (visit_row str_of label_fn key ordered ia ib k a none acc) ≡ compared acc
  unfolding visit_row
  visit_row-missing ordered ia ib k a acc = refl

  compare_row-compared :
      (k : Text) (b : Fields) (cs : List FieldChange) (acc : SectionDiff)
      → compared (compare_row str_of label_fn key k b cs acc) ≡ suc (compared acc)
  unfolding compare_row
  compare_row-compared k b [] acc = omega arith
  compare_row-compared k b (c ∷ cs) acc = omega arith

  compare_index-compared :
      (k : Text) (b : Fields) (o p : Option ℕ) (acc : SectionDiff)
      → compared (compare_index str_of label_fn key k b o p acc) ≡ compared acc
  unfolding compare_index
  compare_index-compared k b none p acc = refl
  compare_index-compared k b (some i) none acc = refl
  compare_index-compared k b (some i) (some j) acc = ground arith

  module _ (ordered : Bool) (ia ib : Keyed ℕ) where
    visit_row-compared :
        (k : Text) (a b : Fields) (acc : SectionDiff)
        → compared (visit_row str_of label_fn key ordered ia ib k a (some b) acc)
          ≡ suc (compared acc)
    unfolding visit_row
    visit_row-compared k a b acc = elim (Bool-cases ordered) [
      | inl e ↦ rw e (
          compare_index-compared k b (lookup k ia) (lookup k ib)
            (compare_row str_of label_fn key k b (field_changes [] a b) acc)
          ∙ compare_row-compared k b (field_changes [] a b) acc)
      | inr e ↦ rw e (compare_row-compared k b (field_changes [] a b) acc)
    ]

    visit_rows-compared :
        (es xs : Keyed Fields) (acc : SectionDiff)
        → compared (visit_rows str_of label_fn key ordered ia ib es xs acc)
            + length (select (λ e. not (has_row e.0 xs)) es)
          ≡ compared acc + length es
    unfolding visit_rows
    visit_rows-compared [] xs acc = refl
    visit_rows-compared (e ∷ es) xs acc = elim (Option-cases (lookup e.0 xs)) [
      | inl gone ↦
          let next = visit_row str_of label_fn key ordered ia ib e.0 e.1 none acc in
          rw (visit_rows, gone, has_row-missing e.0 xs gone)
            (omega
              (arith, visit_rows-compared es xs next, visit_row-missing ordered ia ib e.0 e.1 acc))
      | inr (d, found) ↦
          let next = visit_row str_of label_fn key ordered ia ib e.0 e.1 (some d) acc in
          rw (visit_rows, found, has_row-lookup e.0 xs d found)
            (omega (arith, visit_rows-compared es xs next, visit_row-compared e.0 e.1 d acc))
    ]

-- Each row of the old list, under its key, is reported once: it is removed, modified or unchanged,
-- and these are as many as the old list has keys.
pub diff_list-count :
    (str_of : Value → Text) (a b : List Fields) (key : Text) (label_fn : Fields → Text)
    (ordered : Bool)
    → length (diff_list str_of a b key label_fn ordered).removed
        + (length (diff_list str_of a b key label_fn ordered).modified
            + (diff_list str_of a b key label_fn ordered).unchanged_count)
      ≡ length (by_key str_of label_fn key a [])
unfolding diff_list rows_without
diff_list-count str_of a b key label_fn ordered =
    let xs = by_key str_of label_fn key a [] in
    let ys = by_key str_of label_fn key b [] in
    let ia = index_by_key str_of label_fn key 0 a [] in
    let ib = index_by_key str_of label_fn key 0 b [] in
    let stale = select (λ e. not (has_row e.0 ys)) xs in
    let seen = visit_rows str_of label_fn key ordered ia ib xs ys no_diff in
    omega (
      arith,
      visit_rows-compared str_of label_fn key ordered ia ib xs ys no_diff,
      length-sort_by (row_key str_of label_fn key) (map (row_of str_of label_fn key) stale),
      length-map (row_of str_of label_fn key) stale,
      length-sort_by item_key seen.modified,
    )

-- ===== src/Diff/Same.antt =====
-- pfsense_shared/pfsense_diff.py on equal values.
use pfsense_backups.Prelude.{
  ◌≡◌, refl, ap, true, false, inl, inr, List, [], ◌∷◌, ◌++◌, arith, All, Bool-cases, text_eq,
  text_eq_refl, text_eq→≡,
}
use pfsense_backups.Store.{Text}
use pfsense_backups.Diff.Data.{
  Value, null, flag, number, text, items, dict, Values, nil, cons, Fields, end, field, get, has_key,
  value_eq, values_eq, fields_in, texts_leb,
}
use pfsense_backups.Diff.{
  Group, name_of, joined, insert_by, sort_by, new_keys, value_changes, groups, field_changes,
}

-- A value as Python has it: no dict holds a key twice.
abbrev mutual
  pub IsValue : Value → Type 0
  IsValue (items xs) = AreValues xs
  IsValue (dict d) = IsDict d
  IsValue _ = Unit

  pub AreValues : Values → Type 0
  AreValues nil = Unit
  AreValues (cons x xs) = IsValue x × AreValues xs

  pub IsDict : Fields → Type 0
  IsDict end = Unit
  IsDict (field k v rest) = (has_key k rest ≡ false) × (IsValue v × IsDict rest)

-- Each key of the first is one of the second, with the same value.
abbrev Extends : Fields → Fields → Type 0
Extends sub d = (k : Text) → has_key k sub ≡ true → (has_key k d ≡ true) × (get k d ≡ get k sub)

tail-Extends :
    (k : Text) (v : Value) (rest d : Fields)
    → has_key k rest ≡ false
    → Extends (field k v rest) d
    → Extends rest d
tail-Extends k v rest d fresh ext j m = elim (Bool-cases (text_eq k j)) [
  | inl e ↦ absurd (twice (ap (λ (t : Text). has_key t rest) (text_eq→≡ k j e)) fresh m)
  | inr e ↦ rw e at (ext j (rw e m))
]
  where
    twice : has_key k rest ≡ has_key j rest → has_key k rest ≡ false → has_key j rest ≡ true → ⊥
    twice same f t = ground arith

head-Extends :
    (k : Text) (v : Value) (rest d : Fields)
    → Extends (field k v rest) d
    → (has_key k d ≡ true) × (get k d ≡ v)
head-Extends k v rest d ext = rw (text_eq_refl k) at (ext k (rw (text_eq_refl k) refl))

mutual
  pub value_eq_refl : (v : Value) → IsValue v → value_eq v v ≡ true
  value_eq_refl null h = refl
  value_eq_refl (flag b) h = ground arith
  value_eq_refl (number n) h = ground arith
  value_eq_refl (text t) h = text_eq_refl t
  value_eq_refl (items xs) h = values_eq_refl xs h
  value_eq_refl (dict d) h = ground (arith, fields_in_refl d d h (λ k m. (m, refl)))

  values_eq_refl : (xs : Values) → AreValues xs → values_eq xs xs ≡ true
  values_eq_refl nil h = refl
  values_eq_refl (cons x xs) h = ground (arith, value_eq_refl x h.0, values_eq_refl xs h.1)

  fields_in_refl : (sub d : Fields) → IsDict sub → Extends sub d → fields_in sub d ≡ true
  fields_in_refl end d h ext = refl
  fields_in_refl (field k v rest) d h ext =
      let (m, e) = head-Extends k v rest d ext in
      rw (m, e)
        (ground (
          arith,
          value_eq_refl v h.1.0,
          fields_in_refl rest d h.1.1 (tail-Extends k v rest d h.0 ext),
        ))

abbrev pub Silent : List Group → Type 0
Silent gs = All (λ (g : Group). g.1 ≡ []) gs

insert_by-Silent :
    (g : Group) (gs : List Group) → g.1 ≡ [] → Silent gs → Silent (insert_by name_of g gs)
unfolding insert_by
insert_by-Silent g [] e h = (e, tt)
insert_by-Silent g (x ∷ xs) e h = elim (Bool-cases (texts_leb g.0 x.0)) [
  | inl le ↦ rw le (e, h)
  | inr gt ↦ rw gt (h.0, insert_by-Silent g xs e h.1)
]

sort_by-Silent : (gs : List Group) → Silent gs → Silent (sort_by name_of gs)
unfolding sort_by
sort_by-Silent [] h = tt
sort_by-Silent (g ∷ gs) h = insert_by-Silent g (sort_by name_of gs) h.0 (sort_by-Silent gs h.1)

joined-Silent : (gs : List Group) → Silent gs → joined gs ≡ []
joined-Silent [] h = refl
joined-Silent (g ∷ gs) h = rw (h.0) (joined-Silent gs h.1)

append-Silent : (gs hs : List Group) → Silent gs → Silent hs → Silent (gs ++ hs)
append-Silent [] hs g h = h
append-Silent (x ∷ xs) hs g h = (g.0, append-Silent xs hs g.1 h)

value_changes_same : (path : Text) (v : Value) → IsValue v → value_changes path v v ≡ []
unfolding value_changes
value_changes_same path null h = refl
value_changes_same path (flag b) h = rw (value_eq_refl (flag b) h)
value_changes_same path (number n) h = rw (value_eq_refl (number n) h)
value_changes_same path (text t) h = rw (value_eq_refl (text t) h)
value_changes_same path (items xs) h = rw (value_eq_refl (items xs) h)
value_changes_same path (dict d) h = rw (value_eq_refl (dict d) h)

groups-Silent :
    (prefix : Text) (sub d : Fields) → IsDict sub → Extends sub d → Silent (groups prefix sub d)
unfolding groups
groups-Silent prefix end d h ext = tt
groups-Silent prefix (field k v rest) d h ext =
    let (m, e) = head-Extends k v rest d ext in
    rw e (
      value_changes_same (prefix ++ k) v h.1.0,
      groups-Silent prefix rest d h.1.1 (tail-Extends k v rest d h.0 ext),
    )

new_keys_same :
    (prefix : Text) (sub d : Fields) → IsDict sub → Extends sub d → new_keys prefix d sub ≡ []
new_keys_same prefix end d h ext = refl
new_keys_same prefix (field k v rest) d h ext =
    let (m, e) = head-Extends k v rest d ext in
    rw m (new_keys_same prefix rest d h.1.1 (tail-Extends k v rest d h.0 ext))

-- A dict has no changes to itself.
pub field_changes_same : (d : Fields) → IsDict d → field_changes [] d d ≡ []
unfolding field_changes
field_changes_same d h =
    let ext : Extends d d = λ k m. (m, refl) in
    rw (new_keys_same [] d d h ext) (
      joined-Silent (sort_by name_of (groups [] d d ++ [])) (
        sort_by-Silent (groups [] d d ++ [])
          (append-Silent (groups [] d d) [] (groups-Silent [] d d h ext) tt)))

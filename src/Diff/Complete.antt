-- ===== src/Diff/Complete.antt =====
-- `_field_changes` of pfsense_shared/pfsense_diff.py: nothing that differs is passed over.
use pfsense_backups.Prelude.{
  ◌≡◌, refl, sym, ap, ◌∙◌, Bool, true, false, inl, inr, List, [], ◌∷◌, ◌++◌, arith, Bool-cases,
  text_eq, text_eq→≡,
}
use pfsense_backups.Store.{Text}
use pfsense_backups.Diff.Data.{
  Value, null, flag, number, text, items, dict, Fields, end, field, get, has_key, value_eq,
  texts_leb,
}
use pfsense_backups.Diff.{
  FieldChange, Group, name_of, joined, insert_by, sort_by, leaf_change, new_keys, value_changes,
  groups, field_changes,
}
use pfsense_backups.Diff.Same.{Silent}

abbrev pub is_dict : Value → Bool
is_dict (dict d) = true
is_dict _ = false

append_nil-left : (xs ys : List FieldChange) → xs ++ ys ≡ [] → (xs ≡ []) × (ys ≡ [])
append_nil-left [] ys e = (refl, e)
append_nil-left (x ∷ xs) ys e = absurd (clash e)
  where
    clash : x ∷ (xs ++ ys) ≡ [] → ⊥
    clash h = cc

Silent-of : (gs : List Group) → joined gs ≡ [] → Silent gs
Silent-of [] e = tt
Silent-of (g ∷ gs) e = let (h, t) = append_nil-left g.1 (joined gs) e in (h, Silent-of gs t)

insert_by-of_Silent :
    (g : Group) (gs : List Group) → Silent (insert_by name_of g gs) → (g.1 ≡ []) × Silent gs
unfolding insert_by
insert_by-of_Silent g [] h = (h.0, tt)
insert_by-of_Silent g (x ∷ xs) h = elim (Bool-cases (texts_leb g.0 x.0)) [
  | inl le ↦ let q = rw le at h in (q.0, q.1)
  | inr gt ↦ let q = rw gt at h in let (e, t) = insert_by-of_Silent g xs q.1 in (e, (q.0, t))
]

sort_by-of_Silent : (gs : List Group) → Silent (sort_by name_of gs) → Silent gs
unfolding sort_by
sort_by-of_Silent [] h = tt
sort_by-of_Silent (g ∷ gs) h =
    let (e, t) = insert_by-of_Silent g (sort_by name_of gs) h in (e, sort_by-of_Silent gs t)

split-Silent : (gs hs : List Group) → Silent (gs ++ hs) → Silent gs × Silent hs
split-Silent [] hs h = (tt, h)
split-Silent (g ∷ gs) hs h = let (a, b) = split-Silent gs hs h.1 in ((h.0, a), b)

leaf_change-eq : (path : Text) (v w : Value) → leaf_change path v w ≡ [] → value_eq v w ≡ true
leaf_change-eq path v w e = elim (Bool-cases (value_eq v w)) [
  | inl same ↦ same
  | inr differ ↦ absurd (clash (rw differ at e))
]
  where
    clash : {c : FieldChange} → c ∷ [] ≡ [] → ⊥
    clash h = cc

value_changes-eq :
    (path : Text) (v w : Value)
    → is_dict v ≡ false
    → value_changes path v w ≡ []
    → value_eq v w ≡ true
unfolding value_changes
value_changes-eq path null w d e = leaf_change-eq path null w e
value_changes-eq path (flag b) w d e = leaf_change-eq path (flag b) w e
value_changes-eq path (number n) w d e = leaf_change-eq path (number n) w e
value_changes-eq path (text t) w d e = leaf_change-eq path (text t) w e
value_changes-eq path (items xs) w d e = leaf_change-eq path (items xs) w e
value_changes-eq path (dict x) w d e = absurd (clash d)
  where
    clash : true ≡ false → ⊥
    clash h = ground arith

groups-eq :
    (prefix k : Text) (sub b : Fields)
    → Silent (groups prefix sub b)
    → has_key k sub ≡ true
    → is_dict (get k sub) ≡ false
    → value_eq (get k sub) (get k b) ≡ true
unfolding groups
groups-eq prefix k end b s m d = absurd (clash m)
  where
    clash : false ≡ true → ⊥
    clash h = ground arith
groups-eq prefix k (field j v rest) b s m d = elim (Bool-cases (text_eq j k)) [
  | inl e ↦
      let same = text_eq→≡ j k e in
      let d' : is_dict v ≡ false = rw e at d in
      rw (e, sym same) (value_changes-eq (prefix ++ j) v (get j b) d' s.0)
  | inr e ↦ rw e (groups-eq prefix k rest b s.1 (rw e at m) (rw e at d))
]

new_keys-eq :
    (prefix k : Text) (a sub : Fields)
    → Silent (new_keys prefix a sub)
    → has_key k a ≡ false
    → value_eq null (get k sub) ≡ true
new_keys-eq prefix k a end s f = refl
new_keys-eq prefix k a (field j w rest) s f = elim (Bool-cases (text_eq j k)) [
  | inl e ↦
      let same = text_eq→≡ j k e in
      let fj : has_key j a ≡ false = ap (λ (t : Text). has_key t a) same ∙ f in
      let s' = rw fj at s in rw e (leaf_change-eq (prefix ++ j) null w s'.0)
  | inr e ↦ rw e (elim (Bool-cases (has_key j a)) [
    | inl m ↦ new_keys-eq prefix k a rest (rw m at s) f
    | inr n ↦ let s' = rw n at s in new_keys-eq prefix k a rest s'.1 f
  ])
]

get-missing : (k : Text) (a : Fields) → has_key k a ≡ false → get k a ≡ null
get-missing k end f = refl
get-missing k (field j v rest) f = elim (Bool-cases (text_eq j k)) [
  | inl e ↦ absurd (clash (rw e at f))
  | inr e ↦ rw e (get-missing k rest (rw e at f))
]
  where
    clash : true ≡ false → ⊥
    clash h = ground arith

-- When a comparison of two dicts reports no change, then at every key at which the first holds no
-- nested dict the two hold equal values, where a missing key counts as None.
pub field_changes_complete :
    (a b : Fields) (k : Text)
    → field_changes [] a b ≡ []
    → is_dict (get k a) ≡ false
    → value_eq (get k a) (get k b) ≡ true
unfolding field_changes
field_changes_complete a b k e d =
    let gs = groups [] a b ++ new_keys [] a b in
    let all = sort_by-of_Silent gs (Silent-of (sort_by name_of gs) e) in
    let (old, new) = split-Silent (groups [] a b) (new_keys [] a b) all in
    elim (Bool-cases (has_key k a)) [
      | inl m ↦ groups-eq [] k a b old m d
      | inr f ↦ rw (get-missing k a f) (new_keys-eq [] k a b new f)
    ]

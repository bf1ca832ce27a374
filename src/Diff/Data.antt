-- ===== src/Diff/Data.antt =====
-- The values that `model_dump` gives, and Python's equality of them.
use pfsense_backups.Prelude.{ℕ, Bool, true, false, ◌&&◌, [], ◌∷◌, ◌+◌, ◌==◌, ltb, if◌then◌else◌}
use pfsense_backups.Store.{Text}
use pfsense_backups.Prelude.{text_eq}

mutual
  pub data Value : Type 0 where
    null : Value
    flag : Bool → Value
    number : ℕ → Value
    text : Text → Value
    items : Values → Value
    dict : Fields → Value

  pub data Values : Type 0 where
    nil : Values
    cons : Value → Values → Values

  pub data Fields : Type 0 where
    end : Fields
    field : Text → Value → Fields → Fields

-- `d.get(k)`
abbrev pub get : Text → Fields → Value
get k end = null
get k (field j v rest) = if text_eq j k then v else get k rest

abbrev pub has_key : Text → Fields → Bool
has_key k end = false
has_key k (field j v rest) = if text_eq j k then true else has_key k rest

abbrev pub field_count : Fields → ℕ
field_count end = 0
field_count (field k v rest) = 1 + field_count rest

-- `True` is 1 and `False` is 0.
abbrev pub bit : Bool → ℕ
bit true = 1
bit false = 0

-- `a == b`: two dicts are equal if they have as many keys, and each key of the first has an equal
-- value in the second.
abbrev mutual
  pub value_eq : Value → Value → Bool
  value_eq null null = true
  value_eq (flag a) (flag b) = bit a == bit b
  value_eq (flag a) (number n) = bit a == n
  value_eq (number n) (flag b) = n == bit b
  value_eq (number m) (number n) = m == n
  value_eq (text s) (text t) = text_eq s t
  value_eq (items xs) (items ys) = values_eq xs ys
  value_eq (dict a) (dict b) = field_count a == field_count b && fields_in a b
  value_eq _ _ = false

  pub values_eq : Values → Values → Bool
  values_eq nil nil = true
  values_eq (cons x xs) (cons y ys) = value_eq x y && values_eq xs ys
  values_eq _ _ = false

  pub fields_in : Fields → Fields → Bool
  fields_in end b = true
  fields_in (field k v rest) b = has_key k b && (value_eq v (get k b) && fields_in rest b)

-- The order of `str`, by code points.
abbrev pub texts_leb : Text → Text → Bool
texts_leb [] t = true
texts_leb (c ∷ cs) [] = false
texts_leb (c ∷ cs) (d ∷ ds) = if ltb c d then true else (c == d && texts_leb cs ds)

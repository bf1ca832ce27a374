-- ===== src/Reencrypt/Files.antt =====
-- Lemmas on the files and the rows of Reencrypt.antt (worker/backup_manager.py).
use pfsense_backups.Prelude.{
  ℕ, ◌≡◌, refl, sym, ap, ◌∙◌, inl, inr, true, false, Option, none, some, List, [], ◌∷◌, arith,
  Bool-cases, length, length-append, ◌==◌, if◌then◌else◌, text_eq, text_eq_refl, text_eq→≡,
}
use pfsense_backups.Store.{Text, Bytes}
use pfsense_backups.Replication.{codes}
use pfsense_backups.Diff.Rows.{Keyed, put_key, lookup}
use pfsense_backups.Reencrypt.{SealedRow, remove_key, new_name, find_row, update_row}

pub lookup-put_key_same :
    (k : Text) (v : Bytes) (xs : Keyed Bytes) → lookup k (put_key k v xs) ≡ some v
unfolding lookup put_key
lookup-put_key_same k v [] = rw (text_eq_refl k) refl
lookup-put_key_same k v (x ∷ xs) = elim (Bool-cases (text_eq x.0 k)) [
  | inl e ↦ rw e (rw e refl)
  | inr e ↦ rw e (rw e (lookup-put_key_same k v xs))
]

text_eq-swap : (a b c : Text) → text_eq a b ≡ true → text_eq a c ≡ true → text_eq b c ≡ true
text_eq-swap a b c h k = rw⁻¹ (text_eq→≡ a b h) k

text_eq-differs : (a b c : Text) → text_eq a b ≡ true → text_eq b c ≡ false → text_eq a c ≡ false
text_eq-differs a b c e h = elim (Bool-cases (text_eq a c)) [
  | inl t ↦ absurd (clash (sym (text_eq-swap a b c e t) ∙ h))
  | inr f ↦ f
]
  where
    clash : true ≡ false → ⊥
    clash q = cc

pub lookup-put_key_other :
    (j k : Text) (v : Bytes) (xs : Keyed Bytes)
    → text_eq j k ≡ false
    → lookup k (put_key j v xs) ≡ lookup k xs
unfolding lookup put_key
lookup-put_key_other j k v [] h = rw h refl
lookup-put_key_other j k v (x ∷ xs) h = elim (Bool-cases (text_eq x.0 j)) [
  | inl e ↦ rw e (
      ap (λ b. if b then some v else lookup k xs) (text_eq-differs x.0 j k e h)
      ∙ sym (ap (λ b. if b then some x.1 else lookup k xs) (text_eq-differs x.0 j k e h)))
  | inr e ↦ rw e (ap (λ o. if text_eq x.0 k then some x.1 else o) (lookup-put_key_other j k v xs h))
]

pub lookup-remove_key_other :
    (j k : Text) (xs : Keyed Bytes) → text_eq j k ≡ false → lookup k (remove_key j xs) ≡ lookup k xs
unfolding lookup remove_key
lookup-remove_key_other j k [] h = refl
lookup-remove_key_other j k (x ∷ xs) h = elim (Bool-cases (text_eq x.0 j)) [
  | inl e ↦ rw e (
      lookup-remove_key_other j k xs h
      ∙ sym (ap (λ b. if b then some x.1 else lookup k xs) (text_eq-differs x.0 j k e h)))
  | inr e ↦
      rw e (ap (λ o. if text_eq x.0 k then some x.1 else o) (lookup-remove_key_other j k xs h))
]

-- The staged file is another one.
pub new_name-other : (path : Text) → text_eq (new_name path) path ≡ false
new_name-other path = elim (Bool-cases (text_eq (new_name path) path)) [
  | inl e ↦ absurd (longer (ap length (text_eq→≡ (new_name path) path e)))
  | inr e ↦ e
]
  where
    longer : length (new_name path) ≡ length path → ⊥
    longer q = omega (arith, q, length-append path (codes ".new"))

pub find_row-update_row :
    (bid : ℕ) (f : SealedRow → SealedRow) (rows : List SealedRow) (r : SealedRow)
    → ((q : SealedRow) → (f q).id ≡ q.id)
    → find_row bid rows ≡ some r
    → find_row bid (update_row bid f rows) ≡ some (f r)
unfolding find_row update_row
find_row-update_row bid f [] r i h = absurd (clash h)
  where
    clash : none ≡ some r → ⊥
    clash q = cc
find_row-update_row bid f (q ∷ qs) r i h = elim (Bool-cases (q.id == bid)) [
  | inl e ↦ rw e (
      ap (λ b. if b then some (f q) else find_row bid qs) (ap (λ n. n == bid) (i q) ∙ e)
      ∙ ap (λ o. map_row o) (rw e at h))
  | inr e ↦ rw e (rw e (find_row-update_row bid f qs r i (rw e at h)))
]
  where
    map_row : Option SealedRow → Option SealedRow
    map_row none = none
    map_row (some p) = some (f p)

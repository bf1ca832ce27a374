-- ===== src/Prelude/Selected.antt =====
-- What a selection from a list keeps.
use mathlib.Core.Path.{◌≡◌, sym, ap, ◌∙◌}
use mathlib.Core.Logic.{inl, inr}
use mathlib.Core.Bool.{Bool, true}
use mathlib.Core.List.{List, [], ◌∷◌}
use pfsense_backups.Prelude.Tests.{Bool-cases}
use pfsense_backups.Prelude.Lists.{select, All, In}

module _ {A : Type 0} where
  pub select-All : (P : A → Type 0) (p : A → Bool) (xs : List A) → All P xs → All P (select p xs)
  select-All P p [] h = tt
  select-All P p (x ∷ xs) h = elim (Bool-cases (p x)) [
    | inl e ↦ rw e (h.0, select-All P p xs h.1)
    | inr e ↦ rw e (select-All P p xs h.1)
  ]

  -- What is selected has passed the test.
  pub select-passed : (p : A → Bool) (xs : List A) → All (λ x. p x ≡ true) (select p xs)
  select-passed p [] = tt
  select-passed p (x ∷ xs) = elim (Bool-cases (p x)) [
    | inl e ↦ rw e (e, select-passed p xs)
    | inr e ↦ rw e (select-passed p xs)
  ]

  pub select-In : (p : A → Bool) (xs : List A) (x : A) → In x xs → p x ≡ true → In x (select p xs)
  select-In p [] x m h = absurd m
  select-In p (y ∷ ys) x (inl e) h = rw (ap p (sym e) ∙ h) (inl e)
  select-In p (y ∷ ys) x (inr m) h = elim (Bool-cases (p y)) [
    | inl q ↦ rw q (inr (select-In p ys x m h))
    | inr q ↦ rw q (select-In p ys x m h)
  ]

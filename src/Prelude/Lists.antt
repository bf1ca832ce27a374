-- ===== src/Prelude/Lists.antt =====
-- Lists measured by native numbers, and sets of numbers as lists without repetition.
use Prim.Native.Nat.{ℕ, zero, suc, ◌+◌, ◌≤◌}
use mathlib.Core.Path.{◌≡◌, refl, sym, subst}
use mathlib.Core.Logic.{◌⊎◌, inl, inr}
use mathlib.Core.Bool.{Bool, true, false, ◌&&◌, ◌||◌}
use mathlib.Core.List.{List, [], ◌∷◌, ◌++◌}
use native.Mathlib.Omega.{arith}
use pfsense_backups.Prelude.Tests.{◌==◌, if◌then◌else◌}

module _ {ℓ} {A : Type ℓ} where
  abbrev pub length : List A → ℕ
  length [] = 0
  length (x ∷ xs) = suc (length xs)

  abbrev pub take : ℕ → List A → List A
  take zero xs = []
  take (suc n) [] = []
  take (suc n) (x ∷ xs) = x ∷ take n xs

  abbrev pub drop : ℕ → List A → List A
  drop zero xs = xs
  drop (suc n) [] = []
  drop (suc n) (x ∷ xs) = drop n xs

  abbrev pub select : (A → Bool) → List A → List A
  select p [] = []
  select p (x ∷ xs) = let rest = select p xs in if p x then x ∷ rest else rest

  abbrev pub any : (A → Bool) → List A → Bool
  any p [] = false
  any p (x ∷ xs) = p x || any p xs

  abbrev pub All {κ} : (A → Type κ) → List A → Type κ
  All P [] = Unit
  All P (x ∷ xs) = P x × All P xs

  pub length-append : (xs ys : List A) → length (xs ++ ys) ≡ length xs + length ys
  length-append [] ys = omega arith
  length-append (x ∷ xs) ys = omega (arith, length-append xs ys)

  pub length-take-le : (n : ℕ) (xs : List A) → length (take n xs) ≤ n
  length-take-le zero xs = omega arith
  length-take-le (suc n) [] = omega arith
  length-take-le (suc n) (x ∷ xs) = omega (arith, length-take-le n xs)

module _ {A : Type 0} where
  -- `x` is one of the items.
  abbrev pub In : A → List A → Type 0
  In x [] = ⊥
  In x (y ∷ ys) = (x ≡ y) ⊎ In x ys

  pub All-In : (P : A → Type 0) {x : A} (xs : List A) → All P xs → In x xs → P x
  All-In P [] h m = absurd m
  All-In P (y ∷ ys) h (inl e) = subst P (sym e) h.0
  All-In P (y ∷ ys) h (inr m) = All-In P ys h.1 m

  pub All-of_In : (P : A → Type 0) (xs : List A) → ((x : A) → In x xs → P x) → All P xs
  All-of_In P [] h = tt
  All-of_In P (y ∷ ys) h = (h y (inl refl), All-of_In P ys (λ x m. h x (inr m)))

-- `x in s`
abbrev pub elem : ℕ → List ℕ → Bool
elem x [] = false
elem x (y ∷ ys) = x == y || elem x ys

-- `s.add(x)`
unfoldable pub add : ℕ → List ℕ → List ℕ
add x s = if elem x s then s else x ∷ s

-- `set(xs)`
unfoldable pub to_set : List ℕ → List ℕ
unfolding add
to_set [] = []
to_set (x ∷ xs) = add x (to_set xs)

pub elem-add : (x y : ℕ) (s : List ℕ) → elem x (add y s) ≡ (x == y || elem x s)
unfolding add
elem-add x y s = ground arith

pub elem-add_self : (x : ℕ) (s : List ℕ) → elem x (add x s) ≡ true
unfolding add
elem-add_self x s = ground arith

pub add_of_elem : (x : ℕ) (s : List ℕ) → elem x s ≡ true → add x s ≡ s
unfolding add
add_of_elem x s h = ground arith

pub elem-to_set : (x : ℕ) (xs : List ℕ) → elem x (to_set xs) ≡ elem x xs
unfolding to_set
elem-to_set x [] = refl
elem-to_set x (y ∷ ys) = ground (arith, elem-add x y (to_set ys), elem-to_set x ys)

pub length-add-le : (x : ℕ) (s : List ℕ) → length (add x s) ≤ suc (length s)
unfolding add
length-add-le x s = ground arith

pub length-to_set-le : (xs : List ℕ) → length (to_set xs) ≤ length xs
unfolding to_set
length-to_set-le [] = omega arith
length-to_set-le (x ∷ xs) = omega (arith, length-add-le x (to_set xs), length-to_set-le xs)

pub elem-take : (x n : ℕ) (xs : List ℕ) → elem x (take n xs) ≡ true → elem x xs ≡ true
elem-take x zero xs h = ground arith
elem-take x (suc n) [] h = ground arith
elem-take x (suc n) (y ∷ ys) h = ground (arith, elem-take x n ys)

pub elem-append : (x : ℕ) (xs ys : List ℕ) → elem x (xs ++ ys) ≡ (elem x xs || elem x ys)
elem-append x [] ys = refl
elem-append x (z ∷ zs) ys = ground (arith, elem-append x zs ys)

-- Equality of texts, which are lists of code points.
abbrev pub text_eq : List ℕ → List ℕ → Bool
text_eq [] [] = true
text_eq (a ∷ as') (b ∷ bs) = a == b && text_eq as' bs
text_eq _ _ = false

pub text_eq_refl : (a : List ℕ) → text_eq a a ≡ true
text_eq_refl [] = refl
text_eq_refl (c ∷ cs) = ground (arith, text_eq_refl cs)

pub text_eq→≡ : (a b : List ℕ) → text_eq a b ≡ true → a ≡ b
text_eq→≡ [] [] e = refl
text_eq→≡ (c ∷ cs) (d ∷ ds) e = cong (ground arith) (text_eq→≡ cs ds (ground arith))
  where
    cong : c ≡ d → cs ≡ ds → c ∷ cs ≡ d ∷ ds
    cong p q = cc
text_eq→≡ [] (d ∷ ds) e = absurd (clash e)
  where
    clash : false ≡ true → ⊥
    clash x = ground arith
text_eq→≡ (c ∷ cs) [] e = absurd (clash e)
  where
    clash : false ≡ true → ⊥
    clash x = ground arith

-- ===== src/Anchors/Members.antt =====
-- Lemmas on the members of the lists that pfsense_shared/anchor_events.py builds.
use pfsense_backups.Prelude.{◌≡◌, refl, subst, inl, inr, List, [], ◌∷◌, ◌++◌, All, In}
use pfsense_backups.Anchors.{flat_map}

module _ {A : Type 0} where
  pub All-append : (P : A → Type 0) (xs ys : List A) → All P xs → All P ys → All P (xs ++ ys)
  All-append P [] ys h k = k
  All-append P (x ∷ xs) ys h k = (h.0, All-append P xs ys h.1 k)

  pub All-every {ℓ} : {P : A → Type ℓ} (xs : List A) → ((x : A) → P x) → All P xs
  All-every [] h = tt
  All-every (x ∷ xs) h = (h x, All-every xs h)

  pub In-left : (x : A) (xs ys : List A) → In x xs → In x (xs ++ ys)
  In-left x [] ys h = absurd h
  In-left x (y ∷ xs) ys (inl e) = inl e
  In-left x (y ∷ xs) ys (inr h) = inr (In-left x xs ys h)

  pub In-right : (x : A) (xs ys : List A) → In x ys → In x (xs ++ ys)
  In-right x [] ys h = h
  In-right x (y ∷ xs) ys h = inr (In-right x xs ys h)

module _ {ℓ} {A : Type 0} {X : Type ℓ} where
  pub All-flat_map :
      (P : A → Type 0) (f : X → List A) (xs : List X)
      → All (λ x. All P (f x)) xs
      → All P (flat_map f xs)
  All-flat_map P f [] h = tt
  All-flat_map P f (x ∷ xs) h = All-append P (f x) (flat_map f xs) h.0 (All-flat_map P f xs h.1)

  pub flat_map-nil : (f : X → List A) (xs : List X) → All (λ x. f x ≡ []) xs → flat_map f xs ≡ []
  flat_map-nil f [] h = refl
  flat_map-nil f (x ∷ xs) h = rw h.0 (flat_map-nil f xs h.1)

pub In-flat_map :
    {A X : Type 0} (a : A) (f : X → List A) (x : X) (xs : List X)
    → In x xs
    → In a (f x)
    → In a (flat_map f xs)
In-flat_map a f x [] h i = absurd h
In-flat_map a f x (y ∷ ys) (inl e) i = In-left a (f y) (flat_map f ys) (subst (λ z. In a (f z)) e i)
In-flat_map a f x (y ∷ ys) (inr h) i = In-right a (f y) (flat_map f ys) (In-flat_map a f x ys h i)

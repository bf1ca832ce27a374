-- ===== src/Fanout/Delivery.antt =====
-- The fan-out of web/services/event_bus.py and web/services/log_ring.py, on one event.
use pfsense_backups.Prelude.{
  ℕ, ◌≡◌, refl, ◌∙◌, inl, inr, false, not, ◌&&◌, List, [], ◌∷◌, ◌++◌, arith, ◌==◌, elem, Bool-cases,
  if◌then◌else◌,
}
use native.Mathlib.Decide.{ℕ_discrete}
use pfsense_backups.Fanout.{Hub, discard, discard_all, set_at, has_room, put_all, fan_out}

-- No subscriber is in the set twice.
abbrev pub IsDistinct : List ℕ → Type 0
IsDistinct [] = Unit
IsDistinct (x ∷ xs) = (elem x xs ≡ false) × IsDistinct xs

pub elem-discard : (p q : ℕ) (xs : List ℕ) → elem p (discard q xs) ≡ (elem p xs && not (p == q))
unfolding discard
elem-discard p q [] = refl
elem-discard p q (x ∷ xs) = ground (arith, elem-discard p q xs)

pub discard-IsDistinct : (q : ℕ) (xs : List ℕ) → IsDistinct xs → IsDistinct (discard q xs)
unfolding discard
discard-IsDistinct q [] d = tt
discard-IsDistinct q (x ∷ xs) d = elim (Bool-cases (x == q)) [
  | inl e ↦ rw e (discard-IsDistinct q xs d.1)
  | inr e ↦ rw e (ground (arith, elem-discard x q xs, d.0), discard-IsDistinct q xs d.1)
]

elem-discard_all :
    (p : ℕ) (dead xs : List ℕ) → elem p (discard_all dead xs) ≡ (elem p xs && not (elem p dead))
unfolding discard_all
elem-discard_all p [] xs = ground arith
elem-discard_all p (q ∷ qs) xs =
    ground (arith, elem-discard_all p qs (discard q xs), elem-discard p q xs)

discard_all-IsDistinct : (dead xs : List ℕ) → IsDistinct xs → IsDistinct (discard_all dead xs)
unfolding discard_all
discard_all-IsDistinct [] xs d = d
discard_all-IsDistinct (q ∷ qs) xs d =
    discard_all-IsDistinct qs (discard q xs) (discard-IsDistinct q xs d)

module _ {A : Type 0} (maxsize : ℕ) (x : A) where
  -- What the loop leaves in a queue.
  abbrev pub delivered : List ℕ → (ℕ → List A) → ℕ → List A
  delivered qs f p = if elem p qs && has_room maxsize f p then f p ++ x ∷ [] else f p

  put_all-contents :
      (qs : List ℕ) (f : ℕ → List A) (p : ℕ)
      → IsDistinct qs
      → (put_all maxsize x qs f).0 p ≡ delivered qs f p
  unfolding put_all
  put_all-contents [] f p d = refl
  put_all-contents (q ∷ qs) f p d = elim (Bool-cases (has_room maxsize f q)) [
    | inl e ↦ rw e (
        put_all-contents qs (set_at f q (f q ++ x ∷ [])) p d.1
        ∙ elim (ℕ_discrete p q) [ yes s ↦ rw s (rw (e, d.0) (ground arith)) | no n ↦ ground arith ])
    | inr e ↦ rw e (
        put_all-contents qs f p d.1
        ∙ elim (ℕ_discrete p q) [ yes s ↦ rw s (rw (e, d.0) (ground arith)) | no n ↦ ground arith ])
  ]

  put_all-dead :
      (qs : List ℕ) (f : ℕ → List A) (p : ℕ)
      → IsDistinct qs
      → elem p (put_all maxsize x qs f).1 ≡ (elem p qs && not (has_room maxsize f p))
  unfolding put_all
  put_all-dead [] f p d = refl
  put_all-dead (q ∷ qs) f p d = elim (Bool-cases (has_room maxsize f q)) [
    | inl e ↦ rw e (
        put_all-dead qs (set_at f q (f q ++ x ∷ [])) p d.1
        ∙ elim (ℕ_discrete p q) [ yes s ↦ rw s (rw (e, d.0) (ground arith)) | no n ↦ ground arith ])
    | inr e ↦ rw e (elim (ℕ_discrete p q) [
      | yes s ↦ rw s (rw e (ground arith))
      | no n ↦ ground (arith, put_all-dead qs f p d.1)
    ])
  ]

  -- After an event, a queue that a client is subscribed with and that has room holds the event at its
  -- end, and stays subscribed; a subscribed queue that is full is as it was and is dropped; any other
  -- queue is as it was.
  pub fan_out-delivered :
      (h : Hub A) (p : ℕ)
      → IsDistinct h.subscribers
      → ((fan_out maxsize x h).contents p ≡ delivered h.subscribers h.contents p)
        × (elem p (fan_out maxsize x h).subscribers
            ≡ (elem p h.subscribers && has_room maxsize h.contents p))
  unfolding fan_out
  fan_out-delivered h p d = (
    put_all-contents h.subscribers h.contents p d,
    (let e = put_all-dead h.subscribers h.contents p d in
        elem-discard_all p (put_all maxsize x h.subscribers h.contents).1 h.subscribers
        ∙ rw e (ground arith)),
  )

  pub fan_out-IsDistinct :
      (h : Hub A) → IsDistinct h.subscribers → IsDistinct (fan_out maxsize x h).subscribers
  unfolding fan_out
  fan_out-IsDistinct h d =
      discard_all-IsDistinct (put_all maxsize x h.subscribers h.contents).1 h.subscribers d

-- ===== src/Fanout/Runs.antt =====
-- Any sequence of events, subscriptions and reads over the hub of web/services/event_bus.py and
-- web/services/log_ring.py.
use pfsense_backups.Prelude.{
  ℕ, ◌≤◌, ◌<◌, ◌≡◌, refl, sym, ap, ◌∙◌, ◌⊎◌, inl, inr, Bool, true, false, ◌&&◌, List, [], ◌∷◌, ◌++◌,
  arith, ◌==◌, elem, add, ◌||◌, elem-add, length, length-append, Bool-cases, if◌then◌else◌, subst,
}
use native.Mathlib.Decide.{ℕ_discrete}
use pfsense_backups.Fanout.{Hub, set_at, has_room, fan_out, subscribe, unsubscribe}
use pfsense_backups.Fanout.Delivery.{
  IsDistinct, elem-discard, discard-IsDistinct, delivered, fan_out-delivered, fan_out-IsDistinct,
}

pub data Op (A : Type 0) : Type 0 where
  event : A → Op A
  join : Op A
  leave : ℕ → Op A
  read_one : ℕ → Op A

-- The hub, what each client has read, and every event since its subscription.
pub record Trace (A : Type 0) : Type 0 where
  pub hub : Hub A
  pub taken : ℕ → List A
  pub published : ℕ → List A

append_assoc : {A : Type 0} (xs ys zs : List A) → (xs ++ ys) ++ zs ≡ xs ++ (ys ++ zs)
append_assoc [] ys zs = refl
append_assoc (x ∷ xs) ys zs = ap (λ l. x ∷ l) (append_assoc xs ys zs)

module _ {A : Type 0} (maxsize : ℕ) where
  -- `get_nowait`
  abbrev pub read_queue : ℕ → List A → Trace A → Trace A
  read_queue q [] tr = tr
  read_queue q (y ∷ ys) tr = record tr {
    hub = record tr.hub { contents = set_at tr.hub.contents q ys };
    taken = set_at tr.taken q (tr.taken q ++ y ∷ []);
  }

  abbrev pub step : Op A → Trace A → Trace A
  step (event x) tr = record tr {
    hub = fan_out maxsize x tr.hub;
    published = λ p. tr.published p ++ x ∷ [];
  }
  step join tr = record {
    hub = subscribe tr.hub;
    taken = set_at tr.taken tr.hub.fresh [];
    published = set_at tr.published tr.hub.fresh [];
  }
  step (leave q) tr = record tr { hub = unsubscribe q tr.hub }
  step (read_one q) tr = read_queue q (tr.hub.contents q) tr

  abbrev pub run : List (Op A) → Trace A → Trace A
  run [] tr = tr
  run (o ∷ os) tr = run os (step o tr)

  record IsSound (tr : Trace A) : Type 0 where
    distinct : IsDistinct tr.hub.subscribers
    known : (p : ℕ) → elem p tr.hub.subscribers ≡ true → p < tr.hub.fresh
    bounded : (p : ℕ) → length (tr.hub.contents p) ≤ maxsize
    complete :
        (p : ℕ)
        → elem p tr.hub.subscribers ≡ true
        → tr.taken p ++ tr.hub.contents p ≡ tr.published p

  fan_out-fresh : (x : A) (h : Hub A) → (fan_out maxsize x h).fresh ≡ h.fresh
  unfolding fan_out
  fan_out-fresh x h = refl

  event-IsSound : (x : A) (tr : Trace A) → IsSound tr → IsSound (step (event x) tr)
  event-IsSound x tr s = record {
    distinct = fan_out-IsDistinct maxsize x tr.hub s.distinct;
    known = λ p m. known p (fan_out-delivered maxsize x tr.hub p s.distinct).1 m;
    bounded = λ p. bounded p (fan_out-delivered maxsize x tr.hub p s.distinct).0;
    complete = λ p m. complete p (fan_out-delivered maxsize x tr.hub p s.distinct) m;
  }
    where
      after : Hub A
      after = fan_out maxsize x tr.hub

      live : ℕ → Bool
      live p = elem p tr.hub.subscribers && has_room maxsize tr.hub.contents p

      known :
          (p : ℕ)
          → elem p after.subscribers ≡ live p
          → elem p after.subscribers ≡ true
          → p < after.fresh
      known p e m = ground (arith, s.known p, fan_out-fresh x tr.hub)

      bounded :
          (p : ℕ)
          → after.contents p ≡ delivered maxsize x tr.hub.subscribers tr.hub.contents p
          → length (after.contents p) ≤ maxsize
      bounded p c = rw c (ground (arith, s.bounded p, length-append (tr.hub.contents p) (x ∷ [])))

      complete :
          (p : ℕ)
          → (after.contents p ≡ delivered maxsize x tr.hub.subscribers tr.hub.contents p)
            × (elem p after.subscribers ≡ live p)
          → elem p after.subscribers ≡ true
          → tr.taken p ++ after.contents p ≡ tr.published p ++ x ∷ []
      complete p (c, e) m =
          let on : live p ≡ true = sym e ∙ m in
          let old = s.complete p (ground arith) in
          rw c (
            rw on (
              sym (append_assoc (tr.taken p) (tr.hub.contents p) (x ∷ []))
              ∙ ap (λ l. l ++ x ∷ []) old))

  join-IsSound : (tr : Trace A) → IsSound tr → IsSound (step join tr)
  unfolding subscribe add
  join-IsSound tr s = record {
    distinct = distinct (elem tr.hub.fresh tr.hub.subscribers) refl;
    known = λ p m. ground (arith, elem-add p tr.hub.fresh tr.hub.subscribers, s.known p);
    bounded = λ p. ground (arith, s.bounded p);
    complete = λ p m. complete p (elem-add p tr.hub.fresh tr.hub.subscribers) m;
  }
    where
      distinct :
          (b : Bool)
          → elem tr.hub.fresh tr.hub.subscribers ≡ b
          → IsDistinct (if b then tr.hub.subscribers else tr.hub.fresh ∷ tr.hub.subscribers)
      distinct true e = s.distinct
      distinct false e = (e, s.distinct)

      complete :
          (p : ℕ)
          → elem p (add tr.hub.fresh tr.hub.subscribers)
            ≡ (p == tr.hub.fresh || elem p tr.hub.subscribers)
          → elem p (add tr.hub.fresh tr.hub.subscribers) ≡ true
          → set_at tr.taken tr.hub.fresh [] p ++ set_at tr.hub.contents tr.hub.fresh [] p
            ≡ set_at tr.published tr.hub.fresh [] p
      complete p e m = ground (arith, s.complete p)

  leave-IsSound : (q : ℕ) (tr : Trace A) → IsSound tr → IsSound (step (leave q) tr)
  unfolding unsubscribe
  leave-IsSound q tr s = record {
    distinct = discard-IsDistinct q tr.hub.subscribers s.distinct;
    known = λ p m. ground (arith, elem-discard p q tr.hub.subscribers, s.known p);
    bounded = s.bounded;
    complete = λ p m. ground (arith, elem-discard p q tr.hub.subscribers, s.complete p);
  }

  read-IsSound :
      (q : ℕ) (xs : List A) (tr : Trace A)
      → tr.hub.contents q ≡ xs
      → IsSound tr
      → IsSound (read_queue q xs tr)
  read-IsSound q [] tr e s = s
  read-IsSound q (y ∷ ys) tr e s = record {
    distinct = s.distinct;
    known = s.known;
    bounded = λ p. ground (arith, s.bounded p, s.bounded q, ap (λ l. length l) e);
    complete = λ p m. elim (ℕ_discrete p q) [
      | yes same ↦ rw same (
          ground (
            arith,
            whole (
                ap (λ l. tr.taken q ++ l) (sym e)
                ∙ s.complete q (subst (λ k. elem k tr.hub.subscribers ≡ true) same m)),
          ))
      | no ne ↦ ground (arith, s.complete p m)
    ];
  }
    where
      whole : tr.taken q ++ y ∷ ys ≡ tr.published q → (tr.taken q ++ y ∷ []) ++ ys ≡ tr.published q
      whole h = append_assoc (tr.taken q) (y ∷ []) ys ∙ h

  step-IsSound : (o : Op A) (tr : Trace A) → IsSound tr → IsSound (step o tr)
  step-IsSound (event x) tr s = event-IsSound x tr s
  step-IsSound join tr s = join-IsSound tr s
  step-IsSound (leave q) tr s = leave-IsSound q tr s
  step-IsSound (read_one q) tr s = read-IsSound q (tr.hub.contents q) tr refl s

  run-IsSound : (os : List (Op A)) (tr : Trace A) → IsSound tr → IsSound (run os tr)
  run-IsSound [] tr s = s
  run-IsSound (o ∷ os) tr s = run-IsSound os (step o tr) (step-IsSound o tr s)

  abbrev pub start : Trace A
  start = record {
    hub = record { contents = λ p. []; subscribers = []; fresh = 0 };
    taken = λ p. [];
    published = λ p. [];
  }

  start-IsSound : IsSound start
  start-IsSound = record {
    distinct = tt;
    known = λ p m. ground arith;
    bounded = λ p. omega arith;
    complete = λ p m. refl;
  }

  -- After any sequence of events, subscriptions, departures and reads, a client that is still
  -- subscribed has missed nothing: what it has read and then what its queue holds is every event
  -- since its subscription, in order. No queue, of a client that is subscribed or not, is over its
  -- size.
  pub run_complete :
      (os : List (Op A)) (p : ℕ)
      → (length ((run os start).hub.contents p) ≤ maxsize)
        × ((elem p (run os start).hub.subscribers ≡ false)
            ⊎ ((run os start).taken p ++ (run os start).hub.contents p
                ≡ (run os start).published p))
  run_complete os p =
      let s = run-IsSound os start start-IsSound in
      (
        s.bounded p,
        elim (Bool-cases (elem p (run os start).hub.subscribers)) [
          | inl e ↦ inr (s.complete p e)
          | inr e ↦ inl e
        ],
      )

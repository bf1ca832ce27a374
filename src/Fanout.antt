-- ===== src/Fanout.antt =====
-- The fan-out of web/services/event_bus.py and of web/services/log_ring.py. A client's queue is a
-- number; its contents stand in a store that the client and the hub share, so that a client that is
-- dropped can still empty its queue.
pub mod Delivery
pub mod Runs
pub mod Bus
pub mod Ring
mod Examples
use pfsense_backups.Prelude.{
  ℕ, suc, Bool, true, false, not, ◌&&◌, List, [], ◌∷◌, ◌++◌, ltb, ◌==◌, elem, add, length, select,
  if◌then◌else◌,
}

pub record Hub (A : Type 0) : Type 0 where
  pub contents : ℕ → List A
  pub subscribers : List ℕ
  pub fresh : ℕ

-- `set.discard`
unfoldable pub discard : ℕ → List ℕ → List ℕ
discard q xs = select (λ x. not (x == q)) xs

-- `for q in dead: self._subscribers.discard(q)`
unfoldable pub discard_all : List ℕ → List ℕ → List ℕ
unfolding discard
discard_all [] subs = subs
discard_all (q ∷ qs) subs = discard_all qs (discard q subs)

module _ {A : Type 0} where
  abbrev pub set_at : (ℕ → List A) → ℕ → List A → ℕ → List A
  set_at f q xs p = if p == q then xs else f p

  -- `put_nowait`; a queue that holds `maxsize` items raises QueueFull.
  abbrev pub has_room : ℕ → (ℕ → List A) → ℕ → Bool
  has_room maxsize f q = ltb (length (f q)) maxsize

  -- The loop over the subscribers: the store afterwards, and `dead`.
  unfoldable pub put_all : ℕ → A → List ℕ → (ℕ → List A) → (ℕ → List A) × List ℕ
  put_all maxsize x [] f = (f, [])
  put_all maxsize x (q ∷ qs) f =
      let room = has_room maxsize f q in
      let (g, dead) = put_all maxsize x qs (if room then set_at f q (f q ++ x ∷ []) else f) in
      (g, if room then dead else q ∷ dead)

  unfoldable pub fan_out : ℕ → A → Hub A → Hub A
  unfolding put_all discard_all
  fan_out maxsize x h =
      let (f, dead) = put_all maxsize x h.subscribers h.contents in
      record h { contents = f; subscribers = discard_all dead h.subscribers }

  -- A new, empty queue.
  unfoldable pub subscribe : Hub A → Hub A
  unfolding add
  subscribe h = record {
    contents = set_at h.contents h.fresh [];
    subscribers = add h.fresh h.subscribers;
    fresh = suc h.fresh;
  }

  unfoldable pub unsubscribe : ℕ → Hub A → Hub A
  unfolding discard
  unsubscribe q h = record h { subscribers = discard q h.subscribers }

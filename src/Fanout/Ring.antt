-- ===== src/Fanout/Ring.antt =====
-- `LogRing` of web/services/log_ring.py. A callback that is scheduled waits until the loop runs it.
use pfsense_backups.Prelude.{
  ℕ, ◌≡◌, refl, sym, ap, ◌∙◌, subst, min, inl, inr, false, List, [], ◌∷◌, ◌++◌, arith, ltb, length,
  length-append, drop, Bool-cases, if◌then◌else◌,
}
use pfsense_backups.Fanout.{Hub, fan_out}

pub data Loop : Type 0 where
  unattached closed stopping running : Loop

pub record LogRing (A : Type 0) : Type 0 where
  pub buf : List A
  pub maxlen : ℕ
  pub hub : Hub A
  pub loop : Loop
  pub waiting : List A

abbrev pub queue_capacity : ℕ
queue_capacity = 512

module _ {A : Type 0} where
  -- `deque.append`, which drops the oldest entry of a full ring.
  unfoldable pub push : ℕ → A → List A → List A
  push maxlen x buf = if ltb (length buf) maxlen then buf ++ x ∷ [] else drop 1 (buf ++ x ∷ [])

  -- A loop that is not there or closed is not called; one that stops raises RuntimeError, which is
  -- passed over.
  unfoldable pub schedule : Loop → A → List A → List A
  schedule running x waiting = waiting ++ x ∷ []
  schedule _ x waiting = waiting

  unfoldable pub post_threadsafe : A → LogRing A → LogRing A
  unfolding push schedule
  post_threadsafe x r = record r {
    buf = push r.maxlen x r.buf;
    waiting = schedule r.loop x r.waiting;
  }

  -- The loop runs the oldest callback, `_fanout`.
  unfoldable pub run_callback : List A → LogRing A → LogRing A
  unfolding fan_out
  run_callback [] r = r
  run_callback (x ∷ xs) r = record r { hub = fan_out queue_capacity x r.hub; waiting = xs }

  unfoldable pub snapshot : LogRing A → List A
  snapshot r = r.buf

pub data Act (A : Type 0) : Type 0 where
  post : A → Act A
  callback : Act A

module _ {A : Type 0} where
  abbrev pub act : Act A → LogRing A → LogRing A
  act (post x) r = post_threadsafe x r
  act callback r = run_callback r.waiting r

  abbrev pub act_all : List (Act A) → LogRing A → LogRing A
  act_all [] r = r
  act_all (a ∷ as') r = act_all as' (act a r)

  abbrev pub posted : List (Act A) → List A
  posted [] = []
  posted (post x ∷ as') = x ∷ posted as'
  posted (callback ∷ as') = posted as'

  -- `last` is the end of `all`, and has `n` items or all there are.
  unfoldable pub IsTail : ℕ → List A → List A → Type 0
  IsTail n last all =
      ((older : List A) × (older ++ last ≡ all)) × (length last ≡ min n (length all))

  append_assoc : (xs ys zs : List A) → (xs ++ ys) ++ zs ≡ xs ++ (ys ++ zs)
  append_assoc [] ys zs = refl
  append_assoc (x ∷ xs) ys zs = ap (λ l. x ∷ l) (append_assoc xs ys zs)

  append-nil : (xs : List A) → xs ++ [] ≡ xs
  append-nil [] = refl
  append-nil (x ∷ xs) = ap (λ l. x ∷ l) (append-nil xs)

  push-IsTail :
      (n : ℕ) (x : A) (last all : List A)
      → IsTail n last all
      → IsTail n (push n x last) (all ++ x ∷ [])
  unfolding IsTail push
  push-IsTail n x last all ((older, e), l) = elim (Bool-cases (ltb (length last) n)) [
    | inl room ↦ rw room (
      (older, sym (append_assoc older last (x ∷ [])) ∙ ap (λ k. k ++ x ∷ []) e),
      ground (arith, l, length-append last (x ∷ []), length-append all (x ∷ [])),
    )
    | inr full ↦ rw full (shifted last e l full)
  ]
    where
      shifted :
          (last' : List A)
          → older ++ last' ≡ all
          → length last' ≡ min n (length all)
          → ltb (length last') n ≡ false
          → ((o : List A) × (o ++ drop 1 (last' ++ x ∷ []) ≡ all ++ x ∷ []))
            × (length (drop 1 (last' ++ x ∷ [])) ≡ min n (length (all ++ x ∷ [])))
      shifted [] e' l' full' =
          ((all ++ x ∷ [], append-nil (all ++ x ∷ [])), ground (arith, length-append all (x ∷ [])))
      shifted (y ∷ ys) e' l' full' = (
        (
          older ++ y ∷ [],
          append_assoc older (y ∷ []) (ys ++ x ∷ [])
              ∙ (sym (append_assoc older (y ∷ ys) (x ∷ [])) ∙ ap (λ k. k ++ x ∷ []) e'),
        ),
        ground (arith, length-append ys (x ∷ []), length-append all (x ∷ [])),
      )

  run_callback-buf :
      (w : List A) (r : LogRing A)
      → ((run_callback w r).buf ≡ r.buf) × ((run_callback w r).maxlen ≡ r.maxlen)
  unfolding run_callback
  run_callback-buf [] r = (refl, refl)
  run_callback-buf (x ∷ xs) r = (refl, refl)

  act_all-IsTail :
      (as' : List (Act A)) (r : LogRing A) (all : List A)
      → IsTail r.maxlen r.buf all
      → IsTail r.maxlen (snapshot (act_all as' r)) (all ++ posted as')
  unfolding snapshot post_threadsafe
  act_all-IsTail [] r all t = rw (append-nil all) t
  act_all-IsTail (post x ∷ as') r all t = rw (sym (append_assoc all (x ∷ []) (posted as'))) (
      act_all-IsTail as' (post_threadsafe x r) (all ++ x ∷ []) (push-IsTail r.maxlen x r.buf all t))
  act_all-IsTail (callback ∷ as') r all t =
      let (b, m) = run_callback-buf r.waiting r in
      let next = run_callback r.waiting r in
      subst (λ k. IsTail k (snapshot (act_all as' next)) (all ++ posted as')) m
        (act_all-IsTail as' next all (rw (b, m) t))

  -- Whatever the loop is doing, and however posts and callbacks interleave, the ring of a `LogRing`
  -- that began empty holds the end of what was posted, in order: the last `maxlen` entries, or all
  -- of them while there are fewer.
  pub snapshot-IsTail :
      (as' : List (Act A)) (r : LogRing A)
      → r.buf ≡ []
      → IsTail r.maxlen (snapshot (act_all as' r)) (posted as')
  unfolding IsTail
  snapshot-IsTail as' r e = act_all-IsTail as' r [] (empty r.buf e)
    where
      empty : (b : List A) → b ≡ [] → IsTail r.maxlen b []
      empty b e' = rw e' (([], refl), omega arith)

-- ===== src/Tokens/Fresh.antt =====
-- web/services/token_auth.py: whom a request signs in, and how old that may be.
use pfsense_backups.Prelude.{
  ℕ, ◌+◌, ◌≤◌, ◌<◌, ◌≡◌, refl, subst, ◌∙◌, inl, inr, false, Option, none, some, List, [], ◌∷◌,
  arith, ltb, ltb→lt, Bool-cases, All, All-In, All-of_In, In, text_eq, text_eq→≡,
}
use pfsense_backups.Store.{Text}
use pfsense_backups.Tokens.{
  ApiToken, Identity, Cached, Gate, cache_ttl, cached_user, find_token, is_expired, identity_of,
  bearer_secret, admit, after_cache, after_secret, authenticate_bearer, Step, asked, edited,
  cleared, waited, Run, started, followed,
}

-- The table has an enabled row with the hash that is not expired, and this is its identity.
abbrev pub Admits : Gate → Text → Identity → Type 0
Admits g h user =
    (t : ApiToken) × ((find_token h g.rows ≡ some t)
      × ((is_expired g.clock t.expires_at ≡ false) × (identity_of t ≡ user)))

-- An entry that is found is in the cache, and not too old.
cached_user-In :
    (now : ℕ) (h : Text) (cs : List Cached) (user : Identity)
    → cached_user now h cs ≡ some user
    → (c : Cached) × (In c cs
        × ((c.hash ≡ h) × ((c.user ≡ user) × (now < c.stored_at + cache_ttl))))
unfolding cached_user
cached_user-In now h [] user e = absurd (clash e)
  where
    clash : none ≡ some user → ⊥
    clash q = cc
cached_user-In now h (c ∷ cs) user e = elim (Bool-cases (text_eq c.hash h)) [
  | inl k ↦ elim (Bool-cases (ltb now (c.stored_at + cache_ttl))) [
    | inl l ↦ (
      c,
      (
        inl refl,
        (text_eq→≡ c.hash h k, (same (rw (k, l) at e), ltb→lt now (c.stored_at + cache_ttl) l)),
      ),
    )
    | inr l ↦
        let (d, (m, rest)) = cached_user-In now h cs user (rw (k, l) at e) in (d, (inr m, rest))
  ]
  | inr k ↦ let (d, (m, rest)) = cached_user-In now h cs user (rw k at e) in (d, (inr m, rest))
]
  where
    same : some c.user ≡ some user → c.user ≡ user
    same q = cc

module _ (hash_token : Text → Text) (trim : List Cached → List Cached)
    (trims : (cs : List Cached) (c : Cached) → In c (trim cs) → In c cs) where
  abbrev entry : Text → ApiToken → Gate → Cached
  entry h t g = record { hash = h; user = identity_of t; stored_at = g.clock }

  -- What a request can add to the cache.
  abbrev Adds : (Cached → Type 0) → Gate → Type 0
  Adds P g =
      (h : Text) (t : ApiToken)
      → find_token h g.rows ≡ some t
      → is_expired g.clock t.expires_at ≡ false
      → P (entry h t g)

  admit-cache :
      (P : Cached → Type 0) (h : Text) (o : Option ApiToken) (g : Gate)
      → find_token h g.rows ≡ o
      → All P g.cache
      → Adds P g
      → (All P (admit hash_token trim h o g).1.cache)
        × ((admit hash_token trim h o g).1.clock ≡ g.clock)
  unfolding admit
  admit-cache P h none g f a k = (a, refl)
  admit-cache P h (some t) g f a k = elim (Bool-cases (is_expired g.clock t.expires_at)) [
    | inl e ↦ rw e (a, refl)
    | inr e ↦ rw e (
      All-of_In P (trim (entry h t g ∷ g.cache)) (λ c m.
          All-In P (entry h t g ∷ g.cache) (k h t f e, a) (trims (entry h t g ∷ g.cache) c m)),
      refl,
    )
  ]

  after_cache-cache :
      (P : Cached → Type 0) (h : Text) (u : Option Identity) (g : Gate)
      → All P g.cache
      → Adds P g
      → (All P (after_cache hash_token trim h u g).1.cache)
        × ((after_cache hash_token trim h u g).1.clock ≡ g.clock)
  after_cache-cache P h none g a k = admit-cache P h (find_token h g.rows) g refl a k
  after_cache-cache P h (some user) g a k = (a, refl)

  after_secret-cache :
      (P : Cached → Type 0) (s : Option Text) (g : Gate)
      → All P g.cache
      → Adds P g
      → (All P (after_secret hash_token trim s g).1.cache)
        × ((after_secret hash_token trim s g).1.clock ≡ g.clock)
  after_secret-cache P none g a k = (a, refl)
  after_secret-cache P (some secret) g a k =
      after_cache-cache P (hash_token secret) (cached_user g.clock (hash_token secret) g.cache) g a
        k

  authenticate_bearer-cache :
      (P : Cached → Type 0) (header : Option Text) (g : Gate)
      → All P g.cache
      → Adds P g
      → (All P (authenticate_bearer hash_token trim header g).1.cache)
        × ((authenticate_bearer hash_token trim header g).1.clock ≡ g.clock)
  unfolding authenticate_bearer
  authenticate_bearer-cache P header g a k = after_secret-cache P (bearer_secret header) g a k

  Step-clock : {g g' : Gate} → Step hash_token trim g g' → g.clock ≤ g'.clock
  Step-clock (asked header g) = omega (
    arith,
    (authenticate_bearer-cache (λ c. Unit) header g (All-of_In (λ c. Unit) g.cache (λ c m. tt))
        (λ h t f e. tt)).1,
  )
  Step-clock (edited rows g) = omega arith
  Step-clock (cleared g) = omega arith
  Step-clock (waited n g) = omega arith

  run-clock : {g g' : Gate} → Run hash_token trim g g' → g.clock ≤ g'.clock
  run-clock started = omega arith
  run-clock (followed r s) = omega (arith, run-clock r, Step-clock s)

  module _ (from : Gate) where
    -- A moment on the way to a gate at which the table admitted the identity.
    abbrev pub Admitted : ℕ → Gate → Text → Identity → Type 0
    Admitted time g h user =
        (m : Gate) × (Run hash_token trim from m
          × (Run hash_token trim m g × ((m.clock ≡ time) × Admits m h user)))

    abbrev IsOrigin : Gate → Cached → Type 0
    IsOrigin g c = Admitted c.stored_at g c.hash c.user

    later-IsOrigin :
        {g g' : Gate} (c : Cached) → Step hash_token trim g g' → IsOrigin g c → IsOrigin g' c
    later-IsOrigin c s o = let (m, (r, (q, rest))) = o in (m, (r, (followed q s, rest)))

    All-later :
        {g g' : Gate} (cs : List Cached)
        → Step hash_token trim g g'
        → All (IsOrigin g) cs
        → All (IsOrigin g') cs
    All-later [] s h = tt
    All-later (c ∷ cs) s h = (later-IsOrigin c s h.0, All-later cs s h.1)

    Step-IsOrigin :
        {g g' : Gate}
        → Run hash_token trim from g
        → Step hash_token trim g g'
        → All (IsOrigin g) g.cache
        → All (IsOrigin g') g'.cache
    Step-IsOrigin r (asked header g) a =
        let adds : Adds (IsOrigin g) g =
          λ h t f e. (g, (r, (started, (refl, (t, (f, (e, refl))))))) in
        let kept = authenticate_bearer-cache (IsOrigin g) header g a adds in
        All-later (authenticate_bearer hash_token trim header g).1.cache (asked header g) kept.0
    Step-IsOrigin r (edited rows g) a = All-later g.cache (edited rows g) a
    Step-IsOrigin r (cleared g) a = tt
    Step-IsOrigin r (waited n g) a = All-later g.cache (waited n g) a

    run-IsOrigin :
        {g : Gate} → from.cache ≡ [] → Run hash_token trim from g → All (IsOrigin g) g.cache
    run-IsOrigin e started = rw e tt
    run-IsOrigin e (followed r s) = Step-IsOrigin r s (run-IsOrigin e r)

    -- What a request is answered, by the secret of its header.
    abbrev pub IsFresh : Gate → Text → Identity → Type 0
    IsFresh g h user =
        (time : ℕ) × ((time ≤ g.clock) × ((g.clock < time + cache_ttl) × Admitted time g h user))

    cached-IsFresh :
        (g : Gate) (h : Text) (user : Identity)
        → All (IsOrigin g) g.cache
        → cached_user g.clock h g.cache ≡ some user
        → IsFresh g h user
    cached-IsFresh g h user a e =
        let (c, (m, (same, (whom, young)))) = cached_user-In g.clock h g.cache user e in
        let (moment, (r, (q, (at, admits)))) = All-In (IsOrigin g) g.cache a m in
        (
          c.stored_at,
          (
            omega (arith, run-clock q, at),
            (
              young,
              (
                moment,
                (
                  r,
                  (
                    q,
                    (
                      at,
                      subst (λ u. Admits moment h u) whom
                          (subst (λ k. Admits moment k c.user) same admits),
                    ),
                  ),
                ),
              ),
            ),
          ),
        )

    admit-IsFresh :
        (g : Gate) (h : Text) (o : Option ApiToken) (user : Identity)
        → Run hash_token trim from g
        → find_token h g.rows ≡ o
        → (admit hash_token trim h o g).0 ≡ some user
        → IsFresh g h user
    unfolding admit
    admit-IsFresh g h none user r f e = absurd (clash e)
      where
        clash : none ≡ some user → ⊥
        clash q = cc
    admit-IsFresh g h (some t) user r f e = elim (Bool-cases (is_expired g.clock t.expires_at)) [
      | inl x ↦ absurd (clash (rw x at e))
      | inr x ↦ (
        g.clock,
        (omega arith, (omega arith, (g, (r, (started, (refl, (t, (f, (x, same (rw x at e)))))))))),
      )
    ]
      where
        clash : none ≡ some user → ⊥
        clash q = cc

        same : some (identity_of t) ≡ some user → identity_of t ≡ user
        same q = cc

    answered-IsFresh :
        (g : Gate) (h : Text) (u : Option Identity) (user : Identity)
        → Run hash_token trim from g
        → All (IsOrigin g) g.cache
        → cached_user g.clock h g.cache ≡ u
        → (after_cache hash_token trim h u g).0 ≡ some user
        → IsFresh g h user
    answered-IsFresh g h none user r a c e = admit-IsFresh g h (find_token h g.rows) user r refl e
    answered-IsFresh g h (some v) user r a c e = cached-IsFresh g h user a (c ∙ e)

    -- Whatever requests, changes of the table, clearings of the cache and waits came before, from an
    -- empty cache: a request that is signed in carries a secret, and at most 60 seconds ago the table
    -- had an enabled row with its hash that was not expired and whose identity it is; if the
    -- cache, when it makes room, only removes entries.
    pub authenticate_bearer-IsFresh :
        (g : Gate) (header : Option Text) (user : Identity)
        → from.cache ≡ []
        → Run hash_token trim from g
        → (authenticate_bearer hash_token trim header g).0 ≡ some user
        → (secret : Text) × ((bearer_secret header ≡ some secret)
            × IsFresh g (hash_token secret) user)
    unfolding authenticate_bearer
    authenticate_bearer-IsFresh g header user empty r e = go (bearer_secret header) refl e
      where
        go :
            (s : Option Text)
            → bearer_secret header ≡ s
            → (after_secret hash_token trim s g).0 ≡ some user
            → (secret : Text) × ((bearer_secret header ≡ some secret)
                × IsFresh g (hash_token secret) user)
        go none b q = absurd (clash q)
          where
            clash : none ≡ some user → ⊥
            clash p = cc
        go (some secret) b q = (
          secret,
          (b, answered-IsFresh g (hash_token secret) _ user r (run-IsOrigin empty r) refl q),
        )

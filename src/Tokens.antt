-- ===== src/Tokens.antt =====
-- web/services/token_auth.py: the sign-in of automation clients, and its cache of identities.
pub mod Fresh
mod Examples
use pfsense_backups.Prelude.{
  ℕ, ◌+◌, ◌-◌, Bool, true, false, not, ◌&&◌, Option, none, some, List, [], ◌∷◌, ◌++◌, drop, ltb,
  leb, ◌==◌, select, if◌then◌else◌, text_eq,
}
use pfsense_backups.Store.{Text}
use pfsense_backups.Replication.{codes, starts_with}
use pfsense_backups.Diff.Rows.{Keyed, put_key, lookup}
use pfsense_backups.Crypto.Wrapper.{strip}

-- A row of `api_tokens`; times are seconds.
pub record ApiToken : Type 0 where
  pub id : ℕ
  pub name : Text
  pub token_hash : Text
  pub enabled : Bool
  pub expires_at : Option ℕ
  pub scope : Text

pub record Identity : Type 0 where
  pub email : Text
  pub name : Text
  pub token_id : ℕ
  pub token_scope : Text

-- What is cached, under its hash, and since when.
pub record Cached : Type 0 where
  pub hash : Text
  pub user : Identity
  pub stored_at : ℕ

-- The table, the cache, the times of the last writes of `last_used_at`, by the hash, and the clock.
pub record Gate : Type 0 where
  pub rows : List ApiToken
  pub cache : List Cached
  pub touched : Keyed ℕ
  pub clock : ℕ

abbrev pub token_prefix : Text
token_prefix = codes "pfsb_"

abbrev pub cache_ttl : ℕ
cache_ttl = 60

abbrev pub last_used_write : ℕ
last_used_write = 300

-- The secret of a header, if it is a bearer token of this program.
unfoldable pub bearer_secret : Option Text → Option Text
bearer_secret none = none
bearer_secret (some auth) =
    let secret = strip (drop 7 auth) in
    if starts_with (codes "Bearer ") auth && starts_with token_prefix secret
    then some secret
    else none

-- `_cache.get(h)`; an entry is good for the time to live.
unfoldable pub cached_user : ℕ → Text → List Cached → Option Identity
cached_user now h [] = none
cached_user now h (c ∷ cs) =
    let later = cached_user now h cs in
    if text_eq c.hash h && ltb now (c.stored_at + cache_ttl) then some c.user else later

-- The query for an enabled row.
unfoldable pub find_token : Text → List ApiToken → Option ApiToken
find_token h [] = none
find_token h (t ∷ ts) =
    let later = find_token h ts in if text_eq t.token_hash h && t.enabled then some t else later

abbrev pub is_expired : ℕ → Option ℕ → Bool
is_expired now none = false
is_expired now (some at) = leb at now

abbrev pub identity_of : ApiToken → Identity
identity_of t = record {
  email = codes "token:" ++ t.name;
  name = t.name;
  token_id = t.id;
  token_scope = t.scope;
}

-- `_touch_last_used`: whether the column is written, and the times after it.
unfoldable pub touch_last_used : ℕ → Text → Option ℕ → Keyed ℕ → Bool × Keyed ℕ
touch_last_used now h none touched = (true, put_key h now touched)
touch_last_used now h (some last) touched =
    if ltb (now - last) last_used_write then (false, touched) else (true, put_key h now touched)

-- `trim` is what the cache of at most 256 entries does when one is added.
module _ (hash_token : Text → Text) (trim : List Cached → List Cached) where
  abbrev pub touch : Text → Gate → Gate
  touch h g = record g { touched = (touch_last_used g.clock h (lookup h g.touched) g.touched).1 }

  abbrev pub store : Text → Identity → Gate → Gate
  store h user g = record g {
    cache = trim ((record { hash = h; user = user; stored_at = g.clock }) ∷ g.cache);
  }

  -- A row that is found, and not expired.
  unfoldable pub admit : Text → Option ApiToken → Gate → Option Identity × Gate
  admit h none g = (none, g)
  admit h (some t) g =
      if is_expired g.clock t.expires_at
      then (none, g)
      else (some (identity_of t), touch h (store h (identity_of t) g))

  abbrev pub after_cache : Text → Option Identity → Gate → Option Identity × Gate
  after_cache h (some user) g = (some user, touch h g)
  after_cache h none g = admit h (find_token h g.rows) g

  abbrev pub after_secret : Option Text → Gate → Option Identity × Gate
  after_secret none g = (none, g)
  after_secret (some secret) g =
      let h = hash_token secret in after_cache h (cached_user g.clock h g.cache) g

  unfoldable pub authenticate_bearer : Option Text → Gate → Option Identity × Gate
  authenticate_bearer header g = after_secret (bearer_secret header) g

  abbrev pub clear_cache : Gate → Gate
  clear_cache g = record g { cache = [] }

  -- What can happen: a request, a change of the table by the tokens router, its `clear_cache`, and time.
  pub data Step : Gate → Gate → Type 0 where
    asked : (header : Option Text) (g : Gate) → Step g (authenticate_bearer header g).1
    edited : (rows : List ApiToken) (g : Gate) → Step g (record g { rows = rows })
    cleared : (g : Gate) → Step g (clear_cache g)
    waited : (n : ℕ) (g : Gate) → Step g (record g { clock = g.clock + n })

  -- A sequence of steps, from a gate to a gate.
  pub data Run (from : Gate) : Gate → Type 0 where
    started : Run from from
    followed : {g g' : Gate} → Run from g → Step g g' → Run from g'

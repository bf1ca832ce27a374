-- ===== src/Tokens/Examples.antt =====
-- A token that is revoked while its identity is cached: web/services/token_auth.py.
use pfsense_backups.Prelude.{
  ℕ, zero, suc, ◌+◌, ◌≡◌, refl, inl, inr, true, Option, some, List, [], ◌∷◌, ◌++◌, take, In,
}
use pfsense_backups.Store.{Text}
use pfsense_backups.Replication.{codes}
use pfsense_backups.Diff.Rows.{put_key, lookup}
use pfsense_backups.Crypto.Wrapper.{strip, skip_while, is_space}
use pfsense_backups.Tokens.{
  ApiToken, Cached, Gate, bearer_secret, cached_user, find_token, identity_of, touch_last_used,
  admit, authenticate_bearer, Run, started, followed, asked, edited, waited,
}
use pfsense_backups.Tokens.Fresh.{IsFresh, authenticate_bearer-IsFresh}

In-take : {A : Type 0} (n : ℕ) (xs : List A) (x : A) → In x (take n xs) → In x xs
In-take zero xs x m = absurd m
In-take (suc n) [] x m = m
In-take (suc n) (y ∷ ys) x (inl e) = inl e
In-take (suc n) (y ∷ ys) x (inr m) = inr (In-take n ys x m)

abbrev hash : Text → Text
hash t = t

abbrev trim : List Cached → List Cached
trim = take 256

abbrev secret : Text
secret = codes "pfsb_abc"

abbrev token : ApiToken
token = record {
  id = 1;
  name = codes "ci";
  token_hash = secret;
  enabled = true;
  expires_at = some 1000;
  scope = codes "read";
}

abbrev gate : Gate
gate = record { rows = token ∷ []; cache = []; touched = []; clock = 990 }

abbrev header : Option Text
header = some (codes "Bearer " ++ secret)

abbrev served : Gate
served = (authenticate_bearer hash trim header gate).1

abbrev revoked : Gate
revoked = record served { rows = [] }

abbrev later : Gate
later = record revoked { clock = served.clock + 59 }

abbrev history : Run hash trim gate later
history =
    followed (followed (followed started (asked header gate)) (edited [] served))
      (waited 59 revoked)

authenticate_bearer-IsFresh_example :
    (s : Text) × ((bearer_secret header ≡ some s)
      × IsFresh hash trim (In-take 256) gate later (hash s) (identity_of token))
unfolding authenticate_bearer admit bearer_secret cached_user find_token touch_last_used put_key
    lookup strip skip_while is_space
authenticate_bearer-IsFresh_example =
    authenticate_bearer-IsFresh hash trim (In-take 256) gate later header (identity_of token) refl
      history refl

-- ===== src/Redact/Hidden.antt =====
-- pfsense_shared/pfsense_redact.py: what a redaction lets through.
use mathlib.Core.List.{reverse, reverse-append}
use pfsense_backups.Prelude.{
  ◌≡◌, refl, ap, ◌∙◌, ◌⊎◌, inl, inr, Bool, true, false, Option, none, some, List, [], ◌∷◌, ◌++◌,
  map, any, String, text_eq, arith, In, All, All-In, Bool-cases, if◌then◌else◌,
}
use pfsense_backups.Store.{Text}
use pfsense_backups.Replication.{codes, starts_with, ends_with}
use pfsense_backups.Redact.{exact, suffixes, redacted, should_redact, redact}

-- A field that is not set: None or the empty text.
abbrev pub is_unset : Option Text → Bool
is_unset none = true
is_unset (some []) = true
is_unset (some (c ∷ cs)) = false

-- Fields that the module's docstring and comments describe as secrets: hashes of passwords, private
-- keys of certificates, tunnels and hosts, keys that two sides share, communities of SNMP, and
-- passwords, seeds, tokens and logins that are named one by one. `tls_client_key`, which a comment
-- also names, is not among them.
abbrev pub secret_names : List String
secret_names =
    "bcrypt_hash" ∷ "md5_hash" ∷ "prv" ∷ "privatekey" ∷ "ssh_rsa_key" ∷ "ssh_ecdsa_key"
    ∷ "ssh_ed25519_key" ∷ "ssh_dsa_key" ∷ "presharedkey" ∷ "psk" ∷ "tlspsk" ∷ "tls_psk"
    ∷ "shared_secret" ∷ "community" ∷ "trapstring" ∷ "radius_secret" ∷ "ldap_bindpw"
    ∷ "remotepassword" ∷ "nt_pass" ∷ "auth_user_pass" ∷ "otp_seed" ∷ "ddnsdomainkey"
    ∷ "influxdb_username" ∷ "api_token" ∷ "apitoken" ∷ "auth_token" ∷ []

abbrev pub secret_ends : List String
secret_ends = "_password" ∷ "_secret" ∷ "_private_key" ∷ "_bindpw" ∷ "_api_key" ∷ "_auth_token" ∷ []

-- A tag, in lower case, of such a field, or of any `*_password`, `*_secret`, `*_private_key`,
-- `*_bindpw`, `*_api_key` or `*_auth_token`.
abbrev pub IsSecret : Text → Type 0
IsSecret low =
    In low (map codes secret_names)
    ⊎ ((front : Text) × (end : Text) × (low ≡ front ++ end) × In end (map codes secret_ends))

-- The two tests of `should_redact`, on a tag in lower case.
abbrev is_exact : Text → Bool
is_exact low = any (λ s. text_eq low (codes s)) exact

abbrev has_suffix : Text → Bool
has_suffix low = any (λ s. ends_with (codes s) low) suffixes

secret_names-hit :
    All (λ t. (if is_exact t then true else has_suffix t) ≡ true) (map codes secret_names)
unfolding exact suffixes ends_with
secret_names-hit = (
  refl,
  (
    refl,
    (
      refl,
      (
        refl,
        (
          refl,
          (
            refl,
            (
              refl,
              (
                refl,
                (
                  refl,
                  (
                    refl,
                    (
                      refl,
                      (
                        refl,
                        (
                          refl,
                          (
                            refl,
                            (
                              refl,
                              (
                                refl,
                                (
                                  refl,
                                  (
                                    refl,
                                    (
                                      refl,
                                      (refl, (refl, (refl, (refl, (refl, (refl, (refl, tt))))))),
                                    ),
                                  ),
                                ),
                              ),
                            ),
                          ),
                        ),
                      ),
                    ),
                  ),
                ),
              ),
            ),
          ),
        ),
      ),
    ),
  ),
)

-- The tail of a tag decides whether it has a suffix.
has_suffix-append :
    (front tail : Text)
    → has_suffix (front ++ tail)
      ≡ any (λ s. starts_with (reverse (codes s)) (reverse tail ++ reverse front)) suffixes
unfolding ends_with suffixes
has_suffix-append front tail = rw (reverse-append front tail) refl

secret_ends-hit : (front : Text) → All (λ e. has_suffix (front ++ e) ≡ true) (map codes secret_ends)
unfolding suffixes
secret_ends-hit front = (
  has_suffix-append front (codes "_password"),
  (
    has_suffix-append front (codes "_secret"),
    (
      has_suffix-append front (codes "_private_key"),
      (
        has_suffix-append front (codes "_bindpw"),
        (
          has_suffix-append front (codes "_api_key"),
          (has_suffix-append front (codes "_auth_token"), tt),
        ),
      ),
    ),
  ),
)

IsSecret-hit : (low : Text) → IsSecret low → (if is_exact low then true else has_suffix low) ≡ true
IsSecret-hit low (inl m) =
    All-In (λ t. (if is_exact t then true else has_suffix t) ≡ true) (map codes secret_names)
      secret_names-hit m
IsSecret-hit low (inr (front, end, e, m)) =
    let hit : has_suffix low ≡ true =
      ap has_suffix e
      ∙ All-In (λ x. has_suffix (front ++ x) ≡ true) (map codes secret_ends) (secret_ends-hit front)
          m in
    elim (Bool-cases (is_exact low)) [ inl y ↦ rw y refl | inr n ↦ rw n hit ]

module _ (lower : Text → Text) where
  redact_secret :
      (t : Text) (v : Option Text)
      → should_redact lower t ≡ true
      → is_unset v ≡ false
      → redact lower t v ≡ some redacted
  unfolding redact
  redact_secret t none s f = absurd (clash f)
    where
      clash : true ≡ false → ⊥
      clash h = ground arith
  redact_secret t (some []) s f = absurd (clash f)
    where
      clash : true ≡ false → ⊥
      clash h = ground arith
  redact_secret t (some (c ∷ cs)) s f = rw s refl

  -- Nothing of a secret is let through: a value that is set, under a tag that in lower case is one of
  -- the 26 names of `secret_names` or ends in `_password`, `_secret`, `_private_key`, `_bindpw`,
  -- `_api_key` or `_auth_token`, is replaced by the placeholder, whatever it is, and to redact again
  -- changes nothing.
  pub redact-IsHidden :
      (t : Text) (v : Option Text)
      → IsSecret (lower t)
      → is_unset v ≡ false
      → (redact lower t v ≡ some redacted) × (redact lower t (redact lower t v) ≡ some redacted)
  unfolding should_redact
  redact-IsHidden t v s f =
      let hidden = redact_secret t v (IsSecret-hit (lower t) s) f in
      (hidden, rw hidden (redact_secret t (some redacted) (IsSecret-hit (lower t) s) refl))

  -- To redact again changes nothing, and a field that is not secret or not set is left as it is.
  pub redact_twice :
      (t : Text) (v : Option Text)
      → (redact lower t (redact lower t v) ≡ redact lower t v)
        × ((redact lower t v ≡ v) ⊎ ((should_redact lower t ≡ true) × (is_unset v ≡ false)))
  unfolding redact
  redact_twice t none = (refl, inl refl)
  redact_twice t (some []) = (refl, inl refl)
  redact_twice t (some (c ∷ cs)) = elim (Bool-cases (should_redact lower t)) [
    | inl e ↦ rw e (rw e refl, inr (refl, refl))
    | inr e ↦ rw e (rw e refl, inl refl)
  ]

-- ===== src/Redact/Tags.antt =====
-- The tags of pfsense_shared/pfsense_redact.py whose values are secrets.
use pfsense_backups.Prelude.{List, [], ◌∷◌, String}

-- `_EXACT`
unfoldable pub exact : List String
exact =
    "password" ∷ "bcrypt_hash" ∷ "md5_hash" ∷ "presharedkey" ∷ "pre-shared-key" ∷ "pre_shared_key"
    ∷ "shared_key" ∷ "tls" ∷ "tls_auth" ∷ "prv" ∷ "radius_secret" ∷ "radius_secret_enc"
    ∷ "ldap_bindpw" ∷ "bindpw" ∷ "rocommunity" ∷ "rwcommunity" ∷ "community" ∷ "trap_community"
    ∷ "trapstring" ∷ "pskey" ∷ "psk" ∷ "auth_token" ∷ "api_key" ∷ "apikey" ∷ "api_token"
    ∷ "apitoken" ∷ "accountkey" ∷ "account_key" ∷ "user_key" ∷ "userkey" ∷ "webhook_url"
    ∷ "webhookurl" ∷ "oinkcode" ∷ "maxmind_key" ∷ "nas_secret" ∷ "shared_secret" ∷ "user_password"
    ∷ "proxy_auth_password" ∷ "influxdb_token" ∷ "cf_token" ∷ "cf_key" ∷ "do_api_key" ∷ "gd_key"
    ∷ "gd_secret" ∷ "influxdb_username" ∷ "nt_pass" ∷ "frr_password" ∷ "bgp_password"
    ∷ "ospf_password" ∷ "secret" ∷ "remotepassword" ∷ "tlspsk" ∷ "tls_psk" ∷ "ssh_rsa_key"
    ∷ "ssh_ecdsa_key" ∷ "ssh_ed25519_key" ∷ "ssh_dsa_key" ∷ "apikey_secret" ∷ "api_secret"
    ∷ "privatekey" ∷ "private_key" ∷ "auth_user_pass" ∷ "otp_seed" ∷ "ddnsdomainkey" ∷ []

-- `_SUFFIXES`
unfoldable pub suffixes : List String
suffixes =
    "_password" ∷ "_secret" ∷ "_privkey" ∷ "_private_key" ∷ "_bindpw" ∷ "_apikey" ∷ "_api_key"
    ∷ "_authtoken" ∷ "_auth_token" ∷ []

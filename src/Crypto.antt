-- ===== src/Crypto.antt =====
-- pfsense_shared/pfsense_crypto.py: the encryption of a configuration as pfSense does it.
pub mod Wrapper
pub mod Lines
pub mod Chunks
pub mod RoundTrip
pub mod Sealed
mod Examples
use Wrapper.{find_text, is_found, begin_mark, skip_while, parse_wrapper, print_wrapper}
use pfsense_backups.Prelude.{
  ℕ, zero, suc, ◌+◌, ◌-◌, ◌%◌, ◌≡◌, Bool, true, false, not, ◌&&◌, ◌||◌, Option, none, some, List,
  [], ◌∷◌, ◌++◌, ltb, leb, ◌==◌, elem, length, take, drop, if◌then◌else◌,
}
use pfsense_backups.Store.{
  Text, Bytes, not_base64, too_short, no_prefix, bad_block, bad_padding, not_plausible,
}
use pfsense_backups.Replication.{Outcome, ok, raise, ◌>>=◌, codes, starts_with}
use pfsense_backups.Diff.Rows.{Keyed, lookup}

abbrev pub key_bytes : ℕ
key_bytes = 32

abbrev pub iv_bytes : ℕ
iv_bytes = 16

abbrev pub salt_bytes : ℕ
salt_bytes = 8

abbrev pub salt_prefix : Bytes
salt_prefix = codes "Salted__"

abbrev pub iterations_current : ℕ
iterations_current = 500000

abbrev pub iterations_legacy : ℕ
iterations_legacy = 10000

-- The functions of hashlib, base64, os and the cryptography package, and the two coders and
-- `str.lower` of Python. `pad` and `unpad` are PKCS7 with blocks of 16 bytes; `urandom n seed` are
-- `n` bytes of the system's random source.
pub record Primitives : Type 0 where
  pub decode : Bytes → Text
  pub encode : Text → Bytes
  pub lower : Text → Text
  pub b64encode : Bytes → Text
  pub b64decode : Text → Outcome Bytes
  pub pbkdf2 : Bytes → Bytes → ℕ → ℕ → Bytes
  pub md5 : Bytes → Bytes
  pub pad : Bytes → Bytes
  pub unpad : Bytes → Outcome Bytes
  pub cbc_encrypt : Bytes → Bytes → Bytes → Bytes
  pub cbc_decrypt : Bytes → Bytes → Bytes → Bytes
  pub urandom : ℕ → Bytes → Bytes

pub data Kdf : Type 0 where
  pbkdf2_current pbkdf2_legacy md5_kdf : Kdf

-- `_split_salted`: the salt and the ciphertext.
unfoldable pub split_salted : Bytes → Outcome (Bytes × Bytes)
split_salted raw =
    let front = length salt_prefix + salt_bytes in
    if ltb (length raw) (front + 16)
    then raise too_short
    else if not (starts_with salt_prefix raw)
    then raise no_prefix
    else if not (length (drop front raw) % 16 == 0)
    then raise bad_block
    else ok (take salt_bytes (drop (length salt_prefix) raw), drop front raw)

-- The first 256 bytes without leading white space begin like XML.
unfoldable pub looks_like_xml : Bytes → Bool
unfolding skip_while
looks_like_xml bytes =
    let head = skip_while (λ c. elem c (9 ∷ 10 ∷ 11 ∷ 12 ∷ 13 ∷ 32 ∷ [])) (take 256 bytes) in
    starts_with (codes "<?xml") head || starts_with (codes "<pfsense") head

-- `looks_encrypted`
unfoldable pub looks_encrypted : Bytes → Bool
unfolding find_text
looks_encrypted blob = is_found (find_text begin_mark (take 4096 blob))

abbrev pub plausible : Bytes → Bool
plausible bytes = looks_like_xml bytes || looks_encrypted bytes

module _ (prim : Primitives) where
  open prim use {
    decode, encode, lower, b64encode, b64decode, pbkdf2, md5, pad, unpad, cbc_encrypt, cbc_decrypt,
    urandom,
  }

  -- The key and the initial vector.
  abbrev pub cut_key : Bytes → Bytes × Bytes
  cut_key out = (take key_bytes out, take iv_bytes (drop key_bytes out))

  unfoldable pub derive_pbkdf2 : Bytes → Bytes → ℕ → Bytes × Bytes
  derive_pbkdf2 password salt iterations =
      cut_key (pbkdf2 password salt iterations (key_bytes + iv_bytes))

  -- The loop of `_derive_evp_bytestokey_md5`; each round that is left adds a digest.
  unfoldable pub extend : ℕ → Bytes → Bytes → Bytes → Bytes → Bytes
  extend zero password salt last derived = derived
  extend (suc fuel) password salt last derived =
      let digest = md5 (last ++ (password ++ salt)) in
      let more = extend fuel password salt digest (derived ++ digest) in
      if ltb (length derived) (key_bytes + iv_bytes) then more else derived

  unfoldable pub derive_md5 : Bytes → Bytes → Bytes × Bytes
  unfolding extend
  derive_md5 password salt = cut_key (extend (key_bytes + iv_bytes) password salt [] [])

  unfoldable pub derive : Bytes → Bytes → Kdf → Bytes × Bytes
  unfolding derive_pbkdf2 derive_md5
  derive password salt pbkdf2_current = derive_pbkdf2 password salt iterations_current
  derive password salt pbkdf2_legacy = derive_pbkdf2 password salt iterations_legacy
  derive password salt md5_kdf = derive_md5 password salt

  abbrev pub hash_hint : Option Text → Text
  hash_hint none = []
  hash_hint (some h) = lower h

  -- `_kdf_attempt_order`
  unfoldable pub kdf_attempt_order : Keyed Text → List Kdf
  unfolding lookup find_text
  kdf_attempt_order headers =
      if is_found (find_text (codes "md5") (hash_hint (lookup (codes "hash") headers)))
      then md5_kdf ∷ pbkdf2_current ∷ pbkdf2_legacy ∷ []
      else pbkdf2_current ∷ pbkdf2_legacy ∷ md5_kdf ∷ []

  -- The plaintext under one key derivation, if it is plausible.
  unfoldable pub check_plain : Outcome Bytes → Outcome Bytes
  check_plain (raise p) = raise p
  check_plain (ok plain) = if plausible plain then ok plain else raise not_plausible

  unfoldable pub attempt_kdf : Bytes → Bytes → Bytes → Kdf → Outcome Bytes
  unfolding derive check_plain
  attempt_kdf password salt ciphertext kdf =
      let (key, iv) = derive password salt kdf in
      check_plain (unpad (cbc_decrypt key iv ciphertext))

  -- The chain of attempts; the last failure is the one that is raised.
  unfoldable pub try_kdfs : Bytes → Bytes → Bytes → List Kdf → Outcome Bytes → Outcome Bytes
  unfolding attempt_kdf
  try_kdfs password salt ciphertext [] last = last
  try_kdfs password salt ciphertext (k ∷ ks) last = elim (attempt_kdf password salt ciphertext k) [
    | ok plain ↦ ok plain
    | raise p ↦ try_kdfs password salt ciphertext ks (raise p)
  ]

  unfoldable pub decrypt_pfsense_backup : Bytes → Text → Outcome Bytes
  unfolding parse_wrapper split_salted kdf_attempt_order try_kdfs
  decrypt_pfsense_backup blob password = do
    parsed ← parse_wrapper lower (decode blob)
    raw ← b64decode parsed.1
    split ← split_salted raw
    try_kdfs (encode password) split.0 split.1 (kdf_attempt_order parsed.0) (raise bad_padding)

  -- `seed` is the state of the random source.
  unfoldable pub encrypt_pfsense_backup : Bytes → Bytes → Text → Bytes
  unfolding derive_pbkdf2 print_wrapper
  encrypt_pfsense_backup seed xml password =
      let salt = urandom salt_bytes seed in
      let (key, iv) = derive_pbkdf2 (encode password) salt iterations_current in
      print_wrapper (b64encode (salt_prefix ++ (salt ++ cbc_encrypt key iv (pad xml))))

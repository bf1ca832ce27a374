-- ===== src/Crypto/RoundTrip.antt =====
-- pfsense_shared/pfsense_crypto.py: what was encrypted is decrypted, and the sizes of the keys.
use pfsense_backups.Prelude.{
  ℕ, zero, suc, ◌+◌, ◌%◌, ◌≤◌, ◌≡◌, refl, sym, ap, ◌∙◌, ◌≢◌, inl, inr, true, [], ◌∷◌, ◌++◌, arith,
  ltb, length, length-append, take, drop, Bool-cases,
}
use pfsense_backups.Store.{Text, Bytes, bad_padding}
use pfsense_backups.Replication.{Outcome, ok, raise}
use pfsense_backups.Crypto.{
  Primitives, Kdf, pbkdf2_current, pbkdf2_legacy, md5_kdf, key_bytes, iv_bytes, salt_bytes,
  salt_prefix, iterations_current, split_salted, plausible, cut_key, derive_pbkdf2, extend,
  derive_md5, derive, kdf_attempt_order, check_plain, attempt_kdf, try_kdfs, decrypt_pfsense_backup,
  encrypt_pfsense_backup,
}
use pfsense_backups.Crypto.Wrapper.{is_base64, all_chars, print_wrapper}
use pfsense_backups.Crypto.Chunks.{parse_wrapper-print_wrapper, print_wrapper_ascii, take-length}

-- The documented behaviour of the libraries.
pub record IsLawful (prim : Primitives) : Type 0 where
  pub ascii : (t : Text) → all_chars (λ c. ltb c 128) t ≡ true → prim.decode t ≡ t
  pub b64_inverse : (b : Bytes) → prim.b64decode (prim.b64encode b) ≡ ok b
  pub b64_alphabet : (b : Bytes) → all_chars is_base64 (prim.b64encode b) ≡ true
  pub b64_filled : (b : Bytes) → b ≢ [] → prim.b64encode b ≢ []
  pub random_size : (n : ℕ) (seed : Bytes) → length (prim.urandom n seed) ≡ n
  pub pad_blocks : (b : Bytes) → length (prim.pad b) % 16 ≡ 0
  pub pad_filled : (b : Bytes) → 16 ≤ length (prim.pad b)
  pub pad_inverse : (b : Bytes) → prim.unpad (prim.pad b) ≡ ok b
  pub cbc_size : (key iv b : Bytes) → length (prim.cbc_encrypt key iv b) ≡ length b
  pub cbc_inverse :
      (key iv b : Bytes)
      → length key ≡ key_bytes
      → length iv ≡ iv_bytes
      → length b % 16 ≡ 0
      → prim.cbc_decrypt key iv (prim.cbc_encrypt key iv b) ≡ b
  pub pbkdf2_size :
      (password salt : Bytes) (iterations n : ℕ)
      → length (prim.pbkdf2 password salt iterations n) ≡ n
  pub md5_size : (b : Bytes) → length (prim.md5 b) ≡ 16

drop-length : (xs ys : Bytes) → drop (length xs) (xs ++ ys) ≡ ys
drop-length [] ys = refl
drop-length (x ∷ xs) ys = drop-length xs ys

length-take : (n : ℕ) (xs : Bytes) → n ≤ length xs → length (take n xs) ≡ n
length-take zero xs h = refl
length-take (suc n) [] h = omega (arith, h)
length-take (suc n) (x ∷ xs) h = omega (arith, h, length-take n xs (omega (arith, h)))

length-drop : (n : ℕ) (xs : Bytes) → n ≤ length xs → length (drop n xs) + n ≡ length xs
length-drop zero xs h = omega arith
length-drop (suc n) [] h = omega (arith, h)
length-drop (suc n) (x ∷ xs) h = omega (arith, h, length-drop n xs (omega (arith, h)))

-- A salted ciphertext comes apart again.
split_salted-eq :
    (salt ciphertext : Bytes)
    → length salt ≡ salt_bytes
    → 16 ≤ length ciphertext
    → length ciphertext % 16 ≡ 0
    → split_salted (salt_prefix ++ (salt ++ ciphertext)) ≡ ok (salt, ciphertext)
unfolding split_salted
split_salted-eq salt ciphertext s filled blocks =
    let front : drop 8 (salt ++ ciphertext) ≡ ciphertext =
      ap (λ n. drop n (salt ++ ciphertext)) (sym s) ∙ drop-length salt ciphertext in
    let mine : take 8 (salt ++ ciphertext) ≡ salt =
      ap (λ n. take n (salt ++ ciphertext)) (sym s) ∙ take-length salt ciphertext in
    let total = length-append salt ciphertext in
    rw (front, mine, blocks) (ground (arith, total, s, filled))

module _ (prim : Primitives) (laws : IsLawful prim) where
  cut_key_sizes :
      (out : Bytes)
      → key_bytes + iv_bytes ≤ length out
      → (length (cut_key prim out).0 ≡ key_bytes) × (length (cut_key prim out).1 ≡ iv_bytes)
  cut_key_sizes out h =
      let k = length-drop key_bytes out (omega (arith, h)) in
      (
        length-take key_bytes out (omega (arith, h)),
        length-take iv_bytes (drop key_bytes out) (omega (arith, h, k)),
      )

  extend-enough :
      (fuel : ℕ) (password salt last derived : Bytes)
      → key_bytes + iv_bytes ≤ length derived + fuel
      → key_bytes + iv_bytes ≤ length (extend prim fuel password salt last derived)
  unfolding extend
  extend-enough zero password salt last derived h = omega (arith, h)
  extend-enough (suc fuel) password salt last derived h =
      let digest = prim.md5 (last ++ (password ++ salt)) in
      let size = laws.md5_size (last ++ (password ++ salt)) in
      let grown = length-append derived digest in
      elim (Bool-cases (ltb (length derived) (key_bytes + iv_bytes))) [
        | inl e ↦ rw e (
            extend-enough fuel password salt digest (derived ++ digest)
              (omega (arith, h, size, grown)))
        | inr e ↦ rw e (ground arith)
      ]

  -- Each of the three key derivations gives a key of 32 bytes and an initial vector of 16, if the
  -- libraries behave as they document; in particular the loop over MD5 digests has run to its end.
  pub derive_sizes :
      (password salt : Bytes) (kdf : Kdf)
      → (length (derive prim password salt kdf).0 ≡ key_bytes)
        × (length (derive prim password salt kdf).1 ≡ iv_bytes)
  unfolding derive derive_pbkdf2 derive_md5
  derive_sizes password salt pbkdf2_current =
      cut_key_sizes _ (omega (arith, laws.pbkdf2_size password salt 500000 48))
  derive_sizes password salt pbkdf2_legacy =
      cut_key_sizes _ (omega (arith, laws.pbkdf2_size password salt 10000 48))
  derive_sizes password salt md5_kdf =
      cut_key_sizes (extend prim 48 password salt [] [])
        (extend-enough 48 password salt [] [] (omega arith))

  first_kdf :
      (password salt ciphertext plain : Bytes) (last : Outcome Bytes)
      → attempt_kdf prim password salt ciphertext pbkdf2_current ≡ ok plain
      → try_kdfs prim password salt ciphertext (kdf_attempt_order prim []) last ≡ ok plain
  unfolding try_kdfs kdf_attempt_order
  first_kdf password salt ciphertext plain last e = rw (try_kdfs, e) refl

  abbrev salt_of : Bytes → Bytes
  salt_of seed = prim.urandom salt_bytes seed

  abbrev key_of : Bytes → Text → Bytes × Bytes
  key_of seed password = derive_pbkdf2 prim (prim.encode password) (salt_of seed) iterations_current

  abbrev sealed : Bytes → Bytes → Text → Bytes
  sealed seed xml password =
      prim.cbc_encrypt (key_of seed password).0 (key_of seed password).1 (prim.pad xml)

  opened :
      (seed xml : Bytes) (password : Text)
      → plausible xml ≡ true
      → attempt_kdf prim
          (prim.encode password)
          (salt_of seed)
          (sealed seed xml password)
          pbkdf2_current
        ≡ ok xml
  unfolding attempt_kdf derive check_plain
  opened seed xml password p =
      let (k, v) = derive_sizes (prim.encode password) (salt_of seed) pbkdf2_current in
      let back =
        laws.cbc_inverse (key_of seed password).0 (key_of seed password).1 (prim.pad xml) k v
          (laws.pad_blocks xml) in
      rw back (rw (laws.pad_inverse xml) (rw p refl))

  -- Under the same password a configuration that was encrypted is decrypted to what it was, from
  -- whatever random salt, if it is plausible (XML, or itself encrypted) and the libraries behave as
  -- they document.
  pub decrypt-encrypt :
      (seed xml : Bytes) (password : Text)
      → plausible xml ≡ true
      → decrypt_pfsense_backup prim (encrypt_pfsense_backup prim seed xml password) password
        ≡ ok xml
  unfolding decrypt_pfsense_backup encrypt_pfsense_backup
  decrypt-encrypt seed xml password p =
      let ct = sealed seed xml password in
      let raw = salt_prefix ++ (salt_of seed ++ ct) in
      let b64 = prim.b64encode raw in
      let alphabet = laws.b64_alphabet raw in
      let parsed =
        parse_wrapper-print_wrapper prim.lower b64 alphabet (laws.b64_filled raw (λ e. cc)) in
      let size = laws.cbc_size (key_of seed password).0 (key_of seed password).1 (prim.pad xml) in
      let split =
        split_salted-eq (salt_of seed) ct (laws.random_size salt_bytes seed)
          (omega (arith, size, laws.pad_filled xml))
          (ap (λ n. n % 16) size ∙ laws.pad_blocks xml) in
      rw (laws.ascii (print_wrapper b64) (print_wrapper_ascii b64 alphabet)) (
        rw parsed (
          rw (laws.b64_inverse raw) (
            rw split (
              first_kdf (prim.encode password) (salt_of seed) ct xml (raise bad_padding)
                (opened seed xml password p)))))

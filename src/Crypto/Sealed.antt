-- ===== src/Crypto/Sealed.antt =====
-- pfsense_shared/pfsense_crypto.py: what a decryption returns, and the codec that the replication
-- takes.
use pfsense_backups.Prelude.{
  ◌≡◌, refl, inl, inr, Bool, true, false, List, [], ◌∷◌, Bool-cases, if◌then◌else◌, In,
}
use pfsense_backups.Store.{Text, Bytes, Problem, bad_padding}
use pfsense_backups.Replication.{Outcome, ok, raise, Codec, codes}
use pfsense_backups.Diff.Rows.{Keyed, lookup}
use pfsense_backups.Crypto.{
  Primitives, Kdf, pbkdf2_current, pbkdf2_legacy, md5_kdf, split_salted, plausible, hash_hint,
  kdf_attempt_order, check_plain, attempt_kdf, try_kdfs, decrypt_pfsense_backup,
  encrypt_pfsense_backup,
}
use pfsense_backups.Crypto.Wrapper.{find_text, is_found, parse_wrapper}
use pfsense_backups.Crypto.RoundTrip.{IsLawful, decrypt-encrypt}

abbrev pub Returned : Outcome Bytes → Type 0
Returned o = (xml : Bytes) × (o ≡ ok xml) × (plausible xml ≡ true)

module _ (prim : Primitives) where
  check_plain-plausible :
      (o : Outcome Bytes) (xml : Bytes) → check_plain prim o ≡ ok xml → plausible xml ≡ true
  unfolding check_plain
  check_plain-plausible (raise p) xml e = cc
  check_plain-plausible (ok plain) xml e = elim (Bool-cases (plausible plain)) [
    | inl h ↦ same (rw h at e) h
    | inr h ↦ absurd (differ (rw h at e))
  ]
    where
      same : ok plain ≡ ok xml → plausible plain ≡ true → plausible xml ≡ true
      same e' h' = cc

      differ : {q : Problem} → raise q ≡ ok xml → ⊥
      differ e' = cc

  attempt_kdf-plausible :
      (password salt ciphertext : Bytes) (k : Kdf) (xml : Bytes)
      → attempt_kdf prim password salt ciphertext k ≡ ok xml
      → plausible xml ≡ true
  unfolding attempt_kdf
  attempt_kdf-plausible password salt ciphertext k xml e = check_plain-plausible _ xml e

  try_kdfs-Returned :
      (password salt ciphertext : Bytes) (ks : List Kdf) (k : Kdf) (plain : Bytes)
      (last : Outcome Bytes)
      → attempt_kdf prim password salt ciphertext k ≡ ok plain
      → In k ks
      → Returned (try_kdfs prim password salt ciphertext ks last)
  unfolding try_kdfs
  try_kdfs-Returned password salt ciphertext [] k plain last e m = absurd m
  try_kdfs-Returned password salt ciphertext (j ∷ js) k plain last e m =
      go (attempt_kdf prim password salt ciphertext j) refl m
        (λ l i. try_kdfs-Returned password salt ciphertext js k plain l e i)
    where
      go :
          (o : Outcome Bytes)
          → attempt_kdf prim password salt ciphertext j ≡ o
          → In k (j ∷ js)
          → ((l : Outcome Bytes) → In k js → Returned (try_kdfs prim password salt ciphertext js l))
          → Returned (try_kdfs prim password salt ciphertext (j ∷ js) last)
      go (ok xml) h i later =
          rw (try_kdfs, h) (xml, refl, attempt_kdf-plausible password salt ciphertext j xml h)
      go (raise p) h (inl same) later = absurd (clash same)
        where
          clash : k ≡ j → ⊥
          clash s = cc
      go (raise p) h (inr i) later = rw (try_kdfs, h) (later (raise p) i)

  kdf_attempt_order-all : (headers : Keyed Text) (k : Kdf) → In k (kdf_attempt_order prim headers)
  unfolding kdf_attempt_order
  kdf_attempt_order-all headers k =
      go (is_found (find_text (codes "md5") (hash_hint prim (lookup (codes "hash") headers)))) k
    where
      go :
          (b : Bool) (k : Kdf)
          → In k (
              if b
              then md5_kdf ∷ pbkdf2_current ∷ pbkdf2_legacy ∷ []
              else pbkdf2_current ∷ pbkdf2_legacy ∷ md5_kdf ∷ [])
      go true md5_kdf = inl refl
      go true pbkdf2_current = inr (inl refl)
      go true pbkdf2_legacy = inr (inr (inl refl))
      go false pbkdf2_current = inl refl
      go false pbkdf2_legacy = inr (inl refl)
      go false md5_kdf = inr (inr (inl refl))

  -- Whatever a header says of the hash: a wrapper that parses, whose body decodes and has its salt,
  -- is decrypted to something plausible as soon as one of the three key derivations gives a plausible
  -- text under the password.
  pub decrypt_any_kdf :
      (blob : Bytes) (password : Text) (headers : Keyed Text) (b64 : Text)
      (raw salt ciphertext plain : Bytes) (k : Kdf)
      → parse_wrapper prim.lower (prim.decode blob) ≡ ok (headers, b64)
      → prim.b64decode b64 ≡ ok raw
      → split_salted raw ≡ ok (salt, ciphertext)
      → attempt_kdf prim (prim.encode password) salt ciphertext k ≡ ok plain
      → Returned (decrypt_pfsense_backup prim blob password)
  unfolding decrypt_pfsense_backup
  decrypt_any_kdf blob password headers b64 raw salt ciphertext plain k p d s e = rw p (
      rw d (
        rw s (
          try_kdfs-Returned (prim.encode password) salt ciphertext (kdf_attempt_order prim headers)
            k plain (raise bad_padding) e (kdf_attempt_order-all headers k))))

-- gzip of the standard library.
pub record Gzip : Type 0 where
  pub compress : Bytes → Bytes
  pub decompress : Bytes → Outcome Bytes
  pub inverse : (b : Bytes) → decompress (compress b) ≡ ok b

-- The codec of worker/replication.py; its salt is the state of the random source.
unfoldable pub codec_of : (prim : Primitives) → IsLawful prim → Gzip → Codec
codec_of prim laws gz = record {
  gzip = gz.compress;
  gunzip = gz.decompress;
  encrypt = encrypt_pfsense_backup prim;
  decrypt = decrypt_pfsense_backup prim;
  plausible = plausible;
  gunzip-gzip = gz.inverse;
  decrypt-encrypt = decrypt-encrypt prim laws;
}

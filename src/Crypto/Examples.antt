-- ===== src/Crypto/Examples.antt =====
-- Toy libraries for pfsense_shared/pfsense_crypto.py, and a configuration that goes there and back.
use pfsense_backups.Prelude.{
  ℕ, zero, suc, ◌+◌, ◌-◌, ◌%◌, ◌≡◌, ◌≢◌, refl, true, [], ◌∷◌, ◌++◌, arith, ◌==◌, length,
  length-append, drop, ap, ◌∙◌, if◌then◌else◌,
}
use pfsense_backups.Store.{Text, Bytes, bad_padding}
use pfsense_backups.Replication.{Outcome, ok, raise, codes}
use pfsense_backups.Crypto.{
  Primitives, md5_kdf, looks_like_xml, key_bytes, iv_bytes, salt_prefix, split_salted, derive,
  check_plain, attempt_kdf, decrypt_pfsense_backup, encrypt_pfsense_backup,
}
use pfsense_backups.Crypto.Wrapper.{is_base64, all_chars, parse_wrapper, print_wrapper}
use pfsense_backups.Crypto.Chunks.{parse_wrapper-print_wrapper}
use pfsense_backups.Crypto.RoundTrip.{IsLawful, derive_sizes, decrypt-encrypt}
use pfsense_backups.Crypto.Sealed.{Returned, decrypt_any_kdf}

-- The first bytes, filled up with zeros.
unfoldable fit : ℕ → Bytes → Bytes
fit zero xs = []
fit (suc n) [] = 0 ∷ fit n []
fit (suc n) (x ∷ xs) = x ∷ fit n xs

length-fit : (n : ℕ) (xs : Bytes) → length (fit n xs) ≡ n
unfolding fit
length-fit zero xs = refl
length-fit (suc n) [] = omega (arith, length-fit n [])
length-fit (suc n) (x ∷ xs) = omega (arith, length-fit n xs)

-- Bytes as unary numbers over two characters of the base64 alphabet.
unfoldable unary : ℕ → Text → Text
unary zero rest = 43 ∷ rest
unary (suc n) rest = 65 ∷ unary n rest

unfoldable write_unary : Bytes → Text
unfolding unary
write_unary [] = []
write_unary (b ∷ bs) = unary b (write_unary bs)

unfoldable read_unary : ℕ → Text → Bytes
read_unary n [] = []
read_unary n (c ∷ cs) =
    let more = read_unary (n + 1) cs in
    let next = read_unary 0 cs in if c == 65 then more else n ∷ next

read_unary-unary :
    (n b : ℕ) (rest : Text) → read_unary n (unary b rest) ≡ (n + b) ∷ read_unary 0 rest
unfolding read_unary unary
read_unary-unary n zero rest = ap (λ m. m ∷ read_unary 0 rest) (omega arith)
read_unary-unary n (suc b) rest =
    read_unary-unary (n + 1) b rest ∙ ap (λ m. m ∷ read_unary 0 rest) (omega arith)

read_write : (bs : Bytes) → read_unary 0 (write_unary bs) ≡ bs
unfolding read_unary write_unary
read_write [] = refl
read_write (b ∷ bs) =
    read_unary-unary 0 b (write_unary bs)
    ∙ ap (λ m. m ∷ read_unary 0 (write_unary bs)) (omega arith)
    ∙ ap (λ cs. b ∷ cs) (read_write bs)

abbrev filler : Bytes → ℕ
filler b = 15 - length b % 16

unfoldable toy_unpad : Bytes → Outcome Bytes
toy_unpad [] = raise bad_padding
toy_unpad (k ∷ bs) = ok (drop k bs)

abbrev toy : Primitives
toy = record {
  decode = λ b. b;
  encode = λ t. t;
  lower = λ t. t;
  b64encode = write_unary;
  b64decode = λ t. ok (read_unary 0 t);
  pbkdf2 = λ p s k n. fit n (p ++ s);
  md5 = fit 16;
  pad = λ b. filler b ∷ (fit (filler b) [] ++ b);
  unpad = toy_unpad;
  cbc_encrypt = λ k v b. b;
  cbc_decrypt = λ k v b. b;
  urandom = fit;
}

unary-alphabet :
    (b : ℕ) (rest : Text)
    → all_chars is_base64 rest ≡ true
    → all_chars is_base64 (unary b rest) ≡ true
unfolding unary is_base64
unary-alphabet zero rest h = h
unary-alphabet (suc b) rest h = unary-alphabet b rest h

write_unary-alphabet : (bs : Bytes) → all_chars is_base64 (write_unary bs) ≡ true
unfolding write_unary
write_unary-alphabet [] = refl
write_unary-alphabet (b ∷ bs) = unary-alphabet b (write_unary bs) (write_unary-alphabet bs)

unary-filled : (b : ℕ) (rest : Text) → unary b rest ≢ []
unfolding unary
unary-filled zero rest e = cc
unary-filled (suc b) rest e = cc

write_unary-filled : (bs : Bytes) → bs ≢ [] → write_unary bs ≢ []
unfolding write_unary
write_unary-filled [] h = h
write_unary-filled (b ∷ bs) h = unary-filled b (write_unary bs)

pad_length : (b : Bytes) → length (toy.pad b) ≡ 1 + (filler b + length b)
pad_length b = omega (arith, length-append (fit (filler b) []) b, length-fit (filler b) [])

drop-fit : (n : ℕ) (xs ys : Bytes) → drop n (fit n xs ++ ys) ≡ ys
unfolding fit
drop-fit zero xs ys = refl
drop-fit (suc n) [] ys = drop-fit n [] ys
drop-fit (suc n) (x ∷ xs) ys = drop-fit n xs ys

pad_back : (b : Bytes) → toy_unpad (toy.pad b) ≡ ok b
unfolding toy_unpad
pad_back b = ap ok (drop-fit (filler b) [] b)

toy-IsLawful : IsLawful toy
toy-IsLawful = record {
  ascii = λ t h. refl;
  b64_inverse = λ b. ap ok (read_write b);
  b64_alphabet = write_unary-alphabet;
  b64_filled = write_unary-filled;
  random_size = length-fit;
  pad_blocks = λ b. omega (arith, pad_length b);
  pad_filled = λ b. omega (arith, pad_length b);
  pad_inverse = pad_back;
  cbc_size = λ k v b. refl;
  cbc_inverse = λ k v b h i j. refl;
  pbkdf2_size = λ p s k n. length-fit n (p ++ s);
  md5_size = length-fit 16;
}

abbrev password : Text
password = codes "secret"

abbrev config : Bytes
config = codes "<pfsense/>"

decrypt-encrypt_example :
    decrypt_pfsense_backup toy (encrypt_pfsense_backup toy (7 ∷ 8 ∷ []) config password) password
    ≡ ok config
unfolding looks_like_xml
decrypt-encrypt_example = decrypt-encrypt toy toy-IsLawful (7 ∷ 8 ∷ []) config password refl

derive_sizes_example :
    (length (derive toy password (1 ∷ 2 ∷ []) md5_kdf).0 ≡ key_bytes)
    × (length (derive toy password (1 ∷ 2 ∷ []) md5_kdf).1 ≡ iv_bytes)
derive_sizes_example = derive_sizes toy toy-IsLawful password (1 ∷ 2 ∷ []) md5_kdf

parse_wrapper-print_wrapper_example :
    parse_wrapper toy.lower (print_wrapper (codes "U2FsdGVkX18=")) ≡ ok ([], codes "U2FsdGVkX18=")
unfolding is_base64
parse_wrapper-print_wrapper_example =
    parse_wrapper-print_wrapper toy.lower (codes "U2FsdGVkX18=") refl (λ e. cc)

abbrev salt : Bytes
salt = codes "pfsense!"

abbrev old_raw : Bytes
old_raw = salt_prefix ++ (salt ++ toy.pad config)

-- An old backup, whose wrapper has no header that names its key derivation.
decrypt_any_kdf_example :
    Returned (decrypt_pfsense_backup toy (print_wrapper (write_unary old_raw)) password)
unfolding split_salted attempt_kdf derive check_plain toy_unpad looks_like_xml fit
decrypt_any_kdf_example =
    decrypt_any_kdf toy (print_wrapper (write_unary old_raw)) password [] (write_unary old_raw)
      old_raw salt (toy.pad config) config md5_kdf
      (parse_wrapper-print_wrapper toy.lower (write_unary old_raw) (write_unary-alphabet old_raw)
        (write_unary-filled old_raw (λ e. cc)))
      (ap ok (read_write old_raw)) refl refl

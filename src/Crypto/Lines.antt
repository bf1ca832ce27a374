-- ===== src/Crypto/Lines.antt =====
-- How the text functions of pfsense_shared/pfsense_crypto.py read lines of base64.
use mathlib.Core.List.{reverse, reverse-cons, reverse-reverse, append-nil, append_assoc}
use pfsense_backups.Prelude.{
  ℕ, ◌+◌, ◌<◌, ◌≡◌, refl, sym, ap, ◌∙◌, ◌≢◌, Bool, true, false, not, ◌&&◌, some, List, [], ◌∷◌,
  ◌++◌, arith, ◌==◌, length, All, if◌then◌else◌,
}
use pfsense_backups.Store.{Text}
use pfsense_backups.Replication.{codes}
use pfsense_backups.Crypto.Wrapper.{
  find_text, is_found, is_line_end, is_space, skip_while, strip, split_from, is_base64, all_chars,
  is_base64_only, Reading, header_line, read_line, read_lines,
}

-- What the tests of characters say of the alphabet.
pub base64_range : (c : ℕ) → is_base64 c ≡ true → (42 < c) × ((c < 123) × ((c == 45) ≡ false))
unfolding is_base64
base64_range c h = (ground arith, (ground arith, ground arith))

pub base64-line_end : (c : ℕ) → is_base64 c ≡ true → is_line_end c ≡ false
unfolding is_line_end
base64-line_end c h = let (lo, (hi, d)) = base64_range c h in ground arith

pub base64-space : (c : ℕ) → is_base64 c ≡ true → is_space c ≡ false
unfolding is_space
base64-space c h = let (lo, (hi, d)) = base64_range c h in ground (arith, base64-line_end c h)

pub all_chars-append :
    (p : ℕ → Bool) (xs ys : Text) → all_chars p (xs ++ ys) ≡ (all_chars p xs && all_chars p ys)
all_chars-append p [] ys = refl
all_chars-append p (x ∷ xs) ys = ground (arith, all_chars-append p xs ys)

all_chars-reverse : (p : ℕ → Bool) (xs : Text) → all_chars p (reverse xs) ≡ all_chars p xs
all_chars-reverse p [] = refl
all_chars-reverse p (x ∷ xs) =
    rw (reverse-cons x xs)
      (ground (arith, all_chars-append p (reverse xs) (x ∷ []), all_chars-reverse p xs))

skip_base64 : (xs : Text) → all_chars is_base64 xs ≡ true → skip_while is_space xs ≡ xs
unfolding skip_while
skip_base64 [] h = refl
skip_base64 (x ∷ xs) h = ground (arith, base64-space x)

pub strip_base64 : (xs : Text) → all_chars is_base64 xs ≡ true → strip xs ≡ xs
unfolding strip
strip_base64 xs h =
    rw (skip_base64 xs h)
      (rw (skip_base64 (reverse xs) (all_chars-reverse is_base64 xs ∙ h)) (reverse-reverse xs))

-- A mark that begins with a dash does not begin within base64 lines.
pub find_text-skip :
    (mark xs rest : Text) (n : ℕ)
    → all_chars (λ c. not (c == 45)) xs ≡ true
    → find_text (45 ∷ mark) rest ≡ some n
    → find_text (45 ∷ mark) (xs ++ rest) ≡ some (length xs + n)
unfolding find_text
find_text-skip mark [] rest n h e = rw e (ap some (omega arith))
find_text-skip mark (x ∷ xs) rest n h e =
    let miss : (45 == x) ≡ false = ground arith in
    let later = find_text-skip mark xs rest n (ground arith) e in
    rw (miss, later) (ap some (omega arith))

newline_ends : is_line_end 10 ≡ true
unfolding is_line_end
newline_ends = refl

pub split_line :
    (acc l rest : Text)
    → all_chars (λ c. not (is_line_end c)) l ≡ true
    → split_from false acc (l ++ (10 ∷ rest)) ≡ (acc ++ l) ∷ split_from false [] rest
unfolding split_from
split_line acc [] rest h = rw (append-nil acc, newline_ends) refl
split_line acc (c ∷ cs) rest h =
    let plain : is_line_end c ≡ false = ground arith in
    let later = split_line (acc ++ c ∷ []) cs rest (ground arith) in
    rw plain (later ∙ ap (λ l. l ∷ split_from false [] rest) (append_assoc acc (c ∷ []) cs))

pub base64-all :
    (p : ℕ → Bool) (l : Text)
    → ((c : ℕ) → is_base64 c ≡ true → p c ≡ true)
    → all_chars is_base64 l ≡ true
    → all_chars p l ≡ true
base64-all p [] imp h = refl
base64-all p (c ∷ cs) imp h = ground (arith, imp c, base64-all p cs imp)

pub base64_lines :
    (l : Text) → all_chars is_base64 l ≡ true → all_chars (λ c. not (is_line_end c)) l ≡ true
base64_lines l h = base64-all (λ c. not (is_line_end c)) l (λ c e. rw (base64-line_end c e) refl) h

-- A line that the body is made of: base64, and not empty.
abbrev pub IsBody : Text → Type 0
IsBody l = (l ≢ []) × (all_chars is_base64 l ≡ true)

never : {A : Type 0} (b : Bool) (x y : A) → (if b && false then x else y) ≡ y
never true x y = refl
never false x y = refl

abbrev pub taken : Text → Reading → Reading
taken l r = record r { in_headers = false; body_lines = r.body_lines ++ l }

abbrev pub joined : List Text → Text
joined [] = []
joined (l ∷ ls) = l ++ joined ls

module _ (lower : Text → Text) where
  header_line-body :
      (l : Text) (r : Reading)
      → IsBody l
      → header_line lower l r ≡ record r { in_headers = false; body_lines = r.body_lines ++ l }
  unfolding header_line is_base64_only
  header_line-body [] r h = absurd (h.0 refl)
  header_line-body (c ∷ cs) r h = rw (h.1) (never (is_found (find_text (codes ":") (c ∷ cs))) _ _)

  read_line-body : (l : Text) (r : Reading) → IsBody l → read_line lower (strip l) r ≡ taken l r
  unfolding read_line
  read_line-body l r h = rw (strip_base64 l h.1) (go r.in_headers refl)
    where
      go :
          (b : Bool)
          → r.in_headers ≡ b
          → (if b then header_line lower l r else record r { body_lines = r.body_lines ++ l })
            ≡ taken l r
      go true e = header_line-body l r h
      go false e = ap (λ b. record r { in_headers = b; body_lines = r.body_lines ++ l }) e

  pub read_lines-body :
      (ls : List Text) (r : Reading)
      → All IsBody ls
      → ((read_lines lower ls r).headers ≡ r.headers)
        × ((read_lines lower ls r).body_lines ≡ r.body_lines ++ joined ls)
  unfolding read_lines
  read_lines-body [] r h = (refl, sym (append-nil r.body_lines))
  read_lines-body (l ∷ ls) r h =
      let (hs, b) = read_lines-body ls (taken l r) h.1 in
      rw (read_lines, read_line-body l r h.0) (hs, b ∙ append_assoc r.body_lines l (joined ls))

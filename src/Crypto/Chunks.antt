-- ===== src/Crypto/Chunks.antt =====
-- The lines of 64 characters of pfsense_shared/pfsense_crypto.py, printed and read back.
use mathlib.Core.List.{append_assoc}
use mathlib.Core.Option
use pfsense_backups.Prelude.{
  ℕ, zero, suc, ◌+◌, ◌-◌, ◌≡◌, refl, sym, ap, ◌∙◌, ◌≢◌, Bool, true, false, not, Option, some, List,
  [], ◌∷◌, ◌++◌, arith, ltb, ◌==◌, length, take, drop, All,
}
use pfsense_backups.Store.{Text}
use pfsense_backups.Replication.{ok}
use pfsense_backups.Crypto.Wrapper.{
  begin_mark, end_mark, find_text, strip, split_from, splitlines, is_base64, all_chars, Reading,
  header_line, read_line, read_lines, start, finished, parse_between, parse_wrapper, chunks_from,
  chunks, join_lines, print_wrapper, line_width, skip_while,
}
use pfsense_backups.Crypto.Lines.{
  all_chars-append, find_text-skip, split_line, base64_range, base64-all, base64_lines, IsBody,
  joined, read_lines-body,
}

chunks_from-joined : (k : ℕ) (t : Text) → (chunks_from k t).0 ++ joined (chunks_from k t).1 ≡ t
unfolding chunks_from
chunks_from-joined k [] = refl
chunks_from-joined zero (c ∷ cs) = ap (λ l. c ∷ l) (chunks_from-joined (line_width - 1) cs)
chunks_from-joined (suc k) (c ∷ cs) = ap (λ l. c ∷ l) (chunks_from-joined k cs)

chunks_from-IsBody :
    (k : ℕ) (t : Text)
    → all_chars is_base64 t ≡ true
    → (all_chars is_base64 (chunks_from k t).0 ≡ true) × All IsBody (chunks_from k t).1
unfolding chunks_from
chunks_from-IsBody k [] h = (refl, tt)
chunks_from-IsBody zero (c ∷ cs) h =
    let (a, b) = chunks_from-IsBody (line_width - 1) cs (ground arith) in
    (refl, (((λ e. cc), ground arith), b))
chunks_from-IsBody (suc k) (c ∷ cs) h =
    let (a, b) = chunks_from-IsBody k cs (ground arith) in (ground arith, b)

chunks-joined : (t : Text) → joined (chunks t) ≡ t
unfolding chunks chunks_from
chunks-joined [] = refl
chunks-joined (c ∷ cs) = ap (λ l. c ∷ l) (chunks_from-joined (line_width - 1) cs)

chunks-IsBody : (t : Text) → all_chars is_base64 t ≡ true → All IsBody (chunks t)
unfolding chunks
chunks-IsBody t h = (chunks_from-IsBody zero t h).1

-- The printed lines, each with its newline, are read as these lines.
splitlines-join :
    (ls : List Text) → All IsBody ls → ls ≢ [] → split_from false [] (join_lines ls ++ 10 ∷ []) ≡ ls
unfolding join_lines split_from
splitlines-join [] h ne = absurd (ne refl)
splitlines-join (l ∷ []) h ne = split_line [] l [] (base64_lines l h.0.1) ∙ last_line
  where
    last_line : l ∷ split_from false [] [] ≡ l ∷ []
    last_line = refl
splitlines-join (l ∷ m ∷ ms) h ne = rw (append_assoc l (10 ∷ join_lines (m ∷ ms)) (10 ∷ [])) (
    split_line [] l (join_lines (m ∷ ms) ++ 10 ∷ []) (base64_lines l h.0.1)
    ∙ ap (λ k. l ∷ k) (splitlines-join (m ∷ ms) h.1 (λ e. cc)))

pub join_lines-All :
    (p : ℕ → Bool) (ls : List Text)
    → p 10 ≡ true
    → ((c : ℕ) → is_base64 c ≡ true → p c ≡ true)
    → All IsBody ls
    → all_chars p (join_lines ls) ≡ true
unfolding join_lines
join_lines-All p [] nl imp h = refl
join_lines-All p (l ∷ []) nl imp h = base64-all p l imp h.0.1
join_lines-All p (l ∷ m ∷ ms) nl imp h =
    all_chars-append p l (10 ∷ join_lines (m ∷ ms))
    ∙ rw (base64-all p l imp h.0.1, nl) (join_lines-All p (m ∷ ms) nl imp h.1)

no_dash : (c : ℕ) → is_base64 c ≡ true → not (c == 45) ≡ true
no_dash c e = let (lo, (hi, d)) = base64_range c e in rw d refl

is_ascii : (c : ℕ) → is_base64 c ≡ true → ltb c 128 ≡ true
is_ascii c e = let (lo, (hi, d)) = base64_range c e in ground arith

-- A printed wrapper is ASCII.
pub print_wrapper_ascii :
    (b64 : Text)
    → all_chars is_base64 b64 ≡ true
    → all_chars (λ c. ltb c 128) (print_wrapper b64) ≡ true
unfolding print_wrapper
print_wrapper_ascii b64 h =
    all_chars-append (λ c. ltb c 128) (join_lines (chunks b64)) (10 ∷ (end_mark ++ 10 ∷ []))
    ∙ rw (join_lines-All (λ c. ltb c 128) (chunks b64) refl is_ascii (chunks-IsBody b64 h)) refl

pub take-length : (xs ys : Text) → take (length xs) (xs ++ ys) ≡ xs
take-length [] ys = refl
take-length (x ∷ xs) ys = ap (λ l. x ∷ l) (take-length xs ys)

-- What stands between the marks of a printed wrapper.
abbrev between : Text → Text
between b64 = 10 ∷ (join_lines (chunks b64) ++ 10 ∷ [])

abbrev tail_mark : Text
tail_mark = end_mark ++ 10 ∷ []

print_wrapper-between : (b64 : Text) → print_wrapper b64 ≡ begin_mark ++ (between b64 ++ tail_mark)
unfolding print_wrapper
print_wrapper-between b64 =
    ap (λ l. begin_mark ++ (10 ∷ l))
      (sym (append_assoc (join_lines (chunks b64)) (10 ∷ []) tail_mark))

find-begin : (rest : Text) → find_text begin_mark (begin_mark ++ rest) ≡ some 0
unfolding find_text
find-begin rest = refl

abbrev shift : ℕ → Option ℕ → Option ℕ
shift zero o = o
shift (suc k) o = Option.map suc (shift k o)

shift-some : (k n : ℕ) → shift k (some n) ≡ some (k + n)
shift-some zero n = ap some (omega arith)
shift-some (suc k) n = rw (shift-some k n) (ap some (omega arith))

find-end-later :
    (rest : Text) (n : ℕ)
    → find_text end_mark (10 ∷ rest) ≡ some n
    → find_text end_mark (begin_mark ++ (10 ∷ rest)) ≡ some (length begin_mark + n)
unfolding find_text
find-end-later rest n e = ap (shift 26) e ∙ shift-some 26 n

find-tail : find_text end_mark tail_mark ≡ some 0
unfolding find_text
find-tail = refl

find-end :
    (b64 : Text)
    → all_chars is_base64 b64 ≡ true
    → find_text end_mark (begin_mark ++ (between b64 ++ tail_mark))
      ≡ some (length begin_mark + length (between b64))
find-end b64 h =
    let xs = join_lines (chunks b64) in
    let clear =
      join_lines-All (λ c. not (c == 45)) (chunks b64) refl no_dash (chunks-IsBody b64 h) in
    let dashes = all_chars-append (λ c. not (c == 45)) xs (10 ∷ []) ∙ rw clear refl in
    let skipped = find_text-skip (drop 1 end_mark) (between b64) tail_mark 0 dashes find-tail in
    find-end-later ((xs ++ 10 ∷ []) ++ tail_mark) (length (between b64) + 0) skipped
    ∙ ap some (omega arith)

chunks_filled : (b64 : Text) → b64 ≢ [] → chunks b64 ≢ []
unfolding chunks chunks_from
chunks_filled [] ne = absurd (ne refl)
chunks_filled (c ∷ cs) ne = λ e. cc

splitlines-between :
    (b64 : Text)
    → all_chars is_base64 b64 ≡ true
    → b64 ≢ []
    → splitlines (between b64) ≡ [] ∷ chunks b64
unfolding splitlines split_from
splitlines-between b64 h ne =
    split_line [] [] (join_lines (chunks b64) ++ 10 ∷ []) refl
    ∙ ap (λ ls. [] ∷ ls) (splitlines-join (chunks b64) (chunks-IsBody b64 h) (chunks_filled b64 ne))

module _ (lower : Text → Text) where
  finished_ok :
      (r : Reading) (b64 : Text)
      → r.headers ≡ []
      → r.body_lines ≡ b64
      → b64 ≢ []
      → finished lower r ≡ ok ([], b64)
  unfolding finished
  finished_ok r [] hs b ne = absurd (ne refl)
  finished_ok r (c ∷ cs) hs b ne = rw (b, hs) refl

  -- The empty line behind the first mark is passed over.
  read_first :
      (ls : List Text)
      → read_lines lower ([] ∷ ls) (start lower) ≡ read_lines lower ls (start lower)
  unfolding read_lines read_line header_line strip skip_while
  read_first ls = refl

  read-between :
      (b64 : Text)
      → all_chars is_base64 b64 ≡ true
      → b64 ≢ []
      → finished lower (read_lines lower (splitlines (between b64)) (start lower)) ≡ ok ([], b64)
  read-between b64 h ne =
      let (hs, b) = read_lines-body lower (chunks b64) (start lower) (chunks-IsBody b64 h) in
      ap (λ ls. finished lower (read_lines lower ls (start lower))) (splitlines-between b64 h ne)
      ∙ ap (λ r. finished lower r) (read_first (chunks b64))
      ∙ finished_ok (read_lines lower (chunks b64) (start lower)) b64 hs (b ∙ chunks-joined b64) ne

  parse_between-slice :
      (xs : Text)
      → parse_between lower
          (begin_mark ++ (xs ++ tail_mark))
          (some 0)
          (some (length begin_mark + length xs))
        ≡ finished lower (read_lines lower (splitlines xs) (start lower))
  unfolding parse_between
  parse_between-slice xs =
      let cut : (26 + length xs) - 26 ≡ length xs = omega arith in
      let late : ltb (26 + length xs) 0 ≡ false = ground arith in
      rw late (
        ap
          (λ n.
            finished lower (read_lines lower (splitlines (take n (xs ++ tail_mark))) (start lower)))
          cut
        ∙ ap (λ t. finished lower (read_lines lower (splitlines t) (start lower)))
            (take-length xs tail_mark))

  -- What the encryption prints is parsed into no headers and its base64 text, whatever the text, as
  -- long as it is base64 and not empty.
  pub parse_wrapper-print_wrapper :
      (b64 : Text)
      → all_chars is_base64 b64 ≡ true
      → b64 ≢ []
      → parse_wrapper lower (print_wrapper b64) ≡ ok ([], b64)
  unfolding parse_wrapper
  parse_wrapper-print_wrapper b64 h ne =
      ap (λ t. parse_wrapper lower t) (print_wrapper-between b64)
      ∙ ap (λ o. parse_between lower (begin_mark ++ (between b64 ++ tail_mark)) (some 0) o)
          (find-end b64 h)
      ∙ parse_between-slice (between b64)
      ∙ read-between b64 h ne

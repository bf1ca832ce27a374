-- ===== src/Crypto/Wrapper.antt =====
-- The text wrapper of pfsense_shared/pfsense_crypto.py: what `_parse_wrapper` reads, and what
-- `encrypt_pfsense_backup` writes.
use mathlib.Core.List.{reverse}
use mathlib.Core.Option
use pfsense_backups.Prelude.{
  ℕ, zero, suc, ◌+◌, ◌-◌, Bool, true, false, not, ◌&&◌, ◌||◌, Option, none, some, List, [], ◌∷◌,
  ◌++◌, ltb, leb, ◌==◌, elem, length, take, drop, if◌then◌else◌,
}
use pfsense_backups.Store.{Text, no_markers, no_body}
use pfsense_backups.Replication.{Outcome, ok, raise, codes, starts_with}
use pfsense_backups.Diff.Rows.{Keyed, put_key}

abbrev pub begin_mark : Text
begin_mark = codes "---- BEGIN config.xml ----"

abbrev pub end_mark : Text
end_mark = codes "---- END config.xml ----"

-- `text.find(sub)`
unfoldable pub find_text : Text → Text → Option ℕ
find_text sub [] = if starts_with sub [] then some 0 else none
find_text sub (c ∷ cs) =
    let later = Option.map suc (find_text sub cs) in
    if starts_with sub (c ∷ cs) then some 0 else later

abbrev pub is_found : Option ℕ → Bool
is_found none = false
is_found (some n) = true

-- `str.isspace` and the line ends of `str.splitlines`.
abbrev pub line_ends : List ℕ
line_ends = 10 ∷ 11 ∷ 12 ∷ 13 ∷ 28 ∷ 29 ∷ 30 ∷ 133 ∷ 8232 ∷ 8233 ∷ []

abbrev pub spaces : List ℕ
spaces = 9 ∷ 31 ∷ 32 ∷ 160 ∷ 5760 ∷ 8239 ∷ 8287 ∷ 12288 ∷ []

unfoldable pub is_line_end : ℕ → Bool
is_line_end c = elem c line_ends

unfoldable pub is_space : ℕ → Bool
unfolding is_line_end
is_space c = is_line_end c || (elem c spaces || (leb 8192 c && leb c 8202))

unfoldable pub skip_while : (ℕ → Bool) → Text → Text
skip_while p [] = []
skip_while p (c ∷ cs) = let rest = skip_while p cs in if p c then rest else c ∷ cs

-- `line.strip()`
unfoldable pub strip : Text → Text
unfolding skip_while
strip t = reverse (skip_while is_space (reverse (skip_while is_space t)))

-- `text.splitlines()`, over the line so far; the flag is that the last character was a carriage
-- return, which with a newline is one line end.
unfoldable pub split_from : Bool → Text → Text → List Text
split_from cr acc [] = elim acc [ [] ↦ [] | c ∷ cs ↦ (c ∷ cs) ∷ [] ]
split_from cr acc (c ∷ cs) =
    let skipped = split_from false [] cs in
    let ended = split_from (c == 13) [] cs in
    let grown = split_from false (acc ++ c ∷ []) cs in
    if cr && c == 10 then skipped else if is_line_end c then acc ∷ ended else grown

unfoldable pub splitlines : Text → List Text
unfolding split_from
splitlines t = split_from false [] t

-- `[A-Za-z0-9+/=]`
unfoldable pub is_base64 : ℕ → Bool
is_base64 c =
    (leb 65 c && leb c 90)
    || ((leb 97 c && leb c 122) || ((leb 48 c && leb c 57) || (c == 43 || (c == 47 || c == 61))))

abbrev pub all_chars : (ℕ → Bool) → Text → Bool
all_chars p [] = true
all_chars p (c ∷ cs) = p c && all_chars p cs

-- `_is_base64_only`, of a line that is not empty.
unfoldable pub is_base64_only : Text → Bool
unfolding is_base64
is_base64_only [] = false
is_base64_only (c ∷ cs) = all_chars is_base64 (c ∷ cs)

-- `line.split(":", 1)`
unfoldable pub cut_colon : Text → Text × Text
cut_colon [] = ([], [])
cut_colon (c ∷ cs) = let (k, v) = cut_colon cs in if c == 58 then ([], cs) else (c ∷ k, v)

pub record Reading : Type 0 where
  pub headers : Keyed Text
  pub body_lines : Text
  pub in_headers : Bool
  pub saw_header : Bool

module _ (lower : Text → Text) where
  -- A stripped line while headers are read; a blank one ends them once there was one.
  unfoldable pub header_line : Text → Reading → Reading
  unfolding is_base64_only cut_colon find_text put_key
  header_line [] r = record r { in_headers = not r.saw_header }
  header_line (c ∷ cs) r =
      let (key, value) = cut_colon (c ∷ cs) in
      if is_found (find_text (codes ":") (c ∷ cs)) && not (is_base64_only (c ∷ cs))
      then record r {
        headers = put_key (lower (strip key)) (strip value) r.headers;
        saw_header = true;
      }
      else record r { in_headers = false; body_lines = r.body_lines ++ (c ∷ cs) }

  unfoldable pub read_line : Text → Reading → Reading
  unfolding header_line
  read_line line r =
      if r.in_headers then header_line line r else record r { body_lines = r.body_lines ++ line }

  unfoldable pub read_lines : List Text → Reading → Reading
  unfolding read_line strip
  read_lines [] r = r
  read_lines (l ∷ ls) r = read_lines ls (read_line (strip l) r)

  abbrev pub start : Reading
  start = record { headers = []; body_lines = []; in_headers = true; saw_header = false }

  -- The headers and the base64 body.
  unfoldable pub finished : Reading → Outcome (Keyed Text × Text)
  finished r = elim r.body_lines [ [] ↦ raise no_body | c ∷ cs ↦ ok (r.headers, c ∷ cs) ]

  unfoldable pub parse_between : Text → Option ℕ → Option ℕ → Outcome (Keyed Text × Text)
  unfolding read_lines splitlines finished
  parse_between text (some b) (some e) =
      let from = b + length begin_mark in
      if ltb e b
      then raise no_markers
      else finished (read_lines (splitlines (take (e - from) (drop from text))) start)
  parse_between text _ _ = raise no_markers

  -- `_parse_wrapper`, of the decoded text; 65279 is a byte order mark.
  unfoldable pub parse_wrapper : Text → Outcome (Keyed Text × Text)
  unfolding parse_between find_text skip_while
  parse_wrapper blob =
      let text = skip_while (λ c. c == 65279) blob in
      parse_between text (find_text begin_mark text) (find_text end_mark text)

abbrev pub line_width : ℕ
line_width = 64

-- `re.findall(".{1,64}", b64)`: what is left of the line, and the lines after it.
unfoldable pub chunks_from : ℕ → Text → Text × List Text
chunks_from k [] = ([], [])
chunks_from zero (c ∷ cs) = let (h, t) = chunks_from (line_width - 1) cs in ([], (c ∷ h) ∷ t)
chunks_from (suc k) (c ∷ cs) = let (h, t) = chunks_from k cs in (c ∷ h, t)

unfoldable pub chunks : Text → List Text
unfolding chunks_from
chunks t = (chunks_from zero t).1

-- `"\n".join(lines)`
unfoldable pub join_lines : List Text → Text
join_lines [] = []
join_lines (l ∷ ls) = elim ls [ [] ↦ l | m ∷ ms ↦ l ++ (10 ∷ join_lines ls) ]

-- `f"{_BEGIN}\n{wrapped}\n{_END}\n"`
unfoldable pub print_wrapper : Text → Text
unfolding chunks join_lines
print_wrapper b64 = begin_mark ++ (10 ∷ (join_lines (chunks b64) ++ (10 ∷ (end_mark ++ 10 ∷ []))))

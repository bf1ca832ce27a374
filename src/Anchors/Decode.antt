-- ===== src/Anchors/Decode.antt =====
-- pfsense_shared/anchor_events.py: the names of anchors, read back by `section_for_anchor`.
use pfsense_backups.Prelude.{
  ℕ, ◌≡◌, refl, ap, ◌∙◌, ◌⊎◌, inl, inr, Bool, true, false, ◌&&◌, Option, none, some, List, [], ◌∷◌,
  ◌++◌, arith, ◌==◌, Bool-cases, All, All-In, In,
}
use pfsense_backups.Store.{Text}
use pfsense_backups.Replication.{codes}
use pfsense_backups.Diff.Data.{Value, null, flag, number, text, items, dict, Fields, get}
use pfsense_backups.Diff.{SectionDiff, is_nil}
use pfsense_backups.Crypto.Wrapper.{all_chars}
use pfsense_backups.Anchors.{
  EventKind, added, removed, modified, reordered, AnchorEvent, id_of_key, row_anchor_id, event_at,
  row_event, event_found, changed_events, row_events,
}
use pfsense_backups.Anchors.Members.{All-append, All-every, All-flat_map}
use pfsense_backups.Anchors.Spec.{
  is_word, safe_char, safe, RowSpec, section_spec, xref, cut_dash, chomp, is_filled, not_newline,
  scope_of, section_of, decode_anchor, section_for_anchor,
}

all_chars-append :
    (p : ℕ → Bool) (s t : Text)
    → all_chars p s ≡ true
    → all_chars p t ≡ true
    → all_chars p (s ++ t) ≡ true
all_chars-append p [] t h k = k
all_chars-append p (c ∷ cs) t h k = elim (Bool-cases (p c)) [
  | inl e ↦ rw e (all_chars-append p cs t (rw e at h) k)
  | inr e ↦ absurd (clash (rw e at h))
]
  where
    clash : false ≡ true → ⊥
    clash q = cc

all_chars-weaken :
    (p q : ℕ → Bool)
    → ((c : ℕ) → p c ≡ true → q c ≡ true)
    → (s : Text) → all_chars p s ≡ true
    → all_chars q s ≡ true
all_chars-weaken p q f [] h = refl
all_chars-weaken p q f (c ∷ cs) h = elim (Bool-cases (p c)) [
  | inl e ↦ rw (f c e) (all_chars-weaken p q f cs (rw e at h))
  | inr e ↦ absurd (clash (rw e at h))
]
  where
    clash : false ≡ true → ⊥
    clash q = cc

is_word-not_newline : (c : ℕ) → is_word c ≡ true → not_newline c ≡ true
unfolding is_word
is_word-not_newline c h = ground arith

pub chomp_line : (t : Text) → all_chars not_newline t ≡ true → chomp t ≡ t
unfolding chomp
chomp_line [] h = refl
chomp_line (c ∷ []) h = ground arith
chomp_line (c ∷ d ∷ ds) h = elim (Bool-cases (not_newline c)) [
  | inl e ↦ ap (λ s. c ∷ s) (chomp_line (d ∷ ds) (rw e at h))
  | inr e ↦ absurd (clash (rw e at h))
]
  where
    clash : false ≡ true → ⊥
    clash q = cc

word-no_dash : (c : ℕ) → is_word c ≡ true → (c == 45) ≡ false
unfolding is_word
word-no_dash c h = ground arith

pub cut_dash-word :
    (w t : Text) → all_chars is_word w ≡ true → cut_dash (w ++ (45 ∷ t)) ≡ (w, some t)
unfolding cut_dash
cut_dash-word [] t h = refl
cut_dash-word (c ∷ cs) t h = elim (Bool-cases (is_word c)) [
  | inl e ↦ rw (word-no_dash c e) (rw (cut_dash-word cs t (rw e at h)) refl)
  | inr e ↦ absurd (clash (rw e at h))
]
  where
    clash : false ≡ true → ⊥
    clash q = cc

safe_char-not_newline : (c : ℕ) → not_newline (safe_char c) ≡ true
unfolding safe_char
safe_char-not_newline c = elim (Bool-cases (is_word c)) [
  | inl e ↦ rw e (is_word-not_newline c e)
  | inr e ↦ rw e (ground arith)
]

pub safe_line : (t : Text) → all_chars not_newline (safe t) ≡ true
unfolding safe
safe_line [] = refl
safe_line (c ∷ cs) = rw (safe_char-not_newline c) (safe_line cs)

scope_of-word :
    (kind key : Text)
    → is_filled kind ≡ true
    → all_chars is_word kind ≡ true
    → is_filled key ≡ true
    → all_chars not_newline key ≡ true
    → scope_of (some (kind ++ (45 ∷ key))) ≡ some kind
unfolding scope_of
scope_of-word kind key f w g k = rw (cut_dash-word kind key w) (rw f (rw w (rw g (rw k refl))))

pub xref_line :
    (kind key : Text)
    → all_chars is_word kind ≡ true
    → all_chars not_newline key ≡ true
    → all_chars not_newline (xref kind key) ≡ true
xref_line kind key w k =
    all_chars-append not_newline kind (45 ∷ key)
      (all_chars-weaken is_word not_newline is_word-not_newline kind w) k

-- What an identifier of a row is read as.
section_for_anchor-xref :
    (kind key : Text)
    → is_filled kind ≡ true
    → all_chars is_word kind ≡ true
    → is_filled key ≡ true
    → all_chars not_newline key ≡ true
    → section_for_anchor (xref kind key) ≡ section_of (codes "xref") (some kind)
unfolding section_for_anchor decode_anchor cut_dash
section_for_anchor-xref kind key f w g k =
    ap decode_anchor (chomp_line (xref kind key) (xref_line kind key w k))
    ∙ ap (section_of (codes "xref")) (scope_of-word kind key f w g k)

-- The kinds of the table, each with its section.
abbrev IsKind : RowSpec → Type 0
IsKind spec =
    (is_filled (codes spec.anchor_kind) ≡ true)
    × ((all_chars is_word (codes spec.anchor_kind) ≡ true)
        × (section_of (codes "xref") (some (codes spec.anchor_kind)) ≡ some (codes spec.section)))

section_spec-IsKind : All IsKind section_spec
unfolding section_of is_word
section_spec-IsKind = (
  (refl, (refl, refl)),
  (
    (refl, (refl, refl)),
    (
      (refl, (refl, refl)),
      (
        (refl, (refl, refl)),
        (
          (refl, (refl, refl)),
          (
            (refl, (refl, refl)),
            (
              (refl, (refl, refl)),
              (
                (refl, (refl, refl)),
                (
                  (refl, (refl, refl)),
                  (
                    (refl, (refl, refl)),
                    (
                      (refl, (refl, refl)),
                      (
                        (refl, (refl, refl)),
                        (
                          (refl, (refl, refl)),
                          (
                            (refl, (refl, refl)),
                            (
                              (refl, (refl, refl)),
                              (
                                (refl, (refl, refl)),
                                (
                                  (refl, (refl, refl)),
                                  (
                                    (refl, (refl, refl)),
                                    (
                                      (refl, (refl, refl)),
                                      ((refl, (refl, refl)), ((refl, (refl, refl)), tt)),
                                    ),
                                  ),
                                ),
                              ),
                            ),
                          ),
                        ),
                      ),
                    ),
                  ),
                ),
              ),
            ),
          ),
        ),
      ),
    ),
  ),
)

-- An event of a section is read as the section's, or its row has a key that is written as nothing.
abbrev pub IsDecoded : RowSpec → AnchorEvent → Type 0
IsDecoded spec e =
    (section_for_anchor e.anchor_id ≡ some (codes spec.section))
    ⊎ (e.anchor_id ≡ xref (codes spec.anchor_kind) [])

module _ (str_of : Value → Text) (spec : RowSpec) (known : In spec section_spec) where
  key-IsDecoded :
      (key : Text) (i : Text)
      → i ≡ xref (codes spec.anchor_kind) (safe key)
      → (kind : EventKind) (v : Value)
      → IsDecoded spec (record { anchor_id = i; kind = kind; value = v })
  unfolding safe
  key-IsDecoded [] i e kind v = inr e
  key-IsDecoded (c ∷ cs) i e kind v =
      let (filled, rest) = All-In IsKind section_spec section_spec-IsKind known in
      inl (
        ap section_for_anchor e
        ∙ section_for_anchor-xref (codes spec.anchor_kind) (safe (c ∷ cs)) filled rest.0 refl
            (safe_line (c ∷ cs))
        ∙ rest.1)

  event_at-IsDecoded :
      (kind : EventKind) (row : Fields) (v : Value)
      → All
          (IsDecoded spec)
          (event_at str_of kind row (id_of_key str_of (codes spec.anchor_kind) v))
  unfolding id_of_key
  event_at-IsDecoded kind row null = tt
  event_at-IsDecoded kind row (flag b) =
      (key-IsDecoded (str_of (flag b)) _ refl kind (dict row), tt)
  event_at-IsDecoded kind row (number n) =
      (key-IsDecoded (str_of (number n)) _ refl kind (dict row), tt)
  event_at-IsDecoded kind row (text t) =
      (key-IsDecoded (str_of (text t)) _ refl kind (dict row), tt)
  event_at-IsDecoded kind row (items vs) =
      (key-IsDecoded (str_of (items vs)) _ refl kind (dict row), tt)
  event_at-IsDecoded kind row (dict d) =
      (key-IsDecoded (str_of (dict d)) _ refl kind (dict row), tt)

  row_event-IsDecoded :
      (kind : EventKind) (row : Fields) → All (IsDecoded spec) (row_event str_of spec kind row)
  unfolding row_event row_anchor_id
  row_event-IsDecoded kind row = event_at-IsDecoded kind row (get (codes spec.anchor_key_field) row)

  found-IsDecoded :
      (kind : EventKind) (o : Option Fields) → All (IsDecoded spec) (event_found str_of spec kind o)
  found-IsDecoded kind none = tt
  found-IsDecoded kind (some row) = row_event-IsDecoded kind row

  changed_events-IsDecoded :
      (s : SectionDiff) (rows : List Fields)
      → All (IsDecoded spec) (changed_events str_of spec s rows)
  unfolding changed_events
  changed_events-IsDecoded s rows = elim (Bool-cases (is_nil s.modified && is_nil s.reordered)) [
    | inl h ↦ rw h tt
    | inr h ↦ rw h (
        All-append (IsDecoded spec) _ _
          (All-flat_map (IsDecoded spec) _ s.modified
            (All-every s.modified (λ i. found-IsDecoded modified _)))
          (All-flat_map (IsDecoded spec) _ s.reordered
            (All-every s.reordered (λ r. found-IsDecoded reordered _))))
  ]

  -- The identifier of each event that a row of a section of SECTION_SPEC causes (added, removed,
  -- modified or reordered) is read by section_for_anchor as that section, unless the row's key is
  -- written as the empty text.
  pub row_events-IsDecoded :
      (s : Option SectionDiff) (rows : List Fields)
      → All (IsDecoded spec) (row_events str_of spec s rows)
  unfolding row_events
  row_events-IsDecoded none rows = tt
  row_events-IsDecoded (some s) rows =
      All-append (IsDecoded spec) _ _
        (All-flat_map (IsDecoded spec) _ s.added (All-every s.added (row_event-IsDecoded added)))
        (All-append (IsDecoded spec) _ _
          (All-flat_map (IsDecoded spec) _ s.removed
            (All-every s.removed (row_event-IsDecoded removed)))
          (changed_events-IsDecoded s rows))

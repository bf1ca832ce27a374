-- ===== src/Anchors/Current.antt =====
-- pfsense_shared/anchor_events.py: the events of changed rows and the anchors of the configuration.
use pfsense_backups.Prelude.{
  ◌≡◌, refl, ◌⊎◌, inl, inr, ◌&&◌, Option, none, some, List, [], ◌∷◌, Bool-cases, All, All-of_In, In,
  text_eq,
}
use pfsense_backups.Store.{Text}
use pfsense_backups.Replication.{codes}
use pfsense_backups.Diff.Data.{Value, null, flag, number, text, items, dict, Fields, get}
use pfsense_backups.Diff.{SectionDiff, is_nil}
use pfsense_backups.Diff.Rows.{Keyed, put_key, lookup}
use pfsense_backups.Diff.Configs.{ParsedConfig}
use pfsense_backups.Summary.{ConfigDiff}
use pfsense_backups.Anchors.{
  EventKind, added, removed, modified, reordered, AnchorEvent, event, row_anchor_id, event_at,
  row_event, put_row, by_diff_key, event_found, changed_events, row_events, all_row_events,
}
use pfsense_backups.Anchors.Members.{All-append, All-every, All-flat_map, In-left, In-flat_map}
use pfsense_backups.Anchors.Spec.{RowSpec, section_spec}
use pfsense_backups.Anchors.Project.{
  Anchor, anchor_at, row_anchors, all_row_anchors, enumerate_anchors,
}

-- A row that a dict of rows gives was put into it.
lookup-put_key :
    (k j : Text) (row found : Fields) (acc : Keyed Fields)
    → lookup k (put_key j row acc) ≡ some found
    → (found ≡ row) ⊎ (lookup k acc ≡ some found)
unfolding lookup put_key
lookup-put_key k j row found [] e = elim (Bool-cases (text_eq j k)) [
  | inl h ↦ inl (same (rw h at e))
  | inr h ↦ inr (rw h at e)
]
  where
    same : some row ≡ some found → found ≡ row
    same q = cc
lookup-put_key k j row found (x ∷ xs) e = elim (Bool-cases (text_eq x.0 j)) [
  | inl h ↦ elim (Bool-cases (text_eq x.0 k)) [
    | inl i ↦ inl (same (rw i at (rw h at e)))
    | inr i ↦ inr (rw i (rw i at (rw h at e)))
  ]
  | inr h ↦ elim (Bool-cases (text_eq x.0 k)) [
    | inl i ↦ inr (rw i (rw i at (rw h at e)))
    | inr i ↦ rw i (lookup-put_key k j row found xs (rw i at (rw h at e)))
  ]
]
  where
    same : some row ≡ some found → found ≡ row
    same q = cc

module _ (str_of : Value → Text) where
  put_row-In :
      (k : Text) (v : Value) (row found : Fields) (acc : Keyed Fields)
      → lookup k (put_row str_of v row acc) ≡ some found
      → (found ≡ row) ⊎ (lookup k acc ≡ some found)
  put_row-In k null row found acc e = inr e
  put_row-In k (flag b) row found acc e = lookup-put_key k (str_of (flag b)) row found acc e
  put_row-In k (number n) row found acc e = lookup-put_key k (str_of (number n)) row found acc e
  put_row-In k (text t) row found acc e = lookup-put_key k (str_of (text t)) row found acc e
  put_row-In k (items vs) row found acc e = lookup-put_key k (str_of (items vs)) row found acc e
  put_row-In k (dict d) row found acc e = lookup-put_key k (str_of (dict d)) row found acc e

  by_diff_key-In :
      (k key : Text) (rows : List Fields) (acc : Keyed Fields) (found : Fields)
      → lookup k (by_diff_key str_of key rows acc) ≡ some found
      → In found rows ⊎ (lookup k acc ≡ some found)
  unfolding by_diff_key
  by_diff_key-In k key [] acc found e = inr e
  by_diff_key-In k key (d ∷ ds) acc found e =
      elim (by_diff_key-In k key ds (put_row str_of (get key d) d acc) found e) [
        | inl m ↦ inl (inr m)
        | inr h ↦ elim (put_row-In k (get key d) d found acc h) [
          | inl q ↦ inl (inl q)
          | inr q ↦ inr q
        ]
      ]

  module _ (parsed : ParsedConfig) where
    -- An event that says what a row is now says it as the configuration does.
    abbrev pub IsCurrent : AnchorEvent → Type 0
    IsCurrent e = elim e.kind [
      | modified ↦ In (e.anchor_id, e.value) (enumerate_anchors str_of parsed)
      | reordered ↦ In (e.anchor_id, e.value) (enumerate_anchors str_of parsed)
      | added ↦ Unit
      | removed ↦ Unit
    ]

    row_anchors-In :
        (spec : RowSpec) (row : Fields) (i : Text) (rows : List Fields)
        → In row rows
        → row_anchor_id str_of spec row ≡ some i
        → In (i, dict row) (row_anchors str_of spec rows)
    unfolding row_anchors
    row_anchors-In spec row i rows r e =
        In-flat_map (i, dict row) (λ d. anchor_at (dict d) (row_anchor_id str_of spec d)) row rows r
          (rw e (inl refl))

    all_row_anchors-In :
        (a : Anchor) (spec : RowSpec)
        → In spec section_spec
        → In a (row_anchors str_of spec (parsed.lists spec.section))
        → In a (all_row_anchors str_of parsed)
    unfolding all_row_anchors
    all_row_anchors-In a spec m h =
        In-flat_map a (λ (s : RowSpec). row_anchors str_of s (parsed.lists s.section)) spec
          section_spec m h

    enumerate_anchors-In :
        (a : Anchor) → In a (all_row_anchors str_of parsed) → In a (enumerate_anchors str_of parsed)
    unfolding enumerate_anchors
    enumerate_anchors-In a h = In-left a (all_row_anchors str_of parsed) _ h

    event_at-IsCurrent :
        (spec : RowSpec) (kind : EventKind) (row : Fields) (o : Option Text)
        → In spec section_spec
        → In row (parsed.lists spec.section)
        → row_anchor_id str_of spec row ≡ o
        → All IsCurrent (event_at str_of kind row o)
    event_at-IsCurrent spec kind row none m r e = tt
    event_at-IsCurrent spec kind row (some i) m r e = (go kind, tt)
      where
        there : In (i, dict row) (enumerate_anchors str_of parsed)
        there =
            enumerate_anchors-In (i, dict row)
              (all_row_anchors-In (i, dict row) spec m
                (row_anchors-In spec row i (parsed.lists spec.section) r e))

        go : (k : EventKind) → IsCurrent (event i k (dict row))
        go modified = there
        go reordered = there
        go added = tt
        go removed = tt

    found-IsCurrent :
        (spec : RowSpec) (kind : EventKind) (key : Text) (o : Option Fields)
        → In spec section_spec
        → lookup key (by_diff_key str_of (codes spec.diff_key_field) (parsed.lists spec.section) [])
          ≡ o
        → All IsCurrent (event_found str_of spec kind o)
    unfolding row_event lookup
    found-IsCurrent spec kind key none m e = tt
    found-IsCurrent spec kind key (some row) m e =
        elim (by_diff_key-In key (codes spec.diff_key_field) (parsed.lists spec.section) [] row e) [
          | inl r ↦ event_at-IsCurrent spec kind row (row_anchor_id str_of spec row) m r refl
          | inr q ↦ absurd (never q)
        ]
      where
        never : lookup key [] ≡ some row → ⊥
        never q = cc

    row_event-IsCurrent :
        (spec : RowSpec) (kind : EventKind)
        → (kind ≡ added) ⊎ (kind ≡ removed)
        → (row : Fields) → All IsCurrent (row_event str_of spec kind row)
    unfolding row_event
    row_event-IsCurrent spec kind h row = go kind h (row_anchor_id str_of spec row)
      where
        go :
            (k : EventKind)
            → (k ≡ added) ⊎ (k ≡ removed)
            → (o : Option Text) → All IsCurrent (event_at str_of k row o)
        go k h none = tt
        go added h (some i) = (tt, tt)
        go removed h (some i) = (tt, tt)
        go modified (inl e) (some i) = absurd (cc)
        go modified (inr e) (some i) = absurd (cc)
        go reordered (inl e) (some i) = absurd (cc)
        go reordered (inr e) (some i) = absurd (cc)

    changed_events-IsCurrent :
        (spec : RowSpec) (s : SectionDiff)
        → In spec section_spec
        → All IsCurrent (changed_events str_of spec s (parsed.lists spec.section))
    unfolding changed_events
    changed_events-IsCurrent spec s m =
        elim (Bool-cases (is_nil s.modified && is_nil s.reordered)) [
          | inl h ↦ rw h tt
          | inr h ↦ rw h (
              All-append IsCurrent _ _
                (All-flat_map IsCurrent _ s.modified
                  (All-every s.modified (λ i. found-IsCurrent spec modified i.key _ m refl)))
                (All-flat_map IsCurrent _ s.reordered
                  (All-every s.reordered (λ r. found-IsCurrent spec reordered r.key _ m refl))))
        ]

    row_events-IsCurrent :
        (spec : RowSpec) (o : Option SectionDiff)
        → In spec section_spec
        → All IsCurrent (row_events str_of spec o (parsed.lists spec.section))
    unfolding row_events
    row_events-IsCurrent spec none m = tt
    row_events-IsCurrent spec (some s) m =
        All-append IsCurrent _ _
          (All-flat_map IsCurrent _ s.added
            (All-every s.added (row_event-IsCurrent spec added (inl refl))))
          (All-append IsCurrent _ _
            (All-flat_map IsCurrent _ s.removed
              (All-every s.removed (row_event-IsCurrent spec removed (inr refl))))
            (changed_events-IsCurrent spec s m))

    -- Whatever the diff says: each event that a row was modified or reordered is, with its anchor and
    -- its value, one of the anchors that the configuration has afterwards.
    pub all_row_events-IsCurrent :
        (diff : ConfigDiff) → All IsCurrent (all_row_events str_of diff parsed)
    unfolding all_row_events
    all_row_events-IsCurrent diff = All-flat_map IsCurrent of_spec section_spec (
        All-of_In (λ spec. All IsCurrent (of_spec spec)) section_spec
          (λ spec m. row_events-IsCurrent spec (lookup (codes spec.section) diff) m))
      where
        of_spec : RowSpec → List AnchorEvent
        of_spec spec =
            row_events str_of spec (lookup (codes spec.section) diff) (parsed.lists spec.section)

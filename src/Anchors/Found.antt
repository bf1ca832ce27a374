-- ===== src/Anchors/Found.antt =====
-- The anchors of pfsense_shared/anchor_events.py, resolved by pfsense_shared/pfsense_anchor_values.py.
use pfsense_backups.Prelude.{
  ℕ, ◌≡◌, ◌≢◌, refl, sym, ap, ◌∙◌, inl, inr, true, false, ◌||◌, none, some, List, [], ◌∷◌, ◌==◌,
  Bool-cases, All, All-In, In, text_eq_refl, text_eq→≡,
}
use pfsense_backups.Store.{Text}
use pfsense_backups.Replication.{codes}
use pfsense_backups.Diff.Data.{Value, null, flag, number, text, items, dict, Fields, get}
use pfsense_backups.Diff.Rows.{lookup}
use pfsense_backups.Diff.Configs.{ParsedConfig}
use pfsense_backups.Crypto.Wrapper.{all_chars}
use pfsense_backups.Anchors.{id_of_key, row_anchor_id}
use pfsense_backups.Anchors.Decode.{chomp_line, cut_dash-word, safe_line, xref_line}
use pfsense_backups.Anchors.Spec.{
  is_word, safe_char, safe, RowSpec, section_spec, xref, cut_dash, is_filled,
}
use pfsense_backups.Anchors.Resolve.{
  row_scopes, at, parts_after, match_line, match_anchor, is_wanted, find_anchored, rows_at,
  resolve_parts, resolve_anchor_value,
}

safe_char_twice : (c : ℕ) → safe_char (safe_char c) ≡ safe_char c
unfolding safe_char
safe_char_twice c = elim (Bool-cases (is_word c || c == 45)) [
  | inl e ↦ rw e (rw e refl)
  | inr e ↦ rw e refl
]

safe_twice : (t : Text) → safe (safe t) ≡ safe t
unfolding safe
safe_twice [] = refl
safe_twice (c ∷ cs) = rw (safe_char_twice c, safe_twice cs) refl

match_anchor-xref :
    (kind key : Text)
    → is_filled kind ≡ true
    → all_chars is_word kind ≡ true
    → is_filled (safe key) ≡ true
    → match_anchor (xref kind (safe key))
      ≡ some (record { namespace = codes "xref"; scope = kind; tail = some (safe key) })
unfolding match_anchor match_line parts_after cut_dash
match_anchor-xref kind key f w g =
    ap match_line (chomp_line (xref kind (safe key)) (xref_line kind (safe key) w (safe_line key)))
    ∙ rw (cut_dash-word kind (safe key) w, f, w, g, safe_line key) refl

-- The resolver looks for the rows of a kind where they are.
abbrev IsScope : RowSpec → Type 0
IsScope spec =
    (is_filled (codes spec.anchor_kind) ≡ true)
    × ((all_chars is_word (codes spec.anchor_kind) ≡ true)
        × (lookup (codes spec.anchor_kind) row_scopes
            ≡ some (record { place = at spec.section; key_attr = spec.anchor_key_field })))

section_spec-IsScope : All IsScope section_spec
unfolding section_spec lookup row_scopes is_word
section_spec-IsScope = (
  (refl, (refl, refl)),
  (
    (refl, (refl, refl)),
    (
      (refl, (refl, refl)),
      (
        (refl, (refl, refl)),
        (
          (refl, (refl, refl)),
          (
            (refl, (refl, refl)),
            (
              (refl, (refl, refl)),
              (
                (refl, (refl, refl)),
                (
                  (refl, (refl, refl)),
                  (
                    (refl, (refl, refl)),
                    (
                      (refl, (refl, refl)),
                      (
                        (refl, (refl, refl)),
                        (
                          (refl, (refl, refl)),
                          (
                            (refl, (refl, refl)),
                            (
                              (refl, (refl, refl)),
                              (
                                (refl, (refl, refl)),
                                (
                                  (refl, (refl, refl)),
                                  (
                                    (refl, (refl, refl)),
                                    (
                                      (refl, (refl, refl)),
                                      ((refl, (refl, refl)), ((refl, (refl, refl)), tt)),
                                    ),
                                  ),
                                ),
                              ),
                            ),
                          ),
                        ),
                      ),
                    ),
                  ),
                ),
              ),
            ),
          ),
        ),
      ),
    ),
  ),
)

module _ (str_of : Value → Text) (cfg : ParsedConfig) where
  written :
      (kind key : Text) (i : Text) → some (xref kind (safe key)) ≡ some i → i ≡ xref kind (safe key)
  written kind key i q = cc

  id_of_key-wanted :
      (kind : Text) (v : Value) (i : Text)
      → id_of_key str_of kind v ≡ some i
      → (key : Text) × ((i ≡ xref kind (safe key)) × (is_wanted str_of cfg (safe key) v ≡ true))
  unfolding id_of_key
  id_of_key-wanted kind null i h = absurd (clash h)
    where
      clash : none ≡ some i → ⊥
      clash q = cc
  id_of_key-wanted kind (flag b) i h =
      (str_of (flag b), (written kind _ i h, text_eq_refl (safe (str_of (flag b)))))
  id_of_key-wanted kind (number n) i h =
      (str_of (number n), (written kind _ i h, text_eq_refl (safe (str_of (number n)))))
  id_of_key-wanted kind (text t) i h =
      (str_of (text t), (written kind _ i h, text_eq_refl (safe (str_of (text t)))))
  id_of_key-wanted kind (items vs) i h =
      (str_of (items vs), (written kind _ i h, text_eq_refl (safe (str_of (items vs)))))
  id_of_key-wanted kind (dict d) i h =
      (str_of (dict d), (written kind _ i h, text_eq_refl (safe (str_of (dict d)))))

  wanted-id_of_key :
      (kind key : Text) (v : Value)
      → is_wanted str_of cfg (safe key) v ≡ true
      → id_of_key str_of kind v ≡ some (xref kind (safe key))
  unfolding id_of_key
  wanted-id_of_key kind key null h = absurd (clash h)
    where
      clash : false ≡ true → ⊥
      clash q = cc
  wanted-id_of_key kind key (flag b) h = ap (λ t. some (xref kind t)) (text_eq→≡ _ _ h)
  wanted-id_of_key kind key (number n) h = ap (λ t. some (xref kind t)) (text_eq→≡ _ _ h)
  wanted-id_of_key kind key (text t) h = ap (λ t. some (xref kind t)) (text_eq→≡ _ _ h)
  wanted-id_of_key kind key (items vs) h = ap (λ t. some (xref kind t)) (text_eq→≡ _ _ h)
  wanted-id_of_key kind key (dict d) h = ap (λ t. some (xref kind t)) (text_eq→≡ _ _ h)

  find_anchored-In :
      (key wanted : Text) (rows : List Fields) (row : Fields)
      → In row rows
      → is_wanted str_of cfg wanted (get key row) ≡ true
      → (found : Fields) × (In found rows
          × ((is_wanted str_of cfg wanted (get key found) ≡ true)
              × (find_anchored str_of cfg key wanted rows ≡ dict found)))
  unfolding find_anchored
  find_anchored-In key wanted [] row m h = absurd m
  find_anchored-In key wanted (r ∷ rs) row m h =
      elim (Bool-cases (is_wanted str_of cfg wanted (get key r))) [
        | inl e ↦ (r, (inl refl, (e, rw e refl)))
        | inr e ↦
            let (found, (there, (same, eq))) = find_anchored-In key wanted rs row (later m e) h in
            (found, (inr there, (same, rw e eq)))
      ]
    where
      clash : true ≡ false → ⊥
      clash q = cc

      later : In row (r ∷ rs) → is_wanted str_of cfg wanted (get key r) ≡ false → In row rs
      later (inr n) e = n
      later (inl q) e =
          absurd (clash (sym h ∙ ap (λ d. is_wanted str_of cfg wanted (get key d)) q ∙ e))

  resolve-xref :
      (spec : RowSpec) (key : Text)
      → In spec section_spec
      → is_filled (safe key) ≡ true
      → resolve_anchor_value str_of cfg (xref (codes spec.anchor_kind) (safe key))
        ≡ find_anchored str_of cfg (codes spec.anchor_key_field) (safe key) (cfg.lists spec.section)
  unfolding resolve_anchor_value resolve_parts rows_at
  resolve-xref spec key m g =
      let (f, (w, place)) = All-In IsScope section_spec section_spec-IsScope m in
      ap (resolve_parts str_of cfg) (match_anchor-xref (codes spec.anchor_kind) key f w g)
      ∙ rw (place, safe_twice key) refl

  -- The anchor of each row of a section of SECTION_SPEC, if its key is not written as the empty text,
  -- resolves to a row of that section that has the same anchor.
  pub resolve_anchor_value-row :
      (spec : RowSpec) (row : Fields) (i : Text)
      → In spec section_spec
      → In row (cfg.lists spec.section)
      → row_anchor_id str_of spec row ≡ some i
      → i ≢ xref (codes spec.anchor_kind) []
      → (found : Fields) × (In found (cfg.lists spec.section)
          × ((row_anchor_id str_of spec found ≡ some i)
              × (resolve_anchor_value str_of cfg i ≡ dict found)))
  unfolding row_anchor_id
  resolve_anchor_value-row spec row i m r h ne =
      let (key, (e, wanted)) =
        id_of_key-wanted (codes spec.anchor_kind) (get (codes spec.anchor_key_field) row) i h in
      let (found, (there, (same, eq))) =
        find_anchored-In (codes spec.anchor_key_field) (safe key) (cfg.lists spec.section) row r
          wanted in
      (
        found,
        (
          there,
          (
            wanted-id_of_key (codes spec.anchor_kind) key (get (codes spec.anchor_key_field) found)
                  same
                ∙ ap some (sym e),
            ap (resolve_anchor_value str_of cfg) e
                ∙ resolve-xref spec key m (filled (safe key) e)
                ∙ eq,
          ),
        ),
      )
    where
      filled : (t : Text) → i ≡ xref (codes spec.anchor_kind) t → is_filled t ≡ true
      filled [] e = absurd (ne e)
      filled (c ∷ cs) e = refl

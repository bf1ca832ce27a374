-- ===== src/Diff/SameConfigs.antt =====
-- `diff_configs` of pfsense_shared/pfsense_diff.py on equal configurations.
use pfsense_backups.Prelude.{◌≡◌, refl, true, Option, none, some, List, [], ◌∷◌, map, All, String}
use pfsense_backups.Store.{Text}
use pfsense_backups.Replication.{codes}
use pfsense_backups.Diff.Data.{Value, Fields}
use pfsense_backups.Diff.{is_empty, diff_scalar, diff_optional_model}
use pfsense_backups.Diff.Labels.{Python, str}
use pfsense_backups.Diff.Configs.{
  ParsedConfig, Section, model, rows, scalar, plan, diff_section, diff_configs,
}
use pfsense_backups.Diff.Same.{IsValue, IsDict, value_eq_refl, field_changes_same}
use pfsense_backups.Diff.SameRows.{diff_list_same}

abbrev pub IsModel : Option Fields → Type 0
IsModel none = Unit
IsModel (some d) = IsDict d

-- Every dict of the configuration has each key once.
pub record IsConfig (c : ParsedConfig) : Type 0 where
  pub models : (name : String) → IsModel (c.models name)
  pub lists : (name : String) → All IsDict (c.lists name)
  pub scalars : (name : String) → IsValue (c.scalars name)

diff_optional_model_same :
    (o : Option Fields) (label : Text) → IsModel o → is_empty (diff_optional_model o o label) ≡ true
unfolding diff_optional_model
diff_optional_model_same none label h = refl
diff_optional_model_same (some d) label h = rw (field_changes_same d h) refl

diff_scalar_same : (v : Value) (name : Text) → IsValue v → is_empty (diff_scalar v v name) ≡ true
unfolding diff_scalar
diff_scalar_same v name h = rw (value_eq_refl v h) refl

diff_section_same :
    (py : Python) (c : ParsedConfig) (s : Section)
    → IsConfig c
    → is_empty (diff_section py c c s) ≡ true
unfolding diff_section
diff_section_same py c (model name) h =
    diff_optional_model_same (c.models name) (codes name) (h.models name)
diff_section_same py c (rows name key label_fn ordered) h =
    diff_list_same (str py) (c.lists name) (codes key) (label_fn py) ordered (h.lists name)
diff_section_same py c (scalar name) h =
    diff_scalar_same (c.scalars name) (codes name) (h.scalars name)

-- The diff of a configuration, in which no dict holds a key twice, with itself is empty in every
-- section.
pub diff_configs_same :
    (py : Python) (c : ParsedConfig)
    → IsConfig c
    → All (λ d. is_empty d ≡ true) (diff_configs py c c)
unfolding diff_configs
diff_configs_same py c h = go plan
  where
    go : (ss : List Section) → All (λ d. is_empty d ≡ true) (map (diff_section py c c) ss)
    go [] = tt
    go (s ∷ ss) = (diff_section_same py c s h, go ss)

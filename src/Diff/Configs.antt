-- ===== src/Diff/Configs.antt =====
-- `diff_configs` of pfsense_shared/pfsense_diff.py. A ParsedConfig gives the dumped value of each of
-- its fields by the field's name, and a ConfigDiff is its fields in their order.
mod Plan
pub use Plan.{Section, model, rows, scalar, plan}
use pfsense_backups.Prelude.{ℕ, Option, List, [], ◌∷◌, map, String}
use pfsense_backups.Store.{Text}
use pfsense_backups.Replication.{codes}
use pfsense_backups.Diff.Data.{Value, Fields}
use pfsense_backups.Diff.{SectionDiff, diff_scalar, diff_optional_model}
use pfsense_backups.Diff.Rows.{diff_list}
use pfsense_backups.Diff.Labels.{Python, str}

pub record ParsedConfig : Type 0 where
  pub models : String → Option Fields
  pub lists : String → List Fields
  pub scalars : String → Value

module _ (py : Python) (a b : ParsedConfig) where
  unfoldable pub diff_section : Section → SectionDiff
  unfolding diff_optional_model diff_list diff_scalar
  diff_section (model name) = diff_optional_model (a.models name) (b.models name) (codes name)
  diff_section (rows name key label_fn order_sensitive) =
      diff_list (str py) (a.lists name) (b.lists name) (codes key) (label_fn py) order_sensitive
  diff_section (scalar name) = diff_scalar (a.scalars name) (b.scalars name) (codes name)

  unfoldable pub diff_configs : List SectionDiff
  unfolding diff_section plan
  diff_configs = map diff_section plan

-- ===== src/Redact.antt =====
-- pfsense_shared/pfsense_redact.py: secrets are taken out of what is parsed. `lower` is Python's
-- `str.lower`. The pattern of the suffixes is looked for in a lower-case tag, so it is `endswith` of
-- one of them for an ASCII tag.
mod Tags
pub mod Hidden
mod Examples
unfoldable pub use Tags.{exact, suffixes}
use pfsense_backups.Prelude.{
  ℕ, Bool, true, false, not, ◌||◌, Option, none, some, List, [], ◌∷◌, any, String, text_eq,
  if◌then◌else◌,
}
use pfsense_backups.Store.{Text}
use pfsense_backups.Replication.{codes, ends_with}

abbrev pub redacted : Text
redacted = codes "***redacted***"

module _ (lower : Text → Text) where
  unfoldable pub should_redact : Text → Bool
  unfolding ends_with exact suffixes
  should_redact tag =
      let low = lower tag in
      if any (λ s. text_eq low (codes s)) exact
      then true
      else any (λ s. ends_with (codes s) low) suffixes

  -- `value in (None, "")` is returned as it is.
  unfoldable pub redact : Text → Option Text → Option Text
  unfolding should_redact
  redact tag none = none
  redact tag (some []) = some []
  redact tag (some (c ∷ cs)) = if should_redact tag then some redacted else some (c ∷ cs)

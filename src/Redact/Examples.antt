-- ===== src/Redact/Examples.antt =====
-- A password of a package that no table names, on which the result about redaction is applied.
use pfsense_backups.Prelude.{◌≡◌, refl, inr, inl, false, some}
use pfsense_backups.Store.{Text}
use pfsense_backups.Replication.{codes}
use pfsense_backups.Redact.{redacted, should_redact, redact}
use pfsense_backups.Redact.Hidden.{redact-IsHidden}

-- On lower-case tags, lowering changes nothing.
abbrev lower : Text → Text
lower t = t

-- The comment of the suffixes names this tag; it is not redacted.
open_tag : should_redact lower (codes "tls_client_key") ≡ false
unfolding should_redact
open_tag = refl

-- A bare token is let through, as the note in the table says.
open_token : should_redact lower (codes "token") ≡ false
unfolding should_redact
open_token = refl

redact-IsHidden_example :
    (redact lower (codes "smtp_password") (some (codes "hunter2")) ≡ some redacted)
    × (redact lower
          (codes "smtp_password")
          (redact lower (codes "smtp_password") (some (codes "hunter2")))
        ≡ some redacted)
redact-IsHidden_example =
    redact-IsHidden lower (codes "smtp_password") (some (codes "hunter2"))
      (inr (codes "smtp", codes "_password", refl, inl refl)) refl

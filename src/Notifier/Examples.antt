-- ===== src/Notifier/Examples.antt =====
-- Three rows of `notifications` and a run that failed: worker/notifier.py.
use pfsense_backups.Prelude.{
  ℕ, ◌≡◌, refl, true, false, not, List, [], ◌∷◌, ◌==◌, length, if◌then◌else◌,
}
use pfsense_backups.Store.{Text}
use pfsense_backups.Replication.{codes}
use pfsense_backups.Diff.Rows.{Keyed, lookup}
use pfsense_backups.Notifier.{
  ScopeIds, unset, ids, Hook, RunScope, resolve_scope, in_scope, should_send, caught, notify,
  attempted, visit_hook, send_each, send, Attempt, Dispatched, returned, raised,
}

abbrev lower : Text → Text
lower t = t

abbrev hook : ℕ → Text → ScopeIds → Hook
hook n trigger scope = record { id = n; enabled = true; trigger = trigger; instance_ids = scope }

abbrev hooks : List Hook
hooks =
    hook 1 (codes "always") unset
    ∷ hook 2 (codes "success") unset
    ∷ hook 3 (codes "failure") (ids (8 ∷ []))
    ∷ []

abbrev instances : Keyed ℕ
instances = (codes "office", 7) ∷ (codes "lab", 8) ∷ []

abbrev run : RunScope
run = record { is_success = false; failed = codes "lab" ∷ []; succeeded = codes "office" ∷ [] }

-- The channel of the row 1 is broken.
abbrev dispatch : Attempt → Dispatched
dispatch a = if a.hook.id == 1 then raised (codes "timeout") else returned

-- A message that cannot be formatted leaves the loop: the rows after it stay silent.
silenced :
    length (send lower (λ h. not (h.id == 1)) dispatch instances run false hooks).attempts ≡ 0
unfolding send send_each visit_hook attempted notify caught resolve_scope in_scope should_send
    lookup
silenced = refl

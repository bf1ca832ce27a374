-- ===== src/Notifier/Heard.antt =====
-- `send` of worker/notifier.py: a failure is heard.
use pfsense_backups.Prelude.{ℕ, ◌≡◌, ◌⊎◌, Bool, true, false, List, [], ◌∷◌, In}
use pfsense_backups.Store.{Text}
use pfsense_backups.Replication.{codes}
use pfsense_backups.Diff.Rows.{Keyed, lookup}
use pfsense_backups.Notifier.{
  ScopeIds, unset, unreadable, ids, Hook, Attempt, Dispatched, raised, Sent, id_in,
}

-- A row that is for everything, or for an instance that failed.
abbrev pub Concerns : Keyed ℕ → List Text → ScopeIds → Type 0
Concerns name_to_id failed unset = Unit
Concerns name_to_id failed unreadable = ⊥
Concerns name_to_id failed (ids []) = Unit
Concerns name_to_id failed (ids (i ∷ is)) =
    (n : Text) × (In n failed × (id_in (i ∷ is) (lookup n name_to_id) ≡ true))

module _ (lower : Text → Text) (formats : Hook → Bool) (dispatch : Attempt → Dispatched) where
  -- A row that asks for failures.
  abbrev pub AsksFailures : Hook → Type 0
  AsksFailures h = (lower h.trigger ≡ codes "failure") ⊎ (lower h.trigger ≡ codes "always")

  -- The row was told of a failure.
  abbrev pub IsHeard : Hook → Sent → Type 0
  IsHeard h st = (a : Attempt) × (In a st.attempts × ((a.hook ≡ h) × (a.scope.is_success ≡ false)))

  -- What is logged is what the dispatches raised, and the loop reached its end.
  abbrev pub IsWhole : Sent → Type 0
  IsWhole st =
      (st.aborted ≡ false)
      × ((a : Attempt) (e : Text)
          → In a st.attempts
          → dispatch a ≡ raised e
          → In (a.hook.id, e) st.logged)

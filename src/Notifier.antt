-- ===== src/Notifier.antt =====
-- `send` of worker/notifier.py: which rows of `notifications` fire for the end of a run.
pub mod Heard
mod Examples
use pfsense_backups.Prelude.{
  ℕ, Bool, true, false, not, ◌&&◌, ◌||◌, Option, none, some, List, [], ◌∷◌, elem, select,
  if◌then◌else◌, text_eq,
}
use pfsense_backups.Store.{Text}
use pfsense_backups.Replication.{codes}
use pfsense_backups.Diff.{is_nil}
use pfsense_backups.Diff.Rows.{Keyed, lookup}

-- What `json.loads(hook.instance_ids_json)` gives, if there is a text.
pub data ScopeIds : Type 0 where
  unset unreadable : ScopeIds
  ids : List ℕ → ScopeIds

pub record Hook : Type 0 where
  pub id : ℕ
  pub enabled : Bool
  pub trigger : Text
  pub instance_ids : ScopeIds

-- `scope`: the effective outcome, and the instances that failed and succeeded.
pub record RunScope : Type 0 where
  pub is_success : Bool
  pub failed : List Text
  pub succeeded : List Text

-- An attempt to notify.
pub record Attempt : Type 0 where
  pub hook : Hook
  pub scope : RunScope
  pub with_changes : Bool

abbrev pub id_in : List ℕ → Option ℕ → Bool
id_in allowed none = false
id_in allowed (some i) = elem i allowed

-- `[n for n in names if name_to_id.get(n) in allowed_ids]`
unfoldable pub in_scope : Keyed ℕ → List ℕ → List Text → List Text
in_scope name_to_id allowed names = select (λ n. id_in allowed (lookup n name_to_id)) names

abbrev pub scope_of_ids : Keyed ℕ → RunScope → List ℕ → Option RunScope
scope_of_ids name_to_id run [] = some run
scope_of_ids name_to_id run (i ∷ is) =
    let failed = in_scope name_to_id (i ∷ is) run.failed in
    let ok = in_scope name_to_id (i ∷ is) run.succeeded in
    if is_nil failed && is_nil ok
    then none
    else some (record { is_success = is_nil failed; failed = failed; succeeded = ok })

-- `_resolve_scope`, without the details for the message.
unfoldable pub resolve_scope : Keyed ℕ → RunScope → ScopeIds → Option RunScope
resolve_scope name_to_id run unset = some run
resolve_scope name_to_id run unreadable = none
resolve_scope name_to_id run (ids is) = scope_of_ids name_to_id run is

-- How a dispatch ends: it returns, or raises with what `str(exc)` says.
pub data Dispatched : Type 0 where
  returned : Dispatched
  raised : Text → Dispatched

-- What a run of the loop has done: the dispatches that were called, the rows whose exception was
-- logged, and whether an exception left the loop.
pub record Sent : Type 0 where
  pub attempts : List Attempt
  pub logged : List (ℕ × Text)
  pub aborted : Bool

abbrev pub nothing_sent : Bool → Sent
nothing_sent aborted = record { attempts = []; logged = []; aborted = aborted }

-- `except Exception as exc: log.error(...)`: the loop goes on with the rows after it.
unfoldable pub caught : Hook → Dispatched → Sent → Sent
caught hook returned rest = rest
caught hook (raised e) rest = record rest { logged = (hook.id, e) ∷ rest.logged }

-- `str.lower`, whether the message of a row can be formatted, and how the dispatch of a row ends.
module _ (lower : Text → Text) (formats : Hook → Bool) (dispatch : Attempt → Dispatched) where
  -- `_should_send`
  unfoldable pub should_send : Text → Bool → Bool → Bool
  should_send trigger is_success has_changes =
      let t = lower trigger in
      if text_eq t (codes "always")
      then true
      else if text_eq t (codes "change")
      then is_success && has_changes
      else if text_eq t (codes "stale")
      then false
      else (text_eq t (codes "success") && is_success)
        || (text_eq t (codes "failure") && not is_success)

  -- The call of `_dispatch` in its `try`, and then the rest of the loop.
  unfoldable pub notify : Attempt → Sent → Sent
  unfolding caught
  notify a rest =
      let next = caught a.hook (dispatch a) rest in record next { attempts = a ∷ next.attempts }

  -- The message is formatted before the `try`.
  unfoldable pub attempted : Hook → RunScope → Bool → Sent → Sent
  unfolding notify should_send
  attempted hook scope has_changes rest =
      if should_send hook.trigger scope.is_success has_changes
      then (if formats hook
          then notify (record { hook = hook; scope = scope; with_changes = has_changes }) rest
          else nothing_sent true)
      else rest

  unfoldable pub visit_hook : Hook → Option RunScope → Bool → Sent → Sent
  unfolding attempted
  visit_hook hook none has_changes rest = rest
  visit_hook hook (some scope) has_changes rest = attempted hook scope has_changes rest

  unfoldable pub send_each : Keyed ℕ → RunScope → Bool → List Hook → Sent
  unfolding visit_hook resolve_scope
  send_each name_to_id run has_changes [] = nothing_sent false
  send_each name_to_id run has_changes (h ∷ hs) =
      visit_hook h (resolve_scope name_to_id run h.instance_ids) has_changes
        (send_each name_to_id run has_changes hs)

  unfoldable pub send : Keyed ℕ → RunScope → Bool → List Hook → Sent
  unfolding send_each
  send name_to_id run has_changes hooks =
      send_each name_to_id run has_changes (select (λ (h : Hook). h.enabled) hooks)

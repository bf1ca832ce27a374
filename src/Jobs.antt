-- ===== src/Jobs.antt =====
-- The `jobs` table of pfsense_shared/models.py, and what the worker writes to it:
-- worker/backup_manager.py, worker/ipc_listener.py, worker/__main__.py.
pub mod Backup
pub mod Rules
pub mod Ended
pub mod Dispatch
pub mod Settled
pub mod Orphans
mod Examples
use pfsense_backups.Prelude.{
  ℕ, Bool, true, false, ◌||◌, Option, none, some, List, [], ◌∷◌, ◌++◌, map, ◌==◌, if◌then◌else◌,
}
use pfsense_backups.Store.{Text}
use pfsense_backups.Replication.{codes}

pub data JobStatus : Type 0 where
  queued running success failure cancelled : JobStatus

pub record Job : Type 0 where
  pub id : ℕ
  pub status : JobStatus
  pub started_at : Option ℕ
  pub finished_at : Option ℕ
  pub message : Option Text

-- A row of `backups` as far as the run of a backup sets it.
pub record HistoryRow : Type 0 where
  pub instance_id : ℕ
  pub job_id : ℕ
  pub success : Bool
  pub error_message : Option Text

pub data Phase : Type 0 where
  auth download save cleanup replicate : Phase

-- What is published; each has the job and the instance.
pub data JobEvent : Type 0 where
  backup_started : ℕ → ℕ → JobEvent
  backup_progress : ℕ → ℕ → Phase → JobEvent
  backup_finished : ℕ → ℕ → JobEvent
  backup_failed : ℕ → ℕ → Text → JobEvent
  test_connection_result : ℕ → ℕ → Bool → JobEvent

-- What is notified: an outcome, or a change alone.
pub data Notice : Type 0 where
  outcome : Bool → Notice
  change_only : Notice

-- The state of the worker; `locked` is the lock between processes of the instance.
pub record Worker : Type 0 where
  pub jobs : List Job
  pub history : List HistoryRow
  pub events : List JobEvent
  pub notices : List Notice
  pub locked : Bool

-- A call returns, or raises with what `str(exc)` says.
pub data Ran (A : Type 0) : Type 0 where
  done : A → Worker → Ran A
  raised : Text → Worker → Ran A

abbrev pub M : Type 0 → Type 0
M A = Worker → Ran A

infixl 5 ◌>>=◌ ◌>>◌
unfoldable pub ◌>>=◌ : {A B : Type 0} → M A → (A → M B) → M B
◌>>=◌ m f w = elim (m w) [ done a w' ↦ f a w' | raised e w' ↦ raised e w' ]

abbrev pub ◌>>◌ : {A B : Type 0} → M A → M B → M B
m >> n = m >>= λ a. n

unfoldable pub return : {A : Type 0} → A → M A
return a w = done a w

unfoldable pub throw : {A : Type 0} → Text → M A
throw e w = raised e w

-- `try … except Exception as exc`
unfoldable pub catch : {A : Type 0} → M A → (Text → M A) → M A
catch m f w = elim (m w) [ done a w' ↦ done a w' | raised e w' ↦ f e w' ]

-- `try … finally`, with an end that cannot fail.
unfoldable pub finally : {A : Type 0} → M A → (Worker → Worker) → M A
finally m f w = elim (m w) [ done a w' ↦ done a (f w') | raised e w' ↦ raised e (f w') ]

-- A call that may raise before it has an effect.
unfoldable pub attempt : Option Text → (Worker → Worker) → M (Unit {0})
attempt none f w = done tt (f w)
attempt (some e) f w = raised e w

abbrev pub is_pending : JobStatus → Bool
is_pending queued = true
is_pending running = true
is_pending _ = false

-- `s.get(Job, job_id)`
unfoldable pub find_job : ℕ → List Job → Option Job
find_job jid [] = none
find_job jid (j ∷ js) = if j.id == jid then some j else find_job jid js

-- A write to that row.
unfoldable pub update_job : ℕ → (Job → Job) → List Job → List Job
update_job jid f [] = []
update_job jid f (j ∷ js) =
    let rest = update_job jid f js in if j.id == jid then f j ∷ js else j ∷ rest

abbrev pub start_of : JobStatus → ℕ → Option ℕ → Option ℕ
start_of running now none = some now
start_of _ now at = at

abbrev pub or_old {ℓ} : {A : Type ℓ} → Option A → Option A → Option A
or_old none old = old
or_old (some a) old = some a

unfoldable pub marked : JobStatus → ℕ → Option ℕ → Option Text → Job → Job
marked status now finished_at message j = record j {
  status = status;
  started_at = start_of status now j.started_at;
  finished_at = or_old finished_at j.finished_at;
  message = or_old message j.message;
}

-- `_mark_job` at a time; the first argument is what its session raises.
unfoldable pub mark_job : Option Text → ℕ → ℕ → JobStatus → Option ℕ → Option Text → M (Unit {0})
mark_job fault now jid status finished_at message =
    attempt fault
      (λ w. record w { jobs = update_job jid (marked status now finished_at message) w.jobs })

unfoldable pub fail_job : Option Text → ℕ → ℕ → Text → M (Unit {0})
fail_job fault now jid message = mark_job fault now jid failure (some now) (some message)

unfoldable pub publish : Option Text → JobEvent → M (Unit {0})
publish fault e = attempt fault (λ w. record w { events = w.events ++ e ∷ [] })

abbrev pub fail_pending : ℕ → Text → Job → Job
fail_pending now message j =
    if is_pending j.status
    then record j { status = failure; finished_at = some now; message = some message }
    else j

-- The session of `_fail_orphaned_job`; its exception is caught.
unfoldable pub fail_orphaned : Option Text → ℕ → ℕ → Text → M (Unit {0})
fail_orphaned fault now jid message =
    catch
      (attempt fault (λ w. record w { jobs = update_job jid (fail_pending now message) w.jobs }))
      (λ e. return tt)

-- `_fail_orphaned_job`; a payload without a number for its job has none.
unfoldable pub fail_orphaned_job : Option Text → ℕ → Option ℕ → Text → M (Unit {0})
fail_orphaned_job fault now none message = return tt
fail_orphaned_job fault now (some jid) message = fail_orphaned fault now jid message

-- `_mark_stale_jobs`, when the worker starts.
unfoldable pub mark_stale_jobs : ℕ → List Job → List Job
mark_stale_jobs now jobs = map (fail_pending now (codes "worker restarted during execution")) jobs

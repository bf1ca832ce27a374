-- ===== src/Jobs/Examples.antt =====
-- Jobs of a worker: worker/backup_manager.py and worker/ipc_listener.py on a small table.
use pfsense_backups.Prelude.{
  ℕ, ◌≡◌, refl, Bool, true, false, Option, none, some, List, [], ◌∷◌, ◌==◌, if◌then◌else◌,
}
use pfsense_backups.Store.{Text}
use pfsense_backups.Replication.{codes}
use pfsense_backups.Jobs.{
  JobStatus, queued, running, success, failure, Job, HistoryRow, Worker, Ran, done, raised, ◌>>=◌,
  return, throw, catch, finally, attempt, find_job, update_job, marked, mark_job, fail_job, publish,
  mark_stale_jobs,
}
use pfsense_backups.Jobs.Backup.{
  Call, publishing_finished, Snapshot, BackupEnv, notify_result, write_backup_history,
  emit_progress, ask, replicate_new_backup, run_phases, record_failure, enter_lock, run_backup,
  refuse, backup_found, backup_instance, test_found, test_connection as test_instance,
}
use pfsense_backups.Jobs.Rules.{Triple, OfJobs, IsKnown}
use pfsense_backups.Jobs.Ended.{Agrees, backup_instance-Agrees}
use pfsense_backups.Jobs.Dispatch.{retrieve_replica, Payload, ListenerEnv, run_one, sweep, dispatch}
use pfsense_backups.Jobs.Orphans.{IsSwept, IsSettled, Pairwise, mark_stale_jobs-IsSwept}
use pfsense_backups.Jobs.Settled.{dispatch-IsSettled}

abbrev job : ℕ → JobStatus → Job
job n status = record {
  id = n;
  status = status;
  started_at = none;
  finished_at = none;
  message = none;
}

abbrev worker : Worker
worker = record {
  jobs = job 6 success ∷ job 7 queued ∷ job 8 running ∷ [];
  history = [];
  events = [];
  notices = [];
  locked = false;
}

abbrev snapshot : Snapshot
snapshot = record {
  id = 3;
  name = codes "office";
  replicates = true;
  backup_encrypt = true;
  backup_encrypt_password = some (codes "secret");
}

abbrev env_of : (Call → Option Text) → Option Snapshot → Bool → BackupEnv
env_of fault snap signed_in = record {
  fault = fault;
  now = 100;
  str = λ n. n ∷ [];
  cross_process = true;
  snapshot = snap;
  authenticated = signed_in;
  downloaded = true;
  changed = true;
  replication_enabled = true;
  replicated = true;
}

abbrev fine : Call → Option Text
fine at = none

abbrev broken_socket : Call → Option Text
broken_socket publishing_finished = some (codes "socket closed")
broken_socket _ = none

-- The status of a job and the outcomes in the history.
abbrev report : {A : Type 0} → ℕ → Ran A → Option JobStatus × List Bool
report jid (done a w) = (status_of (find_job jid w.jobs), outcomes w.history)
  where
    status_of : Option Job → Option JobStatus
    status_of none = none
    status_of (some j) = some j.status

    outcomes : List HistoryRow → List Bool
    outcomes [] = []
    outcomes (r ∷ rs) = r.success ∷ outcomes rs
report jid (raised e w) = (none, [])

good_run :
    report 7 (backup_instance (env_of fine (some snapshot) true) 3 7 true worker)
    ≡ (some success, true ∷ [])
unfolding backup_instance backup_found run_backup refuse run_phases record_failure enter_lock
    notify_result write_backup_history emit_progress ask replicate_new_backup mark_job fail_job
    publish attempt update_job marked find_job ◌>>=◌ return throw catch finally
good_run = refl

-- A publication that fails after the job was marked a success makes it a failure, with a second row.
late_fault :
    report 7 (backup_instance (env_of broken_socket (some snapshot) true) 3 7 true worker)
    ≡ (some failure, true ∷ false ∷ [])
unfolding backup_instance backup_found run_backup refuse run_phases record_failure enter_lock
    notify_result write_backup_history emit_progress ask replicate_new_backup mark_job fail_job
    publish attempt update_job marked find_job ◌>>=◌ return throw catch finally
late_fault = refl

-- The test of a connection to an instance that is gone leaves the job queued.
lost_test : report 7 (test_instance (env_of fine none true) 3 7 true worker) ≡ (some queued, [])
unfolding test_instance test_found ask publish attempt find_job ◌>>=◌ return
lost_test = refl

backup_instance-Agrees_example :
    Triple
      (OfJobs (IsKnown 7))
      (backup_instance (env_of broken_socket (some snapshot) true) 3 7 true)
      (Agrees (env_of broken_socket (some snapshot) true) 3 7 true)
      (OfJobs (IsKnown 7))
backup_instance-Agrees_example =
    backup_instance-Agrees (env_of broken_socket (some snapshot) true) 3 7 true

mark_stale_jobs-IsSwept_example :
    Pairwise (IsSwept 200) worker.jobs (mark_stale_jobs 200 worker.jobs)
mark_stale_jobs-IsSwept_example = mark_stale_jobs-IsSwept 200 worker.jobs

-- Instance 4 cannot sign in.
abbrev listener : ListenerEnv
listener = record {
  run = λ i. env_of fine (some snapshot) (i == 3);
  is_valid = λ p. some (7, 3);
  enabled = 4 ∷ 3 ∷ [];
  owner = λ b. if b == 5 then some 3 else none;
  marking_running = none;
  marking_retrieved = some (codes "database is locked");
  marking_unretrieved = some (codes "database is locked");
  reading_row = none;
  retrieving = none;
  marking_orphan = none;
  notifying_sweep = none;
  other = λ c. return tt;
  now = 100;
  str = λ n. n ∷ [];
  described = λ e. e;
  rejected = codes "rejected";
}

-- A sweep has one job: the backup that ends last decides what it says.
masked_failure : report 7 (sweep listener 7 (4 ∷ 3 ∷ []) worker) ≡ (some success, false ∷ true ∷ [])
unfolding sweep run_one backup_instance backup_found run_backup refuse run_phases record_failure
    enter_lock notify_result write_backup_history emit_progress ask replicate_new_backup mark_job
    fail_job publish attempt update_job marked find_job ◌>>=◌ return throw catch finally
masked_failure = refl

abbrev retrieval : Payload
retrieval = record { cmd = retrieve_replica; job_id = some 7; backup_id = 5 }

dispatch-IsSettled_example :
    Triple (OfJobs (IsKnown 7)) (dispatch listener retrieval) (λ u. OfJobs (IsSettled 7)) (λ w. ⊥)
dispatch-IsSettled_example = dispatch-IsSettled 7 listener retrieval refl refl refl (refl, tt)

-- ===== src/Jobs/Backup.antt =====
-- `backup_instance` and `test_connection` of worker/backup_manager.py.
use pfsense_backups.Prelude.{
  ℕ, Bool, true, false, ◌&&◌, Option, none, some, [], ◌∷◌, ◌++◌, if◌then◌else◌,
}
use pfsense_backups.Store.{Text}
use pfsense_backups.Replication.{codes}
use pfsense_backups.Jobs.{
  JobStatus, running, success, failure, Phase, auth, download, save, cleanup, replicate,
  backup_started, backup_progress, backup_finished, backup_failed, test_connection_result, Notice,
  outcome, change_only, Worker, M, ◌>>=◌, ◌>>◌, return, throw, catch, finally, attempt, mark_job,
  fail_job, publish,
}

-- The calls of the two functions that can raise.
pub data Call : Type 0 where
  taking_snapshot entering_lock marking_missing marking_refused marking_running marking_success
        marking_failure marking_again publishing_refused publishing_started publishing_finished
        publishing_failed authenticating downloading saving cleaning writing_history
        writing_failed_history replicating notifying marking_tested publishing_tested :
      Call
  publishing_progress : Phase → Call

-- The fields of `_InstanceSnapshot` that decide the course of a backup.
pub record Snapshot : Type 0 where
  pub id : ℕ
  pub name : Text
  pub replicates : Bool
  pub backup_encrypt : Bool
  pub backup_encrypt_password : Option Text

-- What the calls outside this file do in a run: what each raises, if it does, and what they return;
-- the two times of a run are one, and `str` is of a number. The metrics, the pings at the start and
-- `_clear_stale_flag` after a success have no field: they do not touch the job.
pub record BackupEnv : Type 0 where
  pub fault : Call → Option Text
  pub now : ℕ
  pub str : ℕ → Text
  pub cross_process : Bool
  pub snapshot : Option Snapshot
  pub authenticated : Bool
  pub downloaded : Bool
  pub changed : Bool
  pub replication_enabled : Bool
  pub replicated : Bool

module _ (env : BackupEnv) (instance_id jid : ℕ) (notify : Bool) where
  abbrev pub say : Notice → M (Unit {0})
  say n =
      catch (attempt (env.fault notifying) (λ w. record w { notices = w.notices ++ n ∷ [] }))
        (λ e. return tt)

  -- `_notify_result`
  unfoldable pub notify_result : Bool → Bool → M (Unit {0})
  notify_result ok changed =
      if notify then say (outcome ok) else if changed then say change_only else return tt

  unfoldable pub write_backup_history : Call → Bool → Option Text → M (Unit {0})
  write_backup_history at ok error = attempt (env.fault at) (λ w. record w {
    history =
        w.history
        ++ (record { instance_id = instance_id; job_id = jid; success = ok; error_message = error })
          ∷ [];
  })

  unfoldable pub emit_progress : Phase → M (Unit {0})
  emit_progress phase =
      publish (env.fault (publishing_progress phase)) (backup_progress jid instance_id phase)

  -- A call that only returns something.
  unfoldable pub ask : {A : Type 0} → Call → A → M A
  ask at a = attempt (env.fault at) (λ w. w) >> return a

  abbrev pub demand : Bool → Text → M (Unit {0})
  demand ok message = if ok then return tt else throw message

  -- `_replicate_new_backup`: the note for the job.
  unfoldable pub replicate_new_backup : M (Option Text)
  replicate_new_backup =
      catch
        (if env.replication_enabled
          then (do
            emit_progress replicate
            ok ← ask replicating env.replicated
            return (
                if ok then none else some (codes "off-site replication failed — queued for retry")))
          else return none)
        (λ e. return (some (codes "off-site replication errored — queued for retry")))

  -- The `try` part.
  unfoldable pub run_phases : Snapshot → M Bool
  run_phases snap = do
    emit_progress auth
    entered ← ask authenticating env.authenticated
    demand entered (codes "authentication failed")
    emit_progress download
    content ← ask downloading env.downloaded
    demand content (codes "config download failed")
    emit_progress save
    ask saving tt
    emit_progress cleanup
    ask cleaning tt
    write_backup_history writing_history true none
    note ← if snap.replicates then replicate_new_backup else return none
    mark_job (env.fault marking_success) env.now jid success (some env.now) note
    publish (env.fault publishing_finished) (backup_finished jid instance_id)
    notify_result true env.changed
    return true

  -- The `except` part.
  unfoldable pub record_failure : Text → M Bool
  record_failure err = do
    mark_job (env.fault marking_failure) env.now jid failure (some env.now) (some err)
    catch (write_backup_history writing_failed_history false (some err)) (λ hist.
        (catch
          (mark_job (env.fault marking_again) env.now jid failure (some env.now)
            (some (err ++ (codes " (history row not written: " ++ (hist ++ codes ")")))))
          (λ e. return tt)))
    publish (env.fault publishing_failed) (backup_failed jid instance_id err)
    notify_result false false
    return false

  unfoldable pub enter_lock : M (Unit {0})
  enter_lock =
      if env.cross_process
      then attempt (env.fault entering_lock) (λ w. record w { locked = true })
      else return tt

  abbrev pub unlock : Worker → Worker
  unlock w = record w { locked = false }

  unfoldable pub run_backup : Snapshot → M Bool
  run_backup snap = do
    enter_lock
    mark_job (env.fault marking_running) env.now jid running none none
    publish (env.fault publishing_started) (backup_started jid instance_id)
    finally (catch (run_phases snap) record_failure) unlock

  abbrev pub no_password : Snapshot → Text
  no_password snap =
      codes "Backup refused: encryption is on for '"
      ++ (snap.name ++ codes "' but no encryption password is configured.")

  -- A backup that cannot be encrypted as it should be is refused.
  unfoldable pub refuse : Snapshot → M Bool
  refuse snap = do
    publish (env.fault publishing_refused) (backup_failed jid instance_id (no_password snap))
    fail_job (env.fault marking_refused) env.now jid (no_password snap)
    notify_result false false
    return false

  -- `not snap.backup_encrypt_password`
  abbrev pub lacks : Option Text → Bool
  lacks none = true
  lacks (some []) = true
  lacks (some (c ∷ cs)) = false

  unfoldable pub backup_found : Option Snapshot → M Bool
  backup_found none = do
    fail_job (env.fault marking_missing) env.now jid
        (codes "Instance " ++ (env.str instance_id ++ codes " not found"))
    return false
  backup_found (some snap) =
      if snap.backup_encrypt && lacks snap.backup_encrypt_password
      then refuse snap
      else run_backup snap

  unfoldable pub backup_instance : M Bool
  backup_instance = do snap ← ask taking_snapshot env.snapshot; backup_found snap

  abbrev pub tested : Bool → JobStatus
  tested true = success
  tested false = failure

  -- Whether the sign-in worked, and in what words.
  unfoldable pub probe : M (Bool × Text)
  probe = do
    ok ← ask authenticating env.authenticated
    return (ok, if ok then codes "authenticated" else codes "authentication failed")

  unfoldable pub test_found : Option Snapshot → M Bool
  test_found none = do
    publish (env.fault publishing_tested) (test_connection_result jid instance_id false)
    return false
  test_found (some snap) = do
    mark_job (env.fault marking_running) env.now jid running none none
    answer ← catch probe (λ e. return (false, e))
    mark_job (env.fault marking_tested) env.now jid (tested answer.0) (some env.now) (some answer.1)
    publish (env.fault publishing_tested) (test_connection_result jid instance_id answer.0)
    return answer.0

  unfoldable pub test_connection : M Bool
  test_connection = do snap ← ask taking_snapshot env.snapshot; test_found snap

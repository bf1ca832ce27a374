-- ===== src/Jobs/Dispatch.antt =====
-- `_dispatch` of worker/ipc_listener.py, its handlers that run a job, and `backup_all` of
-- worker/backup_manager.py.
use pfsense_backups.Prelude.{
  ℕ, Bool, true, false, not, Option, none, some, List, [], ◌∷◌, ◌++◌, any, if◌then◌else◌,
}
use pfsense_backups.Store.{Text}
use pfsense_backups.Replication.{codes}
use pfsense_backups.Jobs.{
  running, success, failure, outcome, M, ◌>>=◌, ◌>>◌, return, throw, catch, attempt, mark_job,
  fail_orphaned_job,
}
use pfsense_backups.Jobs.Backup.{BackupEnv, backup_instance, test_connection as test_instance}

pub data Command : Type 0 where
  run_backup run_backup_all test_connection reload_schedule send_test_notification reencrypt_backups
        reencrypt_all_backups test_replication retrieve_replica delete_replica_object unknown :
      Command

-- The fields of a payload that the modelled handlers read.
pub record Payload : Type 0 where
  pub cmd : Command
  pub job_id : Option ℕ
  pub backup_id : ℕ

-- The calls that the handlers make outside: a run of a backup for each instance, the enabled
-- instances, the retrieval of an object, and the handlers that run no job of this file. `is_valid` is
-- `model_validate`, which gives the job and the instance of the command.
pub record ListenerEnv : Type 0 where
  pub run : ℕ → BackupEnv
  pub is_valid : Payload → Option (ℕ × ℕ)
  pub enabled : List ℕ
  pub owner : ℕ → Option ℕ
  pub marking_running : Option Text
  pub marking_retrieved : Option Text
  pub marking_unretrieved : Option Text
  pub reading_row : Option Text
  pub retrieving : Option Text
  pub marking_orphan : Option Text
  pub notifying_sweep : Option Text
  pub other : Command → M (Unit {0})
  pub now : ℕ
  pub str : ℕ → Text
  pub described : Text → Text
  pub rejected : Text

module _ (env : ListenerEnv) where
  -- `_run_one`, and what the loop over the futures keeps of it.
  unfoldable pub run_one : ℕ → ℕ → M (Option Bool)
  run_one jid i =
      catch (do ok ← backup_instance (env.run i) i jid false; return (some ok)) (λ e. return none)

  -- The runs of a sweep in the order in which they end.
  unfoldable pub sweep : ℕ → List ℕ → M (List (Option Bool))
  sweep jid [] = return []
  sweep jid (i ∷ is) = do r ← run_one jid i; rs ← sweep jid is; return (r ∷ rs)

  abbrev pub is_failed : Option Bool → Bool
  is_failed none = false
  is_failed (some ok) = not ok

  unfoldable pub backup_all : ℕ → M (Unit {0})
  backup_all jid = do
    results ← sweep jid env.enabled
    catch
        (attempt env.notifying_sweep
          (λ w. record w { notices = w.notices ++ outcome (not (any is_failed results)) ∷ [] }))
        (λ e. return tt)

  abbrev pub owner_found : ℕ → Option ℕ → M (Unit {0})
  owner_found backup_id none = throw (codes "backup " ++ (env.str backup_id ++ codes " not found"))
  owner_found backup_id (some i) = attempt env.retrieving (λ w. w)

  -- `_handle_retrieve_replica`
  unfoldable pub handle_retrieve_replica : ℕ → ℕ → M (Unit {0})
  handle_retrieve_replica jid backup_id = do
    attempt env.reading_row (λ w. w)
    mark_job env.marking_running env.now jid running none none
    catch
        (do
          owner_found backup_id (env.owner backup_id)
          mark_job env.marking_retrieved env.now jid success (some env.now) (
              some (
                codes "backup "
                ++ (env.str backup_id ++ codes " retrieved from off-site storage"))))
        (λ e.
          mark_job env.marking_unretrieved env.now jid failure (some env.now)
            (some (codes "retrieve failed: " ++ e)))

  -- The handlers, of a command that is valid, with its job and its instance.
  unfoldable pub handle : Command → ℕ → ℕ → ℕ → M (Unit {0})
  handle run_backup jid instance_id backup_id =
      backup_instance (env.run instance_id) instance_id jid true >>= λ ok. return tt
  handle run_backup_all jid instance_id backup_id = backup_all jid
  handle test_connection jid instance_id backup_id =
      test_instance (env.run instance_id) instance_id jid true >>= λ ok. return tt
  handle retrieve_replica jid instance_id backup_id = handle_retrieve_replica jid backup_id
  handle c jid instance_id backup_id = env.other c

  -- `_dispatch` of a command that is known; a payload that is not valid is rejected.
  unfoldable pub dispatch_valid : Payload → Option (ℕ × ℕ) → M (Unit {0})
  dispatch_valid p none = fail_orphaned_job env.marking_orphan env.now p.job_id env.rejected
  dispatch_valid p (some ids) =
      catch (handle p.cmd ids.0 ids.1 p.backup_id)
        (λ e. fail_orphaned_job env.marking_orphan env.now p.job_id (env.described e))

  abbrev pub is_unknown : Command → Bool
  is_unknown unknown = true
  is_unknown _ = false

  unfoldable pub dispatch : Payload → M (Unit {0})
  dispatch p = if is_unknown p.cmd then return tt else dispatch_valid p (env.is_valid p)

-- ===== src/Jobs/Ended.antt =====
-- worker/backup_manager.py: what a run of a backup leaves in its job.
use pfsense_backups.Prelude.{ℕ, ◌≡◌, refl, Bool, true, false, Option, none, some, if◌then◌else◌}
use pfsense_backups.Store.{Text}
use pfsense_backups.Jobs.{
  JobStatus, running, success, failure, Phase, auth, download, save, cleanup, replicate, Worker, M,
  ◌>>=◌, return, outcome, change_only, Notice, catch, find_job, mark_job, fail_job,
}
use pfsense_backups.Jobs.Rules.{
  Pred, Triple, bind_rule, catch_rule, finally_rule, weaken_rule, assume_rule, OfJobs, IsQuiet,
  bind-IsQuiet, catch-IsQuiet, return-IsQuiet, throw-IsQuiet, return_rule, if-IsQuiet,
  attempt-IsQuiet, publish-IsQuiet, IsKnown, HasStatus, OfJob-map, mark_job_rule, remark_job_rule,
}
use pfsense_backups.Jobs.Backup.{
  Call, authenticating, downloading, saving, cleaning, writing_history, writing_failed_history,
  replicating, taking_snapshot, Snapshot, BackupEnv, say, notify_result, write_backup_history,
  emit_progress, ask, demand, replicate_new_backup, run_phases, record_failure, enter_lock, unlock,
  run_backup, refuse, backup_found, backup_instance, tested,
}

module _ (env : BackupEnv) (instance_id jid : ℕ) (notify : Bool) where
  pub ask-IsQuiet : {A : Type 0} (at : Call) (a : A) → IsQuiet (ask env instance_id jid notify at a)
  unfolding ask
  ask-IsQuiet at a = bind-IsQuiet (attempt-IsQuiet _ _ (λ w. refl)) (λ u. return-IsQuiet a)

  emit_progress-IsQuiet : (phase : Phase) → IsQuiet (emit_progress env instance_id jid notify phase)
  unfolding emit_progress
  emit_progress-IsQuiet phase = publish-IsQuiet _ _

  demand-IsQuiet :
      (ok : Bool) (message : Text) → IsQuiet (demand env instance_id jid notify ok message)
  demand-IsQuiet ok message = if-IsQuiet ok (return-IsQuiet tt) (throw-IsQuiet message)

  say-IsQuiet : (n : Notice) → IsQuiet (say env instance_id jid notify n)
  say-IsQuiet n = catch-IsQuiet (attempt-IsQuiet _ _ (λ w. refl)) (λ e. return-IsQuiet tt)

  notify_result-IsQuiet :
      (ok changed : Bool) → IsQuiet (notify_result env instance_id jid notify ok changed)
  unfolding notify_result
  notify_result-IsQuiet ok changed =
      if-IsQuiet notify (say-IsQuiet (outcome ok))
        (if-IsQuiet changed (say-IsQuiet change_only) (return-IsQuiet tt))

  write_backup_history-IsQuiet :
      (at : Call) (ok : Bool) (error : Option Text)
      → IsQuiet (write_backup_history env instance_id jid notify at ok error)
  unfolding write_backup_history
  write_backup_history-IsQuiet at ok error = attempt-IsQuiet _ _ (λ w. refl)

  replicate_new_backup-IsQuiet : IsQuiet (replicate_new_backup env instance_id jid notify)
  unfolding replicate_new_backup
  replicate_new_backup-IsQuiet =
      catch-IsQuiet
        (if-IsQuiet env.replication_enabled
          (bind-IsQuiet (emit_progress-IsQuiet replicate)
            (λ u. bind-IsQuiet (ask-IsQuiet replicating env.replicated) (λ ok. return-IsQuiet _)))
          (return-IsQuiet none))
        (λ e. return-IsQuiet _)

  -- The status that a result goes with.
  abbrev pub Agrees : Bool → Pred
  Agrees ok = OfJobs (HasStatus jid (tested env instance_id jid notify ok))

  abbrev Known : Pred
  Known = OfJobs (IsKnown jid)

  pub HasStatus-Known : (status : JobStatus) (w : Worker) → HasStatus jid status w.jobs → Known w
  HasStatus-Known status w h = OfJob-map _ _ (find_job jid w.jobs) (λ j e. tt) h

  -- The calls after the job is marked.
  told_rule :
      (ok : Bool) {m n : M (Unit {0})}
      → IsQuiet m
      → IsQuiet n
      → Triple (Agrees ok) (m >>= λ u. n >>= λ v. return ok) Agrees Known
  told_rule ok h k =
      weaken_rule
        (bind_rule (h.keep (HasStatus jid (tested env instance_id jid notify ok))) (λ u.
          bind_rule (k.keep (HasStatus jid (tested env instance_id jid notify ok)))
            (λ v. return_rule ok)))
        (HasStatus-Known _)

  quiet_rule :
      {A : Type 0} {m : M A} {f : A → M Bool}
      → IsQuiet m
      → ((a : A) → Triple Known (f a) Agrees Known)
      → Triple Known (m >>= f) Agrees Known
  quiet_rule h k = bind_rule (h.keep (IsKnown jid)) k

  run_phases_rule :
      (snap : Snapshot) → Triple Known (run_phases env instance_id jid notify snap) Agrees Known
  unfolding run_phases
  run_phases_rule snap = quiet_rule (emit_progress-IsQuiet auth) (λ u.
      quiet_rule (ask-IsQuiet authenticating env.authenticated) (λ entered.
        quiet_rule (demand-IsQuiet entered _) (λ u.
          quiet_rule (emit_progress-IsQuiet download) (λ u.
            quiet_rule (ask-IsQuiet downloading env.downloaded) (λ content.
              quiet_rule (demand-IsQuiet content _) (λ u.
                quiet_rule (emit_progress-IsQuiet save) (λ u.
                  quiet_rule (ask-IsQuiet saving tt) (λ u.
                    quiet_rule (emit_progress-IsQuiet cleanup) (λ u.
                      quiet_rule (ask-IsQuiet cleaning tt) (λ u.
                        quiet_rule (write_backup_history-IsQuiet writing_history true none) (λ u.
                          quiet_rule
                            (if-IsQuiet snap.replicates replicate_new_backup-IsQuiet
                              (return-IsQuiet none))
                            (λ note. bind_rule (mark_job_rule _ _ jid success _ note) (λ u.
                              told_rule true (publish-IsQuiet _ _)
                                (notify_result-IsQuiet true env.changed))))))))))))))

  -- The second write of the failure, which is made if the row of the history is not written.
  remark_rule :
      (at : Option Text) (error : Text)
      → Triple
          (Agrees false)
          (catch (mark_job at env.now jid failure (some env.now) (some error)) (λ e. return tt))
          (λ u. Agrees false)
          Known
  remark_rule at error =
      catch_rule
        (remark_job_rule (λ j. j.status ≡ failure) at env.now jid failure (some env.now)
          (some error))
        (λ e. return_rule tt)

  record_failure_rule :
      (err : Text) → Triple Known (record_failure env instance_id jid notify err) Agrees Known
  unfolding record_failure
  record_failure_rule err = bind_rule (mark_job_rule _ _ jid failure _ _) (λ u.
      bind_rule
        (catch_rule ((write_backup_history-IsQuiet writing_failed_history false (some err)).keep _)
          (λ hist. remark_rule _ _))
        (λ u. told_rule false (publish-IsQuiet _ _) (notify_result-IsQuiet false false)))

  run_backup_rule :
      (snap : Snapshot) → Triple Known (run_backup env instance_id jid notify snap) Agrees Known
  unfolding run_backup enter_lock
  run_backup_rule snap =
      quiet_rule
        (if-IsQuiet env.cross_process (attempt-IsQuiet _ _ (λ w. refl)) (return-IsQuiet tt))
        (λ u. bind_rule (weaken_rule (mark_job_rule _ _ jid running _ _) (λ w h. h)) (λ u.
          assume_rule
            (quiet_rule (publish-IsQuiet _ _) (λ u.
              finally_rule (unlock env instance_id jid notify)
                (catch_rule (run_phases_rule snap) record_failure_rule) (λ ok w h. h) (λ w h. h)))
            (HasStatus-Known running)))

  refuse_rule :
      (snap : Snapshot) → Triple Known (refuse env instance_id jid notify snap) Agrees Known
  unfolding refuse fail_job
  refuse_rule snap = quiet_rule (publish-IsQuiet _ _) (λ u.
      bind_rule (mark_job_rule _ _ jid failure _ _) (λ u.
        weaken_rule
          (bind_rule ((notify_result-IsQuiet false false).keep (HasStatus jid failure))
            (λ u. return_rule false))
          (HasStatus-Known failure)))

  if_rule :
      (b : Bool) {m n : M Bool}
      → Triple Known m Agrees Known
      → Triple Known n Agrees Known
      → Triple Known (if b then m else n) Agrees Known
  if_rule true h k = h
  if_rule false h k = k

  backup_found_rule :
      (o : Option Snapshot) → Triple Known (backup_found env instance_id jid notify o) Agrees Known
  unfolding backup_found fail_job
  backup_found_rule none =
      bind_rule (mark_job_rule _ _ jid failure _ _)
        (λ u. weaken_rule (return_rule false) (HasStatus-Known failure))
  backup_found_rule (some snap) = if_rule _ (refuse_rule snap) (run_backup_rule snap)

  -- However a run of a backup goes, whatever is raised on the way and whenever: if it returns, its job,
  -- which has to be in the table, is marked as a success exactly if it returns that it succeeded, and
  -- as a failure else; and if it raises, the job is still in the table.
  pub backup_instance-Agrees :
      Triple Known (backup_instance env instance_id jid notify) Agrees Known
  unfolding backup_instance
  backup_instance-Agrees = quiet_rule (ask-IsQuiet taking_snapshot env.snapshot) backup_found_rule

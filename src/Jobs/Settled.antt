-- ===== src/Jobs/Settled.antt =====
-- worker/ipc_listener.py: a dispatched command leaves no job behind.
use pfsense_backups.Prelude.{
  ℕ, ◌≡◌, refl, sym, subst, ap, ◌∙◌, Bool, true, false, Option, none, some,
}
use pfsense_backups.Store.{Text}
use pfsense_backups.Jobs.{
  JobStatus, running, success, failure, Job, is_pending, Worker, M, ◌>>=◌, return, attempt,
  find_job, mark_job,
}
use pfsense_backups.Jobs.Rules.{
  Pred, Ends, Triple, bind_rule, catch_rule, weaken_rule, strengthen_rule, assume_rule, return_rule,
  OfJobs, IsQuiet, throw-IsQuiet, attempt-IsQuiet, OfJob, IsKnown, HasStatus, OfJob-map,
  mark_job_rule, remark_job_rule, publish-IsQuiet, bind-IsQuiet, catch-IsQuiet, return-IsQuiet,
}
use pfsense_backups.Jobs.Orphans.{IsSettled, fail_orphaned_job_rule}
use pfsense_backups.Jobs.Backup.{
  Call, BackupEnv, Snapshot, tested, taking_snapshot, authenticating, ask, probe, test_found,
  test_connection as test_instance, backup_instance,
}
use pfsense_backups.Jobs.Ended.{ask-IsQuiet, HasStatus-Known, backup_instance-Agrees}
use pfsense_backups.Jobs.Dispatch.{
  Command, run_backup, test_connection, retrieve_replica, Payload, ListenerEnv, owner_found,
  handle_retrieve_replica, handle, dispatch_valid, is_unknown, dispatch,
}

module _ (jid : ℕ) where
  abbrev Known : Pred
  Known = OfJobs (IsKnown jid)

  abbrev Settled : Pred
  Settled = OfJobs (IsSettled jid)

  status-Settled :
      (status : JobStatus)
      → is_pending status ≡ false
      → (w : Worker) → HasStatus jid status w.jobs
      → Settled w
  status-Settled status e w h = OfJob-map _ _ (find_job jid w.jobs) (λ j s. ap is_pending s ∙ e) h

  marked_rule :
      (P : Job → Type 0) (fault : Option Text) (now : ℕ) (status : JobStatus) (message : Text)
      → is_pending status ≡ false
      → Triple
          (OfJobs (λ jobs. OfJob P (find_job jid jobs)))
          (mark_job fault now jid status (some now) (some message))
          (λ u. Settled)
          (OfJobs (λ jobs. OfJob P (find_job jid jobs)))
  marked_rule P fault now status message e =
      strengthen_rule (remark_job_rule P fault now jid status (some now) (some message))
        (λ u. status-Settled status e)

  -- What is asked is what comes back.
  ask_rule :
      (env : BackupEnv) (i : ℕ) (notify : Bool) {A B : Type 0} (at : Call) (a : A) (f : A → M B)
      {P : Pred} {Q : B → Pred}
      → Triple P (f a) Q P
      → Triple P (ask env i jid notify at a >>= f) Q P
  unfolding ask ◌>>=◌ attempt return
  ask_rule env i notify at a f {P = P} {Q = Q} h = record { run = λ w p. go (env.fault at) w p }
    where
      go :
          (o : Option Text) (w : Worker)
          → P w
          → Ends Q P (((attempt o (λ v. v) >>= λ u. return a) >>= f) w)
      go none w p = h.run w p
      go (some e) w p = p

  tested-over :
      (env : BackupEnv) (i : ℕ) (notify ok : Bool) → is_pending (tested env i jid notify ok) ≡ false
  tested-over env i notify true = refl
  tested-over env i notify false = refl

  backup_instance-IsSettled :
      (env : BackupEnv) (i : ℕ) (notify : Bool)
      → Triple Known (backup_instance env i jid notify) (λ ok. Settled) Known
  backup_instance-IsSettled env i notify =
      strengthen_rule (backup_instance-Agrees env i jid notify)
        (λ ok. status-Settled (tested env i jid notify ok) (tested-over env i notify ok))

  test_found-IsSettled :
      (env : BackupEnv) (i : ℕ) (notify : Bool) (snap : Snapshot)
      → Triple Known (test_found env i jid notify (some snap)) (λ ok. Settled) Known
  unfolding test_found probe
  test_found-IsSettled env i notify snap = bind_rule (mark_job_rule _ _ jid running _ _) (λ u.
      assume_rule
        (bind_rule
          ((catch-IsQuiet
              (bind-IsQuiet (ask-IsQuiet env i jid notify authenticating _)
                (λ ok. return-IsQuiet _))
              (λ e. return-IsQuiet _)).keep
            (IsKnown jid))
          (λ answer. bind_rule (mark_job_rule _ _ jid (tested env i jid notify answer.0) _ _) (λ u.
            strengthen_rule
              (weaken_rule
                (bind_rule
                  ((publish-IsQuiet _ _).keep (HasStatus jid (tested env i jid notify answer.0)))
                  (λ u. return_rule answer.0))
                (HasStatus-Known env i jid notify (tested env i jid notify answer.0)))
              (λ ok.
                status-Settled (tested env i jid notify answer.0)
                  (tested-over env i notify answer.0)))))
        (HasStatus-Known env i jid notify running))

  module _ (env : ListenerEnv) where
    owner_found-IsQuiet : (b : ℕ) (o : Option ℕ) → IsQuiet (owner_found env b o)
    owner_found-IsQuiet b none = throw-IsQuiet _
    owner_found-IsQuiet b (some i) = attempt-IsQuiet _ _ (λ w. refl)

    handle_retrieve_replica-IsSettled :
        (b : ℕ) → Triple Known (handle_retrieve_replica env jid b) (λ u. Settled) Known
    unfolding handle_retrieve_replica
    handle_retrieve_replica-IsSettled b =
        bind_rule ((attempt-IsQuiet _ _ (λ w. refl)).keep (IsKnown jid)) (λ u.
          bind_rule (mark_job_rule _ _ jid running _ _) (λ u.
            assume_rule
              (catch_rule
                (bind_rule ((owner_found-IsQuiet b (env.owner b)).keep (IsKnown jid))
                  (λ u. marked_rule (λ j. Unit) _ _ success _ refl))
                (λ e. marked_rule (λ j. Unit) _ _ failure _ refl))
              (known running)))
      where
        known : (status : JobStatus) (w : Worker) → HasStatus jid status w.jobs → Known w
        known status w h = OfJob-map _ _ (find_job jid w.jobs) (λ j e. tt) h

    -- The commands whose handler ends their job: a backup, the retrieval of an object, and the test of a
    -- connection to an instance that is there.
    abbrev pub EndsJob : Command → ℕ → Type 0
    EndsJob run_backup i = Unit
    EndsJob retrieve_replica i = Unit
    EndsJob test_connection i = (snap : Snapshot) × ((env.run i).snapshot ≡ some snap)
    EndsJob _ i = ⊥

    -- What the validation of a payload gives: nothing, or the job that the payload names.
    abbrev pub FitsJob : Command → Option (ℕ × ℕ) → Type 0
    FitsJob c none = Unit
    FitsJob c (some ids) = (ids.0 ≡ jid) × EndsJob c ids.1

    test_connection-IsSettled :
        (run : BackupEnv) (i : ℕ) (notify : Bool) (snap : Snapshot)
        → run.snapshot ≡ some snap
        → Triple Known (test_instance run i jid notify) (λ ok. Settled) Known
    unfolding test_instance
    test_connection-IsSettled run i notify snap e =
        ask_rule run i notify taking_snapshot run.snapshot _ (
          subst (λ o. Triple Known (test_found run i jid notify o) (λ ok. Settled) Known) (sym e)
            (test_found-IsSettled run i notify snap))

    handle-IsSettled :
        (c : Command) (i b : ℕ)
        → EndsJob c i
        → Triple Known (handle env c jid i b) (λ u. Settled) Known
    unfolding handle
    handle-IsSettled run_backup i b h =
        bind_rule (backup_instance-IsSettled (env.run i) i true) (λ ok. return_rule tt)
    handle-IsSettled retrieve_replica i b h = handle_retrieve_replica-IsSettled b
    handle-IsSettled test_connection i b h =
        bind_rule (test_connection-IsSettled (env.run i) i true h.0 h.1) (λ ok. return_rule tt)
    handle-IsSettled _ i b h = absurd h

    dispatch_valid-IsSettled :
        (p : Payload) (o : Option (ℕ × ℕ))
        → env.marking_orphan ≡ none
        → p.job_id ≡ some jid
        → FitsJob p.cmd o
        → Triple Known (dispatch_valid env p o) (λ u. Settled) (λ w. ⊥)
    unfolding dispatch_valid
    dispatch_valid-IsSettled p none f j h =
        rw f (rw j (fail_orphaned_job_rule env.now jid env.rejected))
    dispatch_valid-IsSettled p (some ids) f j h =
        catch_rule (handled (sym h.0) (handle-IsSettled p.cmd ids.1 p.backup_id h.1))
          (λ e. rw f (rw j (fail_orphaned_job_rule env.now jid (env.described e))))
      where
        handled :
            jid ≡ ids.0
            → Triple Known (handle env p.cmd jid ids.1 p.backup_id) (λ u. Settled) Known
            → Triple Known (handle env p.cmd ids.0 ids.1 p.backup_id) (λ u. Settled) Known
        handled e t =
            subst (λ n. Triple Known (handle env p.cmd n ids.1 p.backup_id) (λ u. Settled) Known) e
              t

    -- A dispatched command leaves its job neither queued nor running, whatever its handler raises and
    -- whenever: for a payload that is rejected, a backup, the retrieval of an object, and the test of
    -- a connection to an instance that is there; if the payload names the job of the command, the
    -- job is in the table, and the write of _fail_orphaned_job does not fail. Nothing is raised.
    pub dispatch-IsSettled :
        (p : Payload)
        → env.marking_orphan ≡ none
        → is_unknown env p.cmd ≡ false
        → p.job_id ≡ some jid
        → FitsJob p.cmd (env.is_valid p)
        → Triple Known (dispatch env p) (λ u. Settled) (λ w. ⊥)
    unfolding dispatch
    dispatch-IsSettled p f u j h = rw u (dispatch_valid-IsSettled p (env.is_valid p) f j h)

-- ===== src/Scheduler/Loaded.antt =====
-- worker/scheduler.py: which jobs there are after a reload.
use pfsense_backups.Prelude.{
  ℕ, ◌≡◌, refl, ◌⊎◌, inl, inr, Bool, true, false, not, Option, none, some, List, [], ◌∷◌, arith,
  select, select-All, any, All, Bool-cases, if◌then◌else◌,
}
use pfsense_backups.Store.{Text}
use pfsense_backups.Staleness.{Instance}
use pfsense_backups.Scheduler.{
  instance_job, Scheduled, Checks, same_job, is_instance_job, remove_job, ZoneAnswer, zone_found,
  zone_not_found, zone_error, Left, install, add_or_update, go_on, effective_tz, load_jobs,
  reload_all, reload_instance,
}

abbrev pub is_job_of : ℕ → Scheduled → Bool
is_job_of iid j = same_job j.id (instance_job iid)

module _ (c : Checks) (zone : ℕ → Text) (default_tz : Text) where
  -- The expression is valid, the timezone exists, and the trigger takes both.
  abbrev pub Accepted : Text → Text → Type 0
  Accepted cron tz =
      (c.cron_is_valid cron ≡ true)
      × ((c.zone_info tz ≡ zone_found) × (c.trigger_accepts cron tz ≡ true))

  -- The job of an enabled instance with an expression that is accepted.
  abbrev pub Wanted : Instance → Option Text → Scheduled → Type 0
  Wanted i none j = ⊥
  Wanted i (some cron) j =
      ((i.enabled ≡ true) × Accepted cron (effective_tz zone default_tz i))
      × ((j.id ≡ instance_job i.id) × ((j.cron ≡ cron) × (j.tz ≡ effective_tz zone default_tz i)))

  abbrev pub IsWanted : List Instance → Scheduled → Type 0
  IsWanted [] j = ⊥
  IsWanted (i ∷ is) j = Wanted i i.cron_expression j ⊎ IsWanted is j

  -- A job of another kind, or one that an instance wants.
  abbrev pub IsDue : List Instance → Scheduled → Type 0
  IsDue is j = (is_instance_job j.id ≡ false) ⊎ IsWanted is j

  install-All :
      (P : Scheduled → Type 0) (a : ZoneAnswer) (iid : ℕ) (cron tz : Text) (jobs : List Scheduled)
      → All P jobs
      → (a ≡ zone_found
          → c.trigger_accepts cron tz ≡ true
          → P (record { id = instance_job iid; cron = cron; tz = tz }))
      → All P (install c a iid cron tz jobs).0
  unfolding install remove_job
  install-All P zone_not_found iid cron tz jobs h new = h
  install-All P zone_error iid cron tz jobs h new = h
  install-All P zone_found iid cron tz jobs h new = elim (Bool-cases (c.trigger_accepts cron tz)) [
    | inl e ↦ rw e (new refl e, select-All P _ jobs h)
    | inr e ↦ rw e h
  ]

  add_or_update-All :
      (P : Scheduled → Type 0) (i : Instance) (o : Option Text) (jobs : List Scheduled)
      → i.enabled ≡ true
      → All P jobs
      → ((j : Scheduled) → Wanted i o j → P j)
      → All P (add_or_update c i.id o (effective_tz zone default_tz i) jobs).0
  unfolding add_or_update remove_job
  add_or_update-All P i none jobs on h sub = select-All P _ jobs h
  add_or_update-All P i (some []) jobs on h sub = select-All P _ jobs h
  add_or_update-All P i (some (x ∷ xs)) jobs on h sub =
      let tz = effective_tz zone default_tz i in
      elim (Bool-cases (c.cron_is_valid (x ∷ xs))) [
        | inl e ↦ rw e (
            install-All P (c.zone_info tz) i.id (x ∷ xs) tz jobs h
              λ found taken. sub _ ((on, (e, (found, taken))), (refl, (refl, refl))))
        | inr e ↦ rw e h
      ]

  go_on-All :
      (P : Scheduled → Type 0) (left : Left) (rest : List Scheduled → Left)
      → All P left.0
      → ((jobs : List Scheduled) → All P jobs → All P (rest jobs).0)
      → All P (go_on c zone default_tz left rest).0
  unfolding go_on
  go_on-All P (jobs, true) rest h k = h
  go_on-All P (jobs, false) rest h k = k jobs h

  load_jobs-All :
      (P : Scheduled → Type 0) (is : List Instance) (jobs : List Scheduled)
      → All P jobs
      → ((j : Scheduled) → IsWanted is j → P j)
      → All P (load_jobs c zone default_tz is jobs).0
  unfolding load_jobs
  load_jobs-All P [] jobs h sub = h
  load_jobs-All P (i ∷ is) jobs h sub =
      let later =
        λ (js : List Scheduled) (a : All P js). load_jobs-All P is js a (λ j w. sub j (inr w)) in
      elim (Bool-cases i.enabled) [
        | inl on ↦ rw on (
            go_on-All P
              (add_or_update c i.id i.cron_expression (effective_tz zone default_tz i) jobs)
              (load_jobs c zone default_tz is)
              (add_or_update-All P i i.cron_expression jobs on h (λ j w. sub j (inl w))) later)
        | inr off ↦ rw off (later jobs h)
      ]

  others-All :
      (jobs : List Scheduled)
      → All
          (λ (j : Scheduled). is_instance_job j.id ≡ false)
          (select (λ (j : Scheduled). not (is_instance_job j.id)) jobs)
  others-All [] = tt
  others-All (j ∷ js) = elim (Bool-cases (is_instance_job j.id)) [
    | inl e ↦ rw e (others-All js)
    | inr e ↦ rw e (e, others-All js)
  ]

  -- After `reload_all`, whatever jobs there were and whether or not an exception left it, each job of an instance is that of an enabled
  -- instance with an expression and a timezone that are accepted, and runs by these.
  pub reload_all-IsDue :
      (is : List Instance) (jobs : List Scheduled)
      → All (IsDue is) (reload_all c zone default_tz is jobs).0
  unfolding reload_all
  reload_all-IsDue is jobs =
      load_jobs-All (IsDue is) is (select (λ (j : Scheduled). not (is_instance_job j.id)) jobs)
        (weaken (select (λ (j : Scheduled). not (is_instance_job j.id)) jobs) (others-All jobs))
        (λ j w. inr w)
    where
      weaken :
          (js : List Scheduled)
          → All (λ (j : Scheduled). is_instance_job j.id ≡ false) js
          → All (IsDue is) js
      weaken [] h = tt
      weaken (j ∷ js) h = (inl h.0, weaken js h.1)

  remove_job-gone :
      (iid : ℕ) (jobs : List Scheduled) → any (is_job_of iid) (remove_job iid jobs) ≡ false
  unfolding remove_job
  remove_job-gone iid [] = refl
  remove_job-gone iid (j ∷ js) = elim (Bool-cases (is_job_of iid j)) [
    | inl e ↦ rw e (remove_job-gone iid js)
    | inr e ↦ rw e (rw e (remove_job-gone iid js))
  ]

  -- After `reload_instance` of an instance that is gone, and of one that is disabled or has no cron
  -- expression, no job of it is left.
  pub reload_instance-gone :
      (i : Instance) (jobs : List Scheduled)
      → (i.enabled ≡ false) ⊎ (i.cron_expression ≡ none)
      → (any (is_job_of i.id) (reload_instance c zone default_tz i.id none jobs).0 ≡ false)
        × (any (is_job_of i.id) (reload_instance c zone default_tz i.id (some i) jobs).0 ≡ false)
  unfolding reload_instance add_or_update
  reload_instance-gone i jobs idle =
      (remove_job-gone i.id jobs, go i.enabled i.cron_expression idle)
    where
      go :
          (b : Bool) (o : Option Text)
          → (b ≡ false) ⊎ (o ≡ none)
          → any
              (is_job_of i.id)
              (if b
                then add_or_update c i.id o (effective_tz zone default_tz i) jobs
                else (remove_job i.id jobs, false)).0
            ≡ false
      go false o h = remove_job-gone i.id jobs
      go true o (inl e) = absurd (clash e)
        where
          clash : true ≡ false → ⊥
          clash h = ground arith
      go true o (inr e) = rw e (remove_job-gone i.id jobs)

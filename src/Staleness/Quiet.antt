-- ===== src/Staleness/Quiet.antt =====
-- `check_stale_instances` of worker/staleness.py against a description of it by instance, and the
-- silence after an alert.
use pfsense_backups.Prelude.{
  ℕ, ◌+◌, ◌<◌, ◌≡◌, refl, sym, ap, ◌∙◌, Bool, true, false, not, ◌&&◌, ◌||◌, inl, inr, Option, none,
  some, List, [], ◌∷◌, ◌++◌, arith, map, select, Bool-cases, if◌then◌else◌,
}
use pfsense_backups.Store.{Text, Table}
use pfsense_backups.Staleness.{
  Instance, derive_threshold, last_success, reference, is_stale, recently_notified, renotify, Swept,
  has_cron, notified, judge, check_threshold, cron_of, check_instance, check_all,
  check_stale_instances,
}

module _ (gap : Text → ℕ → Option ℕ) (t : Table) where
  -- The instance is silent for longer than its threshold.
  abbrev pub overdue : ℕ → Instance → Option ℕ → Bool
  overdue now i none = false
  overdue now i (some span) = is_stale now span (reference (last_success i.id t) i.created_at)

  -- An alert is due: scheduled, silent, and no alert in the last day.
  abbrev pub is_due : ℕ → Instance → Bool
  is_due now i =
      (i.enabled && has_cron i)
      && (overdue now i (derive_threshold gap (cron_of i) i.stale_after_hours now)
          && not (recently_notified now i.stale_notified_at))

  abbrev pub after : ℕ → Instance → Instance
  after now i = if is_due now i then notified now i else i

  abbrev OutcomeOf : ℕ → Instance → Bool → Swept → Swept → Type 0
  OutcomeOf now i due st out =
      (out.instances ≡ st.instances ++ (if due then notified now i else i) ∷ [])
      × (out.alerted ≡ st.alerted ++ (if due then i.id ∷ [] else []))

  append_nil : {A : Type 0} (xs : List A) → xs ++ [] ≡ xs
  append_nil [] = refl
  append_nil (x ∷ xs) = ap (λ l. x ∷ l) (append_nil xs)

  append_assoc : {A : Type 0} (xs ys zs : List A) → (xs ++ ys) ++ zs ≡ xs ++ (ys ++ zs)
  append_assoc [] ys zs = refl
  append_assoc (x ∷ xs) ys zs = ap (λ l. x ∷ l) (append_assoc xs ys zs)

  judge-due :
      (now : ℕ) (i : Instance) (stale : Bool) (st : Swept)
      → OutcomeOf now i
          (stale && not (recently_notified now i.stale_notified_at))
          st
          (judge gap t now i stale st)
  unfolding judge
  judge-due now i true st = elim (Bool-cases (recently_notified now i.stale_notified_at)) [
    | inl e ↦ rw e (refl, sym (append_nil st.alerted))
    | inr e ↦ rw e (refl, refl)
  ]
  judge-due now i false st = (refl, sym (append_nil st.alerted))

  threshold-due :
      (now : ℕ) (i : Instance) (o : Option ℕ) (st : Swept)
      → OutcomeOf now i
          (overdue now i o && not (recently_notified now i.stale_notified_at))
          st
          (check_threshold gap t now i o st)
  unfolding check_threshold
  threshold-due now i none st = (refl, sym (append_nil st.alerted))
  threshold-due now i (some span) st =
      judge-due now i (is_stale now span (reference (last_success i.id t) i.created_at)) st

  instance-due :
      (now : ℕ) (i : Instance) (st : Swept)
      → OutcomeOf now i (is_due now i) st (check_instance gap t now i st)
  unfolding check_instance
  instance-due now i st =
      let o = derive_threshold gap (cron_of i) i.stale_after_hours now in
      gated i.enabled (has_cron i)
        (overdue now i o && not (recently_notified now i.stale_notified_at))
        (check_threshold gap t now i o st) (threshold-due now i o st)
    where
      gated :
          (on cron due : Bool) (active : Swept)
          → OutcomeOf now i due st active
          → OutcomeOf now i ((on && cron) && due) st (
              if not on || not cron
              then record st {
                instances = st.instances ++ i ∷ [];
                gauges = (i.name, false) ∷ st.gauges;
              }
              else active)
      gated true true due active h = h
      gated true false due active h = (refl, sym (append_nil st.alerted))
      gated false cron due active h = (refl, sym (append_nil st.alerted))

  check_all-due :
      (now : ℕ) (is : List Instance) (st : Swept)
      → ((check_all gap t now is st).instances ≡ st.instances ++ map (after now) is)
        × ((check_all gap t now is st).alerted
            ≡ st.alerted ++ map (λ i. i.id) (select (is_due now) is))
  unfolding check_all
  check_all-due now [] st = (sym (append_nil st.instances), sym (append_nil st.alerted))
  check_all-due now (i ∷ is) st =
      let next = check_instance gap t now i st in
      let (ei, ea) = instance-due now i st in
      let (ri, ra) = check_all-due now is next in
      (
        ri
            ∙ (ap (λ l. l ++ map (after now) is) ei
                ∙ append_assoc st.instances (after now i ∷ []) (map (after now) is)),
        ra
            ∙ (ap (λ l. l ++ map (λ x. x.id) (select (is_due now) is)) ea
                ∙ alerted (is_due now i) (select (is_due now) is)),
      )
    where
      alerted :
          (due : Bool) (rest : List Instance)
          → (st.alerted ++ (if due then i.id ∷ [] else [])) ++ map (λ x. x.id) rest
            ≡ st.alerted ++ map (λ x. x.id) (if due then i ∷ rest else rest)
      alerted true rest = append_assoc st.alerted (i.id ∷ []) (map (λ x. x.id) rest)
      alerted false rest = ap (λ l. l ++ map (λ x. x.id) rest) (append_nil st.alerted)

  -- A sweep alerts exactly the instances for which an alert is due, in their order, and changes
  -- nothing of an instance but the instant of its alert.
  pub check_stale_instances-due :
      (now : ℕ) (is : List Instance)
      → ((check_stale_instances gap t now is).alerted ≡ map (λ i. i.id) (select (is_due now) is))
        × ((check_stale_instances gap t now is).instances ≡ map (after now) is)
  unfolding check_stale_instances
  check_stale_instances-due now is =
      let (ei, ea) = check_all-due now is (record { instances = []; gauges = []; alerted = [] }) in
      (ea, ei)

  due_again :
      (now later : ℕ) (i : Instance)
      → later < now + renotify
      → is_due later (after now i) ≡ (is_due later i && not (is_due now i))
  unfolding recently_notified
  due_again now later i soon = elim (Bool-cases (is_due now i)) [
    | inl e ↦ rw e (ground arith)
    | inr e ↦ rw e (ground arith)
  ]

  select-after :
      (now later : ℕ) (is : List Instance)
      → later < now + renotify
      → map (λ i. i.id) (select (is_due later) (map (after now) is))
        ≡ map (λ i. i.id) (select (λ i. is_due later i && not (is_due now i)) is)
  select-after now later [] soon = refl
  select-after now later (i ∷ is) soon =
      let rest = select-after now later is soon in
      rw (due_again now later i soon) (elim (Bool-cases (is_due now i)) [
        | inl e ↦ rw e (ground (arith, rest))
        | inr e ↦ rw e (same (is_due later i) rest)
      ])
    where
      same :
          (due : Bool)
          → map (λ x. x.id) (select (is_due later) (map (after now) is))
            ≡ map (λ x. x.id) (select (λ x. is_due later x && not (is_due now x)) is)
          → map
              (λ x. x.id)
              (if due && true
                then i ∷ select (is_due later) (map (after now) is)
                else select (is_due later) (map (after now) is))
            ≡ map
                (λ x. x.id)
                (if due && true
                  then i ∷ select (λ x. is_due later x && not (is_due now x)) is
                  else select (λ x. is_due later x && not (is_due now x)) is)
      same true h = ap (λ l. i.id ∷ l) h
      same false h = h

  -- A second sweep less than a day after the first, over the same backups, alerts only the instances
  -- for which an alert is due and was not yet due at the first: nobody is alerted twice within a day.
  pub check_stale_instances-twice :
      (now later : ℕ) (is : List Instance)
      → later < now + renotify
      → (check_stale_instances gap t later (check_stale_instances gap t now is).instances).alerted
        ≡ map (λ i. i.id) (select (λ i. is_due later i && not (is_due now i)) is)
  check_stale_instances-twice now later is soon =
      let (a, e) = check_stale_instances-due now is in
      let (a', e') =
        check_stale_instances-due later (check_stale_instances gap t now is).instances in
      a' ∙ rw e (select-after now later is soon)

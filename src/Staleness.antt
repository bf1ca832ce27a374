-- ===== src/Staleness.antt =====
-- worker/staleness.py: which instances have been silent for too long. Instants and spans are
-- microseconds; a threshold is a span.
pub mod Quiet
mod Examples
use pfsense_backups.Prelude.{
  ℕ, ◌+◌, ◌*◌, Bool, true, false, not, ◌&&◌, ◌||◌, Option, none, some, List, [], ◌∷◌, ◌++◌, ltb,
  leb, ◌==◌, if◌then◌else◌, ◌-◌,
}
use pfsense_backups.Store.{Text, Row, Table}

pub record Instance : Type 0 where
  pub id : ℕ
  pub name : Text
  pub enabled : Bool
  pub cron_expression : Option Text
  pub stale_after_hours : Option ℕ
  pub created_at : Option ℕ
  pub stale_notified_at : Option ℕ

abbrev pub hour_us : ℕ
hour_us = 3600 * 1000000

abbrev pub renotify : ℕ
renotify = 24 * hour_us

abbrev pub floor : ℕ
floor = 1 * hour_us

abbrev pub larger : ℕ → ℕ → ℕ
larger m n = if leb m n then n else m

-- `derive_threshold_hours`; `gap` is the span between the next two fires, which croniter gives for a
-- valid expression.
unfoldable pub derive_threshold : (Text → ℕ → Option ℕ) → Text → Option ℕ → ℕ → Option ℕ
derive_threshold gap cron (some hours) now = some (hours * hour_us)
derive_threshold gap cron none now = elim (gap cron now) [
  | none ↦ none
  | some span ↦ some (larger (span * 2) floor)
]

-- `select(func.max(Backup.started_at))` over the successful rows of the instance.
unfoldable pub last_success : ℕ → Table → Option ℕ
last_success iid [] = none
last_success iid (r ∷ rs) =
    let rest = last_success iid rs in
    if r.instance_id == iid && r.success
    then elim rest [ none ↦ some r.started_at | some m ↦ some (larger r.started_at m) ]
    else rest

-- `last_ok or inst.created_at`
abbrev pub reference : Option ℕ → Option ℕ → Option ℕ
reference (some t) created = some t
reference none created = created

-- `reference is None or now - reference > threshold`
unfoldable pub is_stale : ℕ → ℕ → Option ℕ → Bool
is_stale now threshold none = true
is_stale now threshold (some t) = ltb (t + threshold) now

-- `notified is not None and now - notified < 24h`
unfoldable pub recently_notified : ℕ → Option ℕ → Bool
recently_notified now none = false
recently_notified now (some t) = ltb now (t + renotify)

-- What a sweep leaves: the gauges that it set, newest first, and the ids alerted, in order.
pub record Swept : Type 0 where
  pub instances : List Instance
  pub gauges : List (Text × Bool)
  pub alerted : List ℕ

abbrev pub has_cron : Instance → Bool
has_cron i = elim i.cron_expression [ none ↦ false | some [] ↦ false | some (c ∷ cs) ↦ true ]

abbrev pub cron_of : Instance → Text
cron_of i = elim i.cron_expression [ none ↦ [] | some c ↦ c ]

abbrev pub notified : ℕ → Instance → Instance
notified now i = record i { stale_notified_at = some now }

module _ (gap : Text → ℕ → Option ℕ) (t : Table) (now : ℕ) where
  abbrev pub keep : Instance → Swept → Swept
  keep i st = record st { instances = st.instances ++ i ∷ [] }

  -- The instance's gauge, and the alert unless one was sent within a day; a notification that raises
  -- is logged, and counts as sent.
  unfoldable pub judge : Instance → Bool → Swept → Swept
  unfolding recently_notified
  judge i stale st =
      let silent = record st {
        instances = st.instances ++ i ∷ [];
        gauges = (i.name, stale) ∷ st.gauges;
      } in
      let alerted = record st {
        instances = st.instances ++ notified now i ∷ [];
        gauges = (i.name, stale) ∷ st.gauges;
        alerted = st.alerted ++ i.id ∷ [];
      } in
      if not stale || recently_notified now i.stale_notified_at then silent else alerted

  unfoldable pub check_threshold : Instance → Option ℕ → Swept → Swept
  unfolding judge is_stale last_success
  check_threshold i none st = keep i st
  check_threshold i (some span) st =
      judge i (is_stale now span (reference (last_success i.id t) i.created_at)) st

  unfoldable pub check_instance : Instance → Swept → Swept
  unfolding check_threshold derive_threshold
  check_instance i st =
      let active =
        check_threshold i (derive_threshold gap (cron_of i) i.stale_after_hours now) st in
      if not i.enabled || not (has_cron i)
      then record st { instances = st.instances ++ i ∷ []; gauges = (i.name, false) ∷ st.gauges }
      else active

  unfoldable pub check_all : List Instance → Swept → Swept
  unfolding check_instance
  check_all [] st = st
  check_all (i ∷ is) st = check_all is (check_instance i st)

  -- The sweep, with metrics.
  unfoldable pub check_stale_instances : List Instance → Swept
  unfolding check_all
  check_stale_instances is = check_all is (record { instances = []; gauges = []; alerted = [] })

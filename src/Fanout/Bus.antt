-- ===== src/Fanout/Bus.antt =====
-- `EventBus` of web/services/event_bus.py. An instant is a number of microseconds of the monotonic
-- clock.
use pfsense_backups.Prelude.{
  ℕ, ◌+◌, ◌≤◌, ◌<◌, ◌≡◌, refl, ◌∙◌, Bool, false, ◌&&◌, ◌||◌, List, [], ◌∷◌, arith, ltb, ◌==◌, any,
  if◌then◌else◌,
}
use pfsense_backups.Store.{Text}
use pfsense_backups.Replication.{codes}
use pfsense_backups.Prelude.{text_eq}
use pfsense_backups.Fanout.{Hub, fan_out}

-- A dict, in order of insertion.
abbrev pub Payload : Type 0
Payload = List (Text × Text)

-- `d[k] = v`
unfoldable pub put : Text → Text → Payload → Payload
put k v [] = (k, v) ∷ []
put k v (e ∷ es) = let rest = put k v es in if text_eq e.0 k then (k, v) ∷ es else e ∷ rest

-- `{"topic": topic, **payload}`
unfoldable pub envelope : Text → Payload → Payload
unfolding put
envelope topic payload = merged payload ((codes "topic", topic) ∷ [])
  where
    merged : Payload → Payload → Payload
    merged [] acc = acc
    merged (e ∷ es) acc = merged es (put e.0 e.1 acc)

pub record EventBus : Type 0 where
  pub hub : Hub Payload
  pub last_heartbeat : ℕ
  pub heartbeat_timeout : ℕ

abbrev pub bus_capacity : ℕ
bus_capacity = 256

abbrev pub is_heartbeat : Text → Bool
is_heartbeat topic = text_eq topic (codes "worker.heartbeat")

unfoldable pub publish : ℕ → Text → Payload → EventBus → EventBus
unfolding envelope fan_out
publish now topic payload bus = record bus {
  hub = fan_out bus_capacity (envelope topic payload) bus.hub;
  last_heartbeat = if is_heartbeat topic then now else bus.last_heartbeat;
}

-- `now - last < timeout`, written without the subtraction.
unfoldable pub worker_alive : ℕ → EventBus → Bool
worker_alive now bus =
    if bus.last_heartbeat == 0 then false else ltb now (bus.last_heartbeat + bus.heartbeat_timeout)

pub record Event : Type 0 where
  pub at : ℕ
  pub topic : Text
  pub payload : Payload

abbrev pub publish_all : List Event → EventBus → EventBus
publish_all [] bus = bus
publish_all (e ∷ es) bus = publish_all es (publish e.at e.topic e.payload bus)

-- The events come at positive instants that never go back, from `start` on.
abbrev pub IsAscending : ℕ → List Event → Type 0
IsAscending start [] = Unit
IsAscending start (e ∷ es) = (0 < e.at) × (start ≤ e.at) × IsAscending e.at es

abbrev pub is_recent_heartbeat : ℕ → ℕ → Event → Bool
is_recent_heartbeat now timeout e = is_heartbeat e.topic && ltb now (e.at + timeout)

publish-timeout :
    (e : Event) (bus : EventBus)
    → ((publish e.at e.topic e.payload bus).heartbeat_timeout ≡ bus.heartbeat_timeout)
      × ((publish e.at e.topic e.payload bus).last_heartbeat
          ≡ (if is_heartbeat e.topic then e.at else bus.last_heartbeat))
unfolding publish
publish-timeout e bus = (refl, refl)

alive_after :
    (now start : ℕ) (es : List Event) (bus : EventBus)
    → IsAscending start es
    → bus.last_heartbeat ≤ start
    → worker_alive now (publish_all es bus)
      ≡ (worker_alive now bus || any (is_recent_heartbeat now bus.heartbeat_timeout) es)
unfolding worker_alive
alive_after now start [] bus asc le = ground arith
alive_after now start (e ∷ es) bus asc le =
    let (t, l) = publish-timeout e bus in
    let next = publish e.at e.topic e.payload bus in
    alive_after now e.at es next asc.2 (ground (arith, asc.1))
    ∙ rw (t, l) (ground (arith, asc.0, asc.1))

-- Over a bus that has seen no heartbeat, and events at instants that never go back, the worker is
-- reported alive exactly if one of the events was a heartbeat less than the timeout ago.
pub worker_alive-any :
    (now : ℕ) (es : List Event) (bus : EventBus)
    → bus.last_heartbeat ≡ 0
    → IsAscending 0 es
    → worker_alive now (publish_all es bus) ≡ any (is_recent_heartbeat now bus.heartbeat_timeout) es
unfolding worker_alive
worker_alive-any now es bus idle asc = alive_after now 0 es bus asc (omega (arith, idle)) ∙ silent
  where
    silent :
        (worker_alive now bus || any (is_recent_heartbeat now bus.heartbeat_timeout) es)
        ≡ any (is_recent_heartbeat now bus.heartbeat_timeout) es
    silent = ground (arith, idle)

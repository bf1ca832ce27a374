-- ===== src/Fanout/Examples.antt =====
-- A hub with two clients, on which the results about the fan-out are applied.
use pfsense_backups.Prelude.{
  ℕ, zero, suc, ◌≤◌, ◌≡◌, refl, ◌⊎◌, false, List, [], ◌∷◌, ◌++◌, arith, elem, length, any,
}
use pfsense_backups.Replication.{codes}
use pfsense_backups.Fanout.{Hub, fan_out, subscribe}
use pfsense_backups.Fanout.Runs.{Op, event, join, read_one, run, start, run_complete}
use pfsense_backups.Fanout.Bus.{
  EventBus, Event, publish_all, is_recent_heartbeat, worker_alive, worker_alive-any,
}
use pfsense_backups.Fanout.Ring.{LogRing, stopping}

-- Queue 0 is full, queue 1 has room, queue 2 is not subscribed.
abbrev contents : ℕ → List ℕ
contents zero = 5 ∷ 6 ∷ []
contents (suc _) = 5 ∷ []

abbrev hub : Hub ℕ
hub = record { contents = contents; subscribers = 0 ∷ 1 ∷ []; fresh = 3 }

abbrev story : List (Op ℕ)
story = join ∷ event 4 ∷ join ∷ event 5 ∷ read_one 0 ∷ event 6 ∷ event 7 ∷ []

slow_client_dropped : elem 0 (run 2 story (start 2)).hub.subscribers ≡ false
unfolding fan_out subscribe
slow_client_dropped = refl

run_complete_example :
    (length ((run 2 story (start 2)).hub.contents 1) ≤ 2)
    × ((elem 1 (run 2 story (start 2)).hub.subscribers ≡ false)
        ⊎ ((run 2 story (start 2)).taken 1 ++ (run 2 story (start 2)).hub.contents 1
            ≡ (run 2 story (start 2)).published 1))
run_complete_example = run_complete 2 story 1

abbrev events : List Event
events =
    record { at = 10; topic = codes "worker.heartbeat"; payload = [] }
    ∷ record { at = 12; topic = codes "backup.started"; payload = [] }
    ∷ []

abbrev bus : EventBus
bus = record {
  hub = record { contents = λ q. []; subscribers = []; fresh = 0 };
  last_heartbeat = 0;
  heartbeat_timeout = 15;
}

worker_alive-any_example :
    worker_alive 20 (publish_all events bus) ≡ any (is_recent_heartbeat 20 15) events
worker_alive-any_example =
    worker_alive-any 20 events bus refl (omega arith, omega arith, (omega arith, omega arith, tt))

abbrev ring : LogRing ℕ
ring = record { buf = []; maxlen = 2; hub = hub; loop = stopping; waiting = [] }

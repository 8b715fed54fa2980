-- ===== src/Examples/Services.antt =====
-- The RPC core, the handlers of the datastore's requests, and the event bus.
use e_roole.Prelude.{
  ℕ, ◌%◌, ◌^◌, ◌≡◌, ◌⊎◌, refl, true, false, List, [], ◌∷◌, ◌++◌, Option, none, some, if◌then◌else◌,
  arith, Bool,
}
use e_roole.Wire.Word.{write_u32}
use e_roole.Slots.{find_slot}
use e_roole.Core.Services.{ServiceEntry, add_service, find_service}
use e_roole.Core.Services.Map.{find_service-add_service}
use e_roole.Metrics.{
  MetricType, counter, gauge, Label, Metric, MetricsRegistry, labels_match, copy_labels,
  find_or_create,
}
use e_roole.Metrics.Lookup.{Untouched, find_or_create-again}
use e_roole.Raft.Datastore.Execute.{execute_set, write_value}
use e_roole.Raft.Datastore.Table.{find_record, find_free_slot, strings_equal}
use e_roole.Node.Datastore.{KvNode, success, handle_kv_get}
use e_roole.Node.Datastore.Requests.{key_request, handle_kv_get-execute_set}
use e_roole.Core.Queue.{Queue, init}
use e_roole.Core.Queue.Fifo.{init-Valid, queue_run, list_run, queue_run-list_run}
use e_roole.Core.Events.{
  add_subscriber, Bus, Event, subscribe, dispatch, create, publish, publish_sync,
}
use e_roole.Core.Events.Calls.{Inserted, subscribe-dispatch}
use e_roole.Cluster.View.{alive, dead, worker}
use e_roole.Node.Pool.{Peer, Pool, select_round_robin}
use e_roole.Node.Pool.RoundRobin.{Chosen, AllIdle, select_round_robin-outcome}
use e_roole.Examples.Data.{leading, key_b, store}

abbrev kv_node : KvNode
kv_node = record { raft = leading; store = store; has_raft = true; has_datastore = true }

abbrev stored_node : KvNode
stored_node = record kv_node { store = (execute_set key_b (6 ∷ 7 ∷ []) (λ n. true) 1 2 store).1 }

handle_kv_get-execute_set_example :
    (handle_kv_get stored_node (key_request key_b) (λ n. true) (λ n. true)).0
    ≡ success (1 ∷ (write_u32 (2 % 2 ^ 32) ++ (6 ∷ 7 ∷ [])))
unfolding execute_set find_record find_free_slot find_slot write_value strings_equal
handle_kv_get-execute_set_example =
    handle_kv_get-execute_set stored_node key_b (6 ∷ 7 ∷ []) (λ n. true) (λ n. true) (λ n. true) 1 2
      store refl (omega arith, tt) (omega arith) refl refl refl refl refl

-- A queue of two cells is filled, refuses an event, hands two out, and goes round.
abbrev two_cells : Queue ℕ
two_cells = init 0 2

abbrev ops : List (Option ℕ)
ops = some 5 ∷ some 6 ∷ some 7 ∷ none ∷ some 8 ∷ none ∷ none ∷ none ∷ []

queue_run-list_run_example : queue_run two_cells ops ≡ list_run 2 [] ops
unfolding init
queue_run-list_run_example = queue_run-list_run two_cells ops (init-Valid 0 2 (omega arith))

abbrev event_of : ℕ → Event
event_of type = record { type = type; timestamp_ms = 0; source_node_id = 1; data_bytes = [] }

-- A bus on which handler 700 is subscribed to events of type 1.
abbrev bus_with : Bus
bus_with = (subscribe create 1 700 3).1

subscribe-dispatch_example :
    Inserted (700, 3) (dispatch create (event_of 1)).0 (dispatch bus_with (event_of 1)).0
    × ((dispatch bus_with (event_of 2)).0 ≡ (dispatch create (event_of 2)).0)
unfolding create subscribe find_slot add_subscriber
subscribe-dispatch_example =
    subscribe-dispatch create bus_with 700 3 (event_of 1) (event_of 2) refl refl (omega arith)

abbrev published_twice : List (ℕ × ℕ) × Bus
published_twice = publish_sync (publish bus_with (event_of 2)).1 (event_of 1)

abbrev pool_peer : ℕ → ℕ → Peer
pool_peer id status = record {
  node_id = id;
  node_type = worker;
  ip = [];
  gossip_port = 7000;
  data_port = 7001;
  status = status;
  active_executions = 0;
  load_score = 0;
  last_seen_ms = 10;
  data_channel = none;
  capabilities = record { has_ingress = 0; can_execute = 1; can_route = 1 };
}

abbrev pool : Pool
pool = record { peers = pool_peer 2 dead ∷ pool_peer 3 alive ∷ pool_peer 4 dead ∷ []; capacity = 8 }

select_round_robin-outcome_example :
    Chosen pool.peers (select_round_robin pool 5).0
    ⊎ (((select_round_robin pool 5).0 ≡ 0) × AllIdle pool.peers)
select_round_robin-outcome_example = select_round_robin-outcome pool 5 (omega arith) (omega arith)

abbrev services : List ServiceEntry
services =
    record { name = 97 ∷ []; service_ptr = 3; active = true }
    ∷ record { name = []; service_ptr = 0; active = false }
    ∷ []

abbrev services_added : List ServiceEntry
services_added =
    record { name = 97 ∷ []; service_ptr = 3; active = true }
    ∷ record { name = 98 ∷ []; service_ptr = 5; active = true }
    ∷ []

services_add : add_service services (98 ∷ []) 5 ≡ some services_added
unfolding add_service find_slot strings_equal
services_add = refl

find_service-add_service_example :
    find_service services_added (98 ∷ [])
    ≡ (if strings_equal (98 ∷ []) (98 ∷ []) then 5 else find_service services (98 ∷ []))
find_service-add_service_example =
    find_service-add_service services services_added (98 ∷ []) (98 ∷ []) 5 services_add
      (omega arith)

abbrev metric_of : ℕ → MetricType → List Label → Bool → Metric
metric_of name type labels active = record {
  name = name ∷ [];
  help = [];
  type = type;
  labels = labels;
  value = 0;
  active = active;
}

abbrev zone : List Label
zone = record { name = 122 ∷ []; value = 49 ∷ [] } ∷ []

abbrev some_metrics : MetricsRegistry
some_metrics = record {
  metrics = metric_of 97 counter [] true ∷ metric_of 0 gauge [] false ∷ [];
  count = 1;
}

abbrev more_metrics : MetricsRegistry
more_metrics = record {
  metrics = metric_of 97 counter [] true ∷ metric_of 97 counter zone true ∷ [];
  count = 2;
}

zone_created : find_or_create some_metrics (97 ∷ []) [] counter zone ≡ (some 1, more_metrics)
unfolding find_or_create find_slot strings_equal labels_match copy_labels
zone_created = refl

find_or_create-again_example :
    (find_or_create more_metrics (97 ∷ []) (104 ∷ []) gauge zone ≡ (some 1, more_metrics))
    × Untouched some_metrics.metrics more_metrics.metrics
find_or_create-again_example =
    find_or_create-again some_metrics more_metrics (97 ∷ []) [] (104 ∷ []) counter gauge zone 1
      zone_created (omega arith) (record { name = omega arith; value = omega arith }, tt)

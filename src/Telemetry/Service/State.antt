-- ===== src/Telemetry/Service/State.antt =====
-- src/kinda-sdn/telemetry/service.go: what the service keeps, and the capability update made from it.
use k8s_inc.Prelude.{ℕ, String, Option, none, List, [], ◌∷◌, map, ℕ_eq, String_eq}
use k8s_inc.Prelude.Int.{ℤ, pos, ◌-ℤ◌, ℤ_eq}
use k8s_inc.Model.Graph.{Topology}
use k8s_inc.Telemetry.ChangeLog.{
  CounterName, transit_state_counter, sink_state_counter, raporting_state_counter,
  activate_source_counter, configure_source_counter,
}
use k8s_inc.Telemetry.Counter.{
  StateCounter, new_state_counter, add_device, take_per_device_number_of_entries_snapshot,
}
use k8s_inc.Telemetry.Entities.{TelemetryEntities}
use k8s_inc.Telemetry.Pool.{CollectionIdPool, new_pool, get_if_any_allocated}
use k8s_inc.Telemetry.Request.{get_switch_ids}
use k8s_inc.Telemetry.Service.Locks.{IntentLocks}

abbrev pub collection_id_pool_size : ℕ
collection_id_pool_size = 128

pub record IntentState : Type 0 where
  pub entities : TelemetryEntities
  pub collection_id : String
  pub collector_node_name : String
  pub collector_port : ℤ

pub record Counters : Type 0 where
  pub transit_state : StateCounter
  pub sink_state : StateCounter
  pub raporting_state : StateCounter
  pub activate_source : StateCounter
  pub configure_source : StateCounter

-- `last_update` is the queue of the capability monitor: NotifyChanged replaces what is in it.
pub record TelemetryService : Type 0 where
  pub intent_locks : IntentLocks
  pub counters : Counters
  pub collection_id_pool : CollectionIdPool
  pub intent_state : List (String × IntentState)
  pub last_update : Option (List (String × ℤ))

abbrev new_counters : Counters
new_counters = record {
  transit_state = new_state_counter;
  sink_state = new_state_counter;
  raporting_state = new_state_counter;
  activate_source = new_state_counter;
  configure_source = new_state_counter;
}

unfoldable pub new_service : TelemetryService
new_service = record {
  intent_locks = [];
  counters = new_counters;
  collection_id_pool = new_pool collection_id_pool_size;
  intent_state = [];
  last_update = none;
}

abbrev pub counter_of : CounterName → Counters → StateCounter
counter_of transit_state_counter c = c.transit_state
counter_of sink_state_counter c = c.sink_state
counter_of raporting_state_counter c = c.raporting_state
counter_of activate_source_counter c = c.activate_source
counter_of configure_source_counter c = c.configure_source

abbrev pub with_counter : CounterName → StateCounter → Counters → Counters
with_counter transit_state_counter s c = record c { transit_state = s }
with_counter sink_state_counter s c = record c { sink_state = s }
with_counter raporting_state_counter s c = record c { raporting_state = s }
with_counter activate_source_counter s c = record c { activate_source = s }
with_counter configure_source_counter s c = record c { configure_source = s }

-- the loop of InitDevices, over the map of switch ids
unfoldable pub add_to_counters : List (String × ℤ) → Counters → Counters
add_to_counters [] c = c
add_to_counters ((name, id) ∷ rest) c = add_to_counters rest (record {
  transit_state = add_device name c.transit_state;
  sink_state = add_device name c.sink_state;
  raporting_state = add_device name c.raporting_state;
  activate_source = add_device name c.activate_source;
  configure_source = add_device name c.configure_source;
})

unfoldable pub init_devices : Topology → TelemetryService → TelemetryService
unfolding add_to_counters
init_devices topo t = record t { counters = add_to_counters (get_switch_ids topo) t.counters }

abbrev pub capacity : ℤ
capacity = pos 127

abbrev pub remaining : String × ℤ → String × ℤ
remaining (name, taken) = (name, capacity -ℤ taken)

unfoldable pub create_capability_update : Counters → List (String × ℤ)
create_capability_update c =
    map remaining (take_per_device_number_of_entries_snapshot c.configure_source)

unfoldable pub get_collection_id_num : String → TelemetryService → Option ℕ
get_collection_id_num id t = get_if_any_allocated id t.collection_id_pool

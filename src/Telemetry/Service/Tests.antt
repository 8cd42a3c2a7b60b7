-- ===== src/Telemetry/Service/Tests.antt =====
-- The service on a small network.
use k8s_inc.Prelude.{
  ℕ, zero, suc, ◌+◌, ◌-◌, ◌*◌, ◌/◌, ◌%◌, ◌^◌, ◌≤◌, ◌<◌, String, ◌≡◌, refl, sym, ap, ◌∙◌, subst, ◌≢◌,
  ◌↔◌, ◌⊎◌, inl, inr, Bool, true, false, not, ◌&&◌, ◌||◌, Option, none, some, List, [], ◌∷◌, ◌++◌,
  map, arith, ltb, leb, if◌then◌else◌, ltb→lt, lt→ltb, leb→le, le→leb, Bool-cases, Option-cases, Eq,
  ◌==◌, ℕ_eq, String_eq, contains, add, remove, contains-add, contains-remove, add_not_empty,
  remove_empty, contains_empty, same_refl, is_some, length, is_empty, get_elem?, replicate,
  find_index, update_at, count_if, length-append, length-update_at, length-replicate, count_if-le,
  get_elem?-update_at, count_if-update_at, find_index_hit, find_index_first, find_index_miss,
  get_elem?-lt, update_at_all, find_index-update_at, take, take-suc, take-append, get_elem?_of_lt,
}
use k8s_inc.Prelude.Int.{pos, negsuc, ◌+ℤ◌, ◌-ℤ◌, ℤ_eq}
use k8s_inc.Prelude.Maps.{
  lookup, insert, erase, has, IsMap, lookup-insert, lookup-erase, length-insert, length-erase,
  IsMap-insert, IsMap-erase, erase_absent,
}
use k8s_inc.Model.Graph.{topology_to_graph}
use k8s_inc.Telemetry.ChangeLog.{
  ChangeLog, StateChangeAction, new_create_action, sink_state_counter,
}
use k8s_inc.Telemetry.ChangeLog.Commit.{Ran}
use k8s_inc.Telemetry.Config.{configure_transit_key, transit}
use k8s_inc.Telemetry.Counter.{CounterError}
use k8s_inc.Telemetry.Entities.{TelemetryEntities, new_telemetry_entities}
use k8s_inc.Telemetry.Entries.{ConfigEntries}
use k8s_inc.Telemetry.Pool.{get_if_allocated}
use k8s_inc.Telemetry.Request.{get_switch_ids}
use k8s_inc.Telemetry.Sample.{topology, request, registry, accept}
use k8s_inc.Telemetry.Service.{
  ConfigureTelemetryResponse, configure_telemetry, configured, in_progress, remove_intent,
  disable_telemetry,
}
use k8s_inc.Telemetry.Service.Apply.{apply_change, commit}
use k8s_inc.Telemetry.Service.Answers.{
  configure_telemetry_releases, configure_telemetry_stores, configure_telemetry-IsConsistent,
}
use k8s_inc.Telemetry.Service.Commit.{
  CountersCounted, init_devices-CountersCounted, commit-CountersCounted, capability_is_remaining,
}
use k8s_inc.Telemetry.Service.Configure.{IsReleased, IsStored}
use k8s_inc.Telemetry.Service.Consistent.{
  IsConsistent, init_devices-IsConsistent, new_service-IsConsistent,
}
use k8s_inc.Telemetry.Service.Disable.{HasRun, remove_intent_ends}
use k8s_inc.Telemetry.Service.Locks.{
  IntentLocks, lock_intent, try_lock_intent_if_exists, lock_intent_exclusive,
  try_lock_never_creates,
}
use k8s_inc.Telemetry.Service.Reachable.{
  Reachable, initial, then_step, configures, initializes, Reachable-is_allocated,
}
use k8s_inc.Telemetry.Service.State.{
  TelemetryService, IntentState, Counters, new_service, init_devices, create_capability_update,
}
use k8s_inc.Telemetry.Traversals.{find_telemetry_entities_for_request}

abbrev intent : String
intent = "intent"

abbrev other_intent : String
other_intent = "other"

abbrev locks_none : IntentLocks
locks_none = []

abbrev started : TelemetryService
started = init_devices topology new_service

abbrev service_of : Option (ConfigureTelemetryResponse × (TelemetryService × ℕ)) → TelemetryService
service_of none = started
service_of (some (r, (t, w))) = t

abbrev first_answer : Option (ConfigureTelemetryResponse × (TelemetryService × ℕ))
first_answer = configure_telemetry accept accept registry request topology started 0

-- all seven table entries are written
first_answer_is_ok : first_answer ≡ some (configured, (service_of first_answer, 7))
unfolding k8s_inc.Prelude.find_index k8s_inc.Prelude.add k8s_inc.Prelude.Maps.lookup
    k8s_inc.Prelude.Maps.insert k8s_inc.Model.Devices.must_get_link_to
    k8s_inc.Model.Graph.topology_to_graph k8s_inc.Model.Program.implements
    k8s_inc.Programs.implements k8s_inc.Telemetry.Counter.add_device
    k8s_inc.Telemetry.Counter.increment_and_run_on_transition_to_one
    k8s_inc.Telemetry.ChangeLog.commit k8s_inc.Telemetry.Dfs.run_dfs
    k8s_inc.Telemetry.Entities.entities_empty
    k8s_inc.Telemetry.Entries.get_entries_for_telemetry_entities
    k8s_inc.Telemetry.Entries.make_apply_changelog k8s_inc.Telemetry.Pool.new_pool
    k8s_inc.Telemetry.Pool.alloc_or_get k8s_inc.Telemetry.Request.get_source_device_names
    k8s_inc.Telemetry.Request.get_target_device_names k8s_inc.Telemetry.Request.requires_tunneling
    k8s_inc.Telemetry.Request.get_source_details k8s_inc.Telemetry.Request.get_target_details
    k8s_inc.Telemetry.Request.get_switch_ids
    k8s_inc.Telemetry.Traversals.find_port_leading_to_device
    k8s_inc.Telemetry.Traversals.compatible_at
    k8s_inc.Telemetry.Traversals.find_telemetry_entities_for_request
    k8s_inc.Telemetry.Service.Apply.apply_change k8s_inc.Telemetry.Service.configure_telemetry
    k8s_inc.Telemetry.Service.Locks.lock_intent k8s_inc.Telemetry.Service.State.new_service
    k8s_inc.Telemetry.Service.State.init_devices
first_answer_is_ok = refl

abbrev configured_service : TelemetryService
configured_service = service_of first_answer

not_held : lookup "intent" started.intent_locks ≢ some true
unfolding lookup new_service init_devices
not_held e = ground arith

configure_telemetry_releases_example :
    IsReleased "intent" started.intent_locks configured_service.intent_locks
configure_telemetry_releases_example =
    configure_telemetry_releases accept accept registry request topology started configured_service
      0 7 configured not_held first_answer_is_ok

configure_telemetry_stores_example :
    (desired : TelemetryEntities) × (find_telemetry_entities_for_request registry request
        (topology_to_graph topology)
      ≡ some desired)
    × IsStored request desired started configured configured_service
configure_telemetry_stores_example =
    configure_telemetry_stores accept accept registry request topology started configured_service 0
      7 configured not_held first_answer_is_ok

started-IsConsistent : IsConsistent started
started-IsConsistent = init_devices-IsConsistent topology new_service new_service-IsConsistent

configure_telemetry-IsConsistent_example : IsConsistent configured_service
configure_telemetry-IsConsistent_example =
    configure_telemetry-IsConsistent accept accept registry request topology started
      configured_service 0 7 configured refl started-IsConsistent first_answer_is_ok

abbrev state_or_none : Option IntentState → IntentState
state_or_none none = record {
  entities = new_telemetry_entities;
  collection_id = "";
  collector_node_name = "";
  collector_port = pos 0;
}
state_or_none (some st) = st

abbrev stored : IntentState
stored = state_or_none (lookup "intent" configured_service.intent_state)

is_stored : lookup "intent" configured_service.intent_state ≡ some stored
unfolding k8s_inc.Prelude.find_index k8s_inc.Prelude.add k8s_inc.Prelude.Maps.lookup
    k8s_inc.Prelude.Maps.insert k8s_inc.Model.Devices.must_get_link_to
    k8s_inc.Model.Graph.topology_to_graph k8s_inc.Model.Program.implements
    k8s_inc.Programs.implements k8s_inc.Telemetry.Counter.add_device
    k8s_inc.Telemetry.Counter.increment_and_run_on_transition_to_one
    k8s_inc.Telemetry.ChangeLog.commit k8s_inc.Telemetry.Dfs.run_dfs
    k8s_inc.Telemetry.Entities.entities_empty
    k8s_inc.Telemetry.Entries.get_entries_for_telemetry_entities
    k8s_inc.Telemetry.Entries.make_apply_changelog k8s_inc.Telemetry.Pool.new_pool
    k8s_inc.Telemetry.Pool.alloc_or_get k8s_inc.Telemetry.Request.get_source_device_names
    k8s_inc.Telemetry.Request.get_target_device_names k8s_inc.Telemetry.Request.requires_tunneling
    k8s_inc.Telemetry.Request.get_source_details k8s_inc.Telemetry.Request.get_target_details
    k8s_inc.Telemetry.Request.get_switch_ids
    k8s_inc.Telemetry.Traversals.find_port_leading_to_device
    k8s_inc.Telemetry.Traversals.compatible_at
    k8s_inc.Telemetry.Traversals.find_telemetry_entities_for_request
    k8s_inc.Telemetry.Service.Apply.apply_change k8s_inc.Telemetry.Service.configure_telemetry
    k8s_inc.Telemetry.Service.Locks.lock_intent k8s_inc.Telemetry.Service.State.new_service
    k8s_inc.Telemetry.Service.State.init_devices
is_stored = refl

configured_is_Reachable : Reachable accept accept registry 0 configured_service 7
configured_is_Reachable =
    then_step started configured_service 0 7
      (then_step new_service started 0 0 initial (initializes topology new_service 0))
      (configures request topology started configured_service 0 7 configured refl
        first_answer_is_ok)

Reachable-is_allocated_example :
    (k : ℕ) × (get_if_allocated "intent" stored.collection_id configured_service.collection_id_pool
      ≡ some k)
Reachable-is_allocated_example =
    Reachable-is_allocated accept accept registry 0 7 configured_service "intent" stored
      configured_is_Reachable is_stored

abbrev removed_of : Option (TelemetryService × ℕ) → TelemetryService
removed_of none = started
removed_of (some (t, w)) = t

abbrev removed : TelemetryService
removed = removed_of (remove_intent accept accept "intent" topology configured_service 7)

removal_runs :
    remove_intent accept accept "intent" topology configured_service 7 ≡ some (removed, 14)
unfolding k8s_inc.Prelude.find_index k8s_inc.Prelude.add k8s_inc.Prelude.Maps.lookup
    k8s_inc.Prelude.Maps.insert k8s_inc.Model.Devices.must_get_link_to
    k8s_inc.Model.Graph.topology_to_graph k8s_inc.Model.Program.implements
    k8s_inc.Programs.implements k8s_inc.Telemetry.Counter.add_device
    k8s_inc.Telemetry.Counter.increment_and_run_on_transition_to_one
    k8s_inc.Telemetry.ChangeLog.commit k8s_inc.Telemetry.Dfs.run_dfs
    k8s_inc.Telemetry.Entities.entities_empty
    k8s_inc.Telemetry.Entries.get_entries_for_telemetry_entities
    k8s_inc.Telemetry.Entries.make_apply_changelog k8s_inc.Telemetry.Pool.new_pool
    k8s_inc.Telemetry.Pool.alloc_or_get k8s_inc.Telemetry.Request.get_source_device_names
    k8s_inc.Telemetry.Request.get_target_device_names k8s_inc.Telemetry.Request.requires_tunneling
    k8s_inc.Telemetry.Request.get_source_details k8s_inc.Telemetry.Request.get_target_details
    k8s_inc.Telemetry.Request.get_switch_ids
    k8s_inc.Telemetry.Traversals.find_port_leading_to_device
    k8s_inc.Telemetry.Traversals.compatible_at
    k8s_inc.Telemetry.Traversals.find_telemetry_entities_for_request
    k8s_inc.Telemetry.Service.Apply.apply_change k8s_inc.Telemetry.Service.configure_telemetry
    k8s_inc.Telemetry.Service.Locks.lock_intent k8s_inc.Telemetry.Service.State.new_service
    k8s_inc.Telemetry.Service.State.init_devices k8s_inc.Telemetry.Service.remove_intent
    k8s_inc.Telemetry.Counter.decrement_and_run_on_transition_to_zero
    k8s_inc.Telemetry.Pool.get_if_allocated k8s_inc.Telemetry.Entries.make_delete_changelog
    k8s_inc.Prelude.update_at k8s_inc.Telemetry.Config.to_identifier k8s_inc.Prelude.Text.decimal_ℤ
    k8s_inc.Telemetry.Config.exact_ipv4_ternary ◌+ℤ◌
removal_runs = refl

remove_intent_ends_example :
    HasRun accept accept "intent" topology stored configured_service 7 removed 14
remove_intent_ends_example =
    remove_intent_ends accept accept "intent" topology stored configured_service removed 7 14
      is_stored removal_runs

abbrev log : ChangeLog
log = record {
  actions =
      new_create_action "s1" configure_transit_key (transit (pos 1) (pos 1500)) sink_state_counter
      ∷ [];
  done_counter = negsuc 0;
}

abbrev counters_of : Option (Option (CounterError String) × (Counters × ℕ)) → Counters
counters_of none = started.counters
counters_of (some (r, (c, w))) = c

abbrev counted : Counters
counted = counters_of (commit accept accept log (started.counters, 0))

log_commits : commit accept accept log (started.counters, 0) ≡ some (none, (counted, 1))
unfolding k8s_inc.Prelude.find_index k8s_inc.Prelude.add k8s_inc.Prelude.Maps.lookup
    k8s_inc.Prelude.Maps.insert k8s_inc.Model.Devices.must_get_link_to
    k8s_inc.Model.Graph.topology_to_graph k8s_inc.Model.Program.implements
    k8s_inc.Programs.implements k8s_inc.Telemetry.Counter.add_device
    k8s_inc.Telemetry.Counter.increment_and_run_on_transition_to_one
    k8s_inc.Telemetry.ChangeLog.commit k8s_inc.Telemetry.Dfs.run_dfs
    k8s_inc.Telemetry.Entities.entities_empty
    k8s_inc.Telemetry.Entries.get_entries_for_telemetry_entities
    k8s_inc.Telemetry.Entries.make_apply_changelog k8s_inc.Telemetry.Pool.new_pool
    k8s_inc.Telemetry.Pool.alloc_or_get k8s_inc.Telemetry.Request.get_source_device_names
    k8s_inc.Telemetry.Request.get_target_device_names k8s_inc.Telemetry.Request.requires_tunneling
    k8s_inc.Telemetry.Request.get_source_details k8s_inc.Telemetry.Request.get_target_details
    k8s_inc.Telemetry.Request.get_switch_ids
    k8s_inc.Telemetry.Traversals.find_port_leading_to_device
    k8s_inc.Telemetry.Traversals.compatible_at
    k8s_inc.Telemetry.Traversals.find_telemetry_entities_for_request
    k8s_inc.Telemetry.Service.Apply.apply_change k8s_inc.Telemetry.Service.configure_telemetry
    k8s_inc.Telemetry.Service.Locks.lock_intent k8s_inc.Telemetry.Service.State.new_service
    k8s_inc.Telemetry.Service.State.init_devices k8s_inc.Telemetry.ChangeLog.new_create_action
    k8s_inc.Telemetry.Service.Apply.commit
log_commits = refl

commit-CountersCounted_example :
    Ran (apply_change accept accept) log.actions (started.counters, 0) (counted, 1)
    × CountersCounted counted
commit-CountersCounted_example =
    commit-CountersCounted accept accept log started.counters counted 0 1 refl log_commits
      (init_devices-CountersCounted topology)

capability_is_remaining_example :
    lookup "s1" (create_capability_update started.counters)
    ≡ elim (lookup "s1" started.counters.configure_source) [
      | none ↦ none
      | some d ↦ some (pos 127 -ℤ pos (length d.table_state))
    ]
capability_is_remaining_example =
    capability_is_remaining "s1" started.counters (init_devices-CountersCounted topology)

-- ===== src/Telemetry/Service.antt =====
-- src/kinda-sdn/telemetry/service.go: the service that configures and removes the telemetry of
-- intents. A call is one step here: what runs between its locks is a step of the state and of the
-- switches' world `W`. The switches are the section's parameter: what WriteEntry and DeleteEntry
-- (src/kinda-sdn/device) do is not known to the service. `none` is a panic.
pub mod Locks
pub mod State
pub mod Apply
pub mod Commit
pub mod Configure
pub mod Consistent
pub mod Answers
pub mod Disable
pub mod Rollback
pub mod Reachable
mod Tests
use k8s_inc.Prelude.{
  ℕ, zero, suc, ◌+◌, ◌-◌, ◌*◌, ◌/◌, ◌%◌, ◌^◌, ◌≤◌, ◌<◌, String, ◌≡◌, refl, sym, ap, ◌∙◌, subst, ◌≢◌,
  ◌↔◌, ◌⊎◌, inl, inr, Bool, true, false, not, ◌&&◌, ◌||◌, Option, none, some, List, [], ◌∷◌, ◌++◌,
  map, arith, ltb, leb, if◌then◌else◌, ltb→lt, lt→ltb, leb→le, le→leb, Bool-cases, Option-cases, Eq,
  ◌==◌, ℕ_eq, String_eq, contains, add, remove, contains-add, contains-remove, add_not_empty,
  remove_empty, contains_empty, same_refl, is_some, length, is_empty, get_elem?, replicate,
  find_index, update_at, count_if, length-append, length-update_at, length-replicate, count_if-le,
  get_elem?-update_at, count_if-update_at, find_index_hit, find_index_first, find_index_miss,
  get_elem?-lt, update_at_all, find_index-update_at, take, take-suc, take-append, get_elem?_of_lt,
}
use k8s_inc.Prelude.Int.{
  ℤ, pos, negsuc, ◌+ℤ◌, ◌-ℤ◌, neg, leb_ℤ, pos-sub-one, pos-add-one, sub-add_one, add-sub_one,
  neg-neg, ℤ_eq, same_ℤ,
}
use k8s_inc.Prelude.Maps.{
  lookup, insert, erase, has, IsMap, lookup-insert, lookup-erase, length-insert, length-erase,
  IsMap-insert, IsMap-erase, erase_absent,
}
use k8s_inc.Prelude.Result.{Result, ok, err, panicked}
use k8s_inc.Connector.Entry.{RawTableEntry}
use k8s_inc.Model.Graph.{Topology, TopologyGraph, topology_to_graph}
use k8s_inc.Programs.{Registry}
use k8s_inc.Telemetry.ChangeLog.{
  ChangeLog, StateChangeAction, CounterName, transit_state_counter, sink_state_counter,
  raporting_state_counter, activate_source_counter, configure_source_counter, extend_from, Undo,
  undone, undo_panicked, rollback,
}
use k8s_inc.Telemetry.ChangeLog
use k8s_inc.Telemetry.Counter.{
  StateCounter, new_state_counter, add_device, CounterError,
  take_per_device_number_of_entries_snapshot, increment_and_run_on_transition_to_one,
  decrement_and_run_on_transition_to_zero,
}
use k8s_inc.Telemetry.Entities.{
  TelemetryEntities, new_telemetry_entities, entities_empty, compute_differences,
}
use k8s_inc.Telemetry.Entries.{
  get_entries_for_telemetry_entities, make_apply_changelog, make_delete_changelog,
}
use k8s_inc.Telemetry.Pool.{
  CollectionIdPool, new_pool, Allocation, allocated, pool_full, alloc_or_get, free,
  get_if_allocated, get_if_any_allocated,
}
use k8s_inc.Telemetry.Pool
use k8s_inc.Telemetry.Request.{ConfigureTelemetryRequest, get_switch_ids}
use k8s_inc.Telemetry.Service.Locks.{
  IntentLocks, lock_intent, try_lock_intent_if_exists, unlock_intent, delete_intent_lock,
}
use k8s_inc.Telemetry.Traversals.{find_telemetry_entities_for_request, ◌>>=◌}
use k8s_inc.Telemetry.Service.State.{
  IntentState, Counters, TelemetryService, counter_of, with_counter, create_capability_update,
}
use k8s_inc.Telemetry.Service.Apply.{changelog_for, apply_change, commit, run_commit}

pub data TelemetryState : Type 0 where
  state_ok state_in_progress state_failed : TelemetryState

pub record ConfigureTelemetryResponse : Type 0 where
  pub telemetry_state : TelemetryState
  pub description : Option String

abbrev pub failure : String → ConfigureTelemetryResponse
failure description = record { telemetry_state = state_failed; description = some description }

abbrev pub configured : ConfigureTelemetryResponse
configured = record { telemetry_state = state_ok; description = none }

abbrev pub in_progress : ConfigureTelemetryResponse
in_progress = record {
  telemetry_state = state_in_progress;
  description = some "Already handling intent";
}

abbrev pub exhausted : String
exhausted = "Resources exhausted, use different collection id"

abbrev pub not_applied : String
not_applied =
    "Failed to configure telemetry, couldn't apply some of required changes, retrying may help"

-- Behind a failure: an intent that was configured before keeps its lock, a new one loses it.
unfoldable pub give_up : Bool → String → TelemetryService → Option TelemetryService
unfolding unlock_intent delete_intent_lock
give_up true intent_id t = do
  locks ← unlock_intent intent_id t.intent_locks
  some (record t { intent_locks = locks })
give_up false intent_id t =
    some (record t { intent_locks = delete_intent_lock intent_id t.intent_locks })

-- The answer to DisableTelemetry, ShouldRetryLater, with whether the removal is started.
unfoldable pub disable_telemetry : String → TelemetryService → Bool × Bool × TelemetryService
disable_telemetry intent_id t =
    let (exists, locked, locks) = try_lock_intent_if_exists intent_id t.intent_locks in
    if not exists
    then (false, false, t)
    else if not locked
    then (true, false, t)
    else (false, true, record t { intent_locks = locks })

module _ {W E : Type 0} (write_entry delete_entry : String → RawTableEntry → W → Option E × W) where
  abbrev Answer : Type 0
  Answer = Option (ConfigureTelemetryResponse × (TelemetryService × W))

  -- from the commit on
  unfoldable pub finish_configure :
      ConfigureTelemetryRequest
      → TelemetryEntities
      → Bool
      → Option ChangeLog
      → TelemetryService
      → W
      → Answer
  unfolding commit give_up
  finish_configure req desired has_current changelog t w = do
    (result, (t', w')) ← run_commit write_entry delete_entry changelog t w
    elim result [
      | none ↦ do
        locks ← unlock_intent req.intent_id t'.intent_locks
        some (
          configured,
          (
            record t' {
              intent_state =
                  insert req.intent_id
                    (record {
                      entities = desired;
                      collection_id = req.collection_id;
                      collector_node_name = req.collector_node_name;
                      collector_port = req.collector_port;
                    })
                    t'.intent_state;
              intent_locks = locks;
            },
            w',
          ),
        )
      | some e ↦ do
        let pool =
            if has_current
            then t'.collection_id_pool
            else free req.intent_id req.collection_id t'.collection_id_pool
        t'' ← give_up has_current req.intent_id (record t' { collection_id_pool = pool })
        some (failure not_applied, (t'', w'))
    ]

  -- from AllocOrGet on
  unfoldable pub configure_entries :
      ConfigureTelemetryRequest
      → Topology
      → TelemetryEntities
      → Bool
      → TelemetryEntities
      → TelemetryEntities
      → TelemetryService
      → W
      → Answer
  unfolding finish_configure changelog_for
  configure_entries req topo desired has_current to_add to_remove t w =
      let (allocation, pool) = alloc_or_get req.intent_id req.collection_id t.collection_id_pool in
      let t' = record t { collection_id_pool = pool } in
      elim allocation [
        | Pool.panicked ↦ none
        | pool_full ↦ do
          t'' ← give_up has_current req.intent_id t'
          some (failure exhausted, (t'', w))
        | allocated num ↦ do
          changelog ←
              changelog_for topo req.collector_node_name req.collector_port (pos num) to_add
                to_remove
          finish_configure req desired has_current changelog t' w
      ]

  module _ {ℓ} {D : Type ℓ} (registry : Registry D) where
    -- behind the lock
    unfoldable pub configure_locked :
        ConfigureTelemetryRequest → Topology → TelemetryService → W → Answer
    unfolding configure_entries give_up
    configure_locked req topo t w = do
      desired ← find_telemetry_entities_for_request registry req (topology_to_graph topo)
      elim (lookup req.intent_id t.intent_state) [
        | none ↦ configure_entries req topo desired false desired new_telemetry_entities t w
        | some current ↦
            if current.collection_id == req.collection_id
            then (let (to_add, to_remove) = compute_differences current.entities desired in
                configure_entries req topo desired true to_add to_remove t w)
            else do
              t' ← give_up true req.intent_id t
              some (failure "Changing collection id is unsupported", (t', w))
      ]

    unfoldable pub configure_telemetry :
        ConfigureTelemetryRequest → Topology → TelemetryService → W → Answer
    unfolding configure_locked
    configure_telemetry req topo t w =
        let (success, locks) = lock_intent req.intent_id t.intent_locks in
        if success
        then configure_locked req topo (record t { intent_locks = locks }) w
        else some (in_progress, (t, w))

  -- the goroutine's part behind its commit
  unfoldable pub finish_removal :
      String
      → IntentState
      → Option (CounterError E)
      → TelemetryService
      → W
      → Option (TelemetryService × W)
  unfolding unlock_intent delete_intent_lock
  finish_removal intent_id current (some e) t w = do
    locks ← unlock_intent intent_id t.intent_locks
    some (record t { intent_locks = locks }, w)
  finish_removal intent_id current none t w = some (
    record t {
      intent_state = erase intent_id t.intent_state;
      collection_id_pool = free intent_id current.collection_id t.collection_id_pool;
      intent_locks = delete_intent_lock intent_id t.intent_locks;
    },
    w,
  )

  -- the goroutine that DisableTelemetry starts
  unfoldable pub remove_intent :
      String → Topology → TelemetryService → W → Option (TelemetryService × W)
  unfolding commit finish_removal
  remove_intent intent_id topo t w = elim (lookup intent_id t.intent_state) [
    | none ↦ some (t, w)
    | some current ↦ do
      num ← get_if_allocated intent_id current.collection_id t.collection_id_pool
      entries ←
          get_entries_for_telemetry_entities (topology_to_graph topo) (get_switch_ids topo)
            current.entities current.collector_node_name current.collector_port (pos num)
      (result, (t', w')) ←
          run_commit write_entry delete_entry (some (make_delete_changelog entries)) t w
      finish_removal intent_id current result t' w'
  ]

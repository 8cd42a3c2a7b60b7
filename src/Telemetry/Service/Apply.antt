-- ===== src/Telemetry/Service/Apply.antt =====
-- src/kinda-sdn/telemetry/service.go: the change log of a request and its commit on the switches.
use k8s_inc.Prelude.{String, Option, none, some, if◌then◌else◌, ℕ_eq, String_eq}
use k8s_inc.Prelude.Int.{ℤ, ℤ_eq}
use k8s_inc.Prelude.Result.{Result, ok, err, panicked}
use k8s_inc.Connector.Entry.{RawTableEntry}
use k8s_inc.Model.Graph.{Topology, topology_to_graph}
use k8s_inc.Telemetry.ChangeLog.{
  ChangeLog, StateChangeAction, CounterName, transit_state_counter, sink_state_counter,
  raporting_state_counter, activate_source_counter, configure_source_counter, extend_from, Undo,
  undone, undo_panicked, rollback,
}
use k8s_inc.Telemetry.ChangeLog
use k8s_inc.Telemetry.Counter.{
  CounterError, increment_and_run_on_transition_to_one, decrement_and_run_on_transition_to_zero,
}
use k8s_inc.Telemetry.Entities.{TelemetryEntities, entities_empty}
use k8s_inc.Telemetry.Entries.{
  get_entries_for_telemetry_entities, make_apply_changelog, make_delete_changelog,
}
use k8s_inc.Telemetry.Request.{get_switch_ids}
use k8s_inc.Telemetry.Traversals.{◌>>=◌}
use k8s_inc.Telemetry.Service.State.{
  Counters, TelemetryService, counter_of, with_counter, create_capability_update,
}

-- The two change logs of a request, the second appended to the first when both are there.
abbrev pub join_changelogs : Option ChangeLog → Option ChangeLog → Option (Option ChangeLog)
join_changelogs none removal = some removal
join_changelogs addition none = some addition
join_changelogs (some c) (some d) = do joined ← extend_from c d; some (some joined)

-- the entries of one side of the difference, when it is not empty
abbrev changelog_part :
    (TelemetryEntities → Option ChangeLog) → TelemetryEntities → Option (Option ChangeLog)
changelog_part make entities =
    if entities_empty entities then some none else do log ← make entities; some (some log)

unfoldable pub changelog_for :
    Topology → String → ℤ → ℤ → TelemetryEntities → TelemetryEntities → Option (Option ChangeLog)
changelog_for topo collector port num to_add to_remove = do
  let g = topology_to_graph topo
  addition ←
      changelog_part
        (λ e. do
          entries ← get_entries_for_telemetry_entities g (get_switch_ids topo) e collector port num
          some (make_apply_changelog entries))
        to_add
  removal ←
      changelog_part
        (λ e. do
          entries ← get_entries_for_telemetry_entities g (get_switch_ids topo) e collector port num
          some (make_delete_changelog entries))
        to_remove
  join_changelogs addition removal

module _ {W E : Type 0} (write_entry delete_entry : String → RawTableEntry → W → Option E × W) where
  -- `applyChange`, on the counters and the switches
  unfoldable pub apply_change :
      StateChangeAction → Counters × W → Result (CounterError E) (Unit {0}) × (Counters × W)
  apply_change action (c, w) =
      let counter = counter_of action.counter c in
      let (result, counter', w') =
        if action.is_create
        then increment_and_run_on_transition_to_one action.device_name action.key action.entry
            (write_entry action.device_name action.entry) counter w
        else decrement_and_run_on_transition_to_zero action.device_name action.key
            (delete_entry action.device_name) counter w in
      (result, (with_counter action.counter counter' c, w'))

  -- the error of the commit, if any, and the counters and switches after it and the rollback
  unfoldable pub commit :
      ChangeLog → Counters × W → Option (Option (CounterError E) × (Counters × W))
  commit changelog s =
      let (result, changelog', s') = ChangeLog.commit apply_change changelog s in
      elim result [
        | ok _ ↦ some (none, s')
        | panicked ↦ none
        | err e ↦ elim (rollback apply_change changelog' s') [
          | undo_panicked ↦ none
          | undone failed_actions done s'' ↦ some (some e, s'')
        ]
      ]

  -- `commit` on the service, with the notification at its end
  abbrev pub run_commit :
      Option ChangeLog
      → TelemetryService
      → W
      → Option (Option (CounterError E) × (TelemetryService × W))
  run_commit none t w = some (none, (t, w))
  run_commit (some changelog) t w = do
    (result, (c, w')) ← commit changelog (t.counters, w)
    some (result, (record t { counters = c; last_update = some (create_capability_update c) }, w'))

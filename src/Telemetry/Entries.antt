-- ===== src/Telemetry/Entries.antt =====
-- src/kinda-sdn/telemetry/service.go, getEntriesForTelemetryEntities and the two change logs made
-- from its result. `none` is a panic: a nil device, a failed type assertion or no such neighbor.
pub mod Order
mod Tests
use k8s_inc.Prelude.{
  ℕ, zero, suc, ◌+◌, ◌-◌, ◌*◌, ◌/◌, ◌%◌, ◌^◌, ◌≤◌, ◌<◌, String, ◌≡◌, refl, sym, ap, ◌∙◌, subst, ◌≢◌,
  ◌↔◌, ◌⊎◌, inl, inr, Bool, true, false, not, ◌&&◌, ◌||◌, Option, none, some, List, [], ◌∷◌, ◌++◌,
  map, arith, ltb, leb, if◌then◌else◌, ltb→lt, lt→ltb, leb→le, le→leb, Bool-cases, Option-cases, Eq,
  ◌==◌, ℕ_eq, String_eq, contains, add, remove, contains-add, contains-remove, add_not_empty,
  remove_empty, contains_empty, same_refl, is_some, length, is_empty, get_elem?, replicate,
  find_index, update_at, count_if, length-append, length-update_at, length-replicate, count_if-le,
  get_elem?-update_at, count_if-update_at, find_index_hit, find_index_first, find_index_miss,
  get_elem?-lt, update_at_all, find_index-update_at, take, take-suc, take-append, get_elem?_of_lt,
}
use k8s_inc.Prelude.Int.{
  ℤ, pos, negsuc, ◌+ℤ◌, ◌-ℤ◌, neg, leb_ℤ, pos-sub-one, pos-add-one, sub-add_one, add-sub_one,
  neg-neg, ℤ_eq, same_ℤ,
}
use k8s_inc.Prelude.Maps.{
  lookup, insert, erase, has, IsMap, lookup-insert, lookup-erase, length-insert, length-erase,
  IsMap-insert, IsMap-erase, erase_absent,
}
use k8s_inc.Connector.Entry.{RawTableEntry}
use k8s_inc.Model.Devices.{
  Device, IncSwitch, inc_switch, get_name, get_links, get_port_number_to, must_get_link_to,
}
use k8s_inc.Model.Graph.{TopologyGraph}
use k8s_inc.Telemetry.Config.{
  MatchKey, configure_transit_key, configure_sink_key, reporting_key, activate_source_key,
  configure_source_key, ConfigureSourceKey, transit, activate_source, configure_source,
  configure_sink, reporting, full_telemetry_key,
}
use k8s_inc.Telemetry.ChangeLog.{
  ChangeLog, new_change_log, add_action, new_create_action, new_delete_action, StateChangeAction,
  CounterName, sink_state_counter, raporting_state_counter, transit_state_counter,
  activate_source_counter, configure_source_counter,
}
use k8s_inc.Telemetry.Entities.{Edge, TelemetrySourceConfig, SourceMap, TelemetryEntities}
use k8s_inc.Telemetry.Traversals.{find_port_leading_to_device, ◌>>=◌}

pub record ConfigEntry : Type 0 where
  pub device_name : String
  pub key : MatchKey
  pub entry : RawTableEntry

pub record ConfigEntries : Type 0 where
  pub activate_source_entries : List ConfigEntry
  pub configure_source_entries : List ConfigEntry
  pub configure_transit_entries : List ConfigEntry
  pub configure_sink_entries : List ConfigEntry
  pub configure_reporting_entry : List ConfigEntry

abbrev pub telemetry_mtu : ℤ
telemetry_mtu = pos 1500

-- the type assertion to the pointer of an INC switch
abbrev as_switch : Device → Option Device
as_switch (inc_switch s) = some (inc_switch s)
as_switch _ = none

module _ (g : TopologyGraph) (collector_node_name : String)
    (collector_port collection_id_num : ℤ) where
  -- the body of the loop over the sinks: the sink's entry and the entry for its reports
  unfoldable pub sink_entries : Edge → Option (ConfigEntry × ConfigEntry)
  sink_entries sink = do
    from ← lookup sink.from g
    device_meta ← as_switch from
    port_number ← get_port_number_to sink.to device_meta
    collector ← lookup collector_node_name g
    port_to_collector ← find_port_leading_to_device g device_meta collector
    let sink_key : ℤ = pos (port_number + 1)
    to_collector ← get_elem? (get_links device_meta) port_to_collector
    next_hop ← lookup to_collector.to g
    next_hop_link ← must_get_link_to (get_name device_meta) next_hop
    port_to_sink ← find_port_leading_to_device g collector device_meta
    to_sink ← get_elem? (get_links collector) port_to_sink
    some (
      record {
        device_name = sink.from;
        key = configure_sink_key sink_key;
        entry = configure_sink sink_key (pos (port_to_collector + 1));
      },
      record {
        device_name = sink.from;
        key = reporting_key collection_id_num;
        entry =
            reporting collection_id_num to_collector.mac_addr to_collector.ipv4
              next_hop_link.mac_addr to_sink.ipv4 collector_port;
      },
    )

  unfoldable pub all_sink_entries : List Edge → Option (List ConfigEntry × List ConfigEntry)
  unfolding sink_entries
  all_sink_entries [] = some ([], [])
  all_sink_entries (sink ∷ rest) = do
    (sink_entry, reporting_entry) ← sink_entries sink
    (more_sinks, more_reporting) ← all_sink_entries rest
    some (sink_entry ∷ more_sinks, reporting_entry ∷ more_reporting)

  abbrev source_key : TelemetrySourceConfig → ConfigureSourceKey
  source_key config = record {
    src_addr = config.ips.src;
    dst_addr = config.ips.dst;
    src_port = config.src_port;
    dst_port = config.dst_port;
    tunneled = config.tunneled;
  }

  unfoldable pub configure_source_entry : String → TelemetrySourceConfig → ConfigEntry
  configure_source_entry name config = record {
    device_name = name;
    key = configure_source_key (source_key config);
    entry =
        configure_source (source_key config) (pos 6) (pos 10) (pos 8) full_telemetry_key
          collection_id_num;
  }

  unfoldable pub activate_source_entry : Edge → Option ConfigEntry
  activate_source_entry source = do
    from ← lookup source.from g
    device_meta ← as_switch from
    port_to_activate ← get_port_number_to source.to device_meta
    some (record {
      device_name = source.from;
      key = activate_source_key (pos (port_to_activate + 1));
      entry = activate_source (pos (port_to_activate + 1));
    })

  unfoldable pub all_source_entries : SourceMap → Option (List ConfigEntry × List ConfigEntry)
  unfolding configure_source_entry activate_source_entry
  all_source_entries [] = some ([], [])
  all_source_entries ((source, configs) ∷ rest) = do
    activate ← activate_source_entry source
    (more_activate, more_configure) ← all_source_entries rest
    some (
      activate ∷ more_activate,
      map (configure_source_entry source.from) configs ++ more_configure,
    )

-- A name missing in the map of switch ids reads as Go's zero.
abbrev pub switch_id_of : List (String × ℤ) → String → ℤ
switch_id_of switch_ids name = elim (lookup name switch_ids) [ none ↦ pos 0 | some id ↦ id ]

unfoldable pub transit_entry : List (String × ℤ) → String → ConfigEntry
transit_entry switch_ids name = record {
  device_name = name;
  key = configure_transit_key;
  entry = transit (switch_id_of switch_ids name) telemetry_mtu;
}

unfoldable pub get_entries_for_telemetry_entities :
    TopologyGraph → List (String × ℤ) → TelemetryEntities → String → ℤ → ℤ → Option ConfigEntries
unfolding all_sink_entries all_source_entries transit_entry
get_entries_for_telemetry_entities g switch_ids entities collector_node_name collector_port
      collection_id_num =
    do
      (sinks, reports) ←
          all_sink_entries g collector_node_name collector_port collection_id_num entities.sinks
      (activates, configures) ←
          all_source_entries g collector_node_name collector_port collection_id_num entities.sources
      some (record {
        activate_source_entries = activates;
        configure_source_entries = configures;
        configure_transit_entries = map (transit_entry switch_ids) entities.transits;
        configure_sink_entries = sinks;
        configure_reporting_entry = reports;
      })

-- one loop of makeApplyChangelog
unfoldable pub add_creates : CounterName → List ConfigEntry → ChangeLog → ChangeLog
unfolding add_action new_create_action
add_creates counter [] log = log
add_creates counter (e ∷ rest) log =
    add_creates counter rest
      (add_action (new_create_action e.device_name e.key e.entry counter) log)

-- one loop of makeDeleteChangelog
unfoldable pub add_deletes : CounterName → List ConfigEntry → ChangeLog → ChangeLog
unfolding add_action new_delete_action
add_deletes counter [] log = log
add_deletes counter (e ∷ rest) log =
    add_deletes counter rest
      (add_action (new_delete_action e.device_name e.key e.entry counter) log)

unfoldable pub make_apply_changelog : ConfigEntries → ChangeLog
unfolding add_creates
make_apply_changelog entries =
    add_creates configure_source_counter entries.configure_source_entries (
      add_creates activate_source_counter entries.activate_source_entries (
        add_creates transit_state_counter entries.configure_transit_entries (
          add_creates raporting_state_counter entries.configure_reporting_entry
            (add_creates sink_state_counter entries.configure_sink_entries new_change_log))))

unfoldable pub make_delete_changelog : ConfigEntries → ChangeLog
unfolding add_deletes
make_delete_changelog entries = add_deletes sink_state_counter entries.configure_sink_entries (
    add_deletes raporting_state_counter entries.configure_reporting_entry (
      add_deletes transit_state_counter entries.configure_transit_entries (
        add_deletes activate_source_counter entries.activate_source_entries
          (add_deletes configure_source_counter entries.configure_source_entries new_change_log))))

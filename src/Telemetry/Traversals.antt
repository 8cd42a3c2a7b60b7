-- ===== src/Telemetry/Traversals.antt =====
-- src/kinda-sdn/telemetry/traversals.go: from a request and the graph to what has to be configured.
-- `none` is a panic. That the search in the graph has enough fuel is `run_dfs_returns` of Dfs/Total.
pub mod Edges
mod Tests
use k8s_inc.Prelude.{
  ℕ, zero, suc, ◌+◌, ◌-◌, ◌*◌, ◌/◌, ◌%◌, ◌^◌, ◌≤◌, ◌<◌, String, ◌≡◌, refl, sym, ap, ◌∙◌, subst, ◌≢◌,
  ◌↔◌, ◌⊎◌, inl, inr, Bool, true, false, not, ◌&&◌, ◌||◌, Option, none, some, List, [], ◌∷◌, ◌++◌,
  map, arith, ltb, leb, if◌then◌else◌, ltb→lt, lt→ltb, leb→le, le→leb, Bool-cases, Option-cases, Eq,
  ◌==◌, ℕ_eq, String_eq, contains, add, remove, contains-add, contains-remove, add_not_empty,
  remove_empty, contains_empty, same_refl, is_some, length, is_empty, get_elem?, replicate,
  find_index, update_at, count_if, length-append, length-update_at, length-replicate, count_if-le,
  get_elem?-update_at, count_if-update_at, find_index_hit, find_index_first, find_index_miss,
  get_elem?-lt, update_at_all, find_index-update_at, take, take-suc, take-append, get_elem?_of_lt,
}
use k8s_inc.Prelude.Int.{
  ℤ, pos, negsuc, ◌+ℤ◌, ◌-ℤ◌, neg, leb_ℤ, pos-sub-one, pos-add-one, sub-add_one, add-sub_one,
  neg-neg, ℤ_eq, same_ℤ,
}
use k8s_inc.Prelude.Maps.{
  lookup, insert, erase, has, IsMap, lookup-insert, lookup-erase, length-insert, length-erase,
  IsMap-insert, IsMap-erase, erase_absent,
}
use k8s_inc.Model.Devices.{
  Link, Device, inc_switch, get_name, get_links, DeviceType, external, get_type, must_get_link_to,
}
use k8s_inc.Model.Graph.{TopologyGraph}
use k8s_inc.Programs.{Registry}
use k8s_inc.Programs
use k8s_inc.Telemetry.Config.{any_port, any_ipv4, exact_ipv4_ternary}
use k8s_inc.Telemetry.Dfs.{Search, done, run_dfs}
use k8s_inc.Telemetry.Entities.{
  Edge, Edge_eq, TernaryIpPair, TelemetrySourceConfig, TelemetryEntities, new_telemetry_entities,
  SourceMap,
}
use k8s_inc.Telemetry.Request.{
  RawTelemetryEntity, TunneledEntity, ConfigureTelemetryRequest, EntityDetails, raw_details,
  tunneled_details, get_source_device_names, get_target_device_names, requires_tunneling,
  get_source_details, get_target_details,
}

abbrev pub program_interface : String
program_interface = "inc.kntp.com/v1alpha1/telemetry"

infixl 5 ◌>>=◌
abbrev pub ◌>>=◌ {ℓ κ} : {A : Type ℓ} {B : Type κ} → Option A → (A → Option B) → Option B
none >>= f = none
some a >>= f = f a

-- the path of a search that returned a non-empty one
abbrev pub path_of : Search → Option (List String)
path_of (done st) = if is_empty st.reversed_path then none else some st.reversed_path
path_of _ = none

unfoldable pub find_port_leading_to_device : TopologyGraph → Device → Device → Option ℕ
find_port_leading_to_device g source target = do
  reversed_path ← path_of (run_dfs g (get_name source) (get_name target))
  succesor ← elim (length reversed_path) [ suc (suc n) ↦ get_elem? reversed_path n | _ ↦ none ]
  find_index (λ link. link.to == succesor) (get_links source)

-- What findSourceSinkEdgesAndFillTransit returns when it found devices on the path.
pub record SourceSink : Type 0 where
  pub reversed_path : List String
  pub source_path_idx : ℕ
  pub sink_path_idx : ℕ

module _ {ℓ} {D : Type ℓ} (registry : Registry D) (g : TopologyGraph) where
  unfoldable pub is_compatible : Device → Bool
  is_compatible (inc_switch s) = Programs.implements s.installed_program program_interface registry
  is_compatible _ = false

  -- `t.isCompatible(G[reversedPath[i]])`
  unfoldable pub compatible_at : List String → ℕ → Option Bool
  unfolding is_compatible
  compatible_at reversed_path i = do
    name ← get_elem? reversed_path i
    dev ← lookup name g
    some (is_compatible dev)

  -- `for ; i >= 0; i--` from `i = n - 1` on; the inner `none` is that `i` fell below 0
  pub scan_down : List String → ℕ → Option (Option ℕ)
  scan_down reversed_path zero = some none
  scan_down reversed_path (suc i) = elim (compatible_at reversed_path i) [
    | none ↦ none
    | some true ↦ some (some i)
    | some false ↦ scan_down reversed_path i
  ]

  -- `for ; j <= i; j++` with the given number of rounds; the value of `j` behind it
  pub scan_up : List String → ℕ → ℕ → Option ℕ
  scan_up reversed_path zero j = some j
  scan_up reversed_path (suc rounds) j = elim (compatible_at reversed_path j) [
    | none ↦ none
    | some true ↦ some j
    | some false ↦ scan_up reversed_path rounds (suc j)
  ]

  -- `for k := j + 1; k < i; k++`
  pub fill_transits : List String → ℕ → ℕ → List String → Option (List String)
  fill_transits reversed_path zero k transits = some transits
  fill_transits reversed_path (suc rounds) k transits = elim (compatible_at reversed_path k) [
    | none ↦ none
    | some true ↦ elim (get_elem? reversed_path k) [
      | none ↦ none
      | some name ↦ fill_transits reversed_path rounds (suc k) (add name transits)
    ]
    | some false ↦ fill_transits reversed_path rounds (suc k) transits
  ]

  -- Behind the search for the path: `none` inside is that no devices were found on it.
  unfoldable pub find_on_path :
      List String → TelemetryEntities → Option (Option SourceSink × TelemetryEntities)
  unfolding scan_down scan_up fill_transits
  find_on_path reversed_path entities = do
    found_i ← scan_down reversed_path (length reversed_path - 1)
    elim found_i [
      | none ↦ some (none, entities)
      | some i ↦ do
        j ← scan_up reversed_path i 1
        if j == i then some (none, entities) else do
          transits ← fill_transits reversed_path (i - suc j) (suc j) entities.transits
          some (
            some (record { reversed_path = reversed_path; source_path_idx = i; sink_path_idx = j }),
            record entities { transits = transits },
          )
    ]

  unfoldable pub find_source_sink_edges_and_fill_transit :
      String → String → TelemetryEntities → Option (Option SourceSink × TelemetryEntities)
  unfolding find_on_path
  find_source_sink_edges_and_fill_transit source_device target_device entities =
      if source_device == target_device then some (none, entities) else do
        reversed_path ← path_of (run_dfs g source_device target_device)
        find_on_path reversed_path entities

abbrev pub port_or_any : Option ℤ → ℤ
port_or_any none = any_port
port_or_any (some port) = port

abbrev pub tunneled_ip_or_any : String → String
tunneled_ip_or_any ip = if ip == any_ipv4 then any_ipv4 else exact_ipv4_ternary ip

abbrev pub tunneled_config : TunneledEntity → TunneledEntity → TelemetrySourceConfig
tunneled_config s t = record {
  ips = record { src = tunneled_ip_or_any s.tunneled_ip; dst = tunneled_ip_or_any t.tunneled_ip };
  src_port = port_or_any s.port;
  dst_port = port_or_any t.port;
  tunneled = true;
}

unfoldable pub create_tunneled_telemetry_configs :
    List TunneledEntity → List TunneledEntity → List TelemetrySourceConfig
create_tunneled_telemetry_configs [] targets = []
create_tunneled_telemetry_configs (s ∷ rest) targets =
    map (tunneled_config s) targets ++ create_tunneled_telemetry_configs rest targets

-- the address of an endpoint: any for an external device, else that of its link to the path
abbrev pub endpoint_ip : TopologyGraph → String → Option String → Option String
endpoint_ip g name neighbor = do
  dev ← lookup name g
  elim dev [
    | Device.external_device b ↦ some any_ipv4
    | other ↦ do
      peer ← neighbor
      link ← must_get_link_to peer other
      some (exact_ipv4_ternary link.ipv4)
  ]

-- A path between two different devices has two names or more.
unfoldable pub create_raw_telemetry_config :
    TopologyGraph
    → RawTelemetryEntity
    → RawTelemetryEntity
    → List String
    → Option TelemetrySourceConfig
create_raw_telemetry_config g source_details target_details reversed_path = do
  src ←
      endpoint_ip g source_details.device_name (get_elem? reversed_path (length reversed_path - 2))
  dst ← endpoint_ip g target_details.device_name (get_elem? reversed_path 1)
  some (record {
    ips = record { src = src; dst = dst };
    src_port = port_or_any source_details.port;
    dst_port = port_or_any target_details.port;
    tunneled = false;
  })

-- `requiresTunneling` and the two type assertions behind it
abbrev pub pair_configs :
    TopologyGraph
    → Bool
    → EntityDetails
    → EntityDetails
    → List String
    → Option (List TelemetrySourceConfig)
pair_configs g true (tunneled_details s) (tunneled_details t) path =
    some (create_tunneled_telemetry_configs s t)
pair_configs g false (raw_details s) (raw_details t) path = do
  entry ← create_raw_telemetry_config g s t path
  some (entry ∷ [])
pair_configs g _ _ _ path = none

abbrev pub confs_at : Edge → SourceMap → List TelemetrySourceConfig
confs_at edge m = elim (lookup edge m) [ none ↦ [] | some confs ↦ confs ]

-- `sinkPathIdx` is 1 or more
unfoldable pub add_pair :
    TopologyGraph
    → ConfigureTelemetryRequest
    → String
    → ℕ
    → String
    → ℕ
    → SourceSink
    → TelemetryEntities
    → Option TelemetryEntities
unfolding create_tunneled_telemetry_configs create_raw_telemetry_config
add_pair g req source source_idx target target_idx found res = do
  sink_from ← get_elem? found.reversed_path found.sink_path_idx
  sink_to ← get_elem? found.reversed_path (found.sink_path_idx - 1)
  source_from ← get_elem? found.reversed_path found.source_path_idx
  source_to ← get_elem? found.reversed_path (found.source_path_idx + 1)
  let sink_edge : Edge = record { from = sink_from; to = sink_to }
  let source_edge : Edge = record { from = source_from; to = source_to }
  sd ← get_source_details req source source_idx
  td ← get_target_details req target target_idx
  new_entries ← pair_configs g (requires_tunneling req) sd td found.reversed_path
  some (record res {
    sinks = add sink_edge res.sinks;
    sources = insert source_edge (confs_at source_edge res.sources ++ new_entries) res.sources;
  })

module _ {ℓ} {D : Type ℓ} (registry : Registry D) (g : TopologyGraph)
    (req : ConfigureTelemetryRequest) where
  -- the body of the two loops of `findTelemetryEntitiesForRequest`
  unfoldable pub find_for_pair :
      String → ℕ → String → ℕ → TelemetryEntities → Option TelemetryEntities
  unfolding find_source_sink_edges_and_fill_transit add_pair
  find_for_pair source source_idx target target_idx res = if source == target then some res else do
    (found, res') ← find_source_sink_edges_and_fill_transit registry g source target res
    elim found [
      | none ↦ some res'
      | some ends ↦ add_pair g req source source_idx target target_idx ends res'
    ]

  pub find_for_targets : String → ℕ → List String → ℕ → TelemetryEntities → Option TelemetryEntities
  find_for_targets source source_idx [] target_idx res = some res
  find_for_targets source source_idx (target ∷ rest) target_idx res = do
    res' ← find_for_pair source source_idx target target_idx res
    find_for_targets source source_idx rest (suc target_idx) res'

  pub find_for_sources : List String → ℕ → TelemetryEntities → Option TelemetryEntities
  find_for_sources [] source_idx res = some res
  find_for_sources (source ∷ rest) source_idx res = do
    res' ← find_for_targets source source_idx (get_target_device_names req) 0 res
    find_for_sources rest (suc source_idx) res'

-- the two loops at the end: sources and sinks are transits too
abbrev pub add_froms_of_sources : SourceMap → List String → List String
add_froms_of_sources [] transits = transits
add_froms_of_sources ((edge, confs) ∷ rest) transits =
    add_froms_of_sources rest (add edge.from transits)

abbrev pub add_froms_of_sinks : List Edge → List String → List String
add_froms_of_sinks [] transits = transits
add_froms_of_sinks (edge ∷ rest) transits = add_froms_of_sinks rest (add edge.from transits)

abbrev pub with_end_transits : TelemetryEntities → TelemetryEntities
with_end_transits res = record res {
  transits = add_froms_of_sinks res.sinks (add_froms_of_sources res.sources res.transits);
}

module _ {ℓ} {D : Type ℓ} (registry : Registry D) where
  unfoldable pub find_telemetry_entities_for_request :
      ConfigureTelemetryRequest → TopologyGraph → Option TelemetryEntities
  unfolding find_for_sources find_for_targets find_for_pair
  find_telemetry_entities_for_request req g = do
    res ← find_for_sources registry g req (get_source_device_names req) 0 new_telemetry_entities
    some (with_end_transits res)

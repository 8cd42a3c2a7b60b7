-- ===== src/Shim/Topology.antt =====
-- The topology resource: its construction and comparison in
-- src/sdn-shim/controllers/sdnshim_controller.go, and the readers of it in
-- src/inc-operator/shimutils.
pub mod Ids
pub mod Changed
mod Tests
use k8s_inc.Prelude.{
  ℕ, zero, suc, ◌+◌, ◌-◌, ◌*◌, ◌/◌, ◌%◌, ◌^◌, ◌≤◌, ◌<◌, String, ◌≡◌, refl, sym, ap, ◌∙◌, subst, ◌≢◌,
  ◌↔◌, ◌⊎◌, inl, inr, Bool, true, false, not, ◌&&◌, ◌||◌, Option, none, some, List, [], ◌∷◌, ◌++◌,
  map, arith, ltb, leb, if◌then◌else◌, ltb→lt, lt→ltb, leb→le, le→leb, Bool-cases, Option-cases, Eq,
  ◌==◌, ℕ_eq, String_eq, contains, add, remove, contains-add, contains-remove, add_not_empty,
  remove_empty, contains_empty, same_refl, is_some, length, is_empty, get_elem?, replicate,
  find_index, update_at, count_if, length-append, length-update_at, length-replicate, count_if-le,
  get_elem?-update_at, count_if-update_at, find_index_hit, find_index_first, find_index_miss,
  get_elem?-lt, update_at_all, find_index-update_at, take, take-suc, take-append, get_elem?_of_lt,
}
use k8s_inc.Prelude.Maps.{
  lookup, insert, erase, has, IsMap, lookup-insert, lookup-erase, length-insert, length-erase,
  IsMap-insert, IsMap-erase, erase_absent,
}
use k8s_inc.Controller.Mapping.{
  ProtoType, proto_host, proto_inc_switch, proto_net, proto_external, ProtoLink, ProtoDevice,
}
use k8s_inc.Model.Devices.{DeviceType, node, inc_switch_type, net, external}

pub record PeerLink : Type 0 where
  pub peer_name : String

pub record NetworkDevice : Type 0 where
  pub device_type : DeviceType
  pub name : String
  pub links : List PeerLink

-- the panic on an unknown number is out of reach of the enum's values
unfoldable pub device_type_from_proto : ProtoType → DeviceType
device_type_from_proto proto_external = external
device_type_from_proto proto_host = node
device_type_from_proto proto_net = net
device_type_from_proto proto_inc_switch = inc_switch_type

abbrev link_from_proto : ProtoLink → PeerLink
link_from_proto link = record { peer_name = link.peer_name }

abbrev pub network_device : ProtoDevice → NetworkDevice
network_device dev = record {
  device_type = device_type_from_proto dev.device_type;
  name = dev.name;
  links = map link_from_proto dev.links;
}

-- `Spec.Graph` of the resource
unfoldable pub build_cluster_topo_cr : List ProtoDevice → List NetworkDevice
unfolding device_type_from_proto
build_cluster_topo_cr topo = map network_device topo

abbrev pub same_type : DeviceType → DeviceType → Bool
same_type node node = true
same_type inc_switch_type inc_switch_type = true
same_type net net = true
same_type external external = true
same_type _ _ = false

-- the inner loop, over links of the same number
unfoldable pub links_changed : List PeerLink → List PeerLink → Bool
links_changed [] curs = false
links_changed (prev ∷ prevs) [] = false
links_changed (prev ∷ prevs) (cur ∷ curs) =
    let rest = links_changed prevs curs in
    if not (prev.peer_name == cur.peer_name) then true else rest

abbrev pub device_changed : NetworkDevice → NetworkDevice → Bool
device_changed prev cur =
    (not (prev.name == cur.name)
      || not (same_type prev.device_type cur.device_type)
      || not (length prev.links == length cur.links))
    || links_changed prev.links cur.links

-- the outer loop, over devices of the same number
unfoldable pub devices_changed : List NetworkDevice → List NetworkDevice → Bool
unfolding links_changed
devices_changed [] curs = false
devices_changed (prev ∷ prevs) [] = false
devices_changed (prev ∷ prevs) (cur ∷ curs) =
    let rest = devices_changed prevs curs in if device_changed prev cur then true else rest

unfoldable pub topology_changed : List NetworkDevice → List NetworkDevice → Bool
unfolding devices_changed
topology_changed previous current =
    if not (length previous == length current) then true else devices_changed previous current

-- the map of the loop in TopologyToGraph
abbrev graph_from :
    List NetworkDevice → List (String × NetworkDevice) → List (String × NetworkDevice)
graph_from [] g = g
graph_from (dev ∷ devs) g = graph_from devs (insert dev.name dev g)

unfoldable pub topology_to_graph : List NetworkDevice → List (String × NetworkDevice)
topology_to_graph topo = graph_from topo []

abbrev pub is_switch : NetworkDevice → Bool
is_switch dev = same_type dev.device_type inc_switch_type

abbrev pub is_external : NetworkDevice → Bool
is_external dev = same_type dev.device_type external

-- the loop of GetSwitchIdToNameMapping, with `i` and the map
unfoldable pub name_switches : List NetworkDevice → ℕ → List (ℕ × String) → List (ℕ × String)
name_switches [] i res = res
name_switches (dev ∷ devs) i res =
    name_switches devs (if is_switch dev then suc i else i)
      (if is_switch dev then insert i dev.name res else res)

unfoldable pub get_switch_id_to_name_mapping : List NetworkDevice → List (ℕ × String)
unfolding name_switches
get_switch_id_to_name_mapping topo = name_switches topo 0 []

-- the loop of GetExternalDevices, in an order of the map
unfoldable pub get_external_devices : List (String × NetworkDevice) → List NetworkDevice
get_external_devices [] = []
get_external_devices ((name, dev) ∷ rest) =
    let more = get_external_devices rest in if is_external dev then dev ∷ more else more

unfoldable pub get_device_names : List NetworkDevice → List String
get_device_names devices = map (λ dev. dev.name) devices

-- ===== src/Model/Graph.antt =====
-- src/kinda-sdn/model/network.go and utils.go: a topology, and its devices by their names.
use k8s_inc.Model.Devices.{Device, get_name}
use k8s_inc.Prelude.{String, ◌≡◌, some, List, [], ◌∷◌, arith, ℕ_eq, String_eq}
use k8s_inc.Prelude.Maps.{lookup, insert, IsMap, lookup-insert, IsMap-insert}

pub record Topology : Type 0 where
  pub devices : List Device

-- A pointer in the map is the device in the topology; the map is a snapshot of the devices.
abbrev pub TopologyGraph : Type 0
TopologyGraph = List (String × Device)

abbrev pub graph_from : List Device → TopologyGraph → TopologyGraph
graph_from [] g = g
graph_from (d ∷ ds) g = graph_from ds (insert (get_name d) d g)

unfoldable pub topology_to_graph : Topology → TopologyGraph
topology_to_graph topo = graph_from topo.devices []

IsMap-graph_from : (ds : List Device) (g : TopologyGraph) → IsMap g → IsMap (graph_from ds g)
IsMap-graph_from [] g u = u
IsMap-graph_from (d ∷ ds) g u =
    IsMap-graph_from ds (insert (get_name d) d g) (IsMap-insert (get_name d) d g u)

-- every entry of the graph stands under the name of its device
abbrev pub IsNamed : TopologyGraph → Type 0
IsNamed g = (name : String) (d : Device) → lookup name g ≡ some d → get_name d ≡ name

IsNamed-graph_from : (ds : List Device) (g : TopologyGraph) → IsNamed g → IsNamed (graph_from ds g)
IsNamed-graph_from [] g named = named
IsNamed-graph_from (d ∷ ds) g named = IsNamed-graph_from ds (insert (get_name d) d g) (λ name x h.
    ground (
      arith,
      lookup-insert (get_name d) name d g,
      named name x,
      String_eq.same_iff (get_name d) name,
    ))

-- The graph of a topology binds no name twice, and each name to a device of that name.
pub topology_to_graph-IsNamed :
    (topo : Topology) → IsMap (topology_to_graph topo) × IsNamed (topology_to_graph topo)
unfolding topology_to_graph lookup
topology_to_graph-IsNamed topo =
    (IsMap-graph_from topo.devices [] tt, IsNamed-graph_from topo.devices [] (λ name d h. cc))

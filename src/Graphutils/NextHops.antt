-- ===== src/Graphutils/NextHops.antt =====
-- src/kinda-sdn/graphutils/traversals.go: the next hops from a device to all others.
use k8s_inc.Prelude.{
  ℕ, zero, suc, String, Option, none, some, List, [], ◌∷◌, ◌++◌, if◌then◌else◌, ◌==◌, ℕ_eq,
  String_eq, length,
}
use k8s_inc.Prelude.Maps.{lookup, insert, has}
use k8s_inc.Model.Devices.{Device, get_name}
use k8s_inc.Model.Graph.{TopologyGraph}
use k8s_inc.Graphutils.{ParentsMap, Search, found, bfs}

-- a device by its name in a map of Go, where a nil interface is stored or the name is missing
abbrev pub HopsMap : Type 0
HopsMap = List (String × Option Device)

abbrev flat : Option (Option Device) → Option Device
flat (some (some d)) = some d
flat _ = none

-- The inner loop: the next hop and the names passed. A nil parent or next hop is a panic, `none`,
-- as running out of fuel is.
unfoldable pub climb :
    ParentsMap → HopsMap → String → ℕ → String → List String → Option (String × List String)
climb parents res source zero cur path = none
climb parents res source (suc fuel) cur path = elim (flat (lookup cur parents)) [
  | none ↦ none
  | some parent ↦
      let above = climb parents res source fuel (get_name parent) (path ++ get_name parent ∷ []) in
      if get_name parent == source then some (cur, path) else elim (lookup cur res) [
        | none ↦ above
        | some next ↦ elim next [ none ↦ none | some dev ↦ some (get_name dev, path) ]
      ]
]

-- the last loop over the names passed
abbrev set_hops : Option Device → List String → HopsMap → HopsMap
set_hops hop [] res = res
set_hops hop (dev ∷ path) res = set_hops hop path (insert dev hop res)

abbrev hop_for : TopologyGraph → Option (String × List String) → HopsMap → Option HopsMap
hop_for g none res = none
hop_for g (some (next_hop, path)) res = some (set_hops (lookup next_hop g) path res)

abbrev continue : Option HopsMap → (HopsMap → Option HopsMap) → Option HopsMap
continue none next = none
continue (some res) next = next res

-- the outer loop over the names of the graph, in an order of the map
unfoldable pub hops_loop :
    TopologyGraph → ParentsMap → String → TopologyGraph → HopsMap → Option HopsMap
unfolding climb
hops_loop g parents source [] res = some res
hops_loop g parents source ((dev_name, dev) ∷ rest) res =
    let done = has dev_name res in
    continue
      (if done
        then some res
        else hop_for g (climb parents res source (suc (length parents)) dev_name (dev_name ∷ []))
            res)
      (hops_loop g parents source rest)

abbrev hops_behind : TopologyGraph → Device → Search → Option HopsMap
hops_behind g source (found parents) =
    hops_loop g parents (get_name source) g ((get_name source, some source) ∷ [])
hops_behind g source _ = none

unfoldable pub get_next_hops_map : TopologyGraph → Device → Option HopsMap
unfolding hops_loop bfs
get_next_hops_map g source = hops_behind g source (bfs g source)

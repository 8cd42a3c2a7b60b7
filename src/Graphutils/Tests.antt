-- ===== src/Graphutils/Tests.antt =====
-- The search from the switch of a small network.
use k8s_inc.Prelude.{String, ◌≡◌, refl, some, [], ◌∷◌, arith, ℕ_eq, String_eq}
use k8s_inc.Prelude.Maps.{lookup, insert}
use k8s_inc.Prelude.Int.{pos}
use k8s_inc.Model.Devices.{Link, Device, host, net_device, new_link, get_name}
use k8s_inc.Model.Graph.{TopologyGraph, IsNamed}
use k8s_inc.Telemetry.Dfs.Total.{IsLinked}
use k8s_inc.Graphutils.{bfs_path_find}
use k8s_inc.Graphutils.NextHops.{get_next_hops_map}
use k8s_inc.Graphutils.Bfs.Paths.{IsPathAnswer, bfs_path_find-IsPathAnswer}

abbrev to_name : String → Link
to_name name = new_link name "00:00:00:00:00:01" "10.0.0.1" (pos 24)

abbrev middle : Device
middle = net_device (record { name = "n1"; links = to_name "h1" ∷ to_name "h2" ∷ [] })

abbrev end : String → Device
end name = host (record { name = name; links = to_name "n1" ∷ [] })

abbrev network : TopologyGraph
network = ("h1", end "h1") ∷ ("n1", middle) ∷ ("h2", end "h2") ∷ []

network-IsLinked : IsLinked (insert (get_name (end "h1")) (end "h1") network)
unfolding insert lookup
network-IsLinked name to dev at link = ground (
  arith,
  at,
  link,
  String_eq.same_iff "h1" to,
  String_eq.same_iff "n1" to,
  String_eq.same_iff "h2" to,
)

path_between_hosts : bfs_path_find network (end "h1") (end "h2") ≡ some ("h1" ∷ "n1" ∷ "h2" ∷ [])
unfolding bfs_path_find lookup insert
path_between_hosts = refl

network-IsNamed : IsNamed (insert (get_name (end "h1")) (end "h1") network)
unfolding insert lookup
network-IsNamed name d at = ground (
  arith,
  at,
  String_eq.same_iff "h1" name,
  String_eq.same_iff "n1" name,
  String_eq.same_iff "h2" name,
)

bfs_path_find-IsPathAnswer_example :
    IsPathAnswer
      (insert (get_name (end "h1")) (end "h1") network)
      (get_name (end "h1"))
      (get_name (end "h2"))
      (bfs_path_find network (end "h1") (end "h2"))
bfs_path_find-IsPathAnswer_example =
    bfs_path_find-IsPathAnswer network (end "h1") (end "h2") network-IsLinked network-IsNamed

hops_from_host :
    get_next_hops_map network (end "h1")
    ≡ some (("h1", some (end "h1")) ∷ ("n1", some middle) ∷ ("h2", some middle) ∷ [])
unfolding get_next_hops_map lookup insert
hops_from_host = refl

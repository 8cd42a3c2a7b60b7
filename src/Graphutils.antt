-- ===== src/Graphutils.antt =====
-- src/kinda-sdn/graphutils/traversals.go: the breadth-first search and the paths it gives. A device
-- that the graph lacks is a nil interface value, and asking for its links or its name panics.
pub mod Bfs
pub mod NextHops
mod Tests
use k8s_inc.Prelude.{
  ℕ, zero, suc, ◌+◌, ◌-◌, ◌*◌, ◌/◌, ◌%◌, ◌^◌, ◌≤◌, ◌<◌, String, ◌≡◌, refl, sym, ap, ◌∙◌, subst, ◌≢◌,
  ◌↔◌, ◌⊎◌, inl, inr, Bool, true, false, not, ◌&&◌, ◌||◌, Option, none, some, List, [], ◌∷◌, ◌++◌,
  map, arith, ltb, leb, if◌then◌else◌, ltb→lt, lt→ltb, leb→le, le→leb, Bool-cases, Option-cases, Eq,
  ◌==◌, ℕ_eq, String_eq, contains, add, remove, contains-add, contains-remove, add_not_empty,
  remove_empty, contains_empty, same_refl, is_some, length, is_empty, get_elem?, replicate,
  find_index, update_at, count_if, length-append, length-update_at, length-replicate, count_if-le,
  get_elem?-update_at, count_if-update_at, find_index_hit, find_index_first, find_index_miss,
  get_elem?-lt, update_at_all, find_index-update_at, take, take-suc, take-append, get_elem?_of_lt,
}
use k8s_inc.Prelude.Maps.{
  lookup, insert, erase, has, IsMap, lookup-insert, lookup-erase, length-insert, length-erase,
  IsMap-insert, IsMap-erase, erase_absent,
}
use k8s_inc.Model.Devices.{Link, Device, get_name, get_links}
use k8s_inc.Model.Graph.{TopologyGraph}

-- The parent of the source is nil.
abbrev pub ParentsMap : Type 0
ParentsMap = List (String × Option Device)

-- The queue holds devices by their names; the set `visited` is a list.
pub record BfsState : Type 0 where
  pub visited : List String
  pub queue : List String
  pub parents : ParentsMap

pub data Search : Type 0 where
  found : ParentsMap → Search
  crashed out_of_fuel : Search

abbrev pub visit : Device → String → BfsState → BfsState
visit cur to st = record {
  visited = to ∷ st.visited;
  queue = st.queue ++ to ∷ [];
  parents = insert to (some cur) st.parents;
}

-- the loop over the links of `cur`
unfoldable pub bfs_links : Device → List Link → BfsState → BfsState
bfs_links cur [] st = st
bfs_links cur (link ∷ links) st =
    bfs_links cur links (if not (contains link.to st.visited) then visit cur link.to st else st)

abbrev pub popped : Option Device → (Device → Search) → Search
popped none next = crashed
popped (some cur) next = next cur

-- A popped name is the source or stands for `G[name]`, so the loop is over the graph in which the
-- source stands under its name.
unfoldable pub bfs_loop : TopologyGraph → ℕ → List String → ParentsMap → List String → Search
unfolding bfs_links
bfs_loop g zero visited parents queue = out_of_fuel
bfs_loop g (suc fuel) visited parents [] = found parents
bfs_loop g (suc fuel) visited parents (name ∷ queue) = popped (lookup name g) (λ cur.
    let st =
      bfs_links cur (get_links cur)
        (record { visited = visited; queue = queue; parents = parents }) in
    bfs_loop g fuel st.visited st.parents st.queue)

-- Every device is queued once, so the fuel is one more than the devices.
unfoldable pub bfs : TopologyGraph → Device → Search
unfolding bfs_loop
bfs g source =
    let nodes = insert (get_name source) source g in
    bfs_loop nodes (suc (suc (length nodes))) (get_name source ∷ []) ((get_name source, none) ∷ [])
      (get_name source ∷ [])

abbrev pub append_to : String → Option (List String) → Option (List String)
append_to cur none = none
append_to cur (some path) = some (path ++ cur ∷ [])

abbrev pub follow_from :
    String → Option (Option Device) → (String → Option (List String)) → Option (List String)
follow_from cur (some (some dev)) next = append_to cur (next (get_name dev))
follow_from cur _ next = some (cur ∷ [])

-- the chain of parents to a name, which the loop of BfsPathFind follows; `none` is out of fuel
unfoldable pub follow : ParentsMap → ℕ → String → Option (List String)
follow parents zero cur = none
follow parents (suc fuel) cur = follow_from cur (lookup cur parents) (follow parents fuel)

-- A target without a parent in the map is the panic "No path".
unfoldable pub path_to : String → Search → Option (List String)
unfolding follow
path_to target (found parents) =
    if has target parents then follow parents (suc (length parents)) target else none
path_to target crashed = none
path_to target out_of_fuel = none

unfoldable pub bfs_path_find : TopologyGraph → Device → Device → Option (List String)
unfolding bfs path_to
bfs_path_find g source target = path_to (get_name target) (bfs g source)

-- `path[1]`, which is out of range where the target is the source
abbrev second_of : Option (List String) → Option String
second_of (some (x ∷ y ∷ rest)) = some y
second_of _ = none

abbrev node_at : TopologyGraph → Option String → Option Device
node_at g none = none
node_at g (some name) = lookup name g

unfoldable pub find_next_hop : TopologyGraph → Device → Device → Option Device
unfolding bfs_path_find
find_next_hop g source target = node_at g (second_of (bfs_path_find g source target))

-- ===== src/Telemetry/Dfs.antt =====
-- src/kinda-sdn/telemetry/traversals.go, `runDfs`: the path that the depth-first search finds.
pub mod Sound
pub mod Total
mod Tests
use k8s_inc.Model.Devices.{Link, Device, get_links}
use k8s_inc.Model.Graph.{TopologyGraph}
use k8s_inc.Prelude.{
  ℕ, zero, suc, ◌+◌, ◌-◌, ◌*◌, ◌/◌, ◌%◌, ◌^◌, ◌≤◌, ◌<◌, String, ◌≡◌, refl, sym, ap, ◌∙◌, ◌≢◌, ◌↔◌,
  ◌⊎◌, inl, inr, Bool, true, false, not, ◌&&◌, ◌||◌, Option, none, some, List, [], ◌∷◌, ◌++◌, map,
  arith, ltb, leb, if◌then◌else◌, ltb→lt, lt→ltb, leb→le, le→leb, Bool-cases, Option-cases, Eq,
  ◌==◌, ℕ_eq, String_eq, contains, add, remove, contains-add, contains-remove, add_not_empty,
  remove_empty, contains_empty, same_refl, is_some, length, is_empty, get_elem?, replicate,
  find_index, update_at, count_if, length-append, length-update_at, length-replicate, count_if-le,
  get_elem?-update_at, count_if-update_at, find_index_hit, find_index_first, find_index_miss,
  get_elem?-lt, update_at_all, find_index-update_at, take, take-suc, take-append, get_elem?_of_lt,
}
use k8s_inc.Prelude.Maps.{
  lookup, insert, erase, has, IsMap, lookup-insert, lookup-erase, length-insert, length-erase,
  IsMap-insert, IsMap-erase, erase_absent,
}

-- `visited` is the set of names that the map of the source binds to true.
pub record DfsState : Type 0 where
  pub visited : List String
  pub reversed_path : List String

-- A device that the graph lacks is a nil interface value, and asking for its links panics.
pub data Search : Type 0 where
  done : DfsState → Search
  crashed out_of_fuel : Search

-- what the loop does behind the recursive call: go on, or add `cur` to the path that was found
abbrev pub after_call : String → (DfsState → Search) → Search → Search
after_call cur more (done st) =
    if is_empty st.reversed_path
    then more st
    else done (record st { reversed_path = st.reversed_path ++ cur ∷ [] })
after_call cur more crashed = crashed
after_call cur more out_of_fuel = out_of_fuel

-- the loop over the links of `cur`; `go` is the recursive call
pub dfs_links : (String → DfsState → Search) → String → List Link → DfsState → Search
dfs_links go cur [] st = done st
dfs_links go cur (neigh ∷ rest) st = elim (contains neigh.to st.visited) [
  | true ↦ dfs_links go cur rest st
  | false ↦ after_call cur (dfs_links go cur rest) (go neigh.to st)
]

module _ (g : TopologyGraph) (target : String) where
  pub dfs : ℕ → String → DfsState → Search
  dfs zero cur st = out_of_fuel
  dfs (suc fuel) cur st =
      let st' = record st { visited = add cur st.visited } in
      elim (cur == target) [
        | true ↦ done (record st' { reversed_path = st.reversed_path ++ cur ∷ [] })
        | false ↦ elim (lookup cur g) [
          | none ↦ crashed
          | some dev ↦ dfs_links (dfs fuel) cur (get_links dev) st'
        ]
      ]

abbrev pub start : DfsState
start = record { visited = []; reversed_path = [] }

-- One call for each device of the graph, and one for the target or a missing device.
unfoldable pub run_dfs : TopologyGraph → String → String → Search
unfolding dfs dfs_links
run_dfs g source target = dfs g target (suc (length g)) source start

-- ===== src/Controller/Changes.antt =====
-- src/kinda-sdn/controller/controller.go: the changes of the network at run time. Devices are
-- shared by pointer between the topology, its graph and the arguments, so a device is its position
-- in the topology here, and a graph gives the last position of a name.
pub mod Names
pub mod Program
use k8s_inc.Prelude.{
  ℕ, zero, suc, ◌+◌, ◌-◌, ◌*◌, ◌/◌, ◌%◌, ◌^◌, ◌≤◌, ◌<◌, String, ◌≡◌, refl, sym, ap, ◌∙◌, subst, ◌≢◌,
  ◌↔◌, ◌⊎◌, inl, inr, Bool, true, false, not, ◌&&◌, ◌||◌, Option, none, some, List, [], ◌∷◌, ◌++◌,
  map, arith, ltb, leb, if◌then◌else◌, ltb→lt, lt→ltb, leb→le, le→leb, Bool-cases, Option-cases, Eq,
  ◌==◌, ℕ_eq, String_eq, contains, add, remove, contains-add, contains-remove, add_not_empty,
  remove_empty, contains_empty, same_refl, is_some, length, is_empty, get_elem?, replicate,
  find_index, update_at, count_if, length-append, length-update_at, length-replicate, count_if-le,
  get_elem?-update_at, count_if-update_at, find_index_hit, find_index_first, find_index_miss,
  get_elem?-lt, update_at_all, find_index-update_at, take, take-suc, take-append, get_elem?_of_lt,
}
use k8s_inc.Prelude.Result.{Result, ok, err, panicked}
use k8s_inc.Prelude.Int.{pos}
use k8s_inc.Model.Devices.{
  Device, IncSwitch, Link, inc_switch, get_name, get_links, new_link, add_link, remove_link,
}
use k8s_inc.Model.Graph.{Topology}

-- what the listeners are told
pub data NetworkChange : Type 0 where
  topology_change program_change : NetworkChange

pub data ChangeError : Type 0 where
  missing_neighbour : String → String → ChangeError
  not_deleted : ChangeError
  not_inc_switch no_device : String → ChangeError

-- The change that is notified, an error or a panic; the topology behind it in any case.
abbrev pub Changed : Type 0
Changed = Result ChangeError NetworkChange × List Device

abbrev later_position : Option ℕ → Bool → Option ℕ
later_position (some i) here = some (suc i)
later_position none true = some 0
later_position none false = none

-- the position of `G[name]`
abbrev pub last_position : String → List Device → Option ℕ
last_position name [] = none
last_position name (d ∷ ds) = later_position (last_position name ds) (get_name d == name)

abbrev new_neighbour : String → Device → Device
new_neighbour name d = add_link (new_link name "00:00:00:00:00:00" "00.00.00.00" (pos 0)) d

-- the loop over the links of a new device
abbrev link_at : String → Link → List Device → Option ℕ → (List Device → Changed) → Changed
link_at name link devs none next = (err (missing_neighbour name link.to), devs)
link_at name link devs (some i) next = next (update_at i (new_neighbour name) devs)

unfoldable pub link_back : String → List Link → List Device → Changed
unfolding add_link
link_back name [] devs = (ok topology_change, devs)
link_back name (link ∷ links) devs =
    link_at name link devs (last_position link.to devs) (link_back name links)

abbrev pub next_device : Changed → (List Device → Changed) → Changed
next_device (ok change, devs) next = next devs
next_device (err e, devs) next = (err e, devs)
next_device (panicked, devs) next = (panicked, devs)

abbrev link_device : Option Device → List Device → Changed
link_device none devs = (ok topology_change, devs)
link_device (some dev) devs = link_back (get_name dev) (get_links dev) devs

-- the loop over the new devices, which stand from a position on
unfoldable pub link_from : ℕ → ℕ → List Device → Changed
unfolding link_back
link_from zero i devs = (ok topology_change, devs)
link_from (suc count) i devs =
    next_device (link_device (get_elem? devs i) devs) (link_from count (suc i))

unfoldable pub add_devices : List Device → Topology → Changed
unfolding link_from
add_devices devices topo =
    link_from (length devices) (length topo.devices) (topo.devices ++ devices)

abbrev pub keep_if : (Device → Bool) → List Device → List Device
keep_if test [] = []
keep_if test (d ∷ ds) = if test d then d ∷ keep_if test ds else keep_if test ds

-- the loop over the links of a removed device: a neighbour that is not there is a nil interface
abbrev unlink_at : String → List Device → Option ℕ → (List Device → Changed) → Changed
unlink_at name devs none next = (panicked, devs)
unlink_at name devs (some i) next = next (update_at i (remove_link name) devs)

unfoldable pub unlink_back : String → List Link → List Device → Changed
unfolding remove_link
unlink_back name [] devs = (ok topology_change, devs)
unlink_back name (link ∷ links) devs =
    unlink_at name devs (last_position link.to devs) (unlink_back name links)

unfoldable pub unlink_all : List Device → List Device → Changed
unfolding unlink_back
unlink_all [] devs = (ok topology_change, devs)
unlink_all (dev ∷ deleted) devs =
    next_device (unlink_back (get_name dev) (get_links dev) devs) (unlink_all deleted)

unfoldable pub remove_devices : List String → Topology → Changed
unfolding unlink_all
remove_devices device_names topo =
    let deleted = keep_if (λ d. contains (get_name d) device_names) topo.devices in
    let kept = keep_if (λ d. not (contains (get_name d) device_names)) topo.devices in
    if ltb (length deleted) (length device_names)
    then (err not_deleted, kept)
    else unlink_all deleted kept

abbrev installs : String → String → Device → List Device → Changed
installs device_name program_name (inc_switch s) rest =
    (ok program_change, inc_switch (record s { installed_program = program_name }) ∷ rest)
installs device_name program_name other rest = (err (not_inc_switch device_name), other ∷ rest)

abbrev behind : Device → Changed → Changed
behind dev (result, devs) = (result, dev ∷ devs)

-- the loop of ChangeProgram, to the first device of the name
unfoldable pub change_program_in : String → String → List Device → Changed
change_program_in device_name program_name [] = (err (no_device device_name), [])
change_program_in device_name program_name (dev ∷ devs) =
    let rest = change_program_in device_name program_name devs in
    if get_name dev == device_name
    then installs device_name program_name dev devs
    else behind dev rest

unfoldable pub change_program : String → String → Topology → Changed
unfolding change_program_in
change_program device_name program_name topo =
    change_program_in device_name program_name topo.devices

-- ===== src/Controller/Frontend/Serves.antt =====
-- The frontend as the SDN controller that src/sdn-shim reconciles with.
use k8s_inc.Prelude.{
  sym, Option-cases, String, ◌≡◌, refl, ◌∙◌, subst, ◌⊎◌, inl, inr, true, false, Option, none, some,
  List, [], ◌∷◌, map, arith, Bool-cases, ◌==◌, ℕ_eq, String_eq, contains, contains-add, is_some,
}
use k8s_inc.Controller.Mapping.{
  SwitchDetails, topology_model_to_proto, inc_switch_to_details_proto, convert_device_type,
  device_to_proto,
}
use k8s_inc.Model.Devices.{
  IncSwitch, Device, inc_switch, host, net_device, external_device, get_name, inc_switch_type,
}
use k8s_inc.Model.Graph.{Topology}
use k8s_inc.Programs.{Registry, lookup_program}
use k8s_inc.Shim.Api.{Network, Cluster, P4ProgramSpec}
use k8s_inc.Shim.Topology.{
  network_device, build_cluster_topo_cr, device_type_from_proto, same_type, is_switch,
}
use k8s_inc.Shim.Reconcile.{switch_names, slices_equal}
use k8s_inc.Shim.Reconcile.Network.{inc_switches, IsAnswerable}
use k8s_inc.Shim.Topology.Ids.{IsDistinct}
use k8s_inc.Controller.Frontend.{
  get_topology, get_program_details, answer_details, first_named, details_of_device, known,
}

-- what an SDN controller of the topology and the programs knows
abbrev pub network_of : {D : Type 0} → Topology → Registry D → Network
network_of topo registry = record {
  graph = get_topology topo;
  details = λ n. known (details_of_device (first_named n topo.devices));
  interfaces = λ p. known (get_program_details p registry);
}

inc_switch-known :
    (d : Device)
    → same_type (network_device (device_to_proto d)).device_type inc_switch_type ≡ true
    → is_some (known (details_of_device (some d))) ≡ true
unfolding device_to_proto convert_device_type device_type_from_proto
inc_switch-known (inc_switch s) is = refl
inc_switch-known (host b) is = absurd (ground (arith, is))
inc_switch-known (net_device b) is = absurd (ground (arith, is))
inc_switch-known (external_device b) is = absurd (ground (arith, is))

reported : List Device → List String
reported ds = switch_names (map network_device (map device_to_proto ds))

-- what the first device of a list adds to the names reported
reported-first :
    (d : Device) (ds : List Device) (n : String)
    → contains n (reported (d ∷ ds)) ≡ true
    → ((get_name d ≡ n) × (is_switch (network_device (device_to_proto d)) ≡ true))
      ⊎ (contains n (reported ds) ≡ true)
unfolding reported device_to_proto
reported-first d ds n h = elim (Bool-cases (is_switch (network_device (device_to_proto d)))) [
  | inl is_it ↦ ground (
    arith,
    h,
    is_it,
    contains-add (get_name d) n (switch_names (map network_device (map device_to_proto ds))),
    String_eq.same_iff (get_name d) n,
  )
  | inr is_not ↦ inr (ground (arith, h, is_not))
]

reported-named :
    (ds : List Device) (n : String)
    → contains n (reported ds) ≡ true
    → contains n (map get_name ds) ≡ true
unfolding reported
reported-named [] n h = absurd (ground (arith, h))
reported-named (d ∷ ds) n h = elim (reported-first d ds n h) [
  | inl (here, is_it) ↦ ground (arith, here, String_eq.same_iff (get_name d) n)
  | inr later ↦ ground (arith, reported-named ds n later)
]

devices-known :
    (ds : List Device) (n : String)
    → IsDistinct ds
    → contains n (reported ds) ≡ true
    → is_some (known (details_of_device (first_named n ds))) ≡ true
unfolding reported
devices-known [] n distinct h = absurd (ground (arith, h))
devices-known (d ∷ ds) n (fresh, distinct) h = elim (reported-first d ds n h) [
  | inl (here, is_it) ↦ rw ((String_eq.same_iff (get_name d) n).1 here) (inc_switch-known d is_it)
  | inr later ↦
      let other : (get_name d == n) ≡ false =
        ground (arith, fresh, reported-named ds n later, String_eq.same_iff (get_name d) n) in
      rw other (devices-known ds n distinct later)
]

-- With distinct names the SDN controller knows the details of every switch that its topology
-- reports as an INC switch.
pub network_of-known :
    {D : Type 0} (topo : Topology) (registry : Registry D) (n : String)
    → IsDistinct topo.devices
    → contains n (inc_switches (network_of topo registry)) ≡ true
    → is_some ((network_of topo registry).details n) ≡ true
unfolding get_topology topology_model_to_proto build_cluster_topo_cr reported
network_of-known topo registry n distinct named = devices-known topo.devices n distinct named

-- every INC switch runs a program that is registered
abbrev pub AllRegistered : {D : Type 0} → Topology → Registry D → Type 0
AllRegistered topo registry =
    (name : String) (s : IncSwitch)
    → first_named name topo.devices ≡ some (inc_switch s)
    → is_some (lookup_program s.installed_program registry) ≡ true

known-details :
    (o : Option Device) (d : SwitchDetails)
    → known (details_of_device o) ≡ some d
    → (s : IncSwitch) × (o ≡ some (inc_switch s)) × (d.installed_program ≡ s.installed_program)
unfolding inc_switch_to_details_proto
known-details none d is = absurd (ground (arith, is))
known-details (some (inc_switch s)) d is = (s, refl, ground (arith, is))
known-details (some (host b)) d is = absurd (ground (arith, is))
known-details (some (net_device b)) d is = absurd (ground (arith, is))
known-details (some (external_device b)) d is = absurd (ground (arith, is))

known-program :
    {D : Type 0} (registry : Registry D) (p : String)
    → is_some (lookup_program p registry) ≡ true
    → is_some (known (get_program_details p registry)) ≡ true
unfolding get_program_details
known-program registry p there = elim (Option-cases (lookup_program p registry)) [
  | inl gone ↦ absurd (ground (arith, gone, there))
  | inr (details, is) ↦ subst (λ o. is_some (known (answer_details o)) ≡ true) (sym is) refl
]

-- With distinct names and every INC switch on a registered program, the SDN controller can answer
-- what Reconcile asks, where the topology is stored and the stored programs have the interfaces
-- that are registered.
pub network_of-IsAnswerable :
    {D : Type 0} (topo : Topology) (registry : Registry D) (c : Cluster)
    → IsDistinct topo.devices
    → AllRegistered topo registry
    → is_some c.topology ≡ true
    → ((p : String) (spec : P4ProgramSpec) (is : List String)
        → c.programs p ≡ some spec
        → (network_of topo registry).interfaces p ≡ some is
        → slices_equal spec.implemented_interfaces is ≡ true)
    → IsAnswerable (network_of topo registry) c
network_of-IsAnswerable topo registry c distinct registered stored agree = record {
  topology_stored = stored;
  switches_known = λ n named. network_of-known topo registry n distinct named;
  programs_known = λ p (n, d, named, is, runs).
      (let (s, at, same) = known-details (first_named n topo.devices) d is in
        known-program registry p (
          subst (λ q. is_some (lookup_program q registry) ≡ true) (sym same ∙ runs)
            (registered n s at)));
  programs_agree = agree;
}

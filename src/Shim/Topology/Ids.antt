-- ===== src/Shim/Topology/Ids.antt =====
-- The numbers of the switches: those that src/kinda-sdn/telemetry writes into the switches, and
-- those that src/inc-operator reads reports by, from the topology resource.
use k8s_inc.Prelude.{
  ℕ, suc, ◌<◌, String, ◌≡◌, refl, ◌∙◌, ◌↔◌, inl, inr, Bool, true, false, none, some, List, [], ◌∷◌,
  map, arith, Bool-cases, ℕ_eq, String_eq, contains,
}
use k8s_inc.Prelude.Int.{ℤ, pos, pos-add-one, ℤ_eq}
use k8s_inc.Prelude.Maps.{lookup, insert, lookup-insert}
use k8s_inc.Controller.Mapping.{topology_model_to_proto, convert_device_type, device_to_proto}
use k8s_inc.Model.Devices.{Device, inc_switch, host, net_device, external_device, get_name}
use k8s_inc.Model.Graph.{Topology}
use k8s_inc.Shim.Topology.{
  NetworkDevice, network_device, build_cluster_topo_cr, name_switches,
  get_switch_id_to_name_mapping, device_type_from_proto, is_switch,
}
use k8s_inc.Telemetry.Request.{number_switches, get_switch_ids, is_inc_switch}

-- no two devices of a list have the same name
abbrev pub IsDistinct : List Device → Type 0
IsDistinct [] = Unit
IsDistinct (d ∷ ds) = (contains (get_name d) (map get_name ds) ≡ false) × IsDistinct ds

abbrev pub programmable : Device → Bool
programmable (inc_switch s) = s.allow_client_programmability
programmable _ = true

-- every INC switch of a list can be programmed by clients
abbrev pub AllProgrammable : List Device → Type 0
AllProgrammable [] = Unit
AllProgrammable (d ∷ ds) = (programmable d ≡ true) × AllProgrammable ds

is_switch_through :
    (d : Device)
    → programmable d ≡ true
    → is_switch (network_device (device_to_proto d)) ≡ is_inc_switch d
unfolding device_to_proto convert_device_type device_type_from_proto
is_switch_through (inc_switch s) p = rw p refl
is_switch_through (host b) p = refl
is_switch_through (net_device b) p = refl
is_switch_through (external_device b) p = refl

-- the two maps while the loops run: each the other's inverse, with numbers below the counter
record AreInverse (i : ℕ) (ids : List (String × ℤ)) (names : List (ℕ × String)) : Type 0 where
  inverse :
      (name : String) (j : ℕ) → (lookup name ids ≡ some (pos j)) ↔ (lookup j names ≡ some name)
  below : (j : ℕ) (name : String) → lookup j names ≡ some name → j < i

AreInverse-insert :
    (i : ℕ) (name : String) (ids : List (String × ℤ)) (names : List (ℕ × String))
    → lookup name ids ≡ none
    → AreInverse i ids names
    → AreInverse (suc i) (insert name (pos i) ids) (insert i name names)
AreInverse-insert i name ids names fresh inv = record {
  inverse = λ other j. ground (
    arith,
    lookup-insert name other (pos i) ids,
    lookup-insert i j name names,
    inv.inverse other j,
    inv.below j other,
    inv.inverse name j,
    inv.below j name,
    String_eq.same_iff name other,
    ℕ_eq.same_iff i j,
  );
  below = λ j other h.
      ground (arith, lookup-insert i j name names, inv.below j other, ℕ_eq.same_iff i j);
}

network_devices : List Device → List NetworkDevice
network_devices ds = map network_device (map device_to_proto ds)

-- one pass of each loop, over a device that is a switch and over one that is none
numbers_switch :
    (d : Device) (ds : List Device) (i : ℕ) (ids : List (String × ℤ))
    → is_inc_switch d ≡ true
    → number_switches (d ∷ ds) (pos i) ids
      ≡ number_switches ds (pos (suc i)) (insert (get_name d) (pos i) ids)
unfolding number_switches
numbers_switch d ds i ids is_it = rw is_it (rw (pos-add-one i) refl)

numbers_other :
    (d : Device) (ds : List Device) (i : ℕ) (ids : List (String × ℤ))
    → is_inc_switch d ≡ false
    → number_switches (d ∷ ds) (pos i) ids ≡ number_switches ds (pos i) ids
unfolding number_switches
numbers_other d ds i ids is_not = rw is_not refl

names_switch :
    (dev : NetworkDevice) (devs : List NetworkDevice) (i : ℕ) (names : List (ℕ × String))
    → is_switch dev ≡ true
    → name_switches (dev ∷ devs) i names ≡ name_switches devs (suc i) (insert i dev.name names)
unfolding name_switches
names_switch dev devs i names is_it = rw is_it refl

names_other :
    (dev : NetworkDevice) (devs : List NetworkDevice) (i : ℕ) (names : List (ℕ × String))
    → is_switch dev ≡ false
    → name_switches (dev ∷ devs) i names ≡ name_switches devs i names
unfolding name_switches
names_other dev devs i names is_not = rw is_not refl

-- the loops that number the switches and that name the numbers, over the same devices
loops_inverse :
    (ds : List Device) (i : ℕ) (ids : List (String × ℤ)) (names : List (ℕ × String))
    → AllProgrammable ds
    → IsDistinct ds
    → ((name : String) → contains name (map get_name ds) ≡ true → lookup name ids ≡ none)
    → AreInverse i ids names
    → (name : String) (j : ℕ)
    → (lookup name (number_switches ds (pos i) ids) ≡ some (pos j))
      ↔ (lookup j (name_switches (network_devices ds) i names) ≡ some name)
unfolding number_switches name_switches network_devices device_to_proto
loops_inverse [] i ids names all distinct fresh inv name j = inv.inverse name j
loops_inverse (d ∷ ds) i ids names (pd, all) (absent, distinct) fresh inv name j =
    let later : (name : String) → contains name (map get_name ds) ≡ true → lookup name ids ≡ none =
      λ name h. fresh name (ground (arith, h)) in
    let own : lookup (get_name d) ids ≡ none =
      fresh (get_name d) (ground (arith, String_eq.same_iff (get_name d) (get_name d))) in
    elim (Bool-cases (is_inc_switch d)) [
      | inl is_it ↦
          rw
            (
              numbers_switch d ds i ids is_it,
              names_switch (network_device (device_to_proto d)) (network_devices ds) i names
                  (is_switch_through d pd ∙ is_it),
            )
            (loops_inverse ds (suc i) (insert (get_name d) (pos i) ids)
              (insert i (get_name d) names) all distinct
              (λ name h. ground (
                arith,
                lookup-insert (get_name d) name (pos i) ids,
                later name h,
                h,
                absent,
                String_eq.same_iff (get_name d) name,
              ))
              (AreInverse-insert i (get_name d) ids names own inv) name j)
      | inr is_not ↦
          rw
            (
              numbers_other d ds i ids is_not,
              names_other (network_device (device_to_proto d)) (network_devices ds) i names
                  (is_switch_through d pd ∙ is_not),
            )
            (loops_inverse ds i ids names all distinct later inv name j)
    ]

-- With distinct names and every INC switch programmable by clients, the number that the telemetry
-- service writes into a switch is the one that the topology resource names the switch by.
pub get_switch_id_to_name_mapping-get_switch_ids :
    (topo : Topology)
    → IsDistinct topo.devices
    → AllProgrammable topo.devices
    → (name : String) (j : ℕ)
    → (lookup name (get_switch_ids topo) ≡ some (pos j)) ↔ (
        lookup j
          (get_switch_id_to_name_mapping (build_cluster_topo_cr (topology_model_to_proto topo)))
        ≡ some name)
unfolding get_switch_ids get_switch_id_to_name_mapping build_cluster_topo_cr topology_model_to_proto
    network_devices lookup
get_switch_id_to_name_mapping-get_switch_ids topo distinct all name j =
    loops_inverse topo.devices 0 [] [] all distinct (λ name h. refl)
      record { inverse = λ name j. ground arith; below = λ j name h. ground arith } name j

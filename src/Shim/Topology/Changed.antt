-- ===== src/Shim/Topology/Changed.antt =====
-- isTopologyChanged of src/sdn-shim/controllers/sdnshim_controller.go: what a comparison finds.
use k8s_inc.Prelude.{
  ◌≡◌, refl, ◌↔◌, inl, inr, true, false, List, [], ◌∷◌, arith, Bool-cases, ◌==◌, ℕ_eq, String_eq,
  length,
}
use k8s_inc.Model.Devices.{DeviceType, node, inc_switch_type, net, external}
use k8s_inc.Shim.Topology.{
  NetworkDevice, PeerLink, links_changed, device_changed, devices_changed, topology_changed,
  same_type,
}

same_type_iff : (s t : DeviceType) → (same_type s t ≡ true) ↔ (s ≡ t)
same_type_iff node node = ground arith
same_type_iff node inc_switch_type = ground arith
same_type_iff node net = ground arith
same_type_iff node external = ground arith
same_type_iff inc_switch_type node = ground arith
same_type_iff inc_switch_type inc_switch_type = ground arith
same_type_iff inc_switch_type net = ground arith
same_type_iff inc_switch_type external = ground arith
same_type_iff net node = ground arith
same_type_iff net inc_switch_type = ground arith
same_type_iff net net = ground arith
same_type_iff net external = ground arith
same_type_iff external node = ground arith
same_type_iff external inc_switch_type = ground arith
same_type_iff external net = ground arith
same_type_iff external external = ground arith

links_changed_iff :
    (ps cs : List PeerLink) → length ps ≡ length cs → (links_changed ps cs ≡ false) ↔ (ps ≡ cs)
unfolding links_changed
links_changed_iff [] [] same = ((λ h. refl), (λ h. refl))
links_changed_iff [] (c ∷ cs) same = absurd (ground (arith, same))
links_changed_iff (p ∷ ps) [] same = absurd (ground (arith, same))
links_changed_iff (p ∷ ps) (c ∷ cs) same =
    ground (arith, links_changed_iff ps cs, String_eq.same_iff p.peer_name c.peer_name)

device_changed_iff : (p c : NetworkDevice) → (device_changed p c ≡ false) ↔ (p ≡ c)
device_changed_iff p c = elim (Bool-cases (length p.links == length c.links)) [
  | inl same ↦ ground (
    arith,
    links_changed_iff p.links c.links
        (ground (arith, ℕ_eq.same_iff (length p.links) (length c.links))),
    String_eq.same_iff p.name c.name,
    same_type_iff p.device_type c.device_type,
  )
  | inr differ ↦ ground (arith, differ, ℕ_eq.same_iff (length p.links) (length c.links))
]

devices_changed_iff :
    (ps cs : List NetworkDevice)
    → length ps ≡ length cs
    → (devices_changed ps cs ≡ false) ↔ (ps ≡ cs)
unfolding devices_changed
devices_changed_iff [] [] same = ((λ h. refl), (λ h. refl))
devices_changed_iff [] (c ∷ cs) same = absurd (ground (arith, same))
devices_changed_iff (p ∷ ps) [] same = absurd (ground (arith, same))
devices_changed_iff (p ∷ ps) (c ∷ cs) same =
    ground (arith, devices_changed_iff ps cs, device_changed_iff p c)

-- The shim finds a stored topology unchanged exactly when it is the topology of the SDN
-- controller: the same devices in the same order, with the same names, types and links.
pub topology_changed_iff :
    (previous current : List NetworkDevice)
    → (topology_changed previous current ≡ false) ↔ (previous ≡ current)
unfolding topology_changed
topology_changed_iff previous current = elim (Bool-cases (length previous == length current)) [
  | inl same ↦ ground (
    arith,
    devices_changed_iff previous current
        (ground (arith, ℕ_eq.same_iff (length previous) (length current))),
  )
  | inr differ ↦ ground (arith, differ, ℕ_eq.same_iff (length previous) (length current))
]

-- ===== src/Model/Devices.antt =====
-- src/kinda-sdn/model/devices.go: the devices of a network and their links.
use k8s_inc.Prelude.{
  ℕ, String, ◌≡◌, ◌↔◌, inl, inr, Bool, true, false, Option, none, some, List, [], ◌∷◌, ◌++◌, arith,
  if◌then◌else◌, Option-cases, ◌==◌, ℕ_eq, String_eq, get_elem?, find_index, find_index_hit,
}
use k8s_inc.Prelude.Int.{ℤ, ℤ_eq}

pub data DeviceType : Type 0 where
  node inc_switch_type net external : DeviceType

pub record Link : Type 0 where
  pub to : String
  pub mac_addr : String
  pub ipv4 : String
  pub mask : ℤ

abbrev pub new_link : String → String → String → ℤ → Link
new_link to mac ipv4 mask = record { to = to; mac_addr = mac; ipv4 = ipv4; mask = mask }

pub record BaseDevice : Type 0 where
  pub name : String
  pub links : List Link

pub record IncSwitch : Type 0 where
  pub base : BaseDevice
  pub open base use *
  pub arch : String
  pub grpc_url : String
  pub installed_program : String
  pub allow_client_programmability : Bool

abbrev pub bmv2 : String
bmv2 = "bmv2"

unfoldable pub new_inc_switch : String → List Link → String → String → String → Bool → IncSwitch
new_inc_switch name links arch grpc_url installed_program allow_client_programmability = record {
  base = record { name = name; links = links };
  arch = arch;
  grpc_url = grpc_url;
  installed_program = installed_program;
  allow_client_programmability = allow_client_programmability;
}

unfoldable pub new_bmv2_inc_switch : String → List Link → String → String → IncSwitch
unfolding new_inc_switch
new_bmv2_inc_switch name links grpc_url program =
    new_inc_switch name links bmv2 grpc_url program true

-- The implementations of the interface `Device`, all of which embed `BaseDevice`.
pub data Device : Type 0 where
  inc_switch : IncSwitch → Device
  host net_device external_device : BaseDevice → Device

abbrev pub base_of : Device → BaseDevice
base_of (inc_switch s) = s.base
base_of (host b) = b
base_of (net_device b) = b
base_of (external_device b) = b

abbrev pub with_base : BaseDevice → Device → Device
with_base b (inc_switch s) = inc_switch (record s { base = b })
with_base b (host _) = host b
with_base b (net_device _) = net_device b
with_base b (external_device _) = external_device b

abbrev pub get_name : Device → String
get_name d = (base_of d).name

abbrev pub get_links : Device → List Link
get_links d = (base_of d).links

unfoldable pub get_type : Device → DeviceType
get_type (inc_switch s) = inc_switch_type
get_type (host b) = node
get_type (net_device b) = net
get_type (external_device b) = external

unfoldable pub add_link : Link → Device → Device
add_link link d = with_base (record (base_of d) { links = get_links d ++ link ∷ [] }) d

abbrev pub delete_links_to : String → List Link → List Link
delete_links_to peer [] = []
delete_links_to peer (l ∷ ls) =
    let rest = delete_links_to peer ls in if l.to == peer then rest else l ∷ rest

unfoldable pub remove_link : String → Device → Device
remove_link peer d = with_base (record (base_of d) { links = delete_links_to peer (get_links d) }) d

-- 0 based
unfoldable pub get_port_number_to : String → Device → Option ℕ
get_port_number_to name d = find_index (λ link. link.to == name) (get_links d)

-- `none` is the panic.
unfoldable pub must_get_port_number_to : String → Device → Option ℕ
unfolding get_port_number_to
must_get_port_number_to name d = get_port_number_to name d

unfoldable pub must_get_link_to : String → Device → Option Link
unfolding must_get_port_number_to
must_get_link_to name d = elim (must_get_port_number_to name d) [
  | none ↦ none
  | some i ↦ get_elem? (get_links d) i
]

-- The argument is an interface value, which may be nil.
unfoldable pub equals : Device → Option Device → Bool
equals d none = false
equals d (some other) = get_name d == get_name other

-- A link that MustGetLinkTo returns leads to the device asked for, and it panics exactly when the
-- device has no such link.
pub must_get_link_to_correct :
    (name : String) (d : Device)
    → ((link : Link) → must_get_link_to name d ≡ some link → link.to ≡ name)
      × ((must_get_link_to name d ≡ none) ↔ (get_port_number_to name d ≡ none))
unfolding must_get_link_to
must_get_link_to_correct name d =
    elim (Option-cases (find_index (λ link. link.to == name) (get_links d))) [
      | inl miss ↦ (λ link h. ground arith, ground arith)
      | inr (i, hit) ↦
          let (x, at_i, same) = find_index_hit (λ link. link.to == name) (get_links d) i hit in
          (λ link h. ground (arith, String_eq.same_iff x.to name), ground arith)
    ]

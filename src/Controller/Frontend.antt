-- ===== src/Controller/Frontend.antt =====
-- src/kinda-sdn/controller/frontend.go: the answers about the network that do not change it.
pub mod Serves
use k8s_inc.Prelude.{
  String, ◌≡◌, refl, sym, ap, ◌∙◌, subst, ◌⊎◌, inl, inr, true, false, Option, none, some, List, [],
  ◌∷◌, ◌++◌, map, arith, if◌then◌else◌, Bool-cases, ◌==◌, ℕ_eq, String_eq, contains, contains-add,
  is_some,
}
use k8s_inc.Prelude.Maps.{lookup, insert, lookup-insert}
use k8s_inc.Controller.Mapping.{
  ProtoDevice, SwitchDetails, topology_model_to_proto, inc_switch_to_details_proto,
  program_details_to_proto, convert_device_type, device_to_proto,
}
use k8s_inc.Model.Devices.{
  IncSwitch, Device, inc_switch, host, net_device, external_device, get_name, inc_switch_type,
}
use k8s_inc.Model.Graph.{Topology}
use k8s_inc.Model.Program.{P4ProgramDetails}
use k8s_inc.Telemetry.Request.{is_inc_switch}
use k8s_inc.Programs.{Registry, lookup_program}
use k8s_inc.Shim.Api.{ApiError, not_found, invalid_argument, Network, Cluster, P4ProgramSpec}
use k8s_inc.Shim.Topology.{
  network_device, build_cluster_topo_cr, device_type_from_proto, same_type, is_switch,
}
use k8s_inc.Shim.Reconcile.{switch_names, slices_equal}
use k8s_inc.Shim.Reconcile.Network.{inc_switches, IsAnswerable}
use k8s_inc.Shim.Topology.Ids.{IsDistinct}

unfoldable pub get_topology : Topology → List ProtoDevice
get_topology topo = topology_model_to_proto topo

abbrev pub answer_details : Option P4ProgramDetails → ApiError ⊎ List String
answer_details none = inl not_found
answer_details (some details) = inr (program_details_to_proto details)

unfoldable pub get_program_details : {D : Type 0} → String → Registry D → ApiError ⊎ List String
get_program_details program_name registry = answer_details (lookup_program program_name registry)

-- the inner loop: the first device of the name
abbrev pub first_named : String → List Device → Option Device
first_named name [] = none
first_named name (dev ∷ devs) = if get_name dev == name then some dev else first_named name devs

abbrev pub details_of_device : Option Device → ApiError ⊎ SwitchDetails
details_of_device none = inl not_found
details_of_device (some (inc_switch s)) = inr (inc_switch_to_details_proto s)
details_of_device (some _) = inl invalid_argument

abbrev pub add_details :
    String
    → List (String × SwitchDetails)
    → ApiError ⊎ SwitchDetails
    → (List (String × SwitchDetails) → ApiError ⊎ List (String × SwitchDetails))
    → ApiError ⊎ List (String × SwitchDetails)
add_details name res (inl e) next = inl e
add_details name res (inr d) next = next (insert name d res)

abbrev pub collect_details :
    Topology
    → List String
    → List (String × SwitchDetails)
    → ApiError ⊎ List (String × SwitchDetails)
collect_details topo [] res = inr res
collect_details topo (name ∷ names) res =
    add_details name res (details_of_device (first_named name topo.devices))
      (collect_details topo names)

unfoldable pub get_switch_details :
    Topology → List String → ApiError ⊎ List (String × SwitchDetails)
get_switch_details topo names = collect_details topo names []

abbrev pub known : {E A : Type 0} → E ⊎ A → Option A
known (inl e) = none
known (inr a) = some a

-- the first device of a name
abbrev pub IsFirst : String → List Device → Device → Type 0
IsFirst n devs x =
    (before : List Device) × (after : List Device) × (devs ≡ before ++ x ∷ after)
    × (get_name x ≡ n)
    × (contains n (map get_name before) ≡ false)

-- A switch as the answer describes it: the first device of the name in the list is the INC switch
-- that is described.
abbrev pub Describes : Topology → String → SwitchDetails → Type 0
Describes topo n d =
    (s : IncSwitch) × IsFirst n topo.devices (inc_switch s)
    × (d.name ≡ s.base.name)
    × (d.arch ≡ s.arch)
    × (d.installed_program ≡ s.installed_program)

-- why a name has no answer
abbrev pub Refuses : Topology → String → ApiError → Type 0
Refuses topo n e =
    ((e ≡ not_found) × (contains n (map get_name topo.devices) ≡ false))
    ⊎ ((e ≡ invalid_argument)
        × ((x : Device) × IsFirst n topo.devices x × (is_inc_switch x ≡ false)))

-- What a query by names meets: the details of each name and what was there of others, or the error
-- of the first name that is refused.
abbrev pub Answers :
    Topology
    → List String
    → List (String × SwitchDetails)
    → ApiError ⊎ List (String × SwitchDetails)
    → Type 0
Answers topo names res (inl e) =
    (before : List String) × (n : String) × (after : List String) × (names ≡ before ++ n ∷ after)
    × ((m : String) → contains m before ≡ true → (d : SwitchDetails) × Describes topo m d)
    × Refuses topo n e
Answers topo names res (inr ds) =
    (n : String)
    → (contains n names ≡ true → (d : SwitchDetails) × (lookup n ds ≡ some d) × Describes topo n d)
      × (contains n names ≡ false → lookup n ds ≡ lookup n res)

Answers-weaken :
    (topo : Topology) (name : String) (names : List String) (res : List (String × SwitchDetails))
    (d : SwitchDetails)
    → Describes topo name d
    → (t : ApiError ⊎ List (String × SwitchDetails)) → Answers topo names (insert name d res) t
    → Answers topo (name ∷ names) res t
Answers-weaken topo name names res d is (inl e) (before, n, after, split, fine, why) = (
  name ∷ before,
  n,
  after,
  ap (λ (l : List String). name ∷ l) split,
  (λ m h. elim (Bool-cases (contains m before)) [
    | inl later ↦ fine m later
    | inr gone ↦
        let here : name ≡ m = ground (arith, h, gone, String_eq.same_iff name m) in
        (d, subst (λ x. Describes topo x d) here is)
  ]),
  why,
)
Answers-weaken topo name names res d is (inr ds) all = λ n.
    let (found, kept) = all n in
    (
      (λ h. elim (Bool-cases (contains n names)) [
        | inl later ↦ found later
        | inr gone ↦
            let here : name ≡ n = ground (arith, h, gone, String_eq.same_iff name n) in
            (
              d,
              kept gone
                  ∙ ground (arith, lookup-insert name n d res, here, String_eq.same_iff name n),
              subst (λ x. Describes topo x d) here is,
            )
      ]),
      (λ h. kept (ground (arith, h)) ∙ ground (arith, h, lookup-insert name n d res)),
    )

first_named-none :
    (n : String) (devs : List Device)
    → first_named n devs ≡ none
    → contains n (map get_name devs) ≡ false
first_named-none n [] h = refl
first_named-none n (d ∷ devs) h = ground (arith, h, first_named-none n devs)

first_named-IsFirst :
    (n : String) (devs : List Device) (x : Device) → first_named n devs ≡ some x → IsFirst n devs x
first_named-IsFirst n [] x h = absurd (ground (arith, h))
first_named-IsFirst n (d ∷ devs) x h = elim (Bool-cases (get_name d == n)) [
  | inl same ↦
      let this : d ≡ x = ground (arith, h, same) in
      (
        [],
        devs,
        ap (λ (y : Device). y ∷ devs) this,
        ap get_name (sym this) ∙ (String_eq.same_iff (get_name d) n).0 same,
        refl,
      )
  | inr other ↦
      let (before, after, split, named, none_before) =
        first_named-IsFirst n devs x (ground (arith, h, other)) in
      (
        d ∷ before,
        after,
        ap (λ (l : List Device). d ∷ l) split,
        named,
        ground (arith, none_before, other),
      )
]

-- the device that is looked up decides between the details and the two errors
abbrev Decides : Topology → String → ApiError ⊎ SwitchDetails → Type 0
Decides topo n (inl e) = Refuses topo n e
Decides topo n (inr d) = Describes topo n d

details_of_device-Decides :
    (topo : Topology) (n : String) (o : Option Device)
    → first_named n topo.devices ≡ o
    → Decides topo n (details_of_device o)
unfolding inc_switch_to_details_proto
details_of_device-Decides topo n none at = inl (refl, first_named-none n topo.devices at)
details_of_device-Decides topo n (some (inc_switch s)) at =
    (s, first_named-IsFirst n topo.devices (inc_switch s) at, refl, refl, refl)
details_of_device-Decides topo n (some (host b)) at =
    inr (refl, (host b, first_named-IsFirst n topo.devices (host b) at, refl))
details_of_device-Decides topo n (some (net_device b)) at =
    inr (refl, (net_device b, first_named-IsFirst n topo.devices (net_device b) at, refl))
details_of_device-Decides topo n (some (external_device b)) at =
    inr (refl, (external_device b, first_named-IsFirst n topo.devices (external_device b) at, refl))

Answers-add :
    (topo : Topology) (name : String) (names : List String) (res : List (String × SwitchDetails))
    → ((res' : List (String × SwitchDetails))
        → Answers topo names res' (collect_details topo names res'))
    → (o : ApiError ⊎ SwitchDetails) → Decides topo name o
    → Answers topo (name ∷ names) res (add_details name res o (collect_details topo names))
Answers-add topo name names res rest (inl e) why =
    ([], name, names, refl, (λ m h. absurd (ground (arith, h))), why)
Answers-add topo name names res rest (inr d) is =
    Answers-weaken topo name names res d is (collect_details topo names (insert name d res))
      (rest (insert name d res))

collect_details-Answers :
    (topo : Topology) (names : List String) (res : List (String × SwitchDetails))
    → Answers topo names res (collect_details topo names res)
collect_details-Answers topo [] res = λ n. ((λ h. absurd (ground (arith, h))), (λ h. refl))
collect_details-Answers topo (name ∷ names) res =
    Answers-add topo name names res (collect_details-Answers topo names)
      (details_of_device (first_named name topo.devices))
      (details_of_device-Decides topo name (first_named name topo.devices) refl)

-- A query for the details of switches by name is answered with the name, architecture and program
-- of the first device of each name, which is an INC switch, and with no other name; or with the
-- error of the first name, in the order of the query, that has none: not found where no device has
-- the name, and an invalid argument where the first device of the name is no INC switch.
pub get_switch_details-Answers :
    (topo : Topology) (names : List String) → Answers topo names [] (get_switch_details topo names)
unfolding get_switch_details
get_switch_details-Answers topo names = collect_details-Answers topo names []

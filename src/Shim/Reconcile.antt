-- ===== src/Shim/Reconcile.antt =====
-- The reconciler of src/sdn-shim/controllers/sdnshim_controller.go.
pub mod Stored
pub mod Refusals
pub mod Switches
pub mod Programs
pub mod Network
pub mod Finishes
mod Tests
use k8s_inc.Prelude.{
  ℕ, zero, suc, ◌+◌, ◌-◌, ◌*◌, ◌/◌, ◌%◌, ◌^◌, ◌≤◌, ◌<◌, String, ◌≡◌, refl, sym, ap, ◌∙◌, subst, ◌≢◌,
  ◌↔◌, ◌⊎◌, inl, inr, Bool, true, false, not, ◌&&◌, ◌||◌, Option, none, some, List, [], ◌∷◌, ◌++◌,
  map, arith, ltb, leb, if◌then◌else◌, ltb→lt, lt→ltb, leb→le, le→leb, Bool-cases, Option-cases, Eq,
  ◌==◌, ℕ_eq, String_eq, contains, add, remove, contains-add, contains-remove, add_not_empty,
  remove_empty, contains_empty, same_refl, is_some, length, is_empty, get_elem?, replicate,
  find_index, update_at, count_if, length-append, length-update_at, length-replicate, count_if-le,
  get_elem?-update_at, count_if-update_at, find_index_hit, find_index_first, find_index_miss,
  get_elem?-lt, update_at_all, find_index-update_at, take, take-suc, take-append, get_elem?_of_lt,
}
use k8s_inc.Prelude.Maps.{
  lookup, insert, erase, has, IsMap, lookup-insert, lookup-erase, length-insert, length-erase,
  IsMap-insert, IsMap-erase, erase_absent,
}
use k8s_inc.Controller.Mapping.{ProtoDevice, SwitchDetails}
use k8s_inc.Shim.Topology.{NetworkDevice, build_cluster_topo_cr, topology_changed, is_switch}
use k8s_inc.Shim.Api.{
  ProgramArtifacts, IncSwitchSpec, P4ProgramSpec, Object, Condition, SdnShim, ApiError, not_found,
  invalid_argument, other_error, Call, Kubernetes, Sdn,
}
use k8s_inc.Shim.Run
use k8s_inc.Shim.Sets.{set_of, difference, intersect}
use k8s_inc.Shim.Run.{
  Outcome, done, requeue, requeue_after, panicked, failed, Run, ◌>>=◌, ◌>>◌, return, stop, call,
  call_or, try, for_each, get_client, set_client, deref,
}

unfoldable pub build_inc_switch_cr : SwitchDetails → Object IncSwitchSpec
build_inc_switch_cr details = record {
  name = details.name;
  resource_version = none;
  spec = record { arch = details.arch; program_name = details.installed_program };
}

unfoldable pub build_p4_program_cr : String → List String → Object P4ProgramSpec
build_p4_program_cr program_name implemented_interfaces = record {
  name = program_name;
  resource_version = none;
  spec = record { artifacts = []; implemented_interfaces = implemented_interfaces };
}

abbrev pub slices_equal : List String → List String → Bool
slices_equal [] [] = true
slices_equal (x ∷ xs) (y ∷ ys) = x == y && slices_equal xs ys
slices_equal _ _ = false

-- the last object of a name in a list, which presentSwitchLut and programLut give
abbrev pub or_else : {S : Type 0} → Option (Object S) → Option (Object S) → Option (Object S)
or_else (some o) other = some o
or_else none other = other

abbrev pub stored_at : {S : Type 0} → String → List (Object S) → Option (Object S)
stored_at name [] = none
stored_at name (o ∷ os) = or_else (stored_at name os) (if o.name == name then some o else none)

abbrev pub names_of : {S : Type 0} → List (Object S) → List String
names_of os = map (λ o. o.name) os

-- the names of the INC switches of a graph
abbrev pub switch_names : List NetworkDevice → List String
switch_names [] = []
switch_names (dev ∷ devs) =
    if is_switch dev then add dev.name (switch_names devs) else switch_names devs

abbrev pub is_not_found : ApiError → Bool
is_not_found not_found = true
is_not_found _ = false

abbrev pub is_invalid_argument : ApiError → Bool
is_invalid_argument invalid_argument = true
is_invalid_argument _ = false

abbrev pub sdn_connected : Bool → String → Condition
sdn_connected status message = record {
  condition_type = "SdnConnected";
  status = status;
  reason = "Reconciling";
  message = message;
}

abbrev pub network_reconciled : Bool → String → Condition
network_reconciled status message = record {
  condition_type = "NetworkReconciled";
  status = status;
  reason = "Reconciling";
  message = message;
}

abbrev pub details_differ : SwitchDetails → IncSwitchSpec → Bool
details_differ details spec =
    not (details.arch == spec.arch) || not (details.installed_program == spec.program_name)

module _ {W : Type 0} (k8s : Kubernetes W) (sdn : Sdn W) where
  abbrev pub close_sdn_client : Run W (Unit {0})
  close_sdn_client = do client ← get_client; deref client; set_client none

  -- `grpc.Dial` and the subscription; the watcher is started with the connection
  unfoldable pub run_sdn_client_for_shim : SdnShim → Run W (ApiError ⊎ (Unit {0}))
  run_sdn_client_for_shim shim = do
    dialled ← call (sdn.dial shim.sdn_grpc_addr)
    elim dialled [
      | inl e ↦ return (inl e)
      | inr a ↦ do
        subscribed ← call (sdn.subscribe_network_changes shim.sdn_grpc_addr)
        elim subscribed [
          | inl e ↦ return (inl e)
          | inr b ↦ do set_client (some shim); return (inr tt)
        ]
    ]

  abbrev pub with_condition : SdnShim → Condition → SdnShim
  with_condition shim condition = record shim {
    conditions = k8s.set_status_condition shim.conditions condition;
  }

  -- the first reconciliation of a shim
  unfoldable pub start_conditions : SdnShim → Run W (Unit {0})
  start_conditions shim = do
    try (
        k8s.update_shim_status (
          with_condition (with_condition shim (sdn_connected false "Starting reconciliation"))
            (network_reconciled false "Starting reconciliation")))
    stop requeue

  -- by whether the client was run
  abbrev pub connected : SdnShim → ApiError ⊎ (Unit {0}) → Run W (Unit {0})
  connected shim (inl e) = do
    call (
        k8s.update_shim_status
          (with_condition shim (sdn_connected false "Failed to establish connection")))
    stop requeue_after
  connected shim (inr a) = do
    try (k8s.update_shim_status (with_condition shim (sdn_connected true "SDN connected")))
    stop requeue

  unfoldable pub connect : SdnShim → Run W (Unit {0})
  unfolding run_sdn_client_for_shim
  connect shim = do result ← run_sdn_client_for_shim shim; connected shim result

  -- the topology of the SDN controller; the graph of the topology resource behind it
  unfoldable pub sync_topology : String → Run W (List NetworkDevice)
  sync_topology addr = do
    sdn_topo ← call_or (sdn.get_topology addr) (λ e. close_sdn_client >> stop requeue)
    let topo = build_cluster_topo_cr sdn_topo in
        do
          stored ← call_or k8s.get_topology (λ e.
              if is_not_found e
              then (do
                try (k8s.set_controller_reference "cluster-topo")
                try (k8s.create_topology topo)
                stop requeue)
              else stop (failed e))
          if topology_changed stored topo
              then (do try (k8s.update_topology topo); return topo)
              else return stored

  -- an error of a query by name: the SDN controller no longer knows the name, or is out of reach
  abbrev pub refused : {A : Type 0} → Bool → Run W A
  refused known_error = if known_error then stop requeue else (close_sdn_client >> stop requeue)

  -- one pass of each loop over switches; the result of the last two is the set desiredProgramNames
  unfoldable pub remove_switch : List (Object IncSwitchSpec) → String → Unit {0} → Run W (Unit {0})
  remove_switch items sw_name u = do
    present ← deref (stored_at sw_name items)
    try (k8s.delete_switch present)

  abbrev pub check_against :
      List (Object IncSwitchSpec)
      → String
      → List String
      → Option SwitchDetails
      → Run W (List String)
  check_against items sw_name programs none = return programs
  check_against items sw_name programs (some details) = do
    stored ← deref (stored_at sw_name items)
    if details_differ details stored.spec
        then (do
          try (
              k8s.update_switch (record stored {
                spec = record { arch = details.arch; program_name = details.installed_program };
              }))
          return (add details.installed_program programs))
        else return (add details.installed_program programs)

  unfoldable pub check_switch :
      List (Object IncSwitchSpec)
      → List (String × SwitchDetails)
      → String
      → List String
      → Run W (List String)
  check_switch items details_of sw_name programs =
      check_against items sw_name programs (lookup sw_name details_of)

  abbrev pub add_with : List String → Option SwitchDetails → Run W (List String)
  add_with programs none = return programs
  add_with programs (some details) = do
    try (k8s.set_controller_reference details.name)
    try (k8s.create_switch (build_inc_switch_cr details))
    return (add details.installed_program programs)

  unfoldable pub add_switch :
      List (String × SwitchDetails) → String → List String → Run W (List String)
  unfolding build_inc_switch_cr
  add_switch details_of sw_name programs = add_with programs (lookup sw_name details_of)

  -- the loops, behind the listing of the switches
  unfoldable pub sync_listed_switches :
      String → List String → List (Object IncSwitchSpec) → Run W (List String)
  unfolding remove_switch check_switch add_switch
  sync_listed_switches addr desired items =
      let present = set_of (names_of items) in
      let to_add = difference desired present in
      let to_check = intersect desired present in
      do
        for_each (difference present desired) tt (remove_switch items)
        details_of ←
            call_or (sdn.get_switch_details addr (set_of (to_add ++ to_check)))
              (λ e. refused (is_not_found e || is_invalid_argument e))
        programs ← for_each to_check [] (check_switch items details_of)
        for_each to_add programs (add_switch details_of)

  unfoldable pub sync_switches : String → List NetworkDevice → Run W (List String)
  unfolding sync_listed_switches
  sync_switches addr graph = do
    items ← try k8s.list_switches
    sync_listed_switches addr (switch_names graph) items

  -- one pass of each loop over programs; the second one fills desiredPrograms
  unfoldable pub remove_program : List (Object P4ProgramSpec) → String → Unit {0} → Run W (Unit {0})
  remove_program items program_name u = do
    present ← deref (stored_at program_name items)
    try (k8s.delete_program present)

  unfoldable pub fetch_program :
      String
      → String
      → List (String × Object P4ProgramSpec)
      → Run W (List (String × Object P4ProgramSpec))
  unfolding build_p4_program_cr
  fetch_program addr program_name desired_programs = do
    details ← call_or (sdn.get_program_details addr program_name) (λ e. refused (is_not_found e))
    return (insert program_name (build_p4_program_cr program_name details) desired_programs)

  unfoldable pub add_program :
      List (String × Object P4ProgramSpec) → String → Unit {0} → Run W (Unit {0})
  add_program desired_programs program_name u = do
    desired ← deref (lookup program_name desired_programs)
    try (k8s.set_controller_reference program_name)
    try (k8s.create_program desired)

  unfoldable pub check_program :
      List (Object P4ProgramSpec)
      → List (String × Object P4ProgramSpec)
      → String
      → Unit {0}
      → Run W (Unit {0})
  check_program items desired_programs program_name u = do
    current ← deref (stored_at program_name items)
    desired ← deref (lookup program_name desired_programs)
    if slices_equal current.spec.implemented_interfaces desired.spec.implemented_interfaces
        then return tt
        else try (k8s.update_program desired)

  -- the loops, behind the listing of the programs
  unfoldable pub sync_listed_programs :
      String → List String → List (Object P4ProgramSpec) → Run W (Unit {0})
  unfolding remove_program fetch_program add_program check_program
  sync_listed_programs addr desired items =
      let stored = set_of (names_of items) in
      let to_add = difference desired stored in
      let to_check = intersect desired stored in
      do
        for_each (difference stored desired) tt (remove_program items)
        desired_programs ← for_each (set_of (to_add ++ to_check)) [] (fetch_program addr)
        for_each to_add tt (add_program desired_programs)
        for_each to_check tt (check_program items desired_programs)

  unfoldable pub sync_programs : String → List String → Run W (Unit {0})
  unfolding sync_listed_programs
  sync_programs addr desired = do
    items ← try k8s.list_programs
    sync_listed_programs addr desired items

  -- behind an open connection; it goes on where Reconcile logs that the shim is reconciled
  unfoldable pub sync_network : SdnShim → Run W (Unit {0})
  unfolding sync_topology sync_switches sync_programs
  sync_network shim = do
    graph ← sync_topology shim.sdn_grpc_addr
    programs ← sync_switches shim.sdn_grpc_addr graph
    sync_programs shim.sdn_grpc_addr programs
    try (
        k8s.update_shim_status
          (with_condition shim (network_reconciled true "Network state reconciled")))

  unfoldable pub serve_shim : SdnShim → Option SdnShim → Run W (Unit {0})
  unfolding connect sync_network
  serve_shim shim none = connect shim
  serve_shim shim (some shim_for_client) =
      if not (shim_for_client.sdn_grpc_addr == shim.sdn_grpc_addr)
      then (do close_sdn_client; connect shim)
      else sync_network shim

  unfoldable pub reconcile : Run W (Unit {0})
  unfolding start_conditions serve_shim
  reconcile = do
    shim ← call_or k8s.get_shim (λ e. stop done)
    if is_empty shim.conditions
        then start_conditions shim
        else (do client ← get_client; serve_shim shim client)

-- ===== src/Shim/Reconcile/Tests.antt =====
-- A network of one switch and one host, over resources of another switch and an old program.
use k8s_inc.Prelude.{
  String, ◌≡◌, refl, true, false, Option, none, some, List, [], ◌∷◌, arith, if◌then◌else◌, ◌==◌,
  ℕ_eq, String_eq, contains, add,
}
use k8s_inc.Prelude.Maps.{lookup, IsMap}
use k8s_inc.Prelude.Int.{pos}
use k8s_inc.Model.Devices.{IncSwitch, inc_switch, host}
use k8s_inc.Controller.Mapping.{
  SwitchDetails, topology_model_to_proto, inc_switch_to_details_proto, device_to_proto,
  convert_device_type,
}
use k8s_inc.Shim.Topology.{build_cluster_topo_cr, device_type_from_proto}
use k8s_inc.Shim.Api.{P4ProgramSpec, SdnShim, Network}
use k8s_inc.Shim.Api.Example.{World, view, k8s, sdn, example_laws}
use k8s_inc.Shim.Run.{Reconciler}
use k8s_inc.Shim.Reconcile.{reconcile}
use k8s_inc.Shim.Reconcile.Network.{IsAnswerable, IsProjection}
use k8s_inc.Shim.Reconcile.Finishes.{Finished, reconcile-IsProjection, reconcile-Finished}

abbrev s1 : IncSwitch
s1 = record {
  base = record {
    name = "s1";
    links =
        record { to = "h1"; mac_addr = "00:00:00:00:00:01"; ipv4 = "10.0.0.2"; mask = pos 24 } ∷ [];
  };
  arch = "bmv2";
  grpc_url = "127.0.0.1:9559";
  installed_program = "forward";
  allow_client_programmability = true;
}

abbrev s1_details : String → Option SwitchDetails
s1_details n = if "s1" == n then some (inc_switch_to_details_proto s1) else none

abbrev forward_interfaces : String → Option (List String)
forward_interfaces p = if "forward" == p then some ("telemetry" ∷ []) else none

abbrev network : String → Network
network addr = record {
  graph =
      topology_model_to_proto
        (record { devices = inc_switch s1 ∷ host (record { name = "h1"; links = [] }) ∷ [] });
  details = s1_details;
  interfaces = forward_interfaces;
}

s1_details-named : (addr n : String) (d : SwitchDetails) → s1_details n ≡ some d → d.name ≡ n
unfolding inc_switch_to_details_proto
s1_details-named addr n d is = ground (arith, is, String_eq.same_iff "s1" n)

abbrev shim : SdnShim
shim = record {
  sdn_grpc_addr = "127.0.0.1:9001";
  conditions =
      record {
        condition_type = "SdnConnected";
        status = true;
        reason = "Reconciling";
        message = "SDN connected";
      }
      ∷ [];
}

abbrev old_program : P4ProgramSpec
old_program = record { artifacts = []; implemented_interfaces = [] }

alone-IsMap : {S : Type 0} (name : String) (spec : S) → IsMap ((name, spec) ∷ [])
unfolding lookup
alone-IsMap name spec = (refl, tt)

abbrev world : World
world = record {
  shim = some shim;
  topology = some [];
  switches = ("s9", record { arch = "bmv2"; program_name = "old" }) ∷ [];
  switches_map = alone-IsMap "s9" (record { arch = "bmv2"; program_name = "old" });
  programs = ("old", old_program) ∷ [];
  programs_map = alone-IsMap "old" old_program;
}

abbrev reconciler : Reconciler
reconciler = record { shim_for_client = some shim }

world-IsAnswerable : IsAnswerable (network shim.sdn_grpc_addr) (view world)
unfolding inc_switch_to_details_proto build_cluster_topo_cr topology_model_to_proto device_to_proto
    convert_device_type device_type_from_proto lookup add
world-IsAnswerable = record {
  topology_stored = refl;
  switches_known = λ n h. (let at : contains n ("s1" ∷ []) ≡ true = h in ground (arith, at));
  programs_known =
      λ p (n, d, there, is, runs). ground (arith, is, runs, String_eq.same_iff "forward" p);
  programs_agree = λ p spec is stored known.
      (let apart : contains {A = String} "forward" ("old" ∷ []) ≡ false = refl in
        ground (
          arith,
          stored,
          known,
          apart,
          String_eq.same_iff "old" p,
          String_eq.same_iff "forward" p,
          String_eq.same_iff "old" "forward",
        ));
}

reconcile-Finished_example :
    Finished
      (k8s)
      (sdn network)
      (example_laws network ⊥ s1_details-named)
      (network shim.sdn_grpc_addr)
      reconciler
      (reconcile k8s (sdn network) reconciler world)
reconcile-Finished_example =
    reconcile-Finished k8s (sdn network) (example_laws network ⊥ s1_details-named) shim shim
      reconciler world refl refl refl refl world-IsAnswerable

finished :
    Finished
      (k8s)
      (sdn network)
      (example_laws network ⊥ s1_details-named)
      (network shim.sdn_grpc_addr)
      reconciler
      (reconcile k8s (sdn network) reconciler world)
finished =
    reconcile-Finished k8s (sdn network) (example_laws network ⊥ s1_details-named) shim shim
      reconciler world refl refl refl refl world-IsAnswerable

reconcile-IsProjection_example :
    (found : SdnShim) × ((view world).shim ≡ some found)
    × IsProjection (network found.sdn_grpc_addr) (view finished.0)
reconcile-IsProjection_example =
    reconcile-IsProjection k8s (sdn network) (example_laws network Unit s1_details-named) reconciler
      reconciler world finished.0 finished.1

-- ===== src/Shim/Topology/Tests.antt =====
-- A topology of two switches and a host, and a changed one.
use k8s_inc.Prelude.{String, ◌≡◌, refl, ◌↔◌, true, false, some, [], ◌∷◌, ℕ_eq, String_eq}
use k8s_inc.Prelude.Maps.{lookup}
use k8s_inc.Prelude.Int.{pos}
use k8s_inc.Controller.Mapping.{topology_model_to_proto}
use k8s_inc.Model.Devices.{Device, inc_switch, host}
use k8s_inc.Model.Graph.{Topology}
use k8s_inc.Shim.Topology.{build_cluster_topo_cr, get_switch_id_to_name_mapping, topology_changed}
use k8s_inc.Shim.Topology.Ids.{get_switch_id_to_name_mapping-get_switch_ids}
use k8s_inc.Shim.Topology.Changed.{topology_changed_iff}
use k8s_inc.Telemetry.Request.{get_switch_ids}

abbrev switch : String → Device
switch name = inc_switch (record {
  base = record { name = name; links = [] };
  arch = "bmv2";
  grpc_url = "127.0.0.1:9559";
  installed_program = "telemetry";
  allow_client_programmability = true;
})

abbrev topo : Topology
topo = record {
  devices = switch "s1" ∷ host (record { name = "h1"; links = [] }) ∷ switch "s2" ∷ [];
}

abbrev smaller : Topology
smaller = record { devices = switch "s1" ∷ [] }

get_switch_id_to_name_mapping-get_switch_ids_example :
    (lookup "s2" (get_switch_ids topo) ≡ some (pos 1)) ↔ (
      lookup 1
        (get_switch_id_to_name_mapping (build_cluster_topo_cr (topology_model_to_proto topo)))
      ≡ some "s2")
get_switch_id_to_name_mapping-get_switch_ids_example =
    get_switch_id_to_name_mapping-get_switch_ids topo (refl, (refl, (refl, tt)))
      (refl, (refl, (refl, tt))) "s2" 1

topology_changed_iff_example :
    (topology_changed
        (build_cluster_topo_cr (topology_model_to_proto topo))
        (build_cluster_topo_cr (topology_model_to_proto smaller))
      ≡ false)
    ↔ (build_cluster_topo_cr (topology_model_to_proto topo)
        ≡ build_cluster_topo_cr (topology_model_to_proto smaller))
topology_changed_iff_example =
    topology_changed_iff (build_cluster_topo_cr (topology_model_to_proto topo))
      (build_cluster_topo_cr (topology_model_to_proto smaller))

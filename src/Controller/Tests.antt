-- ===== src/Controller/Tests.antt =====
-- Queries and changes of a network of one switch and one host.
use k8s_inc.Prelude.{ℕ, refl, true, [], ◌∷◌, ℕ_eq, String_eq}
use k8s_inc.Model.Devices.{inc_switch, host}
use k8s_inc.Model.Graph.{Topology}
use k8s_inc.Programs.{Registry, lookup_program}
use k8s_inc.Prelude.Maps.{lookup}
use k8s_inc.Prelude.{none, some, arith}
use k8s_inc.Model.Program.{P4ProgramDetails}
use k8s_inc.Shim.Api.{Cluster}
use k8s_inc.Controller.Frontend.Serves.{network_of, AllRegistered, network_of-IsAnswerable}
use k8s_inc.Shim.Reconcile.Network.{IsAnswerable}
use k8s_inc.Controller.Frontend.{get_switch_details, Answers, get_switch_details-Answers}
use k8s_inc.Controller.Changes.{change_program}
use k8s_inc.Controller.Changes.Program.{IsProgramChange, change_program-IsProgramChange}

abbrev topo : Topology
topo = record {
  devices =
      inc_switch (record {
        base = record { name = "s1"; links = [] };
        arch = "bmv2";
        grpc_url = "127.0.0.1:9559";
        installed_program = "forward";
        allow_client_programmability = true;
      })
      ∷ host (record { name = "h1"; links = [] })
      ∷ [];
}

abbrev forward : P4ProgramDetails
forward = record { name = "forward"; implemented_interfaces = "telemetry" ∷ []; artifacts = [] }

abbrev programs : Registry ℕ
programs = ("forward", record { details = forward; delegate = 7 }) ∷ []

abbrev cluster : Cluster
cluster = record { shim = none; topology = some []; switches = λ n. none; programs = λ p. none }

get_switch_details-Answers_example :
    Answers topo ("s1" ∷ "h1" ∷ []) [] (get_switch_details topo ("s1" ∷ "h1" ∷ []))
get_switch_details-Answers_example = get_switch_details-Answers topo ("s1" ∷ "h1" ∷ [])

topo-AllRegistered : AllRegistered topo programs
unfolding lookup_program lookup
topo-AllRegistered name s at = ground (
  arith,
  at,
  String_eq.same_iff "s1" name,
  String_eq.same_iff "h1" name,
  String_eq.same_iff "forward" s.installed_program,
)

network_of-IsAnswerable_example : IsAnswerable (network_of topo programs) cluster
network_of-IsAnswerable_example =
    network_of-IsAnswerable topo programs cluster (refl, (refl, tt)) topo-AllRegistered refl
      (λ p spec is stored known. absurd (ground (arith, stored)))

change_program-IsProgramChange_example :
    IsProgramChange "s1" "telemetry" topo.devices (change_program "s1" "telemetry" topo)
change_program-IsProgramChange_example = change_program-IsProgramChange "s1" "telemetry" topo

-- ===== src/Telemetry/Sample.antt =====
-- A network of two hosts and three switches in a row, and a request for it, for the tests.
use k8s_inc.Prelude.{ℕ, suc, String, true, Option, none, List, [], ◌∷◌, ℕ_eq, String_eq}
use k8s_inc.Prelude.Int.{pos, ℤ_eq}
use k8s_inc.Connector.Entry.{RawTableEntry}
use k8s_inc.Model.Devices.{Link, Device, inc_switch, host}
use k8s_inc.Model.Graph.{Topology, TopologyGraph}
use k8s_inc.Programs.{Registry}
use k8s_inc.Telemetry.Request.{ConfigureTelemetryRequest, Endpoints, raw}
use k8s_inc.Telemetry.Traversals.{program_interface}

abbrev link : String → String → Link
link to ip = record { to = to; mac_addr = "00:00:00:00:00:01"; ipv4 = ip; mask = pos 24 }

abbrev pub switch : String → String → List Link → Device
switch name program links = inc_switch (record {
  base = record { name = name; links = links };
  arch = "bmv2";
  grpc_url = "127.0.0.1:9560";
  installed_program = program;
  allow_client_programmability = true;
})

abbrev pub h1 : Device
h1 = host (record { name = "h1"; links = link "s1" "10.0.1.1" ∷ [] })

abbrev pub s1 : Device
s1 = switch "s1" "telemetry" (link "h1" "10.0.1.2" ∷ link "s2" "10.0.2.1" ∷ [])

abbrev pub s2 : Device
s2 = switch "s2" "telemetry" (link "s1" "10.0.2.2" ∷ link "s3" "10.0.3.1" ∷ [])

abbrev pub s3 : Device
s3 = switch "s3" "telemetry" (link "s2" "10.0.3.2" ∷ link "h2" "10.0.4.1" ∷ [])

abbrev pub h2 : Device
h2 = host (record { name = "h2"; links = link "s3" "10.0.4.2" ∷ [] })

abbrev pub topology : Topology
topology = record { devices = h1 ∷ s1 ∷ s2 ∷ s3 ∷ h2 ∷ [] }

abbrev pub graph : TopologyGraph
graph = ("h1", h1) ∷ ("s1", s1) ∷ ("s2", s2) ∷ ("s3", s3) ∷ ("h2", h2) ∷ []

abbrev pub path : List String
path = "h2" ∷ "s3" ∷ "s2" ∷ "s1" ∷ "h1" ∷ []

abbrev pub registry : Registry (Unit {0})
registry =
    (
      "telemetry",
      record {
        details = record {
          name = "telemetry";
          implemented_interfaces = program_interface ∷ [];
          artifacts = [];
        };
        delegate = tt;
      },
    )
    ∷ []

abbrev endpoint : String → Endpoints
endpoint name = raw (record { device_name = name; port = none } ∷ [])

abbrev pub request : ConfigureTelemetryRequest
request = record {
  intent_id = "intent";
  collection_id = "collection";
  collector_node_name = "h2";
  collector_port = pos 6000;
  sources = endpoint "h1";
  targets = endpoint "h2";
}

-- switches that accept everything, and count what they were asked
abbrev pub accept : String → RawTableEntry → ℕ → Option String × ℕ
accept device entry n = (none, suc n)

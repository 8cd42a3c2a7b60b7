-- ===== src/Telemetry/Request.antt =====
-- The request ConfigureTelemetry (src/proto/sdn/telemetry/telemetry.proto) and the readers of it in
-- src/kinda-sdn/telemetry/util.go.
use k8s_inc.Prelude.{
  ℕ, String, Bool, true, false, Option, none, some, List, [], ◌∷◌, map, if◌then◌else◌, ℕ_eq,
  String_eq, get_elem?,
}
use k8s_inc.Prelude.Int.{ℤ, pos, ◌+ℤ◌, ℤ_eq}
use k8s_inc.Prelude.Maps.{lookup, insert}
use k8s_inc.Model.Devices.{Device, get_name, inc_switch}
use k8s_inc.Model.Graph.{Topology}

pub record RawTelemetryEntity : Type 0 where
  pub device_name : String
  pub port : Option ℤ

pub record TunneledEntity : Type 0 where
  pub tunneled_ip : String
  pub port : Option ℤ

-- One side of a request: the field `sources`, or `targets`, of which a oneof is set or none.
pub data Endpoints : Type 0 where
  raw : List RawTelemetryEntity → Endpoints
  tunneled : List (String × List TunneledEntity) → Endpoints
  unset : Endpoints

pub record ConfigureTelemetryRequest : Type 0 where
  pub intent_id : String
  pub collection_id : String
  pub collector_node_name : String
  pub collector_port : ℤ
  pub sources : Endpoints
  pub targets : Endpoints

abbrev pub device_names : Endpoints → List String
device_names (raw entities) = map (λ x. x.device_name) entities
device_names (tunneled entities) = map (λ (name, details). name) entities
device_names unset = []

unfoldable pub get_source_device_names : ConfigureTelemetryRequest → List String
get_source_device_names req = device_names req.sources

unfoldable pub get_target_device_names : ConfigureTelemetryRequest → List String
get_target_device_names req = device_names req.targets

abbrev is_tunneled : Endpoints → Bool
is_tunneled (tunneled entities) = true
is_tunneled _ = false

unfoldable pub requires_tunneling : ConfigureTelemetryRequest → Bool
requires_tunneling req = is_tunneled req.sources

-- The values of the interface `EntityDetails`.
pub data EntityDetails : Type 0 where
  raw_details : RawTelemetryEntity → EntityDetails
  tunneled_details : List TunneledEntity → EntityDetails

-- `none` is a panic: an index out of range, a nil entry that is used, or a failed type assertion.
abbrev pub details_at : Endpoints → String → ℕ → Option EntityDetails
details_at (raw entities) name i = elim (get_elem? entities i) [
  | none ↦ none
  | some entity ↦ some (raw_details entity)
]
details_at (tunneled entities) name i = elim (lookup name entities) [
  | none ↦ none
  | some details ↦ some (tunneled_details details)
]
details_at unset name i = none

unfoldable pub get_source_details : ConfigureTelemetryRequest → String → ℕ → Option EntityDetails
get_source_details req device_name source_idx = details_at req.sources device_name source_idx

unfoldable pub get_target_details : ConfigureTelemetryRequest → String → ℕ → Option EntityDetails
get_target_details req device_name target_idx = details_at req.targets device_name target_idx

abbrev pub is_inc_switch : Device → Bool
is_inc_switch (inc_switch s) = true
is_inc_switch _ = false

-- the loop of `getSwitchIds`
unfoldable pub number_switches : List Device → ℤ → List (String × ℤ) → List (String × ℤ)
number_switches [] counter res = res
number_switches (dev ∷ rest) counter res =
    number_switches rest (if is_inc_switch dev then counter +ℤ pos 1 else counter)
      (if is_inc_switch dev then insert (get_name dev) counter res else res)

unfoldable pub get_switch_ids : Topology → List (String × ℤ)
unfolding number_switches
get_switch_ids topo = number_switches topo.devices (pos 0) []

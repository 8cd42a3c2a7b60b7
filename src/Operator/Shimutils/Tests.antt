-- ===== src/Operator/Shimutils/Tests.antt =====
-- Two switches, of which the map gives the second under either name.
use k8s_inc.Prelude.{
  String, ◌≡◌, inr, Option, none, some, [], ◌∷◌, map, if◌then◌else◌, ℕ_eq, String_eq, contains,
}
use k8s_inc.Shim.Api.{Object, IncSwitchSpec}
use k8s_inc.Operator.Shimutils.{load_switches, last_item, load_switches_last}

abbrev switch : String → String → Object IncSwitchSpec
switch name program = record {
  name = name;
  resource_version = some "1";
  spec = record { arch = "bmv2"; program_name = program };
}

load_switches_last_example :
    (found : String → Option (Object IncSwitchSpec)) × (load_switches
        (inr (switch "s1" "telemetry" ∷ switch "s2" "forward" ∷ []))
      ≡ inr found)
    × ((name : String)
        → found name ≡ (
            if contains name
              (map (λ o. o.name) (switch "s1" "telemetry" ∷ switch "s2" "forward" ∷ []))
            then some (last_item (switch "s1" "telemetry") (switch "s2" "forward" ∷ []))
            else none))
load_switches_last_example =
    load_switches_last (switch "s1" "telemetry") (switch "s2" "forward" ∷ [])

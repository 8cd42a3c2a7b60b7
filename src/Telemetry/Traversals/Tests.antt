-- ===== src/Telemetry/Traversals/Tests.antt =====
-- The telemetry on the path of a small network.
use k8s_inc.Prelude.{◌≡◌, refl, some, [], ◌∷◌, arith, ℕ_eq, String_eq, add}
use k8s_inc.Prelude.Maps.{lookup}
use k8s_inc.Telemetry.Entities.{TelemetryEntities, new_telemetry_entities}
use k8s_inc.Telemetry.Sample.{graph, path, registry}
use k8s_inc.Telemetry.Traversals.{SourceSink, find_on_path, compatible_at}
use k8s_inc.Telemetry.Traversals.Edges.{IsSplit, find_on_path_correct, lone_target_is_found}

abbrev ends : SourceSink
ends = record { reversed_path = path; source_path_idx = 3; sink_path_idx = 1 }

abbrev between : TelemetryEntities
between = record { sources = []; transits = "s2" ∷ []; sinks = [] }

find_on_path_correct_example : IsSplit registry graph path ends [] ("s2" ∷ [])
unfolding find_on_path add compatible_at lookup k8s_inc.Programs.implements
    k8s_inc.Model.Program.implements
find_on_path_correct_example =
    find_on_path_correct registry graph path new_telemetry_entities between ends refl (omega arith)

lone_target_is_found_example :
    find_on_path registry graph ("s1" ∷ "h1" ∷ []) new_telemetry_entities
    ≡ some (
      some (record { reversed_path = "s1" ∷ "h1" ∷ []; source_path_idx = 0; sink_path_idx = 1 }),
      new_telemetry_entities,
    )
unfolding compatible_at lookup k8s_inc.Programs.implements k8s_inc.Model.Program.implements
lone_target_is_found_example =
    lone_target_is_found registry graph ("s1" ∷ "h1" ∷ []) 0 new_telemetry_entities refl refl
      (λ k lo hi. absurd (omega (arith, lo, hi)))

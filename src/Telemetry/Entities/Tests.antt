-- ===== src/Telemetry/Entities/Tests.antt =====
-- The difference of two small entities.
use k8s_inc.Prelude.{String, ◌≡◌, refl, false, not, ◌&&◌, [], ◌∷◌, ℕ_eq, String_eq}
use k8s_inc.Prelude.Int.{ℤ, pos, ℤ_eq}
use k8s_inc.Prelude.Maps.{lookup, IsMap}
use k8s_inc.Telemetry.Entities.{
  Edge, Edge_eq, TelemetrySourceConfig_eq, TelemetrySourceConfig, TelemetryEntities,
  compute_differences,
}
use k8s_inc.Telemetry.Entities.Differences.{configures, compute_differences_sources}

abbrev edge : String → String → Edge
edge from to = record { from = from; to = to }

abbrev config : ℤ → TelemetrySourceConfig
config port = record {
  ips = record { src = "x"; dst = "y" };
  src_port = port;
  dst_port = pos 2;
  tunneled = false;
}

abbrev old : TelemetryEntities
old = record {
  sources = (edge "s1" "s2", config (pos 1) ∷ []) ∷ [];
  transits = "s1" ∷ "s2" ∷ [];
  sinks = edge "s2" "h2" ∷ [];
}

abbrev new : TelemetryEntities
new = record {
  sources =
      (edge "s1" "s2", config (pos 1) ∷ config (pos 5) ∷ [])
      ∷ (edge "s3" "s2", config (pos 1) ∷ [])
      ∷ [];
  transits = "s2" ∷ "s3" ∷ [];
  sinks = edge "s2" "h2" ∷ [];
}

old-IsMap : IsMap old.sources
unfolding lookup
old-IsMap = (refl, tt)

new-IsMap : IsMap new.sources
unfolding lookup
new-IsMap = (refl, (refl, tt))

compute_differences_sources_example :
    let (added, removed) = compute_differences old new in
    (configures (edge "s1" "s2") (config (pos 5)) added.sources ≡ (
      configures (edge "s1" "s2") (config (pos 5)) new.sources
      && not (configures (edge "s1" "s2") (config (pos 5)) old.sources)))
    × (configures (edge "s1" "s2") (config (pos 5)) removed.sources ≡ (
        configures (edge "s1" "s2") (config (pos 5)) old.sources
        && not (configures (edge "s1" "s2") (config (pos 5)) new.sources)))
compute_differences_sources_example =
    compute_differences_sources old new old-IsMap new-IsMap (edge "s1" "s2") (config (pos 5))

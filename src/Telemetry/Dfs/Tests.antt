-- ===== src/Telemetry/Dfs/Tests.antt =====
-- The search in a small network.
use k8s_inc.Prelude.{◌≡◌, refl, ◌≢◌, true, [], ◌∷◌, ℕ_eq, String_eq, add}
use k8s_inc.Prelude.Maps.{lookup, has}
use k8s_inc.Telemetry.Dfs.{DfsState, done, run_dfs, out_of_fuel}
use k8s_inc.Telemetry.Dfs.Sound.{Walk, run_dfs_sound}
use k8s_inc.Telemetry.Dfs.Total.{run_dfs_returns, run_dfs_complete, IsLinked}
use k8s_inc.Telemetry.Sample.{graph, path, h1, switch}

abbrev searched : DfsState
searched = record { visited = "h2" ∷ "s3" ∷ "s2" ∷ "s1" ∷ "h1" ∷ []; reversed_path = path }

abbrev nothing : DfsState
nothing = record { visited = "s1" ∷ "h1" ∷ []; reversed_path = [] }

run_dfs_sound_example : Walk graph "h2" "h1" path
unfolding run_dfs lookup add
run_dfs_sound_example = run_dfs_sound graph "h1" "h2" searched refl refl

run_dfs_returns_example :
    (run_dfs graph "h1" "h2" ≢ out_of_fuel)
    × (IsLinked graph
        → has "h1" graph ≡ true
        → (st : DfsState) × (run_dfs graph "h1" "h2" ≡ done st))
run_dfs_returns_example = run_dfs_returns graph "h1" "h2"

run_dfs_complete_example : ¬ Walk (("h1", h1) ∷ ("s1", switch "s1" "" []) ∷ []) "h2" "h1" path
unfolding run_dfs lookup add
run_dfs_complete_example =
    run_dfs_complete (("h1", h1) ∷ ("s1", switch "s1" "" []) ∷ []) "h1" "h2" nothing path refl refl

-- ===== src/Telemetry/Monitor/Tests.antt =====
-- A queue that holds an older update, and four observers of which one has stopped.
use k8s_inc.Prelude.{ℕ, String, ◌≡◌, false, some, [], ◌∷◌, if◌then◌else◌, ◌==◌, ℕ_eq, String_eq}
use k8s_inc.Telemetry.Monitor.{StopChan, silent, closed, signalled, notify_loop, run_round}
use k8s_inc.Telemetry.Monitor.Rounds.{notify_loop_sends, run_round_correct}

-- the second observer has closed its channel, and the third has sent a value
abbrev stop : ℕ → StopChan
stop n = if n == 2 then closed else if n == 3 then signalled else silent

abbrev old : String
old = "old"

abbrev new : String
new = "new"

notify_loop_sends_example : notify_loop (λ n. false) 2 new (some old) ≡ some (some new)
notify_loop_sends_example = notify_loop_sends (λ n. false) 0 new (some old)

run_round_correct_example :
    run_round stop (1 ∷ 2 ∷ 3 ∷ []) (1 ∷ 2 ∷ 3 ∷ 4 ∷ []) ≡ (1 ∷ [], 1 ∷ 3 ∷ 4 ∷ [])
run_round_correct_example = run_round_correct stop (1 ∷ 2 ∷ 3 ∷ []) (4 ∷ [])

-- ===== src/Telemetry/ChangeLog/Tests.antt =====
-- A change log applied to a register that holds the sum of the deltas, and refuses to pass two.
use k8s_inc.Prelude.{
  ℕ, ◌+◌, ◌-◌, String, ◌≡◌, ◌&&◌, [], ◌∷◌, arith, ltb, if◌then◌else◌, ℕ_eq, String_eq,
}
use k8s_inc.Prelude.Int.{pos, negsuc, ℤ_eq}
use k8s_inc.Prelude.Result.{Result, ok, err}
use k8s_inc.Telemetry.ChangeLog.{
  ChangeLog, StateChangeAction, new_create_action, sink_state_counter, rollback,
}
use k8s_inc.Telemetry.ChangeLog.Rollback.{rollback-eq-undo_all, undo_all}
use k8s_inc.Telemetry.Config.{configure_transit_key, transit}

abbrev create : StateChangeAction
create =
    new_create_action "s1" configure_transit_key (transit (pos 1) (pos 1500)) sink_state_counter

abbrev two : ChangeLog
two = record { actions = create ∷ create ∷ []; done_counter = negsuc 0 }

-- a creation needs room for it, and a removal a sum that creations reach
abbrev register : StateChangeAction → ℕ → Result String (Unit {0}) × ℕ
register a n =
    if a.is_create
    then (if ltb n 2 then (ok tt, n + 1) else (err "full", n))
    else (if ltb 0 n && ltb n 3 then (ok tt, n - 1) else (err "empty", n))

rollback-eq-undo_all_example :
    rollback register (record two { done_counter = pos 1 }) 2
    ≡ undo_all register (create ∷ create ∷ []) [] (pos 1) 2
rollback-eq-undo_all_example =
    rollback-eq-undo_all register (record two { done_counter = pos 1 }) 2 (omega arith)

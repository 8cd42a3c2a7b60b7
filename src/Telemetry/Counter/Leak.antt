-- ===== src/Telemetry/Counter/Leak.antt =====
-- An increment of a key without a row raises `numEntries` before `runnable` is called, and does not
-- lower it again when `runnable` fails.
use k8s_inc.Prelude.{String, ◌≡◌, Option, none, some, arith, ℕ_eq, String_eq, length}
use k8s_inc.Prelude.Int.{pos, ◌+ℤ◌, pos-add-one, ℤ_eq}
use k8s_inc.Prelude.Maps.{lookup, lookup-insert}
use k8s_inc.Connector.Entry.{RawTableEntry}
use k8s_inc.Telemetry.Config.{MatchKey, to_identifier}
use k8s_inc.Telemetry.Counter.{DeviceState, StateCounter, increment_and_run_on_transition_to_one}
use k8s_inc.Telemetry.Counter.Sizes.{AllCounted}

module _ {W E : Type 0} (name : String) (key : MatchKey) (val : RawTableEntry)
    (run : W → Option E × W) (s : StateCounter) (w : W) where
  -- When every device's `numEntries` is the number of its rows, this fails after an increment of a key
  -- without a row on a known device whose write returns an error.
  pub increment_failure_leaks :
      (state : DeviceState) (e : E)
      → AllCounted s
      → lookup name s ≡ some state
      → lookup (to_identifier key) state.table_state ≡ none
      → (run w).0 ≡ some e
      → ¬ AllCounted (increment_and_run_on_transition_to_one name key val run s w).1
  unfolding increment_and_run_on_transition_to_one
  increment_failure_leaks state e all known absent failure broken =
      let state' = record state { num_entries = state.num_entries +ℤ pos 1 } in
      let after =
        broken name state'
          (ground (arith, lookup-insert name name state' s, String_eq.same_iff name name)) in
      ground (
        arith,
        after.counted,
        (all name state known).counted,
        pos-add-one (length state.table_state),
      )

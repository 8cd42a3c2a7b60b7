-- ===== src/Telemetry/Service/Rollback.antt =====
-- src/kinda-sdn/telemetry/service.go: a commit that failed, and its rollback on the counters.
pub mod Totals
pub mod Applied
mod Tests
use mathlib.Core.List.{reverse-cons}
use k8s_inc.Prelude.{
  String, ◌≡◌, subst, Bool, true, false, not, ◌&&◌, Option, none, some, List, [], ◌∷◌,
  if◌then◌else◌, Bool-cases, Option-cases, ◌==◌, ℕ_eq, String_eq, is_some, zero, suc,
}
use k8s_inc.Prelude.Int.{negsuc, ◌+ℤ◌, sub-add_one, add-sub_one, pos-sub-one, ℤ_eq}
use k8s_inc.Prelude.Maps.{lookup, insert, lookup-insert}
use k8s_inc.Prelude.Result.{Result, ok, err, panicked, is_ok}
use k8s_inc.Connector.Entry.{RawTableEntry}
use k8s_inc.Telemetry.Config.{MatchKey, to_identifier}
use k8s_inc.Telemetry.ChangeLog.{
  ChangeLog, StateChangeAction, CounterName, reverse_action, rounds, rollback, Undo, undone,
}
use k8s_inc.Telemetry.ChangeLog
use k8s_inc.Telemetry.Counter.{
  StateCounter, CounterError, DeviceState, row_or_new, enter_row, save_row, drop_row,
  increment_and_run_on_transition_to_one, decrement_and_run_on_transition_to_zero,
}
use k8s_inc.Telemetry.Counter.Counts.{count, count-increment, count-decrement}
use k8s_inc.Telemetry.Service.Apply.{apply_change, commit}
use k8s_inc.Telemetry.Service.Commit.{same_counter, counter_of-with_counter}
use k8s_inc.Telemetry.Service.State.{Counters, counter_of, with_counter}
use k8s_inc.Telemetry.Service.Rollback.Totals.{total}

module _ {W E : Type 0} (write_entry delete_entry : String → RawTableEntry → W → Option E × W) where
  -- undoing each of the actions was answered with an error, in some state
  abbrev pub AllRefused : List StateChangeAction → Type 0
  AllRefused [] = Unit
  AllRefused (a ∷ l) =
      ((u : Counters × W) × (e : CounterError E) × ((apply_change write_entry delete_entry
            (reverse_action a) u).0
          ≡ err e))
      × AllRefused l

  -- A failed commit behind its rollback: the error is returned, with the state that the rollback
  -- left; the rollback has gone through all that was done and reports the actions that remain, each
  -- of which was refused; the counts are those of before, moved by the actions that remain.
  pub record IsRolledBack (log : ChangeLog) (s : Counters × W) (e : CounterError E) : Type 0 where
    pub remain : List StateChangeAction
    pub state : Counters × W
    pub returned : commit write_entry delete_entry log s ≡ some (some e, state)
    pub rolled_back :
        rollback
          (apply_change write_entry delete_entry)
          (ChangeLog.commit (apply_change write_entry delete_entry) log s).1
          (ChangeLog.commit (apply_change write_entry delete_entry) log s).2
        ≡ undone remain (negsuc 0) state
    pub refused : AllRefused remain
    pub counts :
        (name : CounterName) (n i : String)
        → count n i (counter_of name state.0)
          ≡ total remain name n i (count n i (counter_of name s.0))

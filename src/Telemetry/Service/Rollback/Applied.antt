-- ===== src/Telemetry/Service/Rollback/Applied.antt =====
-- src/kinda-sdn/telemetry/service.go: what applyChange makes of the counts, and when it panics.
use k8s_inc.Prelude.{
  String, ◌≡◌, ap, inl, inr, true, false, Option, some, arith, if◌then◌else◌, Bool-cases,
  Option-cases, ℕ_eq, String_eq, is_some,
}
use k8s_inc.Prelude.Int.{pos, ◌+ℤ◌, ◌-ℤ◌, ℤ_eq}
use k8s_inc.Prelude.Maps.{lookup, insert, lookup-insert}
use k8s_inc.Prelude.Result.{ok, panicked, is_ok}
use k8s_inc.Connector.Entry.{RawTableEntry}
use k8s_inc.Telemetry.Config.{MatchKey, to_identifier}
use k8s_inc.Telemetry.ChangeLog.{StateChangeAction, CounterName}
use k8s_inc.Telemetry.Counter.{
  StateCounter, DeviceState, row_or_new, enter_row, save_row, drop_row,
  increment_and_run_on_transition_to_one, decrement_and_run_on_transition_to_zero,
}
use k8s_inc.Telemetry.Counter.Counts.{count, count-increment, count-decrement}
use k8s_inc.Telemetry.Service.Apply.{apply_change}
use k8s_inc.Telemetry.Service.Commit.{same_counter, counter_of-with_counter}
use k8s_inc.Telemetry.Service.State.{Counters, counter_of}
use k8s_inc.Telemetry.Service.Rollback.Totals.{shift, knows}

-- the devices of a counter stay, whatever is stored of one of them
known-insert :
    (name n : String) (old new : DeviceState) (s : StateCounter)
    → lookup name s ≡ some old
    → is_some (lookup n (insert name new s)) ≡ is_some (lookup n s)
known-insert name n old new s h =
    ground (arith, h, lookup-insert name n new s, String_eq.same_iff name n)

module _ {W E : Type 0} (name : String) (key : MatchKey) (s : StateCounter) (w : W) where
  known-increment :
      (val : RawTableEntry) (run : W → Option E × W) (n : String)
      → let after = increment_and_run_on_transition_to_one name key val run s w in
        (is_some (lookup n after.1) ≡ is_some (lookup n s))
        × (after.0 ≡ panicked → is_some (lookup name s) ≡ false)
        × (after.0 ≡ ok tt → is_some (lookup name s) ≡ true)
  unfolding increment_and_run_on_transition_to_one
  known-increment val run n = elim (Option-cases (lookup name s)) [
    | inl e ↦ ground arith
    | inr (state, e) ↦
        let found = lookup (to_identifier key) state.table_state in
        let row = row_or_new val found in
        let state' = enter_row found state in
        ground (
          arith,
          known-insert name n state state' s e,
          known-insert name n state (save_row (to_identifier key) (row.counter +ℤ pos 1) row state')
              s e,
        )
  ]

  known-decrement :
      (run : RawTableEntry → W → Option E × W) (n : String)
      → let after = decrement_and_run_on_transition_to_zero name key run s w in
        (is_some (lookup n after.1) ≡ is_some (lookup n s))
        × (after.0 ≡ panicked → is_some (lookup name s) ≡ false)
        × (after.0 ≡ ok tt → is_some (lookup name s) ≡ true)
  unfolding decrement_and_run_on_transition_to_zero
  known-decrement run n = elim (Option-cases (lookup name s)) [
    | inl e ↦ ground arith
    | inr (state, e) ↦ elim (Option-cases (lookup (to_identifier key) state.table_state)) [
      | inl absent ↦ ground arith
      | inr (row, at_key) ↦ ground (
        arith,
        known-insert name n state (drop_row (to_identifier key) state) s e,
        known-insert name n state (save_row (to_identifier key) (row.counter -ℤ pos 1) row state) s
            e,
      )
    ]
  ]

module _ {W E : Type 0} (write_entry delete_entry : String → RawTableEntry → W → Option E × W) where
  -- The counts behind an action, the devices, and which results tell of the device.
  pub record Applied (a : StateChangeAction) (s : Counters × W) : Type 0 where
    pub counts :
        (name : CounterName) (n i : String)
        → count n i (counter_of name (apply_change write_entry delete_entry a s).1.0) ≡ (
            if is_ok (apply_change write_entry delete_entry a s).0
            then shift a name n i (count n i (counter_of name s.0))
            else count n i (counter_of name s.0))
    pub same_known :
        (b : StateChangeAction)
        → knows b (apply_change write_entry delete_entry a s).1.0 ≡ knows b s.0
    pub panics : (apply_change write_entry delete_entry a s).0 ≡ panicked → knows a s.0 ≡ false
    pub succeeds : (apply_change write_entry delete_entry a s).0 ≡ ok tt → knows a s.0 ≡ true

  pub apply_change-Applied : (a : StateChangeAction) (s : Counters × W) → Applied a s
  unfolding apply_change
  apply_change-Applied a (c, w) =
      let s = counter_of a.counter c in
      elim (Bool-cases a.is_create) [
        | inl create ↦
            let run = write_entry a.device_name a.entry in
            let s' =
              (increment_and_run_on_transition_to_one a.device_name a.key a.entry run s w).1 in
            record {
              counts = λ name n i. ground (
                arith,
                create,
                ap (count n i) (counter_of-with_counter a.counter name s' c).0,
                (λ (h : same_counter a.counter name ≡ true).
                    ap (count n i) ((counter_of-with_counter a.counter name s' c).1 h)),
                count-increment a.device_name a.key s w n i a.entry run,
              );
              same_known = λ b. ground (
                arith,
                create,
                ap (λ x. is_some (lookup b.device_name x))
                    (counter_of-with_counter a.counter b.counter s' c).0,
                (λ (h : same_counter a.counter b.counter ≡ true).
                    ap (λ x. is_some (lookup b.device_name x))
                      ((counter_of-with_counter a.counter b.counter s' c).1 h)),
                (known-increment a.device_name a.key s w a.entry run b.device_name).0,
              );
              panics = λ h.
                  (known-increment a.device_name a.key s w a.entry run "").1
                    (ground (arith, h, create));
              succeeds = λ h.
                  (known-increment a.device_name a.key s w a.entry run "").2
                    (ground (arith, h, create));
            }
        | inr delete ↦
            let run = delete_entry a.device_name in
            let s' = (decrement_and_run_on_transition_to_zero a.device_name a.key run s w).1 in
            record {
              counts = λ name n i. ground (
                arith,
                delete,
                ap (count n i) (counter_of-with_counter a.counter name s' c).0,
                (λ (h : same_counter a.counter name ≡ true).
                    ap (count n i) ((counter_of-with_counter a.counter name s' c).1 h)),
                count-decrement a.device_name a.key s w n i run,
              );
              same_known = λ b. ground (
                arith,
                delete,
                ap (λ x. is_some (lookup b.device_name x))
                    (counter_of-with_counter a.counter b.counter s' c).0,
                (λ (h : same_counter a.counter b.counter ≡ true).
                    ap (λ x. is_some (lookup b.device_name x))
                      ((counter_of-with_counter a.counter b.counter s' c).1 h)),
                (known-decrement a.device_name a.key s w run b.device_name).0,
              );
              panics = λ h.
                  (known-decrement a.device_name a.key s w run "").1 (ground (arith, h, delete));
              succeeds = λ h.
                  (known-decrement a.device_name a.key s w run "").2 (ground (arith, h, delete));
            }
      ]

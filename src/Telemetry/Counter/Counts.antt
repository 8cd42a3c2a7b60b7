-- ===== src/Telemetry/Counter/Counts.antt =====
-- The counter as a function: how often each key of each device is counted, and when the switch is
-- asked to do something.
use k8s_inc.Prelude.{
  String, ◌≡◌, refl, inl, inr, ◌&&◌, Option, none, some, arith, if◌then◌else◌, Option-cases, ◌==◌,
  ℕ_eq, String_eq,
}
use k8s_inc.Prelude.Int.{ℤ, pos, ◌+ℤ◌, ◌-ℤ◌, ℤ_eq}
use k8s_inc.Prelude.Maps.{lookup, insert, lookup-insert, lookup-erase}
use k8s_inc.Prelude.Result.{Result, ok, err, is_ok}
use k8s_inc.Connector.Entry.{RawTableEntry}
use k8s_inc.Telemetry.Config.{MatchKey, to_identifier}
use k8s_inc.Telemetry.Counter.{
  TableState, DeviceState, StateCounter, CounterError, failed, row_or_new, enter_row, save_row,
  drop_row, increment_and_run_on_transition_to_one, decrement_and_run_on_transition_to_zero,
}

abbrev pub row_count : Option TableState → ℤ
row_count none = pos 0
row_count (some row) = row.counter

abbrev pub row_of : String → Option DeviceState → Option TableState
row_of id none = none
row_of id (some state) = lookup id state.table_state

-- how many times a key is counted
unfoldable pub count : String → String → StateCounter → ℤ
count name id s = row_count (row_of id (lookup name s))

pub count-insert :
    (name n i : String) (state : DeviceState) (s : StateCounter)
    → count n i (insert name state s)
      ≡ (if name == n then row_count (lookup i state.table_state) else count n i s)
unfolding count
count-insert name n i state s = ground (arith, lookup-insert name n state s)

row_count-save_row :
    (id i : String) (m : ℤ) (row : TableState) (state : DeviceState)
    → row_count (lookup i (save_row id m row state).table_state)
      ≡ (if id == i then m else row_count (lookup i state.table_state))
row_count-save_row id i m row state =
    ground (arith, lookup-insert id i (record row { counter = m }) state.table_state)

row_count-drop_row :
    (id i : String) (state : DeviceState)
    → row_count (lookup i (drop_row id state).table_state)
      ≡ (if id == i then pos 0 else row_count (lookup i state.table_state))
row_count-drop_row id i state = ground (arith, lookup-erase id i state.table_state)

-- a key that has no row yet is entered with the count 0, which it had
row_count-enter_row :
    (val : RawTableEntry) (i : String) (state : DeviceState) (found : Option TableState)
    → (row_count (lookup i (enter_row found state).table_state)
        ≡ row_count (lookup i state.table_state))
      × ((row_or_new val found).counter ≡ row_count found)
row_count-enter_row val i state none = (refl, refl)
row_count-enter_row val i state (some row) = (refl, refl)

pub count-known :
    (n i : String) (s : StateCounter) (state : DeviceState)
    → lookup n s ≡ some state
    → count n i s ≡ row_count (lookup i state.table_state)
unfolding count
count-known n i s state h = rw h

one_less : pos 1 -ℤ pos 1 ≡ pos 0
unfolding ◌-ℤ◌
one_less = refl

module _ {W E : Type 0} (name : String) (key : MatchKey) (s : StateCounter) (w : W)
    (n i : String) where
  -- A successful increment adds one at its key and changes no other count; one that fails or
  -- panics changes none.
  pub count-increment :
      (val : RawTableEntry) (run : W → Option E × W)
      → let after = increment_and_run_on_transition_to_one name key val run s w in
        count n i after.1 ≡ (
          if is_ok after.0 && (name == n && to_identifier key == i)
          then count n i s +ℤ pos 1
          else count n i s)
  unfolding increment_and_run_on_transition_to_one
  count-increment val run = elim (Option-cases (lookup name s)) [
    | inl e ↦ ground arith
    | inr (state, e) ↦
        let found = lookup (to_identifier key) state.table_state in
        let row = row_or_new val found in
        let state' = enter_row found state in
        ground (
          arith,
          count-insert name n i state' s,
          count-insert name n i (save_row (to_identifier key) (row.counter +ℤ pos 1) row state') s,
          row_count-save_row (to_identifier key) i (row.counter +ℤ pos 1) row state',
          row_count-enter_row val i state found,
          count-known name i s state,
          String_eq.same_iff name n,
          String_eq.same_iff (to_identifier key) i,
        )
  ]

  -- A successful decrement takes one off at its key and changes no other count; one that fails or
  -- panics changes none.
  pub count-decrement :
      (run : RawTableEntry → W → Option E × W)
      → let after = decrement_and_run_on_transition_to_zero name key run s w in
        count n i after.1 ≡ (
          if is_ok after.0 && (name == n && to_identifier key == i)
          then count n i s -ℤ pos 1
          else count n i s)
  unfolding decrement_and_run_on_transition_to_zero
  count-decrement run = elim (Option-cases (lookup name s)) [
    | inl e ↦ ground arith
    | inr (state, e) ↦ elim (Option-cases (lookup (to_identifier key) state.table_state)) [
      | inl absent ↦ ground arith
      | inr (row, at_key) ↦ ground (
        arith,
        count-insert name n i (drop_row (to_identifier key) state) s,
        count-insert name n i (save_row (to_identifier key) (row.counter -ℤ pos 1) row state) s,
        row_count-save_row (to_identifier key) i (row.counter -ℤ pos 1) row state,
        row_count-drop_row (to_identifier key) i state,
        count-known name i s state,
        String_eq.same_iff name n,
        String_eq.same_iff (to_identifier key) i,
        ℤ_eq.same_iff row.counter (pos 1),
        one_less,
      )
    ]
  ]

-- what a call returns that runs `runnable`
abbrev pub from_error : {E : Type 0} → Option E → Result (CounterError E) (Unit {0})
from_error none = ok tt
from_error (some e) = err (failed e)

module _ {W E : Type 0} (name : String) (key : MatchKey) (s : StateCounter) (w : W)
    (state : DeviceState) (known : lookup name s ≡ some state) where
  -- On a known device an increment runs `runnable` exactly when the count was 0, and then returns
  -- its error or success; else it succeeds and leaves the world as it was.
  pub increment_runs :
      (val : RawTableEntry) (run : W → Option E × W)
      → let after = increment_and_run_on_transition_to_one name key val run s w in
        let first = count name (to_identifier key) s == pos 0 in
        (after.0 ≡ (if first then from_error (run w).0 else ok tt))
        × (after.2 ≡ (if first then (run w).1 else w))
  unfolding increment_and_run_on_transition_to_one
  increment_runs val run = ground (
    arith,
    count-known name (to_identifier key) s state,
    row_count-enter_row val (to_identifier key) state
        (lookup (to_identifier key) state.table_state),
  )

  -- A decrement of a key with a row runs `runnable` on the stored entry exactly when the count was
  -- 1, and then returns its error or success; else it succeeds and leaves the world as it was.
  pub decrement_runs :
      (run : RawTableEntry → W → Option E × W) (row : TableState)
      → lookup (to_identifier key) state.table_state ≡ some row
      → let after = decrement_and_run_on_transition_to_zero name key run s w in
        let last = count name (to_identifier key) s == pos 1 in
        (after.0 ≡ (if last then from_error (run row.entry w).0 else ok tt))
        × (after.2 ≡ (if last then (run row.entry w).1 else w))
  unfolding decrement_and_run_on_transition_to_zero
  decrement_runs run row h = ground (arith, count-known name (to_identifier key) s state)

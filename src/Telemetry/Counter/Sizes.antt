-- ===== src/Telemetry/Counter/Sizes.antt =====
-- `numEntries` against the number of rows.
use k8s_inc.Prelude.{
  String, ◌≡◌, refl, sym, ap, ◌⊎◌, inl, inr, true, Option, none, some, [], arith, Bool-cases,
  Option-cases, ◌==◌, ℕ_eq, String_eq, is_some, length,
}
use k8s_inc.Prelude.Int.{ℤ, pos, ◌+ℤ◌, ◌-ℤ◌, pos-add-one, ℤ_eq}
use k8s_inc.Prelude.Maps.{
  lookup, insert, has, IsMap, lookup-insert, length-insert, length-erase, IsMap-insert, IsMap-erase,
}
use mathlib.Core.Path.{subst}
use k8s_inc.Prelude.Result.{is_ok}
use k8s_inc.Connector.Entry.{RawTableEntry}
use k8s_inc.Telemetry.Config.{MatchKey, to_identifier}
use k8s_inc.Telemetry.Counter.{
  TableState, DeviceState, StateCounter, row_or_new, enter_row, save_row, drop_row,
  increment_and_run_on_transition_to_one, decrement_and_run_on_transition_to_zero, add_device,
}

-- the rows of a device are a map, and `numEntries` is their number
pub record IsCounted (state : DeviceState) : Type 0 where
  pub unique : IsMap state.table_state
  pub counted : state.num_entries ≡ pos (length state.table_state)

abbrev pub AllCounted : StateCounter → Type 0
AllCounted s = (name : String) (state : DeviceState) → lookup name s ≡ some state → IsCounted state

AllCounted-insert :
    (name : String) (state : DeviceState) (s : StateCounter)
    → IsCounted state
    → AllCounted s
    → AllCounted (insert name state s)
AllCounted-insert name state s c all n st h = elim (Bool-cases (name == n)) [
  | inl same ↦ subst IsCounted (ground (arith, lookup-insert name n state s)) c
  | inr other ↦ all n st (ground (arith, lookup-insert name n state s))
]

save_row-IsCounted :
    (id : String) (m : ℤ) (row : TableState) (state : DeviceState)
    → has id state.table_state ≡ true
    → IsCounted state
    → IsCounted (save_row id m row state)
save_row-IsCounted id m row state h c = record {
  unique = IsMap-insert id (record row { counter = m }) state.table_state c.unique;
  counted =
      ground (arith, c.counted, length-insert id (record row { counter = m }) state.table_state);
}

-- a new row comes with the count that entering it raised
new_row-IsCounted :
    (id : String) (m : ℤ) (row : TableState) (state : DeviceState)
    → lookup id state.table_state ≡ none
    → IsCounted state
    → IsCounted (save_row id m row (enter_row none state))
new_row-IsCounted id m row state h c = record {
  unique = IsMap-insert id (record row { counter = m }) state.table_state c.unique;
  counted = ground (
    arith,
    c.counted,
    length-insert id (record row { counter = m }) state.table_state,
    pos-add-one (length state.table_state),
  );
}

drop_row-IsCounted :
    (id : String) (row : TableState) (state : DeviceState)
    → lookup id state.table_state ≡ some row
    → IsCounted state
    → IsCounted (drop_row id state)
unfolding ◌+ℤ◌
drop_row-IsCounted id row state h c = record {
  unique = IsMap-erase id state.table_state c.unique;
  counted = ground (arith, c.counted, length-erase id state.table_state c.unique);
}

-- A new device has no rows and the number 0.
pub add_device-AllCounted :
    (name : String) (s : StateCounter) → AllCounted s → AllCounted (add_device name s)
unfolding add_device
add_device-AllCounted name s all =
    AllCounted-insert name (record { table_state = []; num_entries = pos 0 }) s
      (record { unique = tt; counted = refl }) all

module _ {W E : Type 0} (name : String) (key : MatchKey) (s : StateCounter) (w : W) where
  decrement_counter :
      (run : RawTableEntry → W → Option E × W)
      → let s' = (decrement_and_run_on_transition_to_zero name key run s w).1 in
        (s' ≡ s)
        ⊎ ((state : DeviceState) × (row : TableState) × (m : ℤ) × (lookup name s ≡ some state)
            × (lookup (to_identifier key) state.table_state ≡ some row)
            × ((s' ≡ insert name (drop_row (to_identifier key) state) s)
                ⊎ (s' ≡ insert name (save_row (to_identifier key) m row state) s)))
  unfolding decrement_and_run_on_transition_to_zero
  decrement_counter run = elim (Option-cases (lookup name s)) [
    | inl e ↦ inl (ground arith)
    | inr (state, e) ↦ elim (Option-cases (lookup (to_identifier key) state.table_state)) [
      | inl absent ↦ inl (ground arith)
      | inr (row, h) ↦ elim (Bool-cases (row.counter == pos 1)) [
        | inr more ↦ inr (state, row, row.counter -ℤ pos 1, e, h, inr (ground arith))
        | inl last ↦ elim (Option-cases (run row.entry w).0) [
          | inl done ↦ inr (state, row, pos 0, e, h, inl (ground arith))
          | inr (x, failure) ↦ inl (ground arith)
        ]
      ]
    ]
  ]

  increment_counter :
      (val : RawTableEntry) (run : W → Option E × W)
      → is_ok (increment_and_run_on_transition_to_one name key val run s w).0 ≡ true
      → (state : DeviceState) × (row : TableState) × (m : ℤ) × (lookup name s ≡ some state)
        × ((increment_and_run_on_transition_to_one name key val run s w).1
            ≡ insert name
                (save_row
                  (to_identifier key)
                  m
                  row
                  (enter_row (lookup (to_identifier key) state.table_state) state))
                s)
  unfolding increment_and_run_on_transition_to_one
  increment_counter val run h = elim (Option-cases (lookup name s)) [
    | inl e ↦ ground arith
    | inr (state, e) ↦
        let row = row_or_new val (lookup (to_identifier key) state.table_state) in
        (state, row, row.counter +ℤ pos 1, e, ground arith)
  ]

save_entered-IsCounted :
    (id : String) (m : ℤ) (row : TableState) (state : DeviceState)
    → IsCounted state
    → IsCounted (save_row id m row (enter_row (lookup id state.table_state) state))
save_entered-IsCounted id m row state c = elim (Option-cases (lookup id state.table_state)) [
  | inl absent ↦ rw absent (new_row-IsCounted id m row state absent c)
  | inr (old, h) ↦ rw h (save_row-IsCounted id m row state (ap is_some h) c)
]

-- A decrement keeps `numEntries` equal to the number of rows on every device, whether it succeeds,
-- fails or panics.
pub decrement-AllCounted :
    {W E : Type 0} (name : String) (key : MatchKey) (run : RawTableEntry → W → Option E × W)
    (s : StateCounter) (w : W)
    → AllCounted s
    → AllCounted (decrement_and_run_on_transition_to_zero name key run s w).1
decrement-AllCounted name key run s w all = elim (decrement_counter name key s w run) [
  | inl same ↦ subst AllCounted (sym same) all
  | inr (state, row, m, e, h, inl dropped) ↦ subst AllCounted (sym dropped) (
      AllCounted-insert name (drop_row (to_identifier key) state) s
        (drop_row-IsCounted (to_identifier key) row state h (all name state e)) all)
  | inr (state, row, m, e, h, inr saved) ↦ subst AllCounted (sym saved) (
      AllCounted-insert name (save_row (to_identifier key) m row state) s
        (save_row-IsCounted (to_identifier key) m row state (ap is_some h) (all name state e)) all)
]

-- A successful increment keeps `numEntries` equal to the number of rows on every device.
pub increment-AllCounted :
    {W E : Type 0} (name : String) (key : MatchKey) (val : RawTableEntry) (run : W → Option E × W)
    (s : StateCounter) (w : W)
    → AllCounted s
    → is_ok (increment_and_run_on_transition_to_one name key val run s w).0 ≡ true
    → AllCounted (increment_and_run_on_transition_to_one name key val run s w).1
increment-AllCounted name key val run s w all h =
    let (state, row, m, e, saved) = increment_counter name key s w val run h in
    let id = to_identifier key in
    let state' = save_row id m row (enter_row (lookup id state.table_state) state) in
    subst AllCounted (sym saved) (
      AllCounted-insert name state' s (save_entered-IsCounted id m row state (all name state e))
        all)

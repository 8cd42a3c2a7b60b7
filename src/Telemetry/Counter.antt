-- ===== src/Telemetry/Counter.antt =====
-- src/kinda-sdn/telemetry/counter.go: how many intents need each table entry of each switch.
-- A method holds the lock of its device from the lookup to the end, so it is one step. `runnable`
-- is a step of the switches' world `W`, which may fail with an error.
pub mod Counts
pub mod Sizes
pub mod Leak
mod Tests
use k8s_inc.Prelude.{
  ℕ, zero, suc, ◌+◌, ◌-◌, ◌*◌, ◌/◌, ◌%◌, ◌^◌, ◌≤◌, ◌<◌, String, ◌≡◌, refl, sym, ap, ◌∙◌, ◌≢◌, ◌↔◌,
  ◌⊎◌, inl, inr, Bool, true, false, not, ◌&&◌, ◌||◌, Option, none, some, List, [], ◌∷◌, ◌++◌, map,
  arith, ltb, leb, if◌then◌else◌, ltb→lt, lt→ltb, leb→le, le→leb, Bool-cases, Option-cases, Eq,
  ◌==◌, ℕ_eq, String_eq, contains, add, remove, contains-add, contains-remove, add_not_empty,
  remove_empty, contains_empty, same_refl, is_some, length, is_empty, get_elem?, replicate,
  find_index, update_at, count_if, length-append, length-update_at, length-replicate, count_if-le,
  get_elem?-update_at, count_if-update_at, find_index_hit, find_index_first, find_index_miss,
  get_elem?-lt, update_at_all, find_index-update_at,
}
use k8s_inc.Prelude.Int.{
  ℤ, pos, negsuc, ◌+ℤ◌, ◌-ℤ◌, neg, leb_ℤ, pos-sub-one, pos-add-one, sub-add_one, add-sub_one,
  neg-neg, ℤ_eq, same_ℤ,
}
use k8s_inc.Prelude.Maps.{
  lookup, insert, erase, has, IsMap, lookup-insert, lookup-erase, length-insert, length-erase,
  IsMap-insert, IsMap-erase, erase_absent,
}
use k8s_inc.Prelude.Result.{Result, ok, err, panicked}
use k8s_inc.Connector.Entry.{RawTableEntry}
use k8s_inc.Telemetry.Config.{MatchKey, to_identifier}

pub record TableState : Type 0 where
  pub counter : ℤ
  pub entry : RawTableEntry

pub record DeviceState : Type 0 where
  pub table_state : List (String × TableState)
  pub num_entries : ℤ

abbrev pub StateCounter : Type 0
StateCounter = List (String × DeviceState)

abbrev pub new_state_counter : StateCounter
new_state_counter = []

unfoldable pub add_device : String → StateCounter → StateCounter
add_device dev_name s = insert dev_name (record { table_state = []; num_entries = pos 0 }) s

unfoldable pub take_per_device_number_of_entries_snapshot : StateCounter → List (String × ℤ)
take_per_device_number_of_entries_snapshot =
    map (λ (dev_name, state). (dev_name, state.num_entries))

-- `failed` passes on the error of `runnable`.
pub data CounterError (E : Type 0) : Type 0 where
  failed : E → CounterError E
  no_such_entry : CounterError E

-- the row that an increment starts from
abbrev pub row_or_new : RawTableEntry → Option TableState → TableState
row_or_new val (some row) = row
row_or_new val none = record { counter = pos 0; entry = val }

-- the device's state when `runnable` is called: a new row is counted before it
abbrev pub enter_row : Option TableState → DeviceState → DeviceState
enter_row (some row) state = state
enter_row none state = record state { num_entries = state.num_entries +ℤ pos 1 }

abbrev pub save_row : String → ℤ → TableState → DeviceState → DeviceState
save_row id n row state = record state {
  table_state = insert id (record row { counter = n }) state.table_state;
}

abbrev pub drop_row : String → DeviceState → DeviceState
drop_row id state = record state {
  table_state = erase id state.table_state;
  num_entries = state.num_entries +ℤ negsuc 0;
}

-- what a call returns, the counter after it, and the world after it
abbrev pub Outcome : Type 0 → Type 0 → Type 0
Outcome W E = Result (CounterError E) (Unit {0}) × StateCounter × W

module _ {W E : Type 0} where
  unfoldable pub increment_and_run_on_transition_to_one :
      String → MatchKey → RawTableEntry → (W → Option E × W) → StateCounter → W → Outcome W E
  increment_and_run_on_transition_to_one dev_name key val runnable s w = elim (lookup dev_name s) [
    | none ↦ (panicked, s, w)
    | some state ↦
        let id = to_identifier key in
        let found = lookup id state.table_state in
        let row = row_or_new val found in
        let state' = enter_row found state in
        let saved = insert dev_name (save_row id (row.counter +ℤ pos 1) row state') s in
        if row.counter == pos 0
        then elim (runnable w).0 [
          | some e ↦ (err (failed e), insert dev_name state' s, (runnable w).1)
          | none ↦ (ok tt, saved, (runnable w).1)
        ]
        else (ok tt, saved, w)
  ]

  -- the row is there
  unfoldable pub decrement_row :
      String
      → String
      → DeviceState
      → TableState
      → (RawTableEntry → W → Option E × W)
      → StateCounter
      → W
      → Outcome W E
  decrement_row dev_name id state row runnable s w =
      if row.counter == pos 1
      then elim (runnable row.entry w).0 [
        | some e ↦ (err (failed e), s, (runnable row.entry w).1)
        | none ↦ (ok tt, insert dev_name (drop_row id state) s, (runnable row.entry w).1)
      ]
      else (ok tt, insert dev_name (save_row id (row.counter -ℤ pos 1) row state) s, w)

  unfoldable pub decrement_and_run_on_transition_to_zero :
      String → MatchKey → (RawTableEntry → W → Option E × W) → StateCounter → W → Outcome W E
  unfolding decrement_row
  decrement_and_run_on_transition_to_zero dev_name key runnable s w = elim (lookup dev_name s) [
    | none ↦ (panicked, s, w)
    | some state ↦
        let id = to_identifier key in
        elim (lookup id state.table_state) [
          | none ↦ (err no_such_entry, s, w)
          | some row ↦ decrement_row dev_name id state row runnable s w
        ]
  ]

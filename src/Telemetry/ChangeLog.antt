-- ===== src/Telemetry/ChangeLog.antt =====
-- src/kinda-sdn/telemetry/changelog.go: the actions of one request, committed in order and undone in
-- the opposite order. The applier is a step of a state `S` that may fail or panic.
pub mod Commit
pub mod Rollback
mod Tests
use k8s_inc.Prelude.{
  ℕ, zero, suc, ◌+◌, ◌-◌, ◌*◌, ◌/◌, ◌%◌, ◌^◌, ◌≤◌, ◌<◌, String, ◌≡◌, refl, sym, ap, ◌∙◌, ◌≢◌, ◌↔◌,
  ◌⊎◌, inl, inr, Bool, true, false, not, ◌&&◌, ◌||◌, Option, none, some, List, [], ◌∷◌, ◌++◌, map,
  arith, ltb, leb, if◌then◌else◌, ltb→lt, lt→ltb, leb→le, le→leb, Bool-cases, Option-cases, Eq,
  ◌==◌, ℕ_eq, String_eq, contains, add, remove, contains-add, contains-remove, add_not_empty,
  remove_empty, contains_empty, same_refl, is_some, length, is_empty, get_elem?, replicate,
  find_index, update_at, count_if, length-append, length-update_at, length-replicate, count_if-le,
  get_elem?-update_at, count_if-update_at, find_index_hit, find_index_first, find_index_miss,
  get_elem?-lt, update_at_all, find_index-update_at,
}
use k8s_inc.Prelude.Int.{
  ℤ, pos, negsuc, ◌+ℤ◌, ◌-ℤ◌, neg, leb_ℤ, pos-sub-one, pos-add-one, sub-add_one, add-sub_one,
  neg-neg, ℤ_eq, same_ℤ,
}
use k8s_inc.Prelude.Result.{Result, ok, err, panicked}
use k8s_inc.Connector.Entry.{RawTableEntry}
use k8s_inc.Telemetry.Config.{MatchKey}

-- the pointer to one of the five counters of the service
pub data CounterName : Type 0 where
  transit_state_counter sink_state_counter raporting_state_counter : CounterName
  activate_source_counter configure_source_counter : CounterName

pub record StateChangeAction : Type 0 where
  pub device_name : String
  pub key : MatchKey
  pub entry : RawTableEntry
  pub counter : CounterName
  pub delta : ℤ
  pub is_create : Bool

unfoldable pub reverse_action : StateChangeAction → StateChangeAction
reverse_action s = record s { delta = neg s.delta; is_create = not s.is_create }

unfoldable pub new_create_action :
    String → MatchKey → RawTableEntry → CounterName → StateChangeAction
new_create_action device_name key entry counter = record {
  device_name = device_name;
  key = key;
  entry = entry;
  counter = counter;
  delta = pos 1;
  is_create = true;
}

unfoldable pub new_delete_action :
    String → MatchKey → RawTableEntry → CounterName → StateChangeAction
new_delete_action device_name key entry counter = record {
  device_name = device_name;
  key = key;
  entry = entry;
  counter = counter;
  delta = negsuc 0;
  is_create = false;
}

pub record ChangeLog : Type 0 where
  pub actions : List StateChangeAction
  pub done_counter : ℤ

abbrev pub new_change_log : ChangeLog
new_change_log = record { actions = []; done_counter = negsuc 0 }

-- `none` is the panic on a log that was committed.
unfoldable pub extend_from : ChangeLog → ChangeLog → Option ChangeLog
extend_from c other =
    if not (c.done_counter == negsuc 0) || not (other.done_counter == negsuc 0)
    then none
    else some (record c { actions = c.actions ++ other.actions })

unfoldable pub add_action : StateChangeAction → ChangeLog → ChangeLog
add_action action c = record c { actions = c.actions ++ action ∷ [] }

-- What `Rollback` leaves: the actions that could not be undone, `doneCounter`, and the state.
pub data Undo (S : Type 0) : Type 0 where
  undone : List StateChangeAction → ℤ → S → Undo S
  undo_panicked : Undo S

-- the rounds of `for i := doneCounter; i >= 0; i--`
abbrev pub rounds : ℤ → ℕ
rounds (pos n) = suc n
rounds (negsuc n) = 0

module _ {S E : Type 0} (applier : StateChangeAction → S → Result E (Unit {0}) × S) where
  -- The loop of `Commit`: its result, `doneCounter` after it, and the state after it.
  pub commit_loop : List StateChangeAction → ℤ → S → Result E (Unit {0}) × ℤ × S
  commit_loop [] done s = (ok tt, done, s)
  commit_loop (action ∷ rest) done s = elim (applier action s).0 [
    | ok _ ↦ commit_loop rest (done +ℤ pos 1) (applier action s).1
    | err e ↦ (err e, done, (applier action s).1)
    | panicked ↦ (panicked, done, (applier action s).1)
  ]

  unfoldable pub commit : ChangeLog → S → Result E (Unit {0}) × ChangeLog × S
  unfolding commit_loop
  commit c s =
      let (r, done, s') = commit_loop c.actions c.done_counter s in
      (r, record c { done_counter = done }, s')

  -- `i` counts the rounds left: the round for `suc i` undoes the action at index `i`.
  pub rollback_loop : List StateChangeAction → ℕ → List StateChangeAction → ℤ → S → Undo S
  rollback_loop actions zero undo_failed done s = undone undo_failed done s
  rollback_loop actions (suc i) undo_failed done s = elim (get_elem? actions i) [
    | none ↦ undo_panicked
    | some action ↦ elim (applier (reverse_action action) s).0 [
      | ok _ ↦
          rollback_loop actions i undo_failed (done -ℤ pos 1) (applier (reverse_action action) s).1
      | err _ ↦
          rollback_loop actions i (undo_failed ++ action ∷ []) (done -ℤ pos 1)
            (applier (reverse_action action) s).1
      | panicked ↦ undo_panicked
    ]
  ]

  unfoldable pub rollback : ChangeLog → S → Undo S
  unfolding rollback_loop
  rollback c s = rollback_loop c.actions (rounds c.done_counter) [] c.done_counter s

-- ===== src/Telemetry/Counter/Tests.antt =====
-- The counter on one device.
use k8s_inc.Prelude.{
  ℕ, zero, suc, ◌+◌, ◌-◌, ◌*◌, ◌/◌, ◌%◌, ◌^◌, ◌≤◌, ◌<◌, String, ◌≡◌, refl, sym, ap, ◌∙◌, subst, ◌≢◌,
  ◌↔◌, ◌⊎◌, inl, inr, Bool, true, false, not, ◌&&◌, ◌||◌, Option, none, some, List, [], ◌∷◌, ◌++◌,
  map, arith, ltb, leb, if◌then◌else◌, ltb→lt, lt→ltb, leb→le, le→leb, Bool-cases, Option-cases, Eq,
  ◌==◌, ℕ_eq, String_eq, contains, add, remove, contains-add, contains-remove, add_not_empty,
  remove_empty, contains_empty, same_refl, is_some, length, is_empty, get_elem?, replicate,
  find_index, update_at, count_if, length-append, length-update_at, length-replicate, count_if-le,
  get_elem?-update_at, count_if-update_at, find_index_hit, find_index_first, find_index_miss,
  get_elem?-lt, update_at_all, find_index-update_at, take, take-suc, take-append, get_elem?_of_lt,
}
use k8s_inc.Prelude.Int.{pos, ◌+ℤ◌, ◌-ℤ◌, ℤ_eq}
use k8s_inc.Prelude.Maps.{lookup}
use k8s_inc.Prelude.Result.{ok, is_ok}
use k8s_inc.Connector.Entry.{RawTableEntry}
use k8s_inc.Telemetry.Config.{MatchKey, reporting_key, to_identifier, transit}
use k8s_inc.Telemetry.Counter.{
  StateCounter, DeviceState, increment_and_run_on_transition_to_one,
  decrement_and_run_on_transition_to_zero,
}
use k8s_inc.Telemetry.Counter.Counts.{
  count, count-increment, count-decrement, increment_runs, decrement_runs, from_error,
}
use k8s_inc.Telemetry.Counter.Leak.{increment_failure_leaks}
use k8s_inc.Telemetry.Counter.Sizes.{IsCounted, AllCounted}

abbrev name : String
name = "s1"

abbrev key : MatchKey
key = reporting_key (pos 3)

abbrev entry : RawTableEntry
entry = transit (pos 1) (pos 1500)

abbrev device : DeviceState
device = record { table_state = []; num_entries = pos 0 }

abbrev one_device : StateCounter
one_device = ("s1", device) ∷ []

abbrev accept : ℕ → Option String × ℕ
accept n = (none, suc n)

abbrev refuse : ℕ → Option String × ℕ
refuse n = (some "no", n)

abbrev busy_device : DeviceState
busy_device = record {
  table_state = (to_identifier key, record { counter = pos 1; entry = entry }) ∷ [];
  num_entries = pos 1;
}

abbrev busy : StateCounter
busy = ("s1", busy_device) ∷ []

one_device-AllCounted : AllCounted one_device
unfolding lookup
one_device-AllCounted n state h = elim (Bool-cases ("s1" == n)) [
  | inl here ↦
      subst IsCounted {x = device} {y = state} (ground arith)
        (record { unique = tt; counted = refl })
  | inr other ↦ ground arith
]

count-increment_example :
    let after = increment_and_run_on_transition_to_one "s1" key entry accept one_device 0 in
    count "s1" "3" after.1 ≡ (
      if is_ok after.0 && (name == name && to_identifier key == "3")
      then count "s1" "3" one_device +ℤ pos 1
      else count "s1" "3" one_device)
count-increment_example = count-increment "s1" key one_device 0 "s1" "3" entry accept

count-decrement_example :
    let after = decrement_and_run_on_transition_to_zero "s1" key (λ e. accept) busy 0 in
    count "s1" "3" after.1 ≡ (
      if is_ok after.0 && (name == name && to_identifier key == "3")
      then count "s1" "3" busy -ℤ pos 1
      else count "s1" "3" busy)
count-decrement_example = count-decrement "s1" key busy 0 "s1" "3" (λ e. accept)

increment_runs_example :
    let after = increment_and_run_on_transition_to_one "s1" key entry accept one_device 0 in
    let first = count "s1" (to_identifier key) one_device == pos 0 in
    (after.0 ≡ (if first then from_error (accept 0).0 else ok tt))
    × (after.2 ≡ (if first then (accept 0).1 else 0))
unfolding lookup
increment_runs_example = increment_runs "s1" key one_device 0 device refl entry accept

decrement_runs_example :
    let after = decrement_and_run_on_transition_to_zero "s1" key (λ e. accept) busy 0 in
    let last = count "s1" (to_identifier key) busy == pos 1 in
    (after.0 ≡ (if last then from_error (accept 0).0 else ok tt))
    × (after.2 ≡ (if last then (accept 0).1 else 0))
unfolding lookup to_identifier k8s_inc.Prelude.Text.decimal_ℤ
decrement_runs_example =
    decrement_runs "s1" key busy 0 busy_device refl (λ e. accept)
      (record { counter = pos 1; entry = entry }) refl

increment_failure_leaks_example :
    ¬ AllCounted (increment_and_run_on_transition_to_one "s1" key entry refuse one_device 0).1
unfolding lookup
increment_failure_leaks_example =
    increment_failure_leaks "s1" key entry refuse one_device 0 device "no" one_device-AllCounted
      refl refl refl

-- ===== src/Telemetry/Entries/Order.antt =====
-- The order of the actions in the two change logs.
use k8s_inc.Prelude.{
  ℕ, zero, suc, ◌+◌, ◌-◌, ◌*◌, ◌/◌, ◌%◌, ◌^◌, ◌≤◌, ◌<◌, String, ◌≡◌, refl, sym, ap, ◌∙◌, subst, ◌≢◌,
  ◌↔◌, ◌⊎◌, inl, inr, Bool, true, false, not, ◌&&◌, ◌||◌, Option, none, some, List, [], ◌∷◌, ◌++◌,
  map, arith, ltb, leb, if◌then◌else◌, ltb→lt, lt→ltb, leb→le, le→leb, Bool-cases, Option-cases, Eq,
  ◌==◌, ℕ_eq, String_eq, contains, add, remove, contains-add, contains-remove, add_not_empty,
  remove_empty, contains_empty, same_refl, is_some, length, is_empty, get_elem?, replicate,
  find_index, update_at, count_if, length-append, length-update_at, length-replicate, count_if-le,
  get_elem?-update_at, count_if-update_at, find_index_hit, find_index_first, find_index_miss,
  get_elem?-lt, update_at_all, find_index-update_at, take, take-suc, take-append, get_elem?_of_lt,
}
use k8s_inc.Telemetry.ChangeLog.{
  ChangeLog, StateChangeAction, CounterName, add_action, new_create_action, new_delete_action,
  reverse_action, sink_state_counter, raporting_state_counter, transit_state_counter,
  activate_source_counter, configure_source_counter,
}
use k8s_inc.Telemetry.Entries.{
  ConfigEntry, ConfigEntries, add_creates, add_deletes, make_apply_changelog, make_delete_changelog,
}

-- the actions that create some entries
abbrev pub creates : CounterName → List ConfigEntry → List StateChangeAction
creates counter = map (λ e. new_create_action e.device_name e.key e.entry counter)

append_assoc : {A : Type 0} (xs ys zs : List A) → (xs ++ ys) ++ zs ≡ xs ++ (ys ++ zs)
append_assoc [] ys zs = refl
append_assoc (x ∷ xs) ys zs = ap (λ l. x ∷ l) (append_assoc xs ys zs)

append_empty : {A : Type 0} (xs : List A) → xs ++ [] ≡ xs
append_empty [] = refl
append_empty (x ∷ xs) = ap (λ l. x ∷ l) (append_empty xs)

add_creates-actions :
    (counter : CounterName) (entries : List ConfigEntry) (log : ChangeLog)
    → (add_creates counter entries log).actions ≡ log.actions ++ creates counter entries
unfolding add_creates add_action
add_creates-actions counter [] log = sym (append_empty log.actions)
add_creates-actions counter (e ∷ rest) log =
    let a = new_create_action e.device_name e.key e.entry counter in
    add_creates-actions counter rest (add_action a log)
    ∙ append_assoc log.actions (a ∷ []) (creates counter rest)

add_deletes-actions :
    (counter : CounterName) (entries : List ConfigEntry) (log : ChangeLog)
    → (add_deletes counter entries log).actions
      ≡ log.actions ++ map reverse_action (creates counter entries)
unfolding add_deletes add_action new_create_action new_delete_action reverse_action
    k8s_inc.Prelude.Int.neg
add_deletes-actions counter [] log = sym (append_empty log.actions)
add_deletes-actions counter (e ∷ rest) log =
    let a = new_delete_action e.device_name e.key e.entry counter in
    add_deletes-actions counter rest (add_action a log)
    ∙ append_assoc log.actions (a ∷ []) (map reverse_action (creates counter rest))

-- The change log that configures some entries treats sinks, reports, transits, activations and
-- sources in this order, and the one that removes them undoes each of these actions, the groups in
-- the opposite order.
pub changelogs_mirror :
    (c : ConfigEntries)
    → let sinks = creates sink_state_counter c.configure_sink_entries in
      let reports = creates raporting_state_counter c.configure_reporting_entry in
      let transits = creates transit_state_counter c.configure_transit_entries in
      let activations = creates activate_source_counter c.activate_source_entries in
      let sources = creates configure_source_counter c.configure_source_entries in
      ((make_apply_changelog c).actions
        ≡ (((sinks ++ reports) ++ transits) ++ activations) ++ sources)
      × ((make_delete_changelog c).actions
          ≡ (((map reverse_action sources ++ map reverse_action activations)
                ++ map reverse_action transits)
              ++ map reverse_action reports)
            ++ map reverse_action sinks)
unfolding make_apply_changelog make_delete_changelog
changelogs_mirror c = (simp (add_creates-actions), simp (add_deletes-actions))

-- ===== src/Telemetry/Service/Commit.antt =====
-- What a commit of the service leaves in its counters.
use k8s_inc.Prelude.{
  ℕ, ◌==◌, Bool, true, if◌then◌else◌, String, ◌≡◌, refl, sym, ap, ◌∙◌, subst, ◌⊎◌, inl, inr, Option,
  none, some, List, [], ◌∷◌, map, arith, Bool-cases, Option-cases, ℕ_eq, String_eq, length,
}
use k8s_inc.Prelude.Int.{ℤ, pos, negsuc, ◌-ℤ◌, ℤ_eq}
use k8s_inc.Prelude.Maps.{lookup}
use k8s_inc.Prelude.Result.{ok, is_ok, Result-cases}
use k8s_inc.Connector.Entry.{RawTableEntry}
use k8s_inc.Telemetry.ChangeLog.{
  ChangeLog, StateChangeAction, CounterName, transit_state_counter, sink_state_counter,
  raporting_state_counter, activate_source_counter, configure_source_counter, rollback, Undo,
  undone, undo_panicked,
}
use k8s_inc.Telemetry.ChangeLog
use k8s_inc.Telemetry.ChangeLog.Commit.{Ran, commit_ok}
use k8s_inc.Telemetry.Counter.{
  StateCounter, add_device, take_per_device_number_of_entries_snapshot,
  increment_and_run_on_transition_to_one, decrement_and_run_on_transition_to_zero,
}
use k8s_inc.Telemetry.Counter.Sizes.{
  AllCounted, add_device-AllCounted, increment-AllCounted, decrement-AllCounted,
}
use k8s_inc.Model.Graph.{Topology}
use k8s_inc.Telemetry.Request.{get_switch_ids}
use k8s_inc.Telemetry.Service.Apply.{apply_change, commit}
use k8s_inc.Telemetry.Service.State.{
  Counters, new_service, init_devices, add_to_counters, counter_of, with_counter, capacity,
  remaining, create_capability_update,
}

-- every counter's numbers of entries are the numbers of its rows
abbrev pub CountersCounted : Counters → Type 0
CountersCounted c = (name : CounterName) → AllCounted (counter_of name c)

abbrev counter_index : CounterName → ℕ
counter_index transit_state_counter = 0
counter_index sink_state_counter = 1
counter_index raporting_state_counter = 2
counter_index activate_source_counter = 3
counter_index configure_source_counter = 4

abbrev pub same_counter : CounterName → CounterName → Bool
same_counter name other = counter_index name == counter_index other

-- a write of one counter leaves the others
pub counter_of-with_counter :
    (name other : CounterName) (s : StateCounter) (c : Counters)
    → (counter_of other (with_counter name s c)
        ≡ (if same_counter name other then s else counter_of other c))
      × (same_counter name other ≡ true → counter_of name c ≡ counter_of other c)
counter_of-with_counter transit_state_counter transit_state_counter s c = (refl, (λ h. refl))
counter_of-with_counter transit_state_counter sink_state_counter s c =
    (refl, (λ h. absurd (ground arith)))
counter_of-with_counter transit_state_counter raporting_state_counter s c =
    (refl, (λ h. absurd (ground arith)))
counter_of-with_counter transit_state_counter activate_source_counter s c =
    (refl, (λ h. absurd (ground arith)))
counter_of-with_counter transit_state_counter configure_source_counter s c =
    (refl, (λ h. absurd (ground arith)))
counter_of-with_counter sink_state_counter transit_state_counter s c =
    (refl, (λ h. absurd (ground arith)))
counter_of-with_counter sink_state_counter sink_state_counter s c = (refl, (λ h. refl))
counter_of-with_counter sink_state_counter raporting_state_counter s c =
    (refl, (λ h. absurd (ground arith)))
counter_of-with_counter sink_state_counter activate_source_counter s c =
    (refl, (λ h. absurd (ground arith)))
counter_of-with_counter sink_state_counter configure_source_counter s c =
    (refl, (λ h. absurd (ground arith)))
counter_of-with_counter raporting_state_counter transit_state_counter s c =
    (refl, (λ h. absurd (ground arith)))
counter_of-with_counter raporting_state_counter sink_state_counter s c =
    (refl, (λ h. absurd (ground arith)))
counter_of-with_counter raporting_state_counter raporting_state_counter s c = (refl, (λ h. refl))
counter_of-with_counter raporting_state_counter activate_source_counter s c =
    (refl, (λ h. absurd (ground arith)))
counter_of-with_counter raporting_state_counter configure_source_counter s c =
    (refl, (λ h. absurd (ground arith)))
counter_of-with_counter activate_source_counter transit_state_counter s c =
    (refl, (λ h. absurd (ground arith)))
counter_of-with_counter activate_source_counter sink_state_counter s c =
    (refl, (λ h. absurd (ground arith)))
counter_of-with_counter activate_source_counter raporting_state_counter s c =
    (refl, (λ h. absurd (ground arith)))
counter_of-with_counter activate_source_counter activate_source_counter s c = (refl, (λ h. refl))
counter_of-with_counter activate_source_counter configure_source_counter s c =
    (refl, (λ h. absurd (ground arith)))
counter_of-with_counter configure_source_counter transit_state_counter s c =
    (refl, (λ h. absurd (ground arith)))
counter_of-with_counter configure_source_counter sink_state_counter s c =
    (refl, (λ h. absurd (ground arith)))
counter_of-with_counter configure_source_counter raporting_state_counter s c =
    (refl, (λ h. absurd (ground arith)))
counter_of-with_counter configure_source_counter activate_source_counter s c =
    (refl, (λ h. absurd (ground arith)))
counter_of-with_counter configure_source_counter configure_source_counter s c = (refl, (λ h. refl))

with_counter-Counted :
    (name : CounterName) (s : StateCounter) (c : Counters)
    → AllCounted s
    → CountersCounted c
    → CountersCounted (with_counter name s c)
with_counter-Counted name s c h all other = elim (Bool-cases (same_counter name other)) [
  | inl same ↦ subst AllCounted (sym ((counter_of-with_counter name other s c).0 ∙ rw same refl)) h
  | inr other_one ↦
      subst AllCounted (sym ((counter_of-with_counter name other s c).0 ∙ rw other_one refl))
        (all other)
]

Undo-cases :
    {S : Type 0} (u : Undo S)
    → (u ≡ undo_panicked)
      ⊎ ((failed : List StateChangeAction) × (done : ℤ) × (s : S) × (u ≡ undone failed done s))
Undo-cases undo_panicked = inl refl
Undo-cases (undone failed done s) = inr (failed, done, s, refl)

module _ {W E : Type 0} (write_entry delete_entry : String → RawTableEntry → W → Option E × W) where
  apply_change-Counted :
      (a : StateChangeAction) (c : Counters) (w : W)
      → CountersCounted c
      → (apply_change write_entry delete_entry a (c, w)).0 ≡ ok tt
      → CountersCounted (apply_change write_entry delete_entry a (c, w)).1.0
  unfolding apply_change
  apply_change-Counted a c w all h = elim (Bool-cases a.is_create) [
    | inl create ↦ rw create (
        with_counter-Counted a.counter
          (increment_and_run_on_transition_to_one a.device_name a.key a.entry
            (write_entry a.device_name a.entry) (counter_of a.counter c) w).1
          c
          (increment-AllCounted a.device_name a.key a.entry (write_entry a.device_name a.entry)
            (counter_of a.counter c) w (all a.counter) (ap is_ok (rw create at h)))
          all)
    | inr delete ↦ rw delete (
        with_counter-Counted a.counter
          (decrement_and_run_on_transition_to_zero a.device_name a.key (delete_entry a.device_name)
            (counter_of a.counter c) w).1
          c
          (decrement-AllCounted a.device_name a.key (delete_entry a.device_name)
            (counter_of a.counter c) w (all a.counter))
          all)
  ]

  Ran-Counted :
      (actions : List StateChangeAction) (s s' : Counters × W)
      → Ran (apply_change write_entry delete_entry) actions s s'
      → CountersCounted s.0
      → CountersCounted s'.0
  Ran-Counted [] s s' same all = subst (λ x. CountersCounted x.0) same all
  Ran-Counted (a ∷ rest) s s' (good, ran) all =
      Ran-Counted rest (apply_change write_entry delete_entry a s).1 s' ran
        (apply_change-Counted a s.0 s.1 all good)

  -- A commit of a new log without an error ran every action and keeps, in all five counters,
  -- every device's number of entries equal to the number of its rows.
  pub commit-CountersCounted :
      (log : ChangeLog) (c c' : Counters) (w w' : W)
      → log.done_counter ≡ negsuc 0
      → commit write_entry delete_entry log (c, w) ≡ some (none, (c', w'))
      → CountersCounted c
      → Ran (apply_change write_entry delete_entry) log.actions (c, w) (c', w') × CountersCounted c'
  unfolding commit
  commit-CountersCounted log c c' w w' fresh h all =
      let run = ChangeLog.commit (apply_change write_entry delete_entry) log (c, w) in
      elim (Result-cases run.0) [
        | inl good ↦
            let same : run.2 ≡ (c', w') = ground arith in
            let ran =
              subst (Ran (apply_change write_entry delete_entry) log.actions (c, w)) same
                (commit_ok (apply_change write_entry delete_entry) log (c, w) fresh good).0 in
            (ran, Ran-Counted log.actions (c, w) (c', w') ran all)
        | inr (inl (e, failed)) ↦
            elim (Undo-cases (rollback (apply_change write_entry delete_entry) run.1 run.2)) [
              | inl panics ↦ ground arith
              | inr (left, done, s, u) ↦ ground arith
            ]
        | inr (inr panics) ↦ ground arith
      ]

lookup-remaining :
    (name : String) (s : StateCounter)
    → lookup name (map remaining (take_per_device_number_of_entries_snapshot s))
      ≡ elim (lookup name s) [ none ↦ none | some d ↦ some (capacity -ℤ d.num_entries) ]
unfolding take_per_device_number_of_entries_snapshot lookup
lookup-remaining name [] = refl
lookup-remaining name ((n, d) ∷ rest) = ground (arith, lookup-remaining name rest)

-- When the counters count their rows, the capability update gives each device of the source
-- counter 127 less the number of its rows, and no other device anything.
pub capability_is_remaining :
    (name : String) (c : Counters)
    → CountersCounted c
    → lookup name (create_capability_update c) ≡ elim (lookup name c.configure_source) [
      | none ↦ none
      | some d ↦ some (pos 127 -ℤ pos (length d.table_state))
    ]
unfolding create_capability_update
capability_is_remaining name c all = elim (Option-cases (lookup name c.configure_source)) [
  | inl absent ↦ rw absent (lookup-remaining name c.configure_source ∙ rw absent refl)
  | inr (d, at_name) ↦
      lookup-remaining name c.configure_source
      ∙ ground (arith, (all configure_source_counter name d at_name).counted)
]

new_service-Counted : CountersCounted new_service.counters
unfolding new_service lookup
new_service-Counted transit_state_counter name state h = cc
new_service-Counted sink_state_counter name state h = cc
new_service-Counted raporting_state_counter name state h = cc
new_service-Counted activate_source_counter name state h = cc
new_service-Counted configure_source_counter name state h = cc

added :
    (name : String) (c : Counters)
    → CountersCounted c
    → CountersCounted (record {
      transit_state = add_device name c.transit_state;
      sink_state = add_device name c.sink_state;
      raporting_state = add_device name c.raporting_state;
      activate_source = add_device name c.activate_source;
      configure_source = add_device name c.configure_source;
    })
added name c all transit_state_counter =
    add_device-AllCounted name c.transit_state (all transit_state_counter)
added name c all sink_state_counter =
    add_device-AllCounted name c.sink_state (all sink_state_counter)
added name c all raporting_state_counter =
    add_device-AllCounted name c.raporting_state (all raporting_state_counter)
added name c all activate_source_counter =
    add_device-AllCounted name c.activate_source (all activate_source_counter)
added name c all configure_source_counter =
    add_device-AllCounted name c.configure_source (all configure_source_counter)

add_to_counters-Counted :
    (ids : List (String × ℤ)) (c : Counters)
    → CountersCounted c
    → CountersCounted (add_to_counters ids c)
unfolding add_to_counters
add_to_counters-Counted [] c all = all
add_to_counters-Counted ((name, id) ∷ rest) c all =
    add_to_counters-Counted rest
      (record {
        transit_state = add_device name c.transit_state;
        sink_state = add_device name c.sink_state;
        raporting_state = add_device name c.raporting_state;
        activate_source = add_device name c.activate_source;
        configure_source = add_device name c.configure_source;
      })
      (added name c all)

-- The counters of a new service count their rows after InitDevices.
pub init_devices-CountersCounted :
    (topo : Topology) → CountersCounted (init_devices topo new_service).counters
unfolding init_devices
init_devices-CountersCounted topo =
    add_to_counters-Counted (get_switch_ids topo) new_service.counters new_service-Counted

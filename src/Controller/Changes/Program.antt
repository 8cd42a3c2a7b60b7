-- ===== src/Controller/Changes/Program.antt =====
-- What ChangeProgram changes.
use k8s_inc.Prelude.{
  String, ◌≡◌, refl, sym, ap, ◌∙◌, subst, ◌⊎◌, inl, inr, true, false, none, some, List, [], ◌∷◌,
  arith, if◌then◌else◌, Bool-cases, ◌==◌, ℕ_eq, String_eq,
}
use k8s_inc.Prelude.Result.{ok, err, panicked}
use k8s_inc.Model.Devices.{
  Device, IncSwitch, inc_switch, host, net_device, external_device, get_name,
}
use k8s_inc.Model.Graph.{Topology}
use k8s_inc.Telemetry.Request.{is_inc_switch}
use k8s_inc.Controller.Frontend.{first_named}
use k8s_inc.Controller.Changes.{
  Changed, program_change, not_inc_switch, no_device, change_program_in, change_program, installs,
  behind,
}

-- The answer to a change of a program, and the first devices of the names behind it.
abbrev pub IsProgramChange : String → String → List Device → Changed → Type 0
IsProgramChange name program devs (ok change, devs') =
    (s : IncSwitch) × (change ≡ program_change)
    × (first_named name devs ≡ some (inc_switch s))
    × ((n : String)
        → first_named n devs' ≡ (
            if name == n
            then some (inc_switch (record s { installed_program = program }))
            else first_named n devs))
IsProgramChange name program devs (err e, devs') =
    (devs' ≡ devs)
    × (((e ≡ no_device name) × (first_named name devs ≡ none))
        ⊎ ((e ≡ not_inc_switch name)
            × ((d : Device) × (first_named name devs ≡ some d) × (is_inc_switch d ≡ false))))
IsProgramChange name program devs (panicked, devs') = ⊥

first-other :
    (n : String) (d : Device) (devs : List Device)
    → (get_name d == n) ≡ false
    → first_named n (d ∷ devs) ≡ first_named n devs
first-other n d devs other = rw other refl

first-same :
    (n : String) (d : Device) (devs : List Device)
    → (get_name d == n) ≡ true
    → first_named n (d ∷ devs) ≡ some d
first-same n d devs same = rw same refl

behind-IsProgramChange :
    (name program : String) (d : Device) (devs : List Device) (t : Changed)
    → (get_name d == name) ≡ false
    → IsProgramChange name program devs t
    → IsProgramChange name program (d ∷ devs) (behind d t)
behind-IsProgramChange name program d devs (ok c, devs') other (s, is, at, firsts) = (
  s,
  is,
  first-other name d devs other ∙ at,
  (λ n. ground (
    arith,
    firsts n,
    other,
    String_eq.same_iff (get_name d) n,
    String_eq.same_iff name n,
    String_eq.same_iff (get_name d) name,
  )),
)
behind-IsProgramChange name program d devs (err e, devs') other (same, why) = (
  ap (λ ds. d ∷ ds) same,
  elim why [
    | inl (is, gone) ↦ inl (is, first-other name d devs other ∙ gone)
    | inr (is, (x, at, not_one)) ↦ inr (is, (x, first-other name d devs other ∙ at, not_one))
  ],
)
behind-IsProgramChange name program d devs (panicked, devs') other never = never

installs-IsProgramChange :
    (name program : String) (d : Device) (devs : List Device)
    → (get_name d == name) ≡ true
    → IsProgramChange name program (d ∷ devs) (installs name program d devs)
installs-IsProgramChange name program (inc_switch s) devs same = (
  s,
  refl,
  first-same name (inc_switch s) devs same,
  (λ n. ground (
    arith,
    same,
    String_eq.same_iff s.base.name n,
    String_eq.same_iff name n,
    String_eq.same_iff s.base.name name,
  )),
)
installs-IsProgramChange name program (host b) devs same =
    (refl, inr (refl, (host b, first-same name (host b) devs same, refl)))
installs-IsProgramChange name program (net_device b) devs same =
    (refl, inr (refl, (net_device b, first-same name (net_device b) devs same, refl)))
installs-IsProgramChange name program (external_device b) devs same =
    (refl, inr (refl, (external_device b, first-same name (external_device b) devs same, refl)))

change_program_in-IsProgramChange :
    (name program : String) (devs : List Device)
    → IsProgramChange name program devs (change_program_in name program devs)
unfolding change_program_in
change_program_in-IsProgramChange name program [] = (refl, inl (refl, refl))
change_program_in-IsProgramChange name program (d ∷ devs) = elim (Bool-cases (get_name d == name)) [
  | inl same ↦
      subst
        (λ b. IsProgramChange name program (d ∷ devs) (
          if b
          then installs name program d devs
          else behind d (change_program_in name program devs)))
        (sym same) (installs-IsProgramChange name program d devs same)
  | inr other ↦
      subst
        (λ b. IsProgramChange name program (d ∷ devs) (
          if b
          then installs name program d devs
          else behind d (change_program_in name program devs)))
        (sym other)
        (behind-IsProgramChange name program d devs (change_program_in name program devs) other
          (change_program_in-IsProgramChange name program devs))
]

-- ChangeProgram never panics. Where it succeeds, the first device of the name is an INC switch, which
-- runs the program behind it, and the first device of every other name is the one it was. It fails
-- where no device has the name or the first one is no INC switch, and then changes nothing.
pub change_program-IsProgramChange :
    (device_name program_name : String) (topo : Topology)
    → IsProgramChange device_name program_name topo.devices
        (change_program device_name program_name topo)
unfolding change_program
change_program-IsProgramChange device_name program_name topo =
    change_program_in-IsProgramChange device_name program_name topo.devices

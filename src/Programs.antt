-- ===== src/Programs.antt =====
-- src/kinda-sdn/programs/registry.go: the registered P4 programs, by name. The delegate, an interface
-- value that telemetry and plain forwarding programs implement, is a type parameter.
use k8s_inc.Prelude.{
  String, ◌≡◌, Bool, false, Option, none, some, List, arith, if◌then◌else◌, ◌==◌, ℕ_eq, String_eq,
}
use k8s_inc.Prelude.Maps.{lookup, insert, lookup-insert}
use k8s_inc.Model.Program.{P4ProgramDetails}
use k8s_inc.Model.Program

pub record RegisteredProgram {ℓ} (Delegate : Type ℓ) : Type ℓ where
  pub details : P4ProgramDetails
  pub delegate : Delegate

abbrev pub Registry {ℓ} : Type ℓ → Type ℓ
Registry Delegate = List (String × RegisteredProgram Delegate)

abbrev pub details_of {ℓ} : {D : Type ℓ} → Option (RegisteredProgram D) → Option P4ProgramDetails
details_of none = none
details_of (some p) = some p.details

abbrev pub delegate_of {ℓ} : {D : Type ℓ} → Option (RegisteredProgram D) → Option D
delegate_of none = none
delegate_of (some p) = some p.delegate

abbrev pub program_implements {ℓ} : {D : Type ℓ} → String → Option (RegisteredProgram D) → Bool
program_implements iface none = false
program_implements iface (some p) = Program.implements iface p.details

module _ {ℓ} {D : Type ℓ} where
  unfoldable pub register : P4ProgramDetails → D → Registry D → Registry D
  register details delegate r =
      insert details.name (record { details = details; delegate = delegate }) r

  unfoldable pub lookup_program : String → Registry D → Option P4ProgramDetails
  lookup_program program_name r = details_of (lookup program_name r)

  -- `none` is the panic.
  unfoldable pub must_lookup_details : String → Registry D → Option P4ProgramDetails
  unfolding lookup_program
  must_lookup_details program_name r = lookup_program program_name r

  unfoldable pub must_find_delegate : String → Registry D → Option D
  must_find_delegate program_name r = delegate_of (lookup program_name r)

  unfoldable pub implements : String → String → Registry D → Bool
  implements program_name program_interface r =
      program_implements program_interface (lookup program_name r)

  -- After Register the registry answers for the program's name with what was registered, and for
  -- any other name as before.
  pub lookup-register :
      (details : P4ProgramDetails) (delegate : D) (name : String) (r : Registry D)
      → (lookup_program name (register details delegate r)
          ≡ (if details.name == name then some details else lookup_program name r))
        × (must_find_delegate name (register details delegate r)
            ≡ (if details.name == name then some delegate else must_find_delegate name r))
  unfolding lookup_program must_find_delegate register
  lookup-register details delegate name r =
      ground (
        arith,
        lookup-insert details.name name (record { details = details; delegate = delegate }) r,
      )

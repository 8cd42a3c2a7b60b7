-- ===== src/Model/Program.antt =====
-- src/kinda-sdn/model/program.go: the P4 programs.
use k8s_inc.Prelude.{
  String, Bool, Option, none, some, List, [], ◌∷◌, if◌then◌else◌, ◌==◌, ℕ_eq, String_eq, contains,
}

pub record P4Artifacts : Type 0 where
  pub arch : String
  pub p4_info_path : String
  pub p4_pipeline_path : String

pub record P4ProgramDetails : Type 0 where
  pub name : String
  pub implemented_interfaces : List String
  pub artifacts : List P4Artifacts

unfoldable pub new_program_details : String → List String → List P4Artifacts → P4ProgramDetails
new_program_details program_name implemented_interfaces artifacts = record {
  name = program_name;
  implemented_interfaces = implemented_interfaces;
  artifacts = artifacts;
}

abbrev artifacts_for : String → List P4Artifacts → Option P4Artifacts
artifacts_for arch [] = none
artifacts_for arch (artifact ∷ rest) =
    if artifact.arch == arch then some artifact else artifacts_for arch rest

unfoldable pub get_artifacts_for : String → P4ProgramDetails → Option P4Artifacts
get_artifacts_for arch p = artifacts_for arch p.artifacts

unfoldable pub implements : String → P4ProgramDetails → Bool
implements iface p = contains iface p.implemented_interfaces

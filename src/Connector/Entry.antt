-- ===== src/Connector/Entry.antt =====
-- src/libs/p4-connector/connector/flows.go: the table entries that the controller hands to a switch.
use k8s_inc.Prelude.{String, List, ℕ_eq, String_eq}

pub record RawTableEntry : Type 0 where
  pub table_name : String
  pub match_fields : List (String × String)
  pub action_name : String
  pub action_params : List (String × String)

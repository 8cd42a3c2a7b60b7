-- ===== src/Connector/Tests.antt =====
-- The parameters of a forwarding action, over conversions that count the characters of a value.
use k8s_inc.Prelude.{String, refl, false, none, some, List, [], ◌∷◌, arith, ℕ_eq, String_eq}
use k8s_inc.Prelude.Maps.{lookup, IsMap}
use k8s_inc.Connector.Actions.{Param, Conversions, build_params}
use k8s_inc.Connector.Actions.Params.{AreApart, Built, build_params-Built}

abbrev conversions : Conversions
conversions = record {
  is_ipv4 = λ val. false;
  is_mac = λ val. false;
  ip_to_binary = λ val. none;
  mac_to_binary = λ val. none;
  string_to_binary_uint = λ val bitwidth. some (bitwidth ∷ []);
  number_to_binary_uint = λ n bitwidth. n ∷ [];
  parse_uint = λ val base bitwidth. none;
  split = λ val separator. val ∷ [];
}

abbrev params : List (String × Param)
params =
    ("port", record { name = "port"; id = 2; bitwidth = 9 })
    ∷ ("mac", record { name = "mac"; id = 1; bitwidth = 48 })
    ∷ []

params-AreApart : AreApart params
unfolding lookup
params-AreApart n m p q at_n at_m same = ground (
  arith,
  at_n,
  at_m,
  same,
  String_eq.same_iff "port" n,
  String_eq.same_iff "port" m,
  String_eq.same_iff "mac" n,
  String_eq.same_iff "mac" m,
)

abbrev raw : List (String × String)
raw = ("mac", "00:00:00:00:00:01") ∷ ("port", "3") ∷ []

raw-IsMap : IsMap raw
unfolding lookup
raw-IsMap = (refl, (refl, tt))

build_params-Built_example :
    Built conversions "forward" params raw
      ([] ∷ [] ∷ [])
      (build_params conversions "forward" params raw ([] ∷ [] ∷ []))
build_params-Built_example =
    build_params-Built conversions "forward" params params-AreApart raw ([] ∷ [] ∷ []) raw-IsMap

-- ===== src/Connector/Actions.antt =====
-- src/libs/p4-connector/connector/flows.go: the conversion of a raw action and of a raw match by the
-- description of the program on the switch. An error keeps what it names and not its text. The
-- conversions of one value and the tests of its form (src/libs/p4r/util/conversion, regexp and
-- strconv) are parameters.
pub mod Params
use k8s_inc.Prelude.{
  ℕ, zero, suc, ◌+◌, ◌-◌, ◌*◌, ◌/◌, ◌%◌, ◌^◌, ◌≤◌, ◌<◌, String, ◌≡◌, refl, sym, ap, ◌∙◌, subst, ◌≢◌,
  ◌↔◌, ◌⊎◌, inl, inr, Bool, true, false, not, ◌&&◌, ◌||◌, Option, none, some, List, [], ◌∷◌, ◌++◌,
  map, arith, ltb, leb, if◌then◌else◌, ltb→lt, lt→ltb, leb→le, le→leb, Bool-cases, Option-cases, Eq,
  ◌==◌, ℕ_eq, String_eq, contains, add, remove, contains-add, contains-remove, add_not_empty,
  remove_empty, contains_empty, same_refl, is_some, length, is_empty, get_elem?, replicate,
  find_index, update_at, count_if, length-append, length-update_at, length-replicate, count_if-le,
  get_elem?-update_at, count_if-update_at, find_index_hit, find_index_first, find_index_miss,
  get_elem?-lt, update_at_all, find_index-update_at, take, take-suc, take-append, get_elem?_of_lt,
}
use k8s_inc.Prelude.Maps.{
  lookup, insert, erase, has, IsMap, lookup-insert, lookup-erase, length-insert, length-erase,
  IsMap-insert, IsMap-erase, erase_absent,
}
use k8s_inc.Prelude.Result.{Result, ok, err, panicked}

abbrev pub Bytes : Type 0
Bytes = List ℕ

-- what the messages of an InvalidArgumentError tell
pub data Invalid : Type 0 where
  number_of_parameters : String → ℕ → ℕ → Invalid
  param_value : String → String → Invalid
  lpm_format ternary_format : String → Invalid
  unsupported_match_type : Invalid
  key_value : String → String → String → Invalid

pub data BuildError : Type 0 where
  metadata_not_found : String → String → BuildError
  invalid_argument : Invalid → BuildError

pub data MatchType : Type 0 where
  exact lpm ternary unsupported : MatchType

-- the parts of p4info that are read
pub record Param : Type 0 where
  pub name : String
  pub id : ℕ
  pub bitwidth : ℕ

pub record MatchField : Type 0 where
  pub name : String
  pub bitwidth : ℕ
  pub match_type : MatchType

pub record ActionInfo : Type 0 where
  pub name : String
  pub alias : String
  pub params : List Param

pub record TableInfo : Type 0 where
  pub name : String
  pub alias : String
  pub match_fields : List MatchField

pub record P4Info : Type 0 where
  pub actions : List ActionInfo
  pub tables : List TableInfo

pub record ActionEntry : Type 0 where
  pub name : String
  pub params : List Bytes

-- ExactMatch, LpmMatch and TernaryMatch of the client
pub data MatchValue : Type 0 where
  exact_match : Bytes → MatchValue
  lpm_match : Bytes → ℕ → MatchValue
  ternary_match : Bytes → Bytes → MatchValue

-- what is called of other packages; an error of theirs is `none`
pub record Conversions : Type 0 where
  pub is_ipv4 : String → Bool
  pub is_mac : String → Bool
  pub ip_to_binary : String → Option Bytes
  pub mac_to_binary : String → Option Bytes
  pub string_to_binary_uint : String → ℕ → Option Bytes
  pub number_to_binary_uint : ℕ → ℕ → Bytes
  pub parse_uint : String → ℕ → ℕ → Option ℕ
  pub split : String → String → List String

unfoldable pub find_action : String → List ActionInfo → Option ActionInfo
find_action action_name [] = none
find_action action_name (act ∷ acts) =
    let rest = find_action action_name acts in
    if act.name == action_name || act.alias == action_name then some act else rest

unfoldable pub find_table : String → List TableInfo → Option TableInfo
find_table table_name [] = none
find_table table_name (tab ∷ tabs) =
    let rest = find_table table_name tabs in
    if tab.name == table_name || tab.alias == table_name then some tab else rest

unfoldable pub params_map : List Param → List (String × Param) → List (String × Param)
params_map [] res = res
params_map (param ∷ params) res = params_map params (insert param.name param res)

unfoldable pub match_map : List MatchField → List (String × MatchField) → List (String × MatchField)
match_map [] res = res
match_map (mf ∷ mfs) res = match_map mfs (insert mf.name mf res)

module _ (conv : Conversions) where
  unfoldable pub value_to_bytes : String → ℕ → Option Bytes
  value_to_bytes val bitwidth =
      if bitwidth == 32 && conv.is_ipv4 val
      then conv.ip_to_binary val
      else if bitwidth == 48 && conv.is_mac val
      then conv.mac_to_binary val
      else conv.string_to_binary_uint val bitwidth

  unfoldable pub ternary_mask_to_bytes : String → ℕ → Option Bytes
  ternary_mask_to_bytes val bitwidth = elim (conv.parse_uint val 0 bitwidth) [
    | none ↦ none
    | some u ↦ some (conv.number_to_binary_uint u bitwidth)
  ]

  -- `res[param.Id - 1] = bytes`, which panics out of range
  abbrev pub store_param :
      ℕ
      → Bytes
      → List Bytes
      → (List Bytes → Result BuildError (List Bytes))
      → Result BuildError (List Bytes)
  store_param zero bytes res next = panicked
  store_param (suc i) bytes res next =
      if ltb i (length res) then next (update_at i (λ old. bytes) res) else panicked

  abbrev pub store_value :
      String
      → String
      → ℕ
      → Option Bytes
      → List Bytes
      → (List Bytes → Result BuildError (List Bytes))
      → Result BuildError (List Bytes)
  store_value action_name param_name id none res next =
      err (invalid_argument (param_value action_name param_name))
  store_value action_name param_name id (some bytes) res next = store_param id bytes res next

  abbrev pub convert_param :
      String
      → String
      → Option Param
      → String
      → List Bytes
      → (List Bytes → Result BuildError (List Bytes))
      → Result BuildError (List Bytes)
  convert_param action_name param_name none val res next =
      err (metadata_not_found param_name action_name)
  convert_param action_name param_name (some param) val res next =
      store_value action_name param_name param.id (value_to_bytes val param.bitwidth) res next

  -- the loop over the raw parameters, in an order of the map
  unfoldable pub build_params :
      String
      → List (String × Param)
      → List (String × String)
      → List Bytes
      → Result BuildError (List Bytes)
  unfolding value_to_bytes
  build_params action_name params [] res = ok res
  build_params action_name params ((param_name, val) ∷ raw) res =
      convert_param action_name param_name (lookup param_name params) val res
        (build_params action_name params raw)

  abbrev pub named_entry : String → Result BuildError (List Bytes) → Result BuildError ActionEntry
  named_entry action_name (ok res) = ok (record { name = action_name; params = res })
  named_entry action_name (err e) = err e
  named_entry action_name panicked = panicked

  abbrev pub build_action :
      String → List (String × String) → Option ActionInfo → Result BuildError ActionEntry
  build_action action_name raw_params none = err (metadata_not_found action_name "p4info actions")
  build_action action_name raw_params (some action) =
      let action_params = params_map action.params [] in
      if not (length action_params == length raw_params)
      then err (
          invalid_argument
            (number_of_parameters action_name (length action_params) (length raw_params)))
      else named_entry action_name
          (build_params action_name action_params raw_params (replicate (length raw_params) []))

  -- P4Info that is not set is a panic.
  unfoldable pub build_action_entry :
      Option P4Info → String → List (String × String) → Result BuildError ActionEntry
  unfolding find_action params_map build_params
  build_action_entry none action_name raw_params = panicked
  build_action_entry (some p4info) action_name raw_params =
      build_action action_name raw_params (find_action action_name p4info.actions)

  abbrev exact_value : Option Bytes → Option MatchValue
  exact_value none = none
  exact_value (some val) = some (exact_match val)

  abbrev lpm_value : Option Bytes → Option ℕ → Option MatchValue
  lpm_value (some val) (some length_) = some (lpm_match val length_)
  lpm_value _ _ = none

  abbrev ternary_value : Option Bytes → Option Bytes → Option MatchValue
  ternary_value (some val) (some mask) = some (ternary_match val mask)
  ternary_value _ _ = none

  -- the parts of a value must be two
  abbrev in_two :
      Invalid → List String → (String → String → Invalid ⊎ MatchValue) → Invalid ⊎ MatchValue
  in_two format (fst ∷ snd ∷ []) value = value fst snd
  in_two format _ value = inl format

  -- the error of a value, or of its prefix or mask
  abbrev parsed : Invalid → Option MatchValue → Invalid ⊎ MatchValue
  parsed e none = inl e
  parsed e (some matched) = inr matched

  -- the switch over the match types
  unfoldable pub match_value : String → String → MatchField → String → Invalid ⊎ MatchValue
  unfolding value_to_bytes ternary_mask_to_bytes
  match_value table_name key mf val =
      let unparsed = key_value table_name key val in
      elim mf.match_type [
        | exact ↦ parsed unparsed (exact_value (value_to_bytes val mf.bitwidth))
        | lpm ↦ in_two (lpm_format val) (conv.split val "/") (λ fst snd.
            parsed unparsed (lpm_value (value_to_bytes fst mf.bitwidth) (conv.parse_uint snd 10 6)))
        | ternary ↦ in_two (ternary_format val) (conv.split val "&&&") (λ fst snd. parsed unparsed (
            ternary_value (value_to_bytes fst mf.bitwidth) (ternary_mask_to_bytes snd mf.bitwidth)))
        | unsupported ↦ inl unsupported_match_type
      ]

  abbrev pub MatchEntry : Type 0
  MatchEntry = List (String × MatchValue)

  abbrev convert_match :
      String
      → String
      → Option MatchField
      → String
      → MatchEntry
      → (MatchEntry → Result BuildError MatchEntry)
      → Result BuildError MatchEntry
  convert_match table_name key none val res next = err (metadata_not_found key table_name)
  convert_match table_name key (some mf) val res next = elim (match_value table_name key mf val) [
    | inl e ↦ err (invalid_argument e)
    | inr matched ↦ next (insert key matched res)
  ]

  -- the loop over the raw match, in an order of the map
  unfoldable pub build_match :
      String
      → List (String × MatchField)
      → List (String × String)
      → MatchEntry
      → Result BuildError MatchEntry
  unfolding match_value
  build_match table_name mfs [] res = ok res
  build_match table_name mfs ((key, val) ∷ raw) res =
      convert_match table_name key (lookup key mfs) val res (build_match table_name mfs raw)

  -- P4Info that is not set is a nil pointer there.
  unfoldable pub build_match_entry :
      Option P4Info → String → List (String × String) → Result BuildError MatchEntry
  unfolding find_table match_map build_match
  build_match_entry none table_name raw = panicked
  build_match_entry (some p4info) table_name raw = elim (find_table table_name p4info.tables) [
    | none ↦ err (metadata_not_found table_name "p4info tables")
    | some table ↦ build_match table_name (match_map table.match_fields []) raw []
  ]

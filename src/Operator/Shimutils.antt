-- ===== src/Operator/Shimutils.antt =====
-- src/inc-operator/shimutils/shim.go: the resources that the operator loads. The module is built
-- with Go 1.21, in which the variable of a `for range` loop is one variable for all its passes, so
-- a pointer to it points to what the last pass assigned.
mod Tests
use k8s_inc.Prelude.{
  ℕ, zero, suc, ◌+◌, ◌-◌, ◌*◌, ◌/◌, ◌%◌, ◌^◌, ◌≤◌, ◌<◌, String, ◌≡◌, refl, sym, ap, ◌∙◌, subst, ◌≢◌,
  ◌↔◌, ◌⊎◌, inl, inr, Bool, true, false, not, ◌&&◌, ◌||◌, Option, none, some, List, [], ◌∷◌, ◌++◌,
  map, arith, ltb, leb, if◌then◌else◌, ltb→lt, lt→ltb, leb→le, le→leb, Bool-cases, Option-cases, Eq,
  ◌==◌, ℕ_eq, String_eq, contains, add, remove, contains-add, contains-remove, add_not_empty,
  remove_empty, contains_empty, same_refl, is_some, length, is_empty, get_elem?, replicate,
  find_index, update_at, count_if, length-append, length-update_at, length-replicate, count_if-le,
  get_elem?-update_at, count_if-update_at, find_index_hit, find_index_first, find_index_miss,
  get_elem?-lt, update_at_all, find_index-update_at, take, take-suc, take-append, get_elem?_of_lt,
}
use k8s_inc.Prelude.Maps.{
  lookup, insert, erase, has, IsMap, lookup-insert, lookup-erase, length-insert, length-erase,
  IsMap-insert, IsMap-erase, erase_absent,
}
use k8s_inc.Shim.Api.{ApiError, Object, IncSwitchSpec, SdnShim}
use k8s_inc.Shim.Topology.{NetworkDevice}

-- The list of the Kubernetes client: its error or its items.
abbrev pub Listed : Type 0 → Type 0
Listed A = ApiError ⊎ List A

-- "SDNShim unavailable", "topology unavailable", and the error of the client
pub data LoadError : Type 0 where
  unavailable : LoadError
  list_error : ApiError → LoadError

abbrev pub first_item : {A : Type 0} → Listed A → LoadError ⊎ A
first_item (inl e) = inl (list_error e)
first_item (inr []) = inl unavailable
first_item (inr (a ∷ rest)) = inr a

unfoldable pub load_sdn_shim : Listed SdnShim → LoadError ⊎ SdnShim
load_sdn_shim shims = first_item shims

unfoldable pub load_topology : Listed (List NetworkDevice) → LoadError ⊎ List NetworkDevice
load_topology topos = first_item topos

-- The map of the loop holds pointers to the loop's variable, so it has the names alone; the second
-- result is the variable behind the loop.
abbrev pub point_all :
    {S : Type 0}
    → List (Object S)
    → Option (Object S)
    → List (String × Unit {0})
    → List (String × Unit {0}) × Option (Object S)
point_all [] variable res = (res, variable)
point_all (item ∷ items) variable res = point_all items (some item) (insert item.name tt res)

-- what a pointer of the map gives
abbrev deref_all :
    {S : Type 0} → List (String × Unit {0}) × Option (Object S) → String → Option (Object S)
deref_all (res, variable) name = if has name res then variable else none

-- LoadNodes and LoadSwitches, as the lookup in the map returned
unfoldable pub load_objects :
    {S : Type 0} → Listed (Object S) → LoadError ⊎ (String → Option (Object S))
load_objects (inl e) = inl (list_error e)
load_objects (inr items) = inr (deref_all (point_all items none []))

unfoldable pub load_switches :
    Listed (Object IncSwitchSpec) → LoadError ⊎ (String → Option (Object IncSwitchSpec))
unfolding load_objects
load_switches switches = load_objects switches

abbrev pub last_item : {S : Type 0} → Object S → List (Object S) → Object S
last_item item [] = item
last_item item (next ∷ items) = last_item next items

pointed-names :
    {S : Type 0} (items : List (Object S)) (variable : Option (Object S))
    (res : List (String × Unit {0})) (name : String)
    → has name (point_all items variable res).0
      ≡ (contains name (map (λ o. o.name) items) || has name res)
pointed-names [] variable res name = refl
pointed-names (item ∷ items) variable res name = ground (
  arith,
  pointed-names items (some item) (insert item.name tt res) name,
  lookup-insert item.name name tt res,
)

pointed-variable :
    {S : Type 0} (item : Object S) (items : List (Object S)) (variable : Option (Object S))
    (res : List (String × Unit {0}))
    → (point_all (item ∷ items) variable res).1 ≡ some (last_item item items)
pointed-variable item [] variable res = refl
pointed-variable item (next ∷ items) variable res =
    pointed-variable next items (some item) (insert item.name tt res)

-- The map of LoadSwitches has the names of the switches listed, but every name leads to the switch
-- that was listed last.
pub load_switches_last :
    (item : Object IncSwitchSpec) (items : List (Object IncSwitchSpec))
    → (found : String → Option (Object IncSwitchSpec)) × (load_switches (inr (item ∷ items))
        ≡ inr found)
      × ((name : String)
          → found name ≡ (
              if contains name (map (λ o. o.name) (item ∷ items))
              then some (last_item item items)
              else none))
unfolding load_switches lookup
load_switches_last item items = (
  deref_all (point_all (item ∷ items) none []),
  refl,
  (λ name.
      ground
        (arith, pointed-names (item ∷ items) none [] name, pointed-variable item items none [])),
)

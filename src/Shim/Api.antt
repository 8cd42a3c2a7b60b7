-- ===== src/Shim/Api.antt =====
-- What src/sdn-shim/controllers/sdnshim_controller.go reads and writes: the resources of
-- src/sdn-shim/api/v1alpha1, the calls of the Kubernetes client and of the SDN controller's
-- frontend (src/proto/sdn/sdn.proto), and what the reconciler relies on of these calls.
pub mod Example
use k8s_inc.Prelude.{
  ℕ, zero, suc, ◌+◌, ◌-◌, ◌*◌, ◌/◌, ◌%◌, ◌^◌, ◌≤◌, ◌<◌, String, ◌≡◌, refl, sym, ap, ◌∙◌, subst, ◌≢◌,
  ◌↔◌, ◌⊎◌, inl, inr, Bool, true, false, not, ◌&&◌, ◌||◌, Option, none, some, List, [], ◌∷◌, ◌++◌,
  map, arith, ltb, leb, if◌then◌else◌, ltb→lt, lt→ltb, leb→le, le→leb, Bool-cases, Option-cases, Eq,
  ◌==◌, ℕ_eq, String_eq, contains, add, remove, contains-add, contains-remove, add_not_empty,
  remove_empty, contains_empty, same_refl, is_some, length, is_empty, get_elem?, replicate,
  find_index, update_at, count_if, length-append, length-update_at, length-replicate, count_if-le,
  get_elem?-update_at, count_if-update_at, find_index_hit, find_index_first, find_index_miss,
  get_elem?-lt, update_at_all, find_index-update_at, take, take-suc, take-append, get_elem?_of_lt,
}
use k8s_inc.Prelude.Maps.{
  lookup, insert, erase, has, IsMap, lookup-insert, lookup-erase, length-insert, length-erase,
  IsMap-insert, IsMap-erase, erase_absent,
}
use k8s_inc.Controller.Mapping.{ProtoDevice, SwitchDetails}
use k8s_inc.Shim.Topology.{NetworkDevice}

pub record ProgramArtifacts : Type 0 where
  pub arch : String
  pub p4_info_url : String
  pub p4_pipeline_url : String

pub record IncSwitchSpec : Type 0 where
  pub arch : String
  pub program_name : String

pub record P4ProgramSpec : Type 0 where
  pub artifacts : List ProgramArtifacts
  pub implemented_interfaces : List String

-- An object has a resource version once it was read from the API server.
pub record Object (S : Type 0) : Type 0 where
  pub name : String
  pub resource_version : Option String
  pub spec : S

pub record Condition : Type 0 where
  pub condition_type : String
  pub status : Bool
  pub reason : String
  pub message : String

pub record SdnShim : Type 0 where
  pub sdn_grpc_addr : String
  pub conditions : List Condition

pub data ApiError : Type 0 where
  not_found invalid_argument : ApiError
  other_error : String → ApiError

-- a call of the outside world `W`: its error or its result, and the world behind it
abbrev pub Call : Type 0 → Type 0 → Type 0
Call W A = W → (ApiError ⊎ A) × W

-- The Kubernetes client, on the one topology resource and on switches and programs by name.
pub record Kubernetes (W : Type 0) : Type 0 where
  pub get_shim : Call W SdnShim
  pub update_shim_status : SdnShim → Call W (Unit {0})
  pub set_status_condition : List Condition → Condition → List Condition
  pub set_controller_reference : String → Call W (Unit {0})
  pub get_topology : Call W (List NetworkDevice)
  pub create_topology : List NetworkDevice → Call W (Unit {0})
  pub update_topology : List NetworkDevice → Call W (Unit {0})
  pub list_switches : Call W (List (Object IncSwitchSpec))
  pub create_switch : Object IncSwitchSpec → Call W (Unit {0})
  pub update_switch : Object IncSwitchSpec → Call W (Unit {0})
  pub delete_switch : Object IncSwitchSpec → Call W (Unit {0})
  pub list_programs : Call W (List (Object P4ProgramSpec))
  pub create_program : Object P4ProgramSpec → Call W (Unit {0})
  pub update_program : Object P4ProgramSpec → Call W (Unit {0})
  pub delete_program : Object P4ProgramSpec → Call W (Unit {0})

-- The SDN controller's frontend, by its address.
pub record Sdn (W : Type 0) : Type 0 where
  pub dial : String → Call W (Unit {0})
  pub subscribe_network_changes : String → Call W (Unit {0})
  pub get_topology : String → Call W (List ProtoDevice)
  pub get_switch_details : String → List String → Call W (List (String × SwitchDetails))
  pub get_program_details : String → String → Call W (List String)

-- what the API server stores
pub record Cluster : Type 0 where
  pub shim : Option SdnShim
  pub topology : Option (List NetworkDevice)
  pub switches : String → Option IncSwitchSpec
  pub programs : String → Option P4ProgramSpec

-- what an SDN controller answers
pub record Network : Type 0 where
  pub graph : List ProtoDevice
  pub details : String → Option SwitchDetails
  pub interfaces : String → Option (List String)

abbrev pub assign : {A : Type 0} → String → Option A → (String → Option A) → String → Option A
assign key val f other = if key == other then val else f other

-- the spec of the object of a name in a list
abbrev pub spec_of : {S : Type 0} → String → List (Object S) → Option S
spec_of name [] = none
spec_of name (o ∷ os) = if o.name == name then some o.spec else spec_of name os

-- every object has a name of its own and a resource version
abbrev pub AreStored : {S : Type 0} → List (Object S) → Type 0
AreStored [] = Unit
AreStored (o ∷ os) =
    (is_some o.resource_version ≡ true) × (is_some (spec_of o.name os) ≡ false) × AreStored os

-- What a call with the result `a` does to the cluster is `R`; its error is a fault of the
-- environment, unless the call was made where `P` does not hold.
module _ (Faulty : Type 0) {W : Type 0} (view : W → Cluster) where
  abbrev pub Answered :
      {A : Type 0}
      → (P : Cluster → Type 0) (R : Cluster → A → Cluster → Type 0) → Cluster
      → (ApiError ⊎ A) × W
      → Type 0
  Answered P R before (inl e, w) = P before → Faulty
  Answered P R before (inr a, w) = R before a (view w)

  abbrev pub Does :
      {A : Type 0} → Call W A → (P : Cluster → Type 0) (R : Cluster → A → Cluster → Type 0) → Type 0
  Does op P R = (w : W) → Answered P R (view w) (op w)

abbrev pub Always : Cluster → Type 0
Always c = Unit

-- What the reconciler relies on. Nothing else writes to the cluster while it runs, and the SDN
-- controller behind an address does not change. An object is written under its name, and an update
-- is accepted for an object that was read before, with its resource version; an object is created
-- where there is none of its name. The lists hold every object once. The frontend answers with
-- what it knows of each name, and fails where it knows nothing.
pub record Laws (Faulty : Type 0) (W : Type 0) (view : W → Cluster) (network : String → Network)
    (k8s : Kubernetes W) (sdn : Sdn W) : Type 0 where
  pub get_shim :
      Does Faulty view k8s.get_shim
        (λ c. is_some c.shim ≡ true)
        (λ c s c'. (c' ≡ c) × (c.shim ≡ some s))
  pub update_shim_status :
      (s : SdnShim)
      → Does Faulty view
          (k8s.update_shim_status s)
          (λ c. is_some c.shim ≡ true)
          (λ c a c'. c' ≡ record c { shim = some s })
  pub set_controller_reference :
      (name : String)
      → Does Faulty view (k8s.set_controller_reference name) Always (λ c a c'. c' ≡ c)
  pub get_topology :
      Does Faulty view k8s.get_topology
        (λ c. is_some c.topology ≡ true)
        (λ c g c'. (c' ≡ c) × (c.topology ≡ some g))
  pub create_topology :
      (g : List NetworkDevice)
      → Does Faulty view
          (k8s.create_topology g)
          (λ c. c.topology ≡ none)
          (λ c a c'. c' ≡ record c { topology = some g })
  pub update_topology :
      (g : List NetworkDevice)
      → Does Faulty view
          (k8s.update_topology g)
          (λ c. is_some c.topology ≡ true)
          (λ c a c'. c' ≡ record c { topology = some g })
  pub list_switches :
      Does Faulty view k8s.list_switches Always
        (λ c os c'. (c' ≡ c) × AreStored os × ((name : String) → spec_of name os ≡ c.switches name))
  pub create_switch :
      (o : Object IncSwitchSpec)
      → Does Faulty view
          (k8s.create_switch o)
          (λ c. c.switches o.name ≡ none)
          (λ c a c'. c' ≡ record c { switches = assign o.name (some o.spec) c.switches })
  pub update_switch :
      (o : Object IncSwitchSpec)
      → Does Faulty view
          (k8s.update_switch o)
          (λ c. (is_some (c.switches o.name) ≡ true) × (is_some o.resource_version ≡ true))
          (λ c a c'. c' ≡ record c { switches = assign o.name (some o.spec) c.switches })
  pub delete_switch :
      (o : Object IncSwitchSpec)
      → Does Faulty view
          (k8s.delete_switch o)
          (λ c. is_some (c.switches o.name) ≡ true)
          (λ c a c'. c' ≡ record c { switches = assign o.name none c.switches })
  pub list_programs :
      Does Faulty view k8s.list_programs Always
        (λ c os c'. (c' ≡ c) × AreStored os × ((name : String) → spec_of name os ≡ c.programs name))
  pub create_program :
      (o : Object P4ProgramSpec)
      → Does Faulty view
          (k8s.create_program o)
          (λ c. c.programs o.name ≡ none)
          (λ c a c'. c' ≡ record c { programs = assign o.name (some o.spec) c.programs })
  pub update_program :
      (o : Object P4ProgramSpec)
      → Does Faulty view
          (k8s.update_program o)
          (λ c. (is_some (c.programs o.name) ≡ true) × (is_some o.resource_version ≡ true))
          (λ c a c'. c' ≡ record c { programs = assign o.name (some o.spec) c.programs })
  pub delete_program :
      (o : Object P4ProgramSpec)
      → Does Faulty view
          (k8s.delete_program o)
          (λ c. is_some (c.programs o.name) ≡ true)
          (λ c a c'. c' ≡ record c { programs = assign o.name none c.programs })
  pub sdn_get_topology :
      (addr : String)
      → Does Faulty view
          (sdn.get_topology addr)
          Always
          (λ c g c'. (c' ≡ c) × (g ≡ (network addr).graph))
  pub get_switch_details :
      (addr : String) (names : List String)
      → Does Faulty view
          (sdn.get_switch_details addr names)
          (λ c.
            (name : String)
            → contains name names ≡ true
            → is_some ((network addr).details name) ≡ true)
          (λ c ds c'.
            (c' ≡ c)
            × ((name : String)
                → contains name names ≡ true
                → lookup name ds ≡ (network addr).details name))
  pub details_named :
      (addr name : String) (d : SwitchDetails)
      → (network addr).details name ≡ some d
      → d.name ≡ name
  pub get_program_details :
      (addr name : String)
      → Does Faulty view
          (sdn.get_program_details addr name)
          (λ c. is_some ((network addr).interfaces name) ≡ true)
          (λ c is c'. (c' ≡ c) × ((network addr).interfaces name ≡ some is))

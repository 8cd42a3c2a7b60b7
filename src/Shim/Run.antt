-- ===== src/Shim/Run.antt =====
-- A `Run` is a part of Reconcile of src/sdn-shim/controllers/sdnshim_controller.go: it goes on with
-- a result, or has returned. The connection and its watcher stand and fall with the shim that they
-- were opened for.
pub mod Rules
use k8s_inc.Prelude.{
  ℕ, zero, suc, ◌+◌, ◌-◌, ◌*◌, ◌/◌, ◌%◌, ◌^◌, ◌≤◌, ◌<◌, String, ◌≡◌, refl, sym, ap, ◌∙◌, subst, ◌≢◌,
  ◌↔◌, ◌⊎◌, inl, inr, Bool, true, false, not, ◌&&◌, ◌||◌, Option, none, some, List, [], ◌∷◌, ◌++◌,
  map, arith, ltb, leb, if◌then◌else◌, ltb→lt, lt→ltb, leb→le, le→leb, Bool-cases, Option-cases, Eq,
  ◌==◌, ℕ_eq, String_eq, contains, add, remove, contains-add, contains-remove, add_not_empty,
  remove_empty, contains_empty, same_refl, is_some, length, is_empty, get_elem?, replicate,
  find_index, update_at, count_if, length-append, length-update_at, length-replicate, count_if-le,
  get_elem?-update_at, count_if-update_at, find_index_hit, find_index_first, find_index_miss,
  get_elem?-lt, update_at_all, find_index-update_at, take, take-suc, take-append, get_elem?_of_lt,
}
use k8s_inc.Prelude.Maps.{
  lookup, insert, erase, has, IsMap, lookup-insert, lookup-erase, length-insert, length-erase,
  IsMap-insert, IsMap-erase, erase_absent,
}
use k8s_inc.Controller.Mapping.{ProtoDevice, SwitchDetails}
use k8s_inc.Shim.Topology.{NetworkDevice, build_cluster_topo_cr, topology_changed, is_switch}
use k8s_inc.Shim.Api.{
  ProgramArtifacts, IncSwitchSpec, P4ProgramSpec, Object, Condition, SdnShim, ApiError, not_found,
  invalid_argument, other_error, Call, Kubernetes, Sdn,
}

-- what Reconcile returns, or the panic
pub data Outcome : Type 0 where
  done requeue requeue_after panicked : Outcome
  failed : ApiError → Outcome

pub record Reconciler : Type 0 where
  pub shim_for_client : Option SdnShim

-- a part of Reconcile in the outside world `W`
abbrev pub Run : Type 0 → Type 0 → Type 0
Run W A = Reconciler → W → (Outcome ⊎ A) × Reconciler × W

module _ {W : Type 0} where
  abbrev pub go_on :
      {A B : Type 0}
      → (Outcome ⊎ A) × Reconciler × W
      → (A → Run W B)
      → (Outcome ⊎ B) × Reconciler × W
  go_on (inl o, r, w) f = (inl o, r, w)
  go_on (inr a, r, w) f = f a r w

  infixl 5 ◌>>=◌ ◌>>◌
  abbrev pub ◌>>=◌ : {A B : Type 0} → Run W A → (A → Run W B) → Run W B
  ◌>>=◌ m f r w = go_on (m r w) f

  abbrev pub ◌>>◌ : {A B : Type 0} → Run W A → Run W B → Run W B
  m >> n = m >>= (λ a. n)

  abbrev pub return : {A : Type 0} → A → Run W A
  return a r w = (inr a, r, w)

  abbrev pub stop : {A : Type 0} → Outcome → Run W A
  stop o r w = (inl o, r, w)

  abbrev pub returned : {A : Type 0} → Reconciler → A × W → (Outcome ⊎ A) × Reconciler × W
  returned r (a, w) = (inr a, r, w)

  abbrev pub call : {A : Type 0} → Call W A → Run W (ApiError ⊎ A)
  call op r w = returned r (op w)

  -- the call's result, or what the code does with its error
  abbrev pub call_or : {A : Type 0} → Call W A → (ApiError → Run W A) → Run W A
  call_or op handle = call op >>= (λ answer. elim answer [ inl e ↦ handle e | inr a ↦ return a ])

  -- `if err != nil { return ctrl.Result{}, err }`
  abbrev pub try : {A : Type 0} → Call W A → Run W A
  try op = call_or op (λ e. stop (failed e))

  abbrev pub for_each : {A B : Type 0} → List A → B → (A → B → Run W B) → Run W B
  for_each [] b body = return b
  for_each (x ∷ xs) b body = body x b >>= (λ b'. for_each xs b' body)

  abbrev pub get_client : Run W (Option SdnShim)
  get_client r w = (inr r.shim_for_client, r, w)

  abbrev pub set_client : Option SdnShim → Run W (Unit {0})
  set_client client r w = (inr tt, record { shim_for_client = client }, w)

  -- the object behind a pointer: a nil pointer is a panic
  abbrev pub deref : {A : Type 0} → Option A → Run W A
  deref none = stop panicked
  deref (some a) = return a

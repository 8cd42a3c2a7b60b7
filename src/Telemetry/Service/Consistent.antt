-- ===== src/Telemetry/Service/Consistent.antt =====
-- The invariant of the service: the stored intents hold their collection ids.
use k8s_inc.Prelude.{
  ℕ, String, ◌≡◌, refl, sym, subst, ◌≢◌, inl, inr, Bool, true, false, none, some, List, arith,
  if◌then◌else◌, Bool-cases, ◌==◌, ℕ_eq, String_eq, same_refl, is_some,
}
use k8s_inc.Prelude.Int.{ℤ_eq}
use k8s_inc.Prelude.Maps.{lookup, insert, erase, lookup-insert, lookup-erase}
use k8s_inc.Model.Graph.{Topology}
use k8s_inc.Telemetry.Entities.{TelemetryEntities}
use k8s_inc.Telemetry.Pool.{CollectionIdPool, allocated, alloc_or_get, free, get_if_allocated}
use k8s_inc.Telemetry.Pool.Invariant.{IsValid, new_pool-IsValid, alloc_or_get-IsValid, free-IsValid}
use k8s_inc.Telemetry.Pool.Holders.{get-alloc_or_get, get-free}
use k8s_inc.Telemetry.Request.{ConfigureTelemetryRequest}
use k8s_inc.Telemetry.Service.{ConfigureTelemetryResponse}
use k8s_inc.Telemetry.Service.State.{
  IntentState, TelemetryService, new_service, init_devices, collection_id_pool_size,
}
use k8s_inc.Telemetry.Service.Configure.{IsFinished, is_ok_or, intent_of}

-- Each stored intent holds its collection id, which is not empty.
abbrev pub Holds : List (String × IntentState) → CollectionIdPool → Type 0
Holds states p =
    (intent : String) (st : IntentState)
    → lookup intent states ≡ some st
    → ((st.collection_id == "") ≡ false)
      × (is_some (get_if_allocated intent st.collection_id p) ≡ true)

pub record IsConsistent (t : TelemetryService) : Type 0 where
  pub pool_valid : IsValid t.collection_id_pool
  pub holds : Holds t.intent_state t.collection_id_pool

pub IsConsistent-same :
    (t t' : TelemetryService)
    → t'.collection_id_pool ≡ t.collection_id_pool
    → t'.intent_state ≡ t.intent_state
    → IsConsistent t
    → IsConsistent t'
IsConsistent-same t t' pool_same state_same con = record {
  pool_valid = subst IsValid (sym pool_same) con.pool_valid;
  holds =
      subst (λ s. Holds s t'.collection_id_pool) (sym state_same)
        (subst (Holds t.intent_state) (sym pool_same) con.holds);
}

-- The service starts consistent.
pub new_service-IsConsistent : IsConsistent new_service
unfolding new_service lookup
new_service-IsConsistent = record {
  pool_valid = new_pool-IsValid collection_id_pool_size;
  holds = λ intent st h. cc;
}

pub init_devices-IsConsistent :
    (topo : Topology) (t : TelemetryService) → IsConsistent t → IsConsistent (init_devices topo t)
unfolding init_devices
init_devices-IsConsistent topo t con = IsConsistent-same t (init_devices topo t) refl refl con

-- no intent loses its collection id by an allocation
Holds-alloc_or_get :
    (intent id : String) (p : CollectionIdPool) (k : ℕ) (states : List (String × IntentState))
    → (id == "") ≡ false
    → IsValid p
    → (alloc_or_get intent id p).0 ≡ allocated k
    → Holds states p
    → Holds states (alloc_or_get intent id p).1
Holds-alloc_or_get intent id p k states ne v a h j st at_j =
    let (named, held) = h j st at_j in
    (named, ground (arith, get-alloc_or_get intent id j st.collection_id p k ne v a))

Holds-insert :
    (intent : String) (new : IntentState) (p : CollectionIdPool)
    (states : List (String × IntentState))
    → (new.collection_id == "") ≡ false
    → is_some (get_if_allocated intent new.collection_id p) ≡ true
    → Holds states p
    → Holds (insert intent new states) p
Holds-insert intent new p states ne held h j st at_j = elim (Bool-cases (intent == j)) [
  | inr other ↦ h j st (ground (arith, lookup-insert intent j new states))
  | inl mine ↦
      let same : intent ≡ j = ground (arith, String_eq.same_iff intent j) in
      let e : new ≡ st = ground (arith, lookup-insert intent j new states) in
      subst
        (λ x.
          ((x.collection_id == "") ≡ false)
          × (is_some (get_if_allocated j x.collection_id p) ≡ true))
        e (ne, subst (λ i. is_some (get_if_allocated i new.collection_id p) ≡ true) same held)
]

Holds-free :
    (intent id : String) (p : CollectionIdPool) (states : List (String × IntentState))
    → lookup intent states ≡ none
    → IsValid p
    → Holds states p
    → Holds states (free intent id p)
Holds-free intent id p states absent v h j st at_j =
    let (named, held) = h j st at_j in
    let other : intent ≢ j = λ e. ground (arith, e) in
    (named, ground (arith, get-free intent id j st.collection_id p v, String_eq.same_iff intent j))

pub Holds-erase :
    (intent id : String) (p : CollectionIdPool) (states : List (String × IntentState))
    → IsValid p
    → Holds states p
    → Holds (erase intent states) (free intent id p)
Holds-erase intent id p states v h j st at_j =
    let at_old : lookup j states ≡ some st = ground (arith, lookup-erase intent j states) in
    let (named, held) = h j st at_old in
    (named, ground (arith, lookup-erase intent j states, get-free intent id j st.collection_id p v))

pub IsFinished-IsConsistent :
    (req : ConfigureTelemetryRequest) (desired : TelemetryEntities) (has_current : Bool) (k : ℕ)
    (t t' : TelemetryService) (resp : ConfigureTelemetryResponse)
    → (req.collection_id == "") ≡ false
    → (has_current ≡ false → lookup req.intent_id t.intent_state ≡ none)
    → IsConsistent t
    → (alloc_or_get req.intent_id req.collection_id t.collection_id_pool).0 ≡ allocated k
    → IsFinished req desired has_current
        (record t {
          collection_id_pool =
              (alloc_or_get req.intent_id req.collection_id t.collection_id_pool).1;
        })
        resp
        t'
    → IsConsistent t'
IsFinished-IsConsistent req desired has_current k t t' resp ne fresh con a fin =
    let p = t.collection_id_pool in
    let p1 = (alloc_or_get req.intent_id req.collection_id p).1 in
    let v1 = alloc_or_get-IsValid req.intent_id req.collection_id p ne con.pool_valid in
    let h1 =
      Holds-alloc_or_get req.intent_id req.collection_id p k t.intent_state ne con.pool_valid a
        con.holds in
    let left : CollectionIdPool → Bool → Type 0 =
      λ q b. q ≡ (if b then p1 else free req.intent_id req.collection_id p1) in
    let from_parts : (q : CollectionIdPool) (states : List (String × IntentState))
        → IsValid q
        → Holds states q
        → t'.collection_id_pool ≡ q
        → t'.intent_state ≡ states
        → IsConsistent t' =
      λ q states valid held pool_is states_are. record {
        pool_valid = subst IsValid (sym pool_is) valid;
        holds =
            subst (λ x. Holds x t'.collection_id_pool) (sym states_are)
              (subst (Holds states) (sym pool_is) held);
      } in
    elim fin.stored [
      | inl (is_ok, stored) ↦
          from_parts p1 (insert req.intent_id (intent_of req desired) t.intent_state) v1
            (Holds-insert req.intent_id (intent_of req desired) p1 t.intent_state ne
              (ground (
                arith,
                get-alloc_or_get req.intent_id req.collection_id req.intent_id req.collection_id p k
                    ne con.pool_valid a,
                same_refl req.intent_id,
                same_refl req.collection_id,
              ))
              h1)
            (subst (λ s. left t'.collection_id_pool (is_ok_or s has_current)) is_ok fin.pool_left)
            stored
      | inr (failed, same) ↦
          let pool_is =
            subst (λ s. left t'.collection_id_pool (is_ok_or s has_current)) failed fin.pool_left in
          elim (Bool-cases has_current) [
            | inl there ↦
                from_parts p1 t.intent_state v1 h1
                  (subst (left t'.collection_id_pool) there pool_is) same
            | inr new ↦
                from_parts (free req.intent_id req.collection_id p1) t.intent_state
                  (free-IsValid req.intent_id req.collection_id p1 v1)
                  (Holds-free req.intent_id req.collection_id p1 t.intent_state (fresh new) v1 h1)
                  (subst (left t'.collection_id_pool) new pool_is) same
          ]
    ]

-- ===== src/Telemetry/Service/Answers.antt =====
-- ConfigureTelemetry as a whole: its answers, the locks behind them and what is stored.
use k8s_inc.Prelude.{
  ℕ, String, ◌≡◌, refl, ◌∙◌, subst, ◌≢◌, ◌⊎◌, inl, inr, Bool, true, false, Option, none, some,
  arith, Bool-cases, Option-cases, ◌==◌, ℕ_eq, String_eq,
}
use k8s_inc.Prelude.Int.{pos, ℤ_eq}
use k8s_inc.Prelude.Maps.{lookup}
use k8s_inc.Connector.Entry.{RawTableEntry}
use k8s_inc.Model.Graph.{Topology, topology_to_graph}
use k8s_inc.Programs.{Registry}
use k8s_inc.Telemetry.Entities.{TelemetryEntities, new_telemetry_entities, compute_differences}
use k8s_inc.Telemetry.Pool.{Allocation, allocated, pool_full, panicked, alloc_or_get}
use k8s_inc.Telemetry.Pool.Alloc.{alloc_or_get_full_unchanged}
use k8s_inc.Telemetry.Request.{ConfigureTelemetryRequest}
use k8s_inc.Telemetry.Service.{
  ConfigureTelemetryResponse, state_failed, configure_telemetry, configure_locked,
  configure_entries, give_up, in_progress,
}
use k8s_inc.Telemetry.Service.Apply.{changelog_for}
use k8s_inc.Telemetry.Service.Configure.{IsReleased, IsStored, finish_IsFinished, give_up_releases}
use k8s_inc.Telemetry.Service.Consistent.{IsConsistent, IsConsistent-same, IsFinished-IsConsistent}
use k8s_inc.Telemetry.Service.Locks.{lock_intent, lock_intent_exclusive}
use k8s_inc.Telemetry.Service.State.{TelemetryService}
use k8s_inc.Telemetry.Traversals.{find_telemetry_entities_for_request}

-- What an answer of ConfigureTelemetry behind the lock has done.
pub record IsHandled (req : ConfigureTelemetryRequest) (desired : TelemetryEntities)
    (t : TelemetryService) (resp : ConfigureTelemetryResponse) (t' : TelemetryService)
    : Type 0 where
  pub released : IsReleased req.intent_id t.intent_locks t'.intent_locks
  pub stored : IsStored req desired t resp t'
  pub consistent : (req.collection_id == "") ≡ false → IsConsistent t → IsConsistent t'

Allocation-cases :
    (a : Allocation) → ((k : ℕ) × (a ≡ allocated k)) ⊎ ((a ≡ pool_full) ⊎ (a ≡ panicked))
Allocation-cases (allocated k) = inl (k, refl)
Allocation-cases pool_full = inr (inl refl)
Allocation-cases panicked = inr (inr refl)

module _ {W E : Type 0} (write_entry delete_entry : String → RawTableEntry → W → Option E × W) where
  entries_IsHandled :
      (req : ConfigureTelemetryRequest) (topo : Topology) (desired : TelemetryEntities)
      (has_current : Bool) (to_add to_remove : TelemetryEntities) (t t' : TelemetryService)
      (w w' : W) (resp : ConfigureTelemetryResponse)
      → (has_current ≡ false → lookup req.intent_id t.intent_state ≡ none)
      → configure_entries write_entry delete_entry req topo desired has_current to_add to_remove t w
        ≡ some (resp, (t', w'))
      → IsHandled req desired t resp t'
  unfolding configure_entries
  entries_IsHandled req topo desired has_current to_add to_remove t t' w w' resp fresh h =
      let p1 = (alloc_or_get req.intent_id req.collection_id t.collection_id_pool).1 in
      elim (Allocation-cases
        (alloc_or_get req.intent_id req.collection_id t.collection_id_pool).0) [
          | inr (inr panics) ↦ ground arith
          | inr (inl full) ↦
              elim (Option-cases
                (give_up has_current req.intent_id (record t { collection_id_pool = p1 }))) [
                  | inl fails ↦ ground arith
                  | inr (u, gave_up) ↦
                      let (rel, st, po) =
                        give_up_releases has_current req.intent_id
                          (record t { collection_id_pool = p1 }) u gave_up in
                      let same : u ≡ t' = ground arith in
                      let failed : resp.telemetry_state ≡ state_failed = ground arith in
                      let pool_same : u.collection_id_pool ≡ t.collection_id_pool =
                        po
                        ∙ alloc_or_get_full_unchanged req.intent_id req.collection_id
                            t.collection_id_pool full in
                      record {
                        released =
                            subst (λ x. IsReleased req.intent_id t.intent_locks x.intent_locks) same
                              rel;
                        stored = inr (failed, subst (λ x. x.intent_state ≡ t.intent_state) same st);
                        consistent = λ ne con.
                            subst IsConsistent same (IsConsistent-same t u pool_same st con);
                      }
                ]
          | inl (k, a) ↦
              elim (Option-cases (
                changelog_for topo req.collector_node_name req.collector_port (pos k) to_add
                  to_remove)) [
                    | inl fails ↦ ground arith
                    | inr (log, made) ↦
                        let fin =
                          finish_IsFinished write_entry delete_entry req desired has_current log
                            (record t { collection_id_pool = p1 }) t' w w' resp
                            (rw (a, made, configure_entries) at h) in
                        record {
                          released = fin.released;
                          stored = fin.stored;
                          consistent = λ ne con.
                              IsFinished-IsConsistent req desired has_current k t t' resp ne fresh
                                con a fin;
                        }
                  ]
        ]

  module _ {ℓ} {D : Type ℓ} (registry : Registry D) where
    locked_IsHandled :
        (req : ConfigureTelemetryRequest) (topo : Topology) (t t' : TelemetryService) (w w' : W)
        (resp : ConfigureTelemetryResponse)
        → configure_locked write_entry delete_entry registry req topo t w ≡ some (resp, (t', w'))
        → (desired : TelemetryEntities) × (find_telemetry_entities_for_request registry req
              (topology_to_graph topo)
            ≡ some desired)
          × IsHandled req desired t resp t'
    unfolding configure_locked
    locked_IsHandled req topo t t' w w' resp h =
        elim (Option-cases
          (find_telemetry_entities_for_request registry req (topology_to_graph topo))) [
            | inl panics ↦ ground arith
            | inr (desired, found) ↦ (
              desired,
              found,
              elim (Option-cases (lookup req.intent_id t.intent_state)) [
                | inl absent ↦
                    entries_IsHandled req topo desired false desired new_telemetry_entities t t' w
                      w' resp (λ _. absent) (rw (found, absent, configure_locked) at h)
                | inr (current, there) ↦
                    elim (Bool-cases (current.collection_id == req.collection_id)) [
                      | inl same ↦
                          let (to_add, to_remove) = compute_differences current.entities desired in
                          entries_IsHandled req topo desired true to_add to_remove t t' w w' resp
                            (λ f. absurd (ground arith))
                            (rw (found, there, same, configure_locked) at h)
                      | inr other ↦ elim (Option-cases (give_up true req.intent_id t)) [
                        | inl fails ↦ ground arith
                        | inr (u, gave_up) ↦
                            let (rel, st, po) = give_up_releases true req.intent_id t u gave_up in
                            let same : u ≡ t' = ground arith in
                            record {
                              released =
                                  subst
                                    (λ x. IsReleased req.intent_id t.intent_locks x.intent_locks)
                                    same rel;
                              stored = inr (
                                ground arith,
                                subst (λ x. x.intent_state ≡ t.intent_state) same st,
                              );
                              consistent = λ ne con.
                                  subst IsConsistent same (IsConsistent-same t u po st con);
                            }
                      ]
                    ]
              ],
            )
          ]

    -- While an intent's lock is held, a request for it is answered as in progress, and neither the
    -- service nor the switches change.
    pub configure_telemetry_busy :
        (req : ConfigureTelemetryRequest) (topo : Topology) (t : TelemetryService) (w : W)
        → lookup req.intent_id t.intent_locks ≡ some true
        → configure_telemetry write_entry delete_entry registry req topo t w
          ≡ some (in_progress, (t, w))
    unfolding configure_telemetry lock_intent
    configure_telemetry_busy req topo t w held = ground arith

    configure_telemetry_locked :
        (req : ConfigureTelemetryRequest) (topo : Topology) (t t' : TelemetryService) (w w' : W)
        (resp : ConfigureTelemetryResponse)
        → lookup req.intent_id t.intent_locks ≢ some true
        → configure_telemetry write_entry delete_entry registry req topo t w ≡ some (resp, (t', w'))
        → configure_locked write_entry delete_entry registry req topo
            (record t { intent_locks = (lock_intent req.intent_id t.intent_locks).1 })
            w
          ≡ some (resp, (t', w'))
    unfolding configure_telemetry
    configure_telemetry_locked req topo t t' w w' resp free h =
        ground (arith, lock_intent_exclusive req.intent_id req.intent_id t.intent_locks)

    -- When nobody held the intent's lock, every answer leaves it not held, so that the next request
    -- for the intent is let in, and leaves the locks of the other intents as they were.
    pub configure_telemetry_releases :
        (req : ConfigureTelemetryRequest) (topo : Topology) (t t' : TelemetryService) (w w' : W)
        (resp : ConfigureTelemetryResponse)
        → lookup req.intent_id t.intent_locks ≢ some true
        → configure_telemetry write_entry delete_entry registry req topo t w ≡ some (resp, (t', w'))
        → IsReleased req.intent_id t.intent_locks t'.intent_locks
    configure_telemetry_releases req topo t t' w w' resp free h =
        let locked = record t { intent_locks = (lock_intent req.intent_id t.intent_locks).1 } in
        let (desired, found, handled) =
          locked_IsHandled req topo locked t' w w' resp
            (configure_telemetry_locked req topo t t' w w' resp free h) in
        let (off, others) = handled.released in
        (
          off,
          λ other ne.
              others other ne ∙ (lock_intent_exclusive req.intent_id other t.intent_locks).2 ne,
        )

    -- When nobody held the intent's lock, the answer is OK and the intent is stored with the
    -- entities that the request asks for in the topology's graph, or the answer is a failure and
    -- the stored intents are as they were.
    pub configure_telemetry_stores :
        (req : ConfigureTelemetryRequest) (topo : Topology) (t t' : TelemetryService) (w w' : W)
        (resp : ConfigureTelemetryResponse)
        → lookup req.intent_id t.intent_locks ≢ some true
        → configure_telemetry write_entry delete_entry registry req topo t w ≡ some (resp, (t', w'))
        → (desired : TelemetryEntities) × (find_telemetry_entities_for_request registry req
              (topology_to_graph topo)
            ≡ some desired)
          × IsStored req desired t resp t'
    configure_telemetry_stores req topo t t' w w' resp free h =
        let locked = record t { intent_locks = (lock_intent req.intent_id t.intent_locks).1 } in
        let (desired, found, handled) =
          locked_IsHandled req topo locked t' w w' resp
            (configure_telemetry_locked req topo t t' w w' resp free h) in
        (desired, found, handled.stored)

    configure_telemetry_refused :
        (req : ConfigureTelemetryRequest) (topo : Topology) (t t' : TelemetryService) (w w' : W)
        (resp : ConfigureTelemetryResponse)
        → (lock_intent req.intent_id t.intent_locks).0 ≡ false
        → configure_telemetry write_entry delete_entry registry req topo t w ≡ some (resp, (t', w'))
        → t ≡ t'
    unfolding configure_telemetry
    configure_telemetry_refused req topo t t' w w' resp busy h = ground arith

    -- A request with a collection id that is not empty keeps the service consistent: the pool stays
    -- in order and every stored intent keeps a slot for its collection id, whatever the answer is.
    pub configure_telemetry-IsConsistent :
        (req : ConfigureTelemetryRequest) (topo : Topology) (t t' : TelemetryService) (w w' : W)
        (resp : ConfigureTelemetryResponse)
        → (req.collection_id == "") ≡ false
        → IsConsistent t
        → configure_telemetry write_entry delete_entry registry req topo t w ≡ some (resp, (t', w'))
        → IsConsistent t'
    configure_telemetry-IsConsistent req topo t t' w w' resp ne con h =
        elim (Bool-cases (lock_intent req.intent_id t.intent_locks).0) [
          | inr busy ↦
              let same : t ≡ t' = configure_telemetry_refused req topo t t' w w' resp busy h in
              subst IsConsistent same con
          | inl taken ↦
              let free =
                (lock_intent_exclusive req.intent_id req.intent_id t.intent_locks).0.0 taken in
              let locked = record t {
                intent_locks = (lock_intent req.intent_id t.intent_locks).1;
              } in
              let (desired, found, handled) =
                locked_IsHandled req topo locked t' w w' resp
                  (configure_telemetry_locked req topo t t' w w' resp free h) in
              handled.consistent ne (IsConsistent-same t locked refl refl con)
        ]

-- ===== src/Telemetry/Service/Configure.antt =====
-- What ConfigureTelemetry does to the locks, to the intents' states and to the pool.
use k8s_inc.Prelude.{
  String, ◌≡◌, sym, ap, ◌∙◌, subst, ◌≢◌, ◌⊎◌, inl, inr, Bool, true, false, Option, none, some,
  arith, if◌then◌else◌, Option-cases, ℕ_eq, String_eq, same_refl,
}
use k8s_inc.Prelude.Int.{ℤ_eq}
use k8s_inc.Prelude.Maps.{lookup, insert, lookup-insert, lookup-erase}
use k8s_inc.Connector.Entry.{RawTableEntry}
use k8s_inc.Telemetry.ChangeLog.{ChangeLog}
use k8s_inc.Telemetry.Counter.{CounterError}
use k8s_inc.Telemetry.Entities.{TelemetryEntities}
use k8s_inc.Telemetry.Pool.{free}
use k8s_inc.Telemetry.Request.{ConfigureTelemetryRequest}
use k8s_inc.Telemetry.Service.{
  TelemetryState, ConfigureTelemetryResponse, state_ok, state_failed, finish_configure, give_up,
}
use k8s_inc.Telemetry.Service.Apply.{commit, run_commit}
use k8s_inc.Telemetry.Service.Locks.{IntentLocks, unlock_intent, delete_intent_lock}
use k8s_inc.Telemetry.Service.State.{IntentState, TelemetryService}

module _ {W E : Type 0} (write_entry delete_entry : String → RawTableEntry → W → Option E × W) where
  -- a commit changes the counters and the last update only
  pub run_commit_keeps :
      (log : Option ChangeLog) (t t' : TelemetryService) (w w' : W) (r : Option (CounterError E))
      → run_commit write_entry delete_entry log t w ≡ some (r, (t', w'))
      → (t'.intent_locks ≡ t.intent_locks)
        × (t'.intent_state ≡ t.intent_state)
        × (t'.collection_id_pool ≡ t.collection_id_pool)
  run_commit_keeps none t t' w w' r h = ground arith
  run_commit_keeps (some log) t t' w w' r h =
      elim (Option-cases (commit write_entry delete_entry log (t.counters, w))) [
        | inl panics ↦ ground arith
        | inr ((r', (c, w'')), e) ↦ ground arith
      ]

abbrev pub intent_of : ConfigureTelemetryRequest → TelemetryEntities → IntentState
intent_of req desired = record {
  entities = desired;
  collection_id = req.collection_id;
  collector_node_name = req.collector_node_name;
  collector_port = req.collector_port;
}

-- The intent's lock is not held afterwards, and the locks of the others are as before.
abbrev pub IsReleased : String → IntentLocks → IntentLocks → Type 0
IsReleased intent before after =
    (lookup intent after ≢ some true)
    × ((other : String) → intent ≢ other → lookup other after ≡ lookup other before)

-- the two ways in which an answer changes the stored intents
abbrev pub IsStored :
    ConfigureTelemetryRequest
    → TelemetryEntities
    → TelemetryService
    → ConfigureTelemetryResponse
    → TelemetryService
    → Type 0
IsStored req desired t resp t' =
    ((resp.telemetry_state ≡ state_ok)
      × (t'.intent_state ≡ insert req.intent_id (intent_of req desired) t.intent_state))
    ⊎ ((resp.telemetry_state ≡ state_failed) × (t'.intent_state ≡ t.intent_state))

IsReleased-unlock :
    (intent : String) (before after : IntentLocks)
    → unlock_intent intent before ≡ some after
    → IsReleased intent before after
unfolding unlock_intent
IsReleased-unlock intent before after h = elim (Option-cases (lookup intent before)) [
  | inl missing ↦ ground arith
  | inr (false, free) ↦ ground arith
  | inr (true, held) ↦
      let e : insert intent false before ≡ after = ground arith in
      subst (λ l. IsReleased intent before l) e
        (
          ground (arith, lookup-insert intent intent false before, same_refl intent),
          λ other ne.
              ground
                (arith, lookup-insert intent other false before, String_eq.same_iff intent other),
        )
]

IsReleased-delete :
    (intent : String) (locks : IntentLocks)
    → IsReleased intent locks (delete_intent_lock intent locks)
unfolding delete_intent_lock
IsReleased-delete intent locks = (
  ground (arith, lookup-erase intent intent locks, same_refl intent),
  λ other ne. ground (arith, lookup-erase intent other locks, String_eq.same_iff intent other),
)

pub give_up_releases :
    (has_current : Bool) (intent : String) (t t' : TelemetryService)
    → give_up has_current intent t ≡ some t'
    → IsReleased intent t.intent_locks t'.intent_locks
      × (t'.intent_state ≡ t.intent_state)
      × (t'.collection_id_pool ≡ t.collection_id_pool)
unfolding give_up
give_up_releases true intent t t' h = elim (Option-cases (unlock_intent intent t.intent_locks)) [
  | inl fails ↦ ground arith
  | inr (locks, e) ↦
      let same : locks ≡ t'.intent_locks = ground arith in
      (
        subst (λ l. IsReleased intent t.intent_locks l) same
            (IsReleased-unlock intent t.intent_locks locks e),
        ground arith,
        ground arith,
      )
]
give_up_releases false intent t t' h =
    let same : delete_intent_lock intent t.intent_locks ≡ t'.intent_locks = ground arith in
    (
      subst (λ l. IsReleased intent t.intent_locks l) same
          (IsReleased-delete intent t.intent_locks),
      ground arith,
      ground arith,
    )

abbrev pub is_ok_or : TelemetryState → Bool → Bool
is_ok_or state_ok has_current = true
is_ok_or _ has_current = has_current

-- What an answer that went past AllocOrGet has done: the pool is the allocated one, or a failed
-- request of a new intent has left it again.
pub record IsFinished (req : ConfigureTelemetryRequest) (desired : TelemetryEntities)
    (has_current : Bool) (t : TelemetryService) (resp : ConfigureTelemetryResponse)
    (t' : TelemetryService) : Type 0 where
  pub released : IsReleased req.intent_id t.intent_locks t'.intent_locks
  pub stored : IsStored req desired t resp t'
  pub pool_left : t'.collection_id_pool ≡ (
      if is_ok_or resp.telemetry_state has_current
      then t.collection_id_pool
      else free req.intent_id req.collection_id t.collection_id_pool)

module _ {W E : Type 0} (write_entry delete_entry : String → RawTableEntry → W → Option E × W) where
  pub finish_IsFinished :
      (req : ConfigureTelemetryRequest) (desired : TelemetryEntities) (has_current : Bool)
      (log : Option ChangeLog) (t t' : TelemetryService) (w w' : W)
      (resp : ConfigureTelemetryResponse)
      → finish_configure write_entry delete_entry req desired has_current log t w
        ≡ some (resp, (t', w'))
      → IsFinished req desired has_current t resp t'
  unfolding finish_configure
  finish_IsFinished req desired has_current log t t' w w' resp h =
      elim (Option-cases (run_commit write_entry delete_entry log t w)) [
        | inl panics ↦ ground arith
        | inr ((none, (u, w'')), e) ↦
            let (locks_same, state_same, pool_same) =
              run_commit_keeps write_entry delete_entry log t u w w'' none e in
            elim (Option-cases (unlock_intent req.intent_id u.intent_locks)) [
              | inl fails ↦ ground arith
              | inr (locks, unlocked) ↦
                  let same : locks ≡ t'.intent_locks = ground arith in
                  let is_ok : state_ok ≡ resp.telemetry_state = ground arith in
                  record {
                    released =
                        subst (λ l. IsReleased req.intent_id l t'.intent_locks) locks_same
                          (subst (λ l. IsReleased req.intent_id u.intent_locks l) same
                            (IsReleased-unlock req.intent_id u.intent_locks locks unlocked));
                    stored = inl (sym is_ok, ground arith);
                    pool_left = ground arith;
                  }
            ]
        | inr ((some err, (u, w'')), e) ↦
            let (locks_same, state_same, pool_same) =
              run_commit_keeps write_entry delete_entry log t u w w'' (some err) e in
            let pool =
              if has_current
              then u.collection_id_pool
              else free req.intent_id req.collection_id u.collection_id_pool in
            elim (Option-cases
              (give_up has_current req.intent_id (record u { collection_id_pool = pool }))) [
                | inl fails ↦ ground arith
                | inr (v, gave_up) ↦
                    let (rel, st, po) =
                      give_up_releases has_current req.intent_id
                        (record u { collection_id_pool = pool }) v gave_up in
                    let same : v ≡ t' = ground arith in
                    let failed : resp.telemetry_state ≡ state_failed = ground arith in
                    record {
                      released =
                          subst (λ l. IsReleased req.intent_id l t'.intent_locks) locks_same
                            (subst (λ x. IsReleased req.intent_id u.intent_locks x.intent_locks)
                              same rel);
                      stored = inr (failed, ground arith);
                      pool_left = rw failed (
                          sym (ap (λ x. x.collection_id_pool) same)
                          ∙ po
                          ∙ ap
                              (λ p.
                                if has_current then p else free req.intent_id req.collection_id p)
                              pool_same);
                    }
              ]
      ]

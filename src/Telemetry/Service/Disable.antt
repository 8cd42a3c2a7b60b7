-- ===== src/Telemetry/Service/Disable.antt =====
-- DisableTelemetry and the removal that it starts.
use k8s_inc.Prelude.{
  ℕ, String, ◌≡◌, ap, ◌∙◌, subst, ◌≢◌, ◌↔◌, inl, inr, true, false, Option, none, some, arith,
  Option-cases, ℕ_eq, String_eq, same_refl,
}
use k8s_inc.Prelude.Int.{pos, ℤ_eq}
use k8s_inc.Prelude.Maps.{lookup, erase, lookup-insert, lookup-erase}
use k8s_inc.Connector.Entry.{RawTableEntry}
use k8s_inc.Model.Graph.{Topology, topology_to_graph}
use k8s_inc.Telemetry.Counter.{CounterError}
use k8s_inc.Telemetry.Entries.{
  ConfigEntries, get_entries_for_telemetry_entities, make_delete_changelog,
}
use k8s_inc.Telemetry.Pool.{free, get_if_allocated}
use k8s_inc.Telemetry.Pool.Invariant.{free-IsValid}
use k8s_inc.Telemetry.Request.{get_switch_ids}
use k8s_inc.Telemetry.Service.{disable_telemetry, remove_intent, finish_removal}
use k8s_inc.Telemetry.Service.Apply.{commit}
use k8s_inc.Telemetry.Service.Consistent.{IsConsistent, IsConsistent-same, Holds-erase}
use k8s_inc.Telemetry.Service.Locks.{unlock_intent, delete_intent_lock, try_lock_intent_if_exists}
use k8s_inc.Telemetry.Service.State.{
  IntentState, TelemetryService, Counters, create_capability_update,
}

-- A removal is started exactly when the intent's lock is there and free, and then holds it; the
-- caller is told to retry exactly when it is held; an unknown intent is answered at once. Nothing
-- but the intent's own lock changes.
pub disable_telemetry_answers :
    (intent other : String) (t : TelemetryService)
    → let (retry, started, t') = disable_telemetry intent t in
      ((started ≡ true) ↔ (lookup intent t.intent_locks ≡ some false))
      × ((retry ≡ true) ↔ (lookup intent t.intent_locks ≡ some true))
      × (started ≡ true → lookup intent t'.intent_locks ≡ some true)
      × (intent ≢ other → lookup other t'.intent_locks ≡ lookup other t.intent_locks)
      × (t'.intent_state ≡ t.intent_state)
unfolding disable_telemetry try_lock_intent_if_exists
disable_telemetry_answers intent other t = ground (
  arith,
  lookup-insert intent intent true t.intent_locks,
  lookup-insert intent other true t.intent_locks,
  String_eq.same_iff intent other,
  same_refl intent,
)

pub disable_keeps :
    (intent : String) (t : TelemetryService)
    → ((disable_telemetry intent t).2.collection_id_pool ≡ t.collection_id_pool)
      × ((disable_telemetry intent t).2.intent_state ≡ t.intent_state)
unfolding disable_telemetry try_lock_intent_if_exists
disable_keeps intent t = ground arith

module _ {W E : Type 0} (write_entry delete_entry : String → RawTableEntry → W → Option E × W) where
  -- what the commit's result `r` makes of the stored intent
  abbrev pub IsRemoved :
      String → IntentState → Option (CounterError E) → TelemetryService → TelemetryService → Type 0
  IsRemoved intent current none t t' =
      (t'.intent_state ≡ erase intent t.intent_state)
      × (t'.collection_id_pool ≡ free intent current.collection_id t.collection_id_pool)
      × (lookup intent t'.intent_locks ≡ none)
  IsRemoved intent current (some e) t t' =
      (t'.intent_state ≡ t.intent_state)
      × (t'.collection_id_pool ≡ t.collection_id_pool)
      × (lookup intent t'.intent_locks ≡ some false)

  abbrev pub KeepsOthers : String → TelemetryService → TelemetryService → Type 0
  KeepsOthers intent t t' =
      (other : String) → intent ≢ other → lookup other t'.intent_locks ≡ lookup other t.intent_locks

  -- A removal that has run: the entries of the stored intent under its number in the pool, the
  -- commit of their removal with its result, and what the result made of the intent. The counters
  -- and the switches are as the commit left them.
  pub record HasRun (intent : String) (topo : Topology) (current : IntentState)
      (t : TelemetryService) (w : W) (t' : TelemetryService) (w' : W) : Type 0 where
    pub num : ℕ
    pub entries : ConfigEntries
    pub result : Option (CounterError E)
    pub counters : Counters
    pub numbered : get_if_allocated intent current.collection_id t.collection_id_pool ≡ some num
    pub made :
        get_entries_for_telemetry_entities
          (topology_to_graph topo)
          (get_switch_ids topo)
          current.entities
          current.collector_node_name
          current.collector_port
          (pos num)
        ≡ some entries
    pub committed :
        commit write_entry delete_entry (make_delete_changelog entries) (t.counters, w)
        ≡ some (result, (counters, w'))
    pub counters_kept : t'.counters ≡ counters
    pub removed : IsRemoved intent current result t t'
    pub others : KeepsOthers intent t t'

  finish_removal_ends :
      (intent : String) (current : IntentState) (r : Option (CounterError E))
      (t t' : TelemetryService) (w w' : W)
      → finish_removal write_entry delete_entry intent current r t w ≡ some (t', w')
      → IsRemoved intent current r t t'
        × KeepsOthers intent t t'
        × (t'.counters ≡ t.counters)
        × (w ≡ w')
  unfolding finish_removal unlock_intent delete_intent_lock
  finish_removal_ends intent current none t t' w w' h = (
    (
      ground arith,
      ground arith,
      ground (arith, lookup-erase intent intent t.intent_locks, same_refl intent),
    ),
    (λ other ne.
        ground (arith, lookup-erase intent other t.intent_locks, String_eq.same_iff intent other)),
    ground arith,
    ground arith,
  )
  finish_removal_ends intent current (some e) t t' w w' h = (
    (
      ground arith,
      ground arith,
      ground (arith, lookup-insert intent intent false t.intent_locks, same_refl intent),
    ),
    (λ other ne.
        ground (
          arith,
          lookup-insert intent other false t.intent_locks,
          String_eq.same_iff intent other,
        )),
    ground arith,
    ground arith,
  )

  -- the commit touches nothing of what a removal is about
  removed_behind :
      (intent : String) (current : IntentState) (r : Option (CounterError E))
      (t t' : TelemetryService) (c : Counters)
      → IsRemoved intent current r
          (record t { counters = c; last_update = some (create_capability_update c) })
          t'
      → IsRemoved intent current r t t'
  removed_behind intent current none t t' c ends = ends
  removed_behind intent current (some e) t t' c ends = ends

  -- The removal of a stored intent that returns has committed the removal of the entries of the
  -- intent. When the switches took it, the intent is forgotten, has left its collection id and lost
  -- its lock; when the commit returned an error, all three are kept and the lock is released. The
  -- counters and the switches are as the commit left them, and the locks of other intents as they
  -- were.
  pub remove_intent_ends :
      (intent : String) (topo : Topology) (current : IntentState) (t t' : TelemetryService)
      (w w' : W)
      → lookup intent t.intent_state ≡ some current
      → remove_intent write_entry delete_entry intent topo t w ≡ some (t', w')
      → HasRun intent topo current t w t' w'
  unfolding remove_intent commit
  remove_intent_ends intent topo current t t' w w' there h =
      elim (Option-cases (get_if_allocated intent current.collection_id t.collection_id_pool)) [
        | inl panics ↦ ground arith
        | inr (k, at_k) ↦
            elim (Option-cases (
              get_entries_for_telemetry_entities (topology_to_graph topo) (get_switch_ids topo)
                current.entities current.collector_node_name current.collector_port (pos k))) [
                  | inl panics ↦ ground arith
                  | inr (entries, made) ↦
                      elim (Option-cases (
                        commit write_entry delete_entry (make_delete_changelog entries)
                          (t.counters, w))) [
                            | inl panics ↦ ground arith
                            | inr ((r, (c, w'')), ran) ↦
                                let u : TelemetryService = record t {
                                  counters = c;
                                  last_update = some (create_capability_update c);
                                } in
                                let (ends, others, counters, world) =
                                  finish_removal_ends intent current r u t' w'' w'
                                    (rw (there, at_k, made, ran, remove_intent) at h) in
                                record {
                                  num = k;
                                  entries = entries;
                                  result = r;
                                  counters = c;
                                  numbered = at_k;
                                  made = made;
                                  committed = ran ∙ ap (λ x. some (r, (c, x))) world;
                                  counters_kept = counters;
                                  removed = removed_behind intent current r t t' c ends;
                                  others = others;
                                }
                          ]
                ]
      ]

  removed-IsConsistent :
      (intent : String) (current : IntentState) (r : Option (CounterError E))
      (t t' : TelemetryService)
      → IsConsistent t
      → IsRemoved intent current r t t'
      → IsConsistent t'
  removed-IsConsistent intent current (some e) t t' con (states, pool, lock) =
      IsConsistent-same t t' pool states con
  removed-IsConsistent intent current none t t' con (states, pool, lock) =
      IsConsistent-same
        (record t {
          intent_state = erase intent t.intent_state;
          collection_id_pool = free intent current.collection_id t.collection_id_pool;
        })
        t' pool states
        (record {
          pool_valid =
              free-IsValid intent current.collection_id t.collection_id_pool con.pool_valid;
          holds =
              Holds-erase intent current.collection_id t.collection_id_pool t.intent_state
                con.pool_valid con.holds;
        })

  -- A removal that returns keeps the service consistent.
  pub remove_intent-IsConsistent :
      (intent : String) (topo : Topology) (t t' : TelemetryService) (w w' : W)
      → IsConsistent t
      → remove_intent write_entry delete_entry intent topo t w ≡ some (t', w')
      → IsConsistent t'
  unfolding remove_intent
  remove_intent-IsConsistent intent topo t t' w w' con h =
      elim (Option-cases (lookup intent t.intent_state)) [
        | inl absent ↦ let same : t ≡ t' = ground arith in subst IsConsistent same con
        | inr (current, there) ↦
            let run = remove_intent_ends intent topo current t t' w w' there h in
            removed-IsConsistent intent current run.result t t' con run.removed
      ]

-- In a consistent service the panic "should be allocated" is out of reach: the stored intent's
-- collection id has its number.
pub stored_is_allocated :
    (intent : String) (current : IntentState) (t : TelemetryService)
    → IsConsistent t
    → lookup intent t.intent_state ≡ some current
    → (k : ℕ) × (get_if_allocated intent current.collection_id t.collection_id_pool ≡ some k)
stored_is_allocated intent current t con there =
    elim (Option-cases (get_if_allocated intent current.collection_id t.collection_id_pool)) [
      | inl missing ↦ absurd (ground (arith, con.holds intent current there))
      | inr (k, at_k) ↦ (k, at_k)
    ]

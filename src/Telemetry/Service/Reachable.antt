-- ===== src/Telemetry/Service/Reachable.antt =====
-- The calls of the service one after the other, and what holds after any number of them.
use k8s_inc.Prelude.{ℕ, String, ◌≡◌, false, Option, some, ◌==◌, ℕ_eq, String_eq}
use k8s_inc.Connector.Entry.{RawTableEntry}
use k8s_inc.Model.Graph.{Topology}
use k8s_inc.Programs.{Registry}
use k8s_inc.Telemetry.Request.{ConfigureTelemetryRequest}
use k8s_inc.Telemetry.Pool.{get_if_allocated}
use k8s_inc.Telemetry.Service.{
  ConfigureTelemetryResponse, configure_telemetry, disable_telemetry, remove_intent,
}
use k8s_inc.Telemetry.Service.Answers.{configure_telemetry-IsConsistent}
use k8s_inc.Telemetry.Service.Consistent.{
  IsConsistent, IsConsistent-same, new_service-IsConsistent, init_devices-IsConsistent,
}
use k8s_inc.Telemetry.Service.Disable.{
  disable_keeps, remove_intent-IsConsistent, stored_is_allocated,
}
use k8s_inc.Telemetry.Service.State.{TelemetryService, new_service, init_devices, IntentState}
use k8s_inc.Prelude.Maps.{lookup}

module _ {ℓ} {W E : Type 0} {D : Type ℓ}
    (write_entry delete_entry : String → RawTableEntry → W → Option E × W)
    (registry : Registry D) where
  -- One call. A request has a collection id that is not empty; the removal of an intent, which
  -- runs in the background, may come at any time.
  pub data Step : TelemetryService → W → TelemetryService → W → Type ℓ where
    initializes :
        (topo : Topology) (t : TelemetryService) (w : W) → Step t w (init_devices topo t) w
    configures :
        (req : ConfigureTelemetryRequest) (topo : Topology) (t t' : TelemetryService) (w w' : W)
        (resp : ConfigureTelemetryResponse)
        → (req.collection_id == "") ≡ false
        → configure_telemetry write_entry delete_entry registry req topo t w ≡ some (resp, (t', w'))
        → Step t w t' w'
    disables :
        (intent : String) (t : TelemetryService) (w : W) → Step t w (disable_telemetry intent t).2 w
    removes :
        (intent : String) (topo : Topology) (t t' : TelemetryService) (w w' : W)
        → remove_intent write_entry delete_entry intent topo t w ≡ some (t', w')
        → Step t w t' w'

  pub data Reachable (w₀ : W) : TelemetryService → W → Type ℓ where
    initial : Reachable w₀ new_service w₀
    then_step :
        (t t' : TelemetryService) (w w' : W)
        → Reachable w₀ t w
        → Step t w t' w'
        → Reachable w₀ t' w'

  step-IsConsistent :
      (t t' : TelemetryService) (w w' : W) → Step t w t' w' → IsConsistent t → IsConsistent t'
  step-IsConsistent _ _ _ _ (configures req topo t t' w w' resp ne h) con =
      configure_telemetry-IsConsistent write_entry delete_entry registry req topo t t' w w' resp ne
        con h
  step-IsConsistent _ _ _ _ (initializes topo t w) con = init_devices-IsConsistent topo t con
  step-IsConsistent _ _ _ _ (disables intent t w) con =
      IsConsistent-same t (disable_telemetry intent t).2 (disable_keeps intent t).0
        (disable_keeps intent t).1 con
  step-IsConsistent _ _ _ _ (removes intent topo t t' w w' h) con =
      remove_intent-IsConsistent write_entry delete_entry intent topo t t' w w' con h

  Reachable-IsConsistent : (w₀ w : W) (t : TelemetryService) → Reachable w₀ t w → IsConsistent t
  Reachable-IsConsistent w₀ _ _ initial = new_service-IsConsistent
  Reachable-IsConsistent w₀ _ _ (then_step t₀ t w' w r s) =
      step-IsConsistent t₀ t w' w s (Reachable-IsConsistent w₀ w' t₀ r)

  -- After any sequence of calls whose requests have collection ids that are not empty, every intent that the service stores has the number of its
  -- collection id in the pool, so the removal never panics with "should be allocated".
  pub Reachable-is_allocated :
      (w₀ w : W) (t : TelemetryService) (intent : String) (current : IntentState)
      → Reachable w₀ t w
      → lookup intent t.intent_state ≡ some current
      → (k : ℕ) × (get_if_allocated intent current.collection_id t.collection_id_pool ≡ some k)
  Reachable-is_allocated w₀ w t intent current r there =
      stored_is_allocated intent current t (Reachable-IsConsistent w₀ w t r) there

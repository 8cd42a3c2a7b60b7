-- ===== src/Telemetry/Service/Rollback/Tests.antt =====
-- A change log of three actions on switches that take one entry and refuse the next one.
use k8s_inc.Prelude.{ℕ, zero, suc, ◌-◌, String, Option, none, some, List, [], ◌∷◌, ℕ_eq, String_eq}
use k8s_inc.Prelude.Int.{pos, negsuc, ℤ_eq}
use k8s_inc.Connector.Entry.{RawTableEntry}
use k8s_inc.Telemetry.ChangeLog.{
  ChangeLog, StateChangeAction, CounterName, new_create_action, transit_state_counter, rollback,
  undone,
}
use k8s_inc.Telemetry.ChangeLog
use k8s_inc.Telemetry.Config.{configure_transit_key, transit}
use k8s_inc.Telemetry.Counter.{CounterError}
use k8s_inc.Telemetry.Sample.{topology}
use k8s_inc.Telemetry.Service.Apply.{apply_change}
use k8s_inc.Telemetry.Service.State.{
  Counters, TelemetryService, new_service, init_devices, counter_of,
}

abbrev started : TelemetryService
started = init_devices topology new_service

abbrev write_one : String → RawTableEntry → ℕ → Option String × ℕ
write_one device entry zero = (none, 1)
write_one device entry (suc n) = (some "full", suc n)

abbrev delete_one : String → RawTableEntry → ℕ → Option String × ℕ
delete_one device entry n = (none, n - 1)

abbrev create : String → StateChangeAction
create device =
    new_create_action device configure_transit_key (transit (pos 1) (pos 1500))
      transit_state_counter

-- the second action only counts, and the third one is refused
abbrev log : ChangeLog
log = record { actions = create "s1" ∷ create "s1" ∷ create "s2" ∷ []; done_counter = negsuc 0 }

abbrev apply_one :
    StateChangeAction
    → Counters × ℕ
    → k8s_inc.Prelude.Result.Result (CounterError String) (Unit {0}) × (Counters × ℕ)
apply_one = apply_change write_one delete_one

-- ===== src/Telemetry/Entries/Tests.antt =====
-- The change logs of a few entries.
use k8s_inc.Prelude.{◌≡◌, List, [], ◌∷◌, ◌++◌, map, ℕ_eq, String_eq}
use k8s_inc.Prelude.Int.{pos, ℤ_eq}
use k8s_inc.Telemetry.ChangeLog.{reverse_action, sink_state_counter, transit_state_counter}
use k8s_inc.Telemetry.Config.{configure_transit_key, configure_sink_key, transit, configure_sink}
use k8s_inc.Telemetry.Entries.{
  ConfigEntry, ConfigEntries, make_apply_changelog, make_delete_changelog,
}
use k8s_inc.Telemetry.Entries.Order.{creates, changelogs_mirror}

abbrev sinks : List ConfigEntry
sinks =
    record {
      device_name = "s3";
      key = configure_sink_key (pos 1);
      entry = configure_sink (pos 1) (pos 2);
    }
    ∷ []

abbrev transits : List ConfigEntry
transits =
    record { device_name = "s2"; key = configure_transit_key; entry = transit (pos 1) (pos 1500) }
    ∷ []

abbrev entries : ConfigEntries
entries = record {
  activate_source_entries = [];
  configure_source_entries = [];
  configure_transit_entries = transits;
  configure_sink_entries = sinks;
  configure_reporting_entry = [];
}

changelogs_mirror_example :
    ((make_apply_changelog entries).actions
      ≡ ((creates sink_state_counter sinks ++ []) ++ creates transit_state_counter transits)
        ++ []
        ++ [])
    × ((make_delete_changelog entries).actions
        ≡ ((([] ++ []) ++ map reverse_action (creates transit_state_counter transits)) ++ [])
          ++ map reverse_action (creates sink_state_counter sinks))
changelogs_mirror_example = changelogs_mirror entries

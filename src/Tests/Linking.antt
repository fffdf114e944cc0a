-- ===== src/Tests/Linking.antt =====
-- Witnesses for the linkers.
use oseye_plateforme.Prelude.{◌+◌, ◌≤◌, ◌≡◌, refl, some, [], ◌∷◌, String, str_dec}
use oseye_plateforme.Prelude.Floats.{thousandths}
use oseye_plateforme.Correlation.{
  medium, high, severity_order, Alert, Incident, linked, link_alert, process_alert, settle, choose,
  try_incidents, try_linkers, consider,
}
use oseye_plateforme.Correlation.Linkers.{
  installed, same_host_score, same_host_bonus, temporal_score, temporal_base, temporal_bonus,
  pid_lineage_score, names_entity, user_activity_score, capped_bonus, matches_process,
  names_process, overlap, distinct, holds, starts_with,
}
use oseye_plateforme.Correlation.Linkers.Hosts.{process_alert_same_host}

abbrev alert : Alert
alert = record {
  alert_id = 7;
  created_at = 90;
  severity = high;
  title = "reverse shell";
  hostname = "host-1";
  process_name = "nc";
  entity_id = "host-1:77";
  pid = some 77;
  mitre_techniques = "T1059" ∷ [];
}

abbrev open_incident : Incident
open_incident = record {
  incident_id = 1;
  hostname = "host-1";
  severity = medium;
  created_at = 10;
  updated_at = 60;
  alert_ids = 3 ∷ [];
  timeline = [];
  alert_count = 1;
  mitre_tactics = [];
  timeframe_seconds = 300;
}

abbrev base_name : String → String
base_name s = s

is_linked :
    process_alert thousandths medium
      (installed thousandths base_name 100 300)
      100
      9
      300
      (open_incident ∷ [])
      alert
    ≡ linked (link_alert 100 alert open_incident)
unfolding process_alert settle choose try_incidents try_linkers consider installed same_host_score
    same_host_bonus temporal_score temporal_base temporal_bonus pid_lineage_score names_entity
    user_activity_score capped_bonus matches_process names_process overlap distinct holds
    starts_with str_dec
is_linked = refl

process_alert_same_host_example :
    (i : Incident) × (link_alert 100 alert open_incident ≡ link_alert 100 alert i)
    × (alert.hostname ≡ i.hostname)
    × (100 ≤ i.updated_at + 300)
    × (severity_order medium ≤ severity_order alert.severity)
process_alert_same_host_example =
    process_alert_same_host thousandths base_name 100 300 alert medium 9 300 (open_incident ∷ [])
      (link_alert 100 alert open_incident) is_linked

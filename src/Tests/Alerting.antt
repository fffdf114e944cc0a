-- ===== src/Tests/Alerting.antt =====
-- Alerts of server/oseye/workers/rule_worker.py.
use oseye_plateforme.Prelude.{
  ℕ, ◌*◌, ◌≡◌, refl, true, none, some, List, [], ◌∷◌, map, String, text_pair_dec, str_dec,
}
use oseye_plateforme.Workers.Rules.{
  Match, Event, Alert, Moment, Input, evaluated, run_events, fresh_worker, process_event,
  handle_matches, handle_match, create_alert, fire, store_alert, announce, send, send_addresses,
  new_alert, alert_severity, severity_for, parse_severity, cap_severity,
}
use oseye_plateforme.Workers.Rules.Cooldown.{IsApart, run_events-IsApart}
use oseye_plateforme.Workers.Rules.Audit.{IsAudited, run_events-IsAudited}

-- One process to a host.
abbrev entity : String → ℕ → String
entity hostname pid = hostname

abbrev match : String → String → Match
match rule_type severity = record {
  rule_id = rule_type;
  rule_name = "outbound";
  severity = severity;
  actions = "ALERT" ∷ [];
  mitre = [];
  explanation = "";
  rule_type = rule_type;
}

abbrev event : Event
event = record {
  event_id = 1;
  hostname = "host-1";
  pid = 77;
  process_name = "nc";
  src_ip = none;
  dst_ip = some "203.0.113.9";
}

abbrev at : ℕ → ℕ → Moment
at seconds uuid = record {
  now = seconds * 1000000;
  uuid = uuid;
  match_published = true;
  alert_stored = true;
  alert_published = true;
  enrichment_published = true;
}

-- The second match of the rule comes half a minute after the first one.
abbrev inputs : List (Input entity)
inputs =
    evaluated event
      ((match "anomaly" "high", at 100 5) ∷ (match "surveillance" "critical", at 100 6) ∷ [])
    ∷ evaluated event ((match "anomaly" "high", at 130 7) ∷ [])
    ∷ evaluated event ((match "anomaly" "info", at 160 8) ∷ [])
    ∷ []

stored_ids :
    map (λ (a : Alert). a.alert_id) (run_events entity inputs fresh_worker).alerts ≡ 8 ∷ 6 ∷ 5 ∷ []
unfolding run_events process_event handle_matches handle_match create_alert fire store_alert
    announce send send_addresses new_alert alert_severity severity_for parse_severity cap_severity
    str_dec text_pair_dec
stored_ids = refl

run_events-IsApart_example : IsApart (run_events entity inputs fresh_worker).alerts
run_events-IsApart_example = run_events-IsApart entity inputs

run_events-IsAudited_example : IsAudited (run_events entity inputs fresh_worker)
run_events-IsAudited_example = run_events-IsAudited entity inputs

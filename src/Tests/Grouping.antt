-- ===== src/Tests/Grouping.antt =====
-- Alerts through server/oseye/workers/correlation_worker.py and the tables of incidents.
use oseye_plateforme.Prelude.{ℕ, ◌-◌, ◌≡◌, refl, true, false, none, some, List, [], ◌∷◌, str_dec}
use oseye_plateforme.Prelude.Floats.{thousandths}
use oseye_plateforme.Correlation.{Severity, medium, high, critical, Alert, Linker, process_alert}
use oseye_plateforme.Correlation.Incidents.{
  Tables, Request, correlates, closes_stale, find_open, serve_all, no_incidents,
}
use oseye_plateforme.Correlation.Incidents.Consistent.{IsConsistent}
use oseye_plateforme.Correlation.Incidents.Reads.{serve_all-IsConsistent}
use oseye_plateforme.Decision.Worker.{fetched, fetch_failed}
use oseye_plateforme.Workers.Correlate.{Stored, Answers, alert_of, load_alert, process}
use oseye_plateforme.Workers.Correlate.Announced.{news, process_reached}

abbrev alert : ℕ → Severity → Alert
alert id severity = record {
  alert_id = id;
  created_at = 90;
  severity = severity;
  title = "reverse shell";
  hostname = "host-1";
  process_name = "nc";
  entity_id = "host-1:77";
  pid = some 77;
  mitre_techniques = "T1059" ∷ [];
}

-- Half a point for every incident.
abbrev flat : Linker thousandths
flat = record { score = λ _ _. 500; has_max_severity = true }

-- The second alert joins the incident of the first one; its update fails.
abbrev requests : List (Request thousandths medium (flat ∷ []) 300 1800)
requests =
    correlates 1000 1 (record { adds = true; updates = true; creates = true }) (alert 5 medium)
    ∷ correlates 1010 2 (record { adds = true; updates = false; creates = true }) (alert 6 high)
    ∷ correlates 1020 3 (record { adds = true; updates = true; creates = true }) (alert 6 high)
    ∷ closes_stale 2000
    ∷ []

serve_all-IsConsistent_example :
    IsConsistent (serve_all thousandths medium (flat ∷ []) 300 1800 requests no_incidents)
serve_all-IsConsistent_example =
    serve_all-IsConsistent thousandths medium (flat ∷ []) 300 1800 requests

abbrev tables : Tables
tables = serve_all thousandths medium (flat ∷ []) 300 1800 requests no_incidents

-- A critical alert that no incident has yet.
abbrev stored : Stored
stored = record { alert = alert 9 critical; incident_chain_id = none }

abbrev answers : Answers
answers = record {
  parse_uuid = λ text. some 9;
  get_alert = λ id. fetched (some stored);
  get_incident = λ id. fetch_failed;
  find_open = λ hostname. some (find_open hostname (1030 - 300) tables);
  incident_written = true;
  alert_updated = true;
  published = true;
  now = 1030;
  uuid = 4;
}

process_reached_example :
    (process thousandths medium (flat ∷ []) 300 answers (alert_of "9") 0 0).sent
    ≡ news "9" (
        process_alert thousandths medium
          (flat ∷ [])
          1030
          4
          300
          (find_open "host-1" (1030 - 300) tables)
          (alert 9 critical))
unfolding load_alert str_dec
process_reached_example =
    process_reached thousandths medium (flat ∷ []) 300 1800 requests answers "9" stored 0 0 refl
      refl refl refl refl refl

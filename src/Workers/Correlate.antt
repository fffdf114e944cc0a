-- ===== src/Workers/Correlate.antt =====
-- CorrelationWorker of server/oseye/workers/correlation_worker.py, around `process_alert` of
-- server/oseye/correlation/engine.py.
pub mod Announced
use oseye_plateforme.Prelude.{
  ℕ, ◌+◌, ite, Bool, true, false, ◌||◌, Option, none, some, List, String, ltb, ◌==◌, if◌then◌else◌,
  str_dec,
}
use oseye_plateforme.Prelude.Floats.{Floats}
use oseye_plateforme.Correlation.{
  Severity, severity_order, Alert, Incident, Processed, ignored, linked, created, failed, Linker,
  process_alert,
}
use oseye_plateforme.Decision.Worker.{Fetched, fetch_failed, fetched, or_none}

-- What `json.loads` gives: no dictionary, or one with the text of `alert_id`.
pub data Payload : Type 0 where
  no_dict : Payload
  alert_of : String → Payload

-- A row of alerts: the alert and its `incident_chain_id`.
pub record Stored : Type 0 where
  pub alert : Alert
  pub incident_chain_id : Option ℕ

-- What the repositories and the bus answer while one message is handled. `none` of `parse_uuid`
-- is a `ValueError`, and `none` of `find_open` an exception of the query.
pub record Answers : Type 0 where
  pub parse_uuid : String → Option ℕ
  pub get_alert : ℕ → Fetched Stored
  pub get_incident : ℕ → Fetched Incident
  pub find_open : String → Option (List Incident)
  pub incident_written : Bool
  pub alert_updated : Bool
  pub published : Bool
  pub now : ℕ
  pub uuid : ℕ

-- The counts, the chain identifier written to an alert, what was published, and whether an
-- exception left `_process`.
pub record Round : Type 0 where
  pub total_processed : ℕ
  pub total_correlated : ℕ
  pub stamped : Option (ℕ × ℕ)
  pub sent : Option (ℕ × String)
  pub escaped : Bool

-- A round that does nothing more.
unfoldable pub quiet : ℕ → ℕ → Round
quiet processed correlated = record {
  total_processed = processed;
  total_correlated = correlated;
  stamped = none;
  sent = none;
  escaped = false;
}

-- `process_alert` with its calls of the database; the outer `none` is an exception.
unfoldable pub outcome : Bool → Processed → Option (Option Incident)
outcome written ignored = some none
outcome written (linked i) = if written then some (some i) else none
outcome written (created i) = if written then some (some i) else none
outcome written (failed i) = none

-- The severity of the incident of the alert's chain before the call, if it can be read.
unfoldable pub severity_before : Answers → Option ℕ → Option Severity
severity_before answers none = none
severity_before answers (some id) = elim (or_none (answers.get_incident id)) [
  | none ↦ none
  | some i ↦ some i.severity
]

unfoldable pub severity_escalated : Option Severity → Severity → Bool
severity_escalated none after = false
severity_escalated (some before) after = ltb (severity_order before) (severity_order after)

unfoldable pub has_chain : Option ℕ → ℕ → Bool
has_chain none id = false
has_chain (some c) id = c == id

-- From the publication on.
unfoldable pub notify : Answers → String → Option Severity → Incident → Round → Round
unfolding severity_escalated
notify answers text before i r =
    if i.alert_count == 1 || severity_escalated before i.severity
    then if answers.published then record r { sent = some (i.incident_id, text) } else r
    else r

-- From the result of the engine on.
unfoldable pub after_engine :
    Answers → String → Stored → Option Severity → Option (Option Incident) → ℕ → ℕ → Round
unfolding quiet has_chain notify
after_engine answers text s before none processed correlated = quiet processed correlated
after_engine answers text s before (some none) processed correlated = quiet processed correlated
after_engine answers text s before (some (some i)) processed correlated =
    if has_chain s.incident_chain_id i.incident_id
    then notify answers text before i (quiet processed (correlated + 1))
    else if answers.alert_updated
    then notify answers text before i (record (quiet processed (correlated + 1)) {
      stamped = some (s.alert.alert_id, i.incident_id);
    })
    else quiet processed (correlated + 1)

module _ (f : Floats) (min_severity : Severity) (linkers : List (Linker f))
    (max_timeframe : ℕ) where
  -- The call of `process_alert`; a failing query does not matter to an alert that is ignored.
  unfoldable pub run_engine : Answers → Alert → Option (List Incident) → Option (Option Incident)
  unfolding outcome
  run_engine answers alert none =
      if ltb (severity_order alert.severity) (severity_order min_severity) then some none else none
  run_engine answers alert (some candidates) =
      outcome answers.incident_written (
        process_alert f min_severity linkers answers.now answers.uuid max_timeframe candidates
          alert)

  unfoldable pub process_stored : Answers → String → Stored → ℕ → ℕ → Round
  unfolding run_engine after_engine severity_before
  process_stored answers text s processed correlated =
      after_engine answers text s (severity_before answers s.incident_chain_id)
        (run_engine answers s.alert (answers.find_open s.alert.hostname)) (processed + 1) correlated

  -- The alert of the message; `none` for a failing read and a missing row alike.
  unfoldable pub load_alert : Answers → String → Option Stored
  load_alert answers text =
      ite (str_dec text "") none
        (elim (answers.parse_uuid text) [ none ↦ none | some id ↦ or_none (answers.get_alert id) ])

  -- `_process`, from the two counts on.
  unfoldable pub process : Answers → Payload → ℕ → ℕ → Round
  unfolding quiet load_alert process_stored
  process answers no_dict processed correlated = record (quiet processed correlated) {
    escaped = true;
  }
  process answers (alert_of text) processed correlated = elim (load_alert answers text) [
    | none ↦ quiet processed correlated
    | some s ↦ process_stored answers text s processed correlated
  ]

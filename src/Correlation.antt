-- ===== src/Correlation.antt =====
-- CorrelationEngine of server/oseye/correlation/engine.py: an alert joins the open incident of its
-- host that a linker scores best, or opens a new one. A linker is its scoring function and
-- whether it has `max_severity`; the open incidents, which the repository returns, the clock and the fresh identifier are arguments.
pub mod Choice
pub mod Candidates
pub mod Linkers
pub mod Incidents
use oseye_plateforme.Prelude.{
  ℕ, ◌+◌, Bool, Option, none, some, List, [], ◌∷◌, ◌++◌, String, ltb, leb, ◌==◌, if◌then◌else◌,
  str_dec, take, any, elem,
}
use oseye_plateforme.Prelude.Floats.{Floats, ltb as float_ltb}

pub data Severity : Type 0 where
  low medium high critical : Severity

-- `_SEVERITY_ORDER`
abbrev pub severity_order : Severity → ℕ
severity_order low = 0
severity_order medium = 1
severity_order high = 2
severity_order critical = 3

-- `max_severity` of SameHostLinker, the one linker that has it
unfoldable pub max_severity : Severity → Severity → Severity
max_severity current new =
    if leb (severity_order new) (severity_order current) then current else new

pub record Alert : Type 0 where
  pub alert_id : ℕ
  pub created_at : ℕ
  pub severity : Severity
  pub title : String
  pub hostname : String
  pub process_name : String
  pub entity_id : String
  pub pid : Option ℕ
  pub mitre_techniques : List String

-- An entry of an incident's timeline.
pub record IncidentEvent : Type 0 where
  pub alert_id : ℕ
  pub timestamp : ℕ
  pub severity : Severity
  pub title : String
  pub hostname : String
  pub mitre_techniques : List String

unfoldable pub event_of : Alert → IncidentEvent
event_of alert = record {
  alert_id = alert.alert_id;
  timestamp = alert.created_at;
  severity = alert.severity;
  title = alert.title;
  hostname = alert.hostname;
  mitre_techniques = alert.mitre_techniques;
}

pub record Incident : Type 0 where
  pub incident_id : ℕ
  pub hostname : String
  pub severity : Severity
  pub created_at : ℕ
  pub updated_at : ℕ
  pub alert_ids : List ℕ
  pub timeline : List IncidentEvent
  pub alert_count : ℕ
  pub mitre_tactics : List String
  pub timeframe_seconds : ℕ

abbrev pub max_candidates : ℕ
max_candidates = 50

-- The techniques that are not listed yet go to the end.
unfoldable pub add_techniques : List String → List String → List String
add_techniques [] tactics = tactics
add_techniques (t ∷ ts) tactics =
    add_techniques ts (if elem str_dec t tactics then tactics else tactics ++ t ∷ [])

unfoldable pub add_alert_id : ℕ → List ℕ → List ℕ
add_alert_id id ids = if any (λ i. i == id) ids then ids else ids ++ id ∷ []

-- What linking an alert makes of the incident.
unfoldable pub link_alert : ℕ → Alert → Incident → Incident
unfolding add_techniques add_alert_id max_severity
link_alert now alert incident = record incident {
  severity = max_severity incident.severity alert.severity;
  updated_at = now;
  alert_count = incident.alert_count + 1;
  alert_ids = add_alert_id alert.alert_id incident.alert_ids;
  mitre_tactics = add_techniques alert.mitre_techniques incident.mitre_tactics;
}

unfoldable pub new_incident : ℕ → ℕ → ℕ → Alert → Incident
new_incident now uuid max_timeframe alert = record {
  incident_id = uuid;
  hostname = alert.hostname;
  severity = alert.severity;
  created_at = now;
  updated_at = now;
  alert_ids = alert.alert_id ∷ [];
  timeline = event_of alert ∷ [];
  alert_count = 1;
  mitre_tactics = alert.mitre_techniques;
  timeframe_seconds = max_timeframe;
}

-- What `process_alert` does: nothing, an update, a new incident, or an `AttributeError` after the
-- alert's row was added to an incident.
pub data Processed : Type 0 where
  ignored : Processed
  linked : Incident → Processed
  created : Incident → Processed
  failed : Incident → Processed

module _ (f : Floats) where
  open f use {Float, lit, sub}

  pub record Linker : Type 0 where
    pub score : Alert → Incident → Float
    pub has_max_severity : Bool

  -- The best score so far, with its incident and linker; it starts at -1 with none.
  pub record Best : Type 0 where
    pub best_score : Float
    pub best_match : Option (Incident × Linker)

  abbrev pub nothing_found : Best
  nothing_found = record { best_score = sub (lit 0) (lit 1); best_match = none }

  unfoldable pub consider : Alert → Incident → Linker → Best → Best
  consider alert incident linker best =
      if float_ltb f best.best_score (linker.score alert incident)
      then record { best_score = linker.score alert incident; best_match = some (incident, linker) }
      else best

  unfoldable pub try_linkers : Alert → Incident → List Linker → Best → Best
  try_linkers alert incident [] best = best
  try_linkers alert incident (l ∷ ls) best =
      try_linkers alert incident ls (consider alert incident l best)

  -- The two loops over the candidates and the linkers.
  unfoldable pub try_incidents : Alert → List Incident → List Linker → Best → Best
  try_incidents alert [] ls best = best
  try_incidents alert (i ∷ is) ls best = try_incidents alert is ls (try_linkers alert i ls best)

  -- The incident to link to, if its score is positive.
  unfoldable pub choose : Best → Option (Incident × Linker)
  choose best = if float_ltb f (lit 0) best.best_score then best.best_match else none

  unfoldable pub settle : ℕ → ℕ → ℕ → Alert → Option (Incident × Linker) → Processed
  settle now uuid max_timeframe alert none = created (new_incident now uuid max_timeframe alert)
  settle now uuid max_timeframe alert (some (incident, linker)) =
      if linker.has_max_severity then linked (link_alert now alert incident) else failed incident

  -- `process_alert`, with the open incidents of the host.
  unfoldable pub process_alert :
      Severity → List Linker → ℕ → ℕ → ℕ → List Incident → Alert → Processed
  process_alert min_severity linkers now uuid max_timeframe candidates alert =
      if ltb (severity_order alert.severity) (severity_order min_severity)
      then ignored
      else settle now uuid max_timeframe alert
          (choose (try_incidents alert (take max_candidates candidates) linkers nothing_found))

-- ===== src/Correlation/Incidents.antt =====
-- SQLIncidentRepository of server/oseye/storage/repositories/incidents.py: the two tables, and
-- `process_alert` and `close_stale_incidents` of server/oseye/correlation/engine.py over them. Each
-- transaction is one step, and may fail by itself.
pub mod Columns
pub mod Consistent
pub mod Served
pub mod Sequence
pub mod Reads
use oseye_plateforme.Prelude.{
  ℕ, ◌-◌, ite, Bool, true, false, not, ◌&&◌, Option, none, some, List, [], ◌∷◌, ◌++◌, map, String,
  ltb, leb, ◌==◌, if◌then◌else◌, str_dec, length, take, keep, any, Dict, lookup, contains, insert,
  ℕ_discrete,
}
use oseye_plateforme.Prelude.Floats.{Floats}
use oseye_plateforme.Correlation.{
  Severity, Alert, IncidentEvent, event_of, Incident, add_alert_id, Processed, ignored, linked,
  created, failed, Linker, process_alert,
}

-- IncidentRow: its columns as an incident without timeline, and whether its status is "open".
pub record IncidentRow : Type 0 where
  pub incident : Incident
  pub is_open : Bool

-- IncidentAlertRow
pub record IncidentAlertRow : Type 0 where
  pub incident_id : ℕ
  pub event : IncidentEvent

pub record Tables : Type 0 where
  pub incidents : Dict ℕ IncidentRow
  pub incident_alerts : List IncidentAlertRow

-- `_load_alerts`
abbrev pub load_alerts : ℕ → List IncidentAlertRow → List IncidentAlertRow
load_alerts id = keep (λ r. r.incident_id == id)

-- A stable sort by `added_at`
unfoldable pub add_sorted : IncidentEvent → List IncidentEvent → List IncidentEvent
add_sorted e [] = e ∷ []
add_sorted e (x ∷ xs) = if leb e.timestamp x.timestamp then e ∷ x ∷ xs else x ∷ add_sorted e xs

unfoldable pub sort_events : List IncidentAlertRow → List IncidentEvent
unfolding add_sorted
sort_events [] = []
sort_events (r ∷ rs) = add_sorted r.event (sort_events rs)

-- `_to_domain`
unfoldable pub to_domain : List IncidentAlertRow → IncidentRow → Incident
unfolding sort_events
to_domain alerts row = record row.incident {
  timeline = sort_events (load_alerts row.incident.incident_id alerts);
}

-- `_to_row`, of a new incident
abbrev pub to_row : Incident → IncidentRow
to_row i = record { incident = record i { timeline = [] }; is_open = true }

-- The column `alert_id` is unique.
abbrev pub is_taken : ℕ → List IncidentAlertRow → Bool
is_taken id = any (λ r. r.event.alert_id == id)

unfoldable pub add_rows :
    ℕ → List IncidentEvent → List IncidentAlertRow → Option (List IncidentAlertRow)
add_rows id [] alerts = some alerts
add_rows id (e ∷ es) alerts =
    let rest = add_rows id es (alerts ++ record { incident_id = id; event = e } ∷ []) in
    if is_taken e.alert_id alerts then none else rest

-- `create`; `none` is an exception, after which the tables are as before.
unfoldable pub create : Incident → Tables → Option Tables
unfolding add_rows
create i t =
    if contains ℕ_discrete i.incident_id t.incidents
    then none
    else elim (add_rows i.incident_id i.timeline t.incident_alerts) [
      | none ↦ none
      | some alerts ↦ some (record {
        incidents = insert ℕ_discrete i.incident_id (to_row i) t.incidents;
        incident_alerts = alerts;
      })
    ]

-- `get`
unfoldable pub get : ℕ → Tables → Option Incident
unfolding to_domain
get id t = elim (lookup ℕ_discrete id t.incidents) [
  | none ↦ none
  | some row ↦ some (to_domain t.incident_alerts row)
]

-- The row after `update`: all columns but the time of creation.
unfoldable pub updated : Incident → IncidentRow → IncidentRow
updated i row = record {
  incident = record i { created_at = row.incident.created_at; timeline = [] };
  is_open = true;
}

-- `update` of an incident that was read as open
unfoldable pub update : Incident → Tables → Option Tables
unfolding updated
update i t = elim (lookup ℕ_discrete i.incident_id t.incidents) [
  | none ↦ none
  | some row ↦
      some (record t { incidents = insert ℕ_discrete i.incident_id (updated i row) t.incidents })
]

-- The row after `add_alert`: the list of alerts and their number.
unfoldable pub with_alert : ℕ → IncidentRow → IncidentRow
unfolding add_alert_id
with_alert alert_id row = record row {
  incident = record row.incident {
    alert_ids = add_alert_id alert_id row.incident.alert_ids;
    alert_count = length (add_alert_id alert_id row.incident.alert_ids);
  };
}

-- `add_alert`
unfoldable pub add_alert : ℕ → IncidentEvent → Tables → Option Tables
unfolding with_alert
add_alert id e t =
    if is_taken e.alert_id t.incident_alerts
    then none
    else elim (lookup ℕ_discrete id t.incidents) [
      | none ↦ none
      | some row ↦ some (record {
        incidents = insert ℕ_discrete id (with_alert e.alert_id row) t.incidents;
        incident_alerts = t.incident_alerts ++ record { incident_id = id; event = e } ∷ [];
      })
    ]

-- The rows of a host that are open and were created since a time, newest first
abbrev pub is_candidate : String → ℕ → ℕ × IncidentRow → Bool
is_candidate hostname since e =
    ite (str_dec e.1.incident.hostname hostname) true false
    && e.1.is_open
    && leb since e.1.incident.created_at

unfoldable pub add_newest : ℕ × IncidentRow → Dict ℕ IncidentRow → Dict ℕ IncidentRow
add_newest e [] = e ∷ []
add_newest e (x ∷ xs) =
    if leb x.1.incident.created_at e.1.incident.created_at then e ∷ x ∷ xs else x ∷ add_newest e xs

unfoldable pub newest_first : Dict ℕ IncidentRow → Dict ℕ IncidentRow
unfolding add_newest
newest_first [] = []
newest_first (e ∷ es) = add_newest e (newest_first es)

abbrev pub max_open : ℕ
max_open = 20

-- `find_open_incidents_for_host`
unfoldable pub find_open : String → ℕ → Tables → List Incident
unfolding newest_first to_domain
find_open hostname since t =
    map (λ (e : ℕ × IncidentRow). to_domain t.incident_alerts e.1)
      (take max_open (newest_first (keep (is_candidate hostname since) t.incidents)))

-- `close_stale`
unfoldable pub close_row : ℕ → IncidentRow → IncidentRow
close_row cutoff row =
    if row.is_open && ltb row.incident.updated_at cutoff
    then record row { is_open = false }
    else row

unfoldable pub close_rows : ℕ → Dict ℕ IncidentRow → Dict ℕ IncidentRow
unfolding close_row
close_rows cutoff [] = []
close_rows cutoff ((id, row) ∷ rows) = (id, close_row cutoff row) ∷ close_rows cutoff rows

abbrev pub or_same : Option Tables → Tables → Tables
or_same none t = t
or_same (some t') t = t'

-- Which of the transactions of `process_alert` the database takes.
pub record Works : Type 0 where
  pub adds : Bool
  pub updates : Bool
  pub creates : Bool

-- `add_alert`, and then `update` where an incident was linked.
unfoldable pub write_linked : Works → Alert → Incident → Tables → Tables
unfolding add_alert update
write_linked w alert i t =
    if not w.adds then t else elim (add_alert i.incident_id (event_of alert) t) [
      | none ↦ t
      | some t' ↦ if w.updates then or_same (update i t') t' else t'
    ]

-- The writes of `process_alert`, by its outcome.
unfoldable pub write : Works → Alert → Processed → Tables → Tables
unfolding write_linked create
write w alert ignored t = t
write w alert (linked i) t = write_linked w alert i t
write w alert (failed i) t =
    if w.adds then or_same (add_alert i.incident_id (event_of alert) t) t else t
write w alert (created i) t = if w.creates then or_same (create i t) t else t

module _ (f : Floats) (min_severity : Severity) (linkers : List (Linker f)) (max_timeframe : ℕ)
    (auto_close_after : ℕ) where
  -- What happens to the tables: an alert is correlated at a time, with a fresh identifier, or the
  -- stale incidents are closed.
  pub data Request : Type 0 where
    correlates : ℕ → ℕ → Works → Alert → Request
    closes_stale : ℕ → Request

  unfoldable pub serve : Request → Tables → Tables
  unfolding write find_open close_rows
  serve (correlates now uuid w alert) t =
      write w alert
        (process_alert f min_severity linkers now uuid max_timeframe
          (find_open alert.hostname (now - max_timeframe) t) alert)
        t
  serve (closes_stale now) t =
      if auto_close_after == 0
      then t
      else record t { incidents = close_rows (now - auto_close_after) t.incidents }

  unfoldable pub serve_all : List Request → Tables → Tables
  unfolding serve
  serve_all [] t = t
  serve_all (r ∷ rs) t = serve_all rs (serve r t)

abbrev pub no_incidents : Tables
no_incidents = record { incidents = []; incident_alerts = [] }

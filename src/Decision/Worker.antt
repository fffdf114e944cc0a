-- ===== src/Decision/Worker.antt =====
-- DecisionWorker of server/oseye/workers/decision_worker.py: `_process` over the engine, the
-- journal, the repository and the executor. Reads of incidents, alerts and events are arguments,
-- and so is whether the database takes a write. The broadcast to the web clients is left out: what
-- it raises is caught.
pub mod Chain
use oseye_plateforme.Prelude.{
  ℕ, ◌+◌, ite, Bool, true, false, Option, none, some, List, [], ◌∷◌, String, if◌then◌else◌, str_dec,
}
use oseye_plateforme.Prelude.Floats.{Floats}
use oseye_plateforme.Decision.Types.{DecisionType, Fields, Decision}
use oseye_plateforme.Decision.Journal.{Journal, rollback, reverted, refused}
use oseye_plateforme.Decision.Engine.{Engine, Incident, Alert, decide}
use oseye_plateforme.Decision.Repository.{create}
use oseye_plateforme.Decision.Executor.{Services, Run, execute, skip}

-- What a read of a repository gives.
pub data Fetched (A : Type 0) : Type 0 where
  fetch_failed : Fetched A
  fetched : Option A → Fetched A

abbrev pub or_none : {A : Type 0} → Fetched A → Option A
or_none fetch_failed = none
or_none (fetched o) = o

-- The message: `str(payload.get("incident_id", ""))` and `payload.get("trigger_alert_id")`.
pub record Payload : Type 0 where
  pub incident_id : String
  pub trigger_alert_id : Option String

-- What `_process` reads. `none` of `parse_uuid` is a `ValueError`.
pub record Stores (E : Type 0) : Type 0 where
  pub parse_uuid : String → Option ℕ
  pub get_incident : ℕ → Fetched Incident
  pub get_alert : ℕ → Fetched Alert
  -- the repository of events is optional
  pub get_trigger_event : Option (Alert → Fetched E)

-- The journal of the engine, the rows of decisions, newest first, and the two counts.
pub record Pipeline (f : Floats) : Type 0 where
  pub journal : Journal
  pub rows : List (Decision f)
  pub total_processed : ℕ
  pub total_decisions : ℕ

-- The surroundings of one message: the clock, the fresh identifiers, the election and whether the
-- database is up.
pub record Moment : Type 0 where
  pub now : ℕ
  pub decision_id : ℕ
  pub command_id : ℕ
  pub leader : Bool
  pub database_up : Bool

-- The pipeline afterwards, what was sent, and whether an exception left `_process`.
pub record Step (f : Floats) : Type 0 where
  pub pipeline : Pipeline f
  pub sent : Run
  pub escaped : Bool

-- The incident of a message: `none` ends the call, for a missing, malformed or unknown identifier
-- and for a failing read alike.
unfoldable pub load_incident : {E : Type 0} → Stores E → Payload → Option Incident
load_incident stores payload =
    ite (str_dec payload.incident_id "") none (elim (stores.parse_uuid payload.incident_id) [
      | none ↦ none
      | some id ↦ or_none (stores.get_incident id)
    ])

unfoldable pub load_alert_id : {E : Type 0} → Stores E → String → Option Alert
load_alert_id stores text =
    ite (str_dec text "") none
      (elim (stores.parse_uuid text) [ none ↦ none | some id ↦ or_none (stores.get_alert id) ])

unfoldable pub load_alert : {E : Type 0} → Stores E → Option String → Option Alert
unfolding load_alert_id
load_alert stores none = none
load_alert stores (some text) = load_alert_id stores text

unfoldable pub load_event : {E : Type 0} → Option (Alert → Fetched E) → Option Alert → Option E
load_event (some get_event) (some alert) = or_none (get_event alert)
load_event _ _ = none

module _ {f : Floats} where
  abbrev pub stay : Pipeline f → Step f
  stay p = record { pipeline = p; sent = skip; escaped = false }

  -- `rollback_journal`; its `ValueError` leaves `_process`.
  unfoldable pub rollback_journal : String → Pipeline f → Step f
  rollback_journal prev_hash p = elim (rollback prev_hash p.journal) [
    | reverted j ↦ stay (record p { journal = j })
    | refused _ ↦ record { pipeline = p; sent = skip; escaped = true }
  ]

  -- `decision_repo.create`: `none` is its exception.
  unfoldable pub persist : Bool → Decision f → List (Decision f) → Option (List (Decision f))
  persist database_up d rows = if database_up then create d rows else none

  -- From the decision on: persist it or roll the journal back, then execute it.
  unfoldable pub finish :
      Services → Moment → Decision f → Option (List (Decision f)) → Pipeline f → Step f
  unfolding rollback_journal
  finish services m d none p = rollback_journal d.prev_journal_hash p
  finish services m d (some rows) p = record {
    pipeline = record p { rows = rows; total_decisions = p.total_decisions + 1 };
    sent = ((execute services d none m.command_id).0, false);
    escaped = false;
  }

  unfoldable pub conclude_decision :
      Services → Moment → Journal × Option (Decision f) → Pipeline f → Step f
  unfolding finish persist
  conclude_decision services m (j, none) p = stay (record p { journal = j })
  conclude_decision services m (j, some d) p =
      finish services m d (persist m.database_up d p.rows) (record p { journal = j })

  module _ {E : Type 0}
      (explain : List DecisionType → f.Float → f.Float → f.Float → ℕ → f.Float → String)
      (digest : String → Fields f → String) (engine : Engine f E) (services : Services) where
    -- `_process` once the incident is there.
    unfoldable pub process_incident : Stores E → Payload → Moment → Incident → Pipeline f → Step f
    unfolding conclude_decision
    process_incident stores payload m incident p =
        let alert = load_alert stores payload.trigger_alert_id in
        let event = load_event stores.get_trigger_event alert in
        let p' = record p { total_processed = p.total_processed + 1 } in
        conclude_decision services m
          (decide f explain digest m.leader engine incident alert event m.now m.decision_id
            p.journal)
          p'

    unfoldable pub process : Stores E → Payload → Moment → Pipeline f → Step f
    unfolding process_incident
    process stores payload m p = elim (load_incident stores payload) [
      | none ↦ stay p
      | some incident ↦ process_incident stores payload m incident p
    ]

    -- The messages that the loop of `run` takes, with what surrounds each; an exception ends it.
    pub record Message : Type 0 where
      pub stores : Stores E
      pub payload : Payload
      pub moment : Moment

    unfoldable pub continue_unless : Bool → Pipeline f → (Pipeline f → Pipeline f) → Pipeline f
    continue_unless true p rest = p
    continue_unless false p rest = rest p

    unfoldable pub run : List Message → Pipeline f → Pipeline f
    run [] p = p
    run (m ∷ ms) p =
        let s = process m.stores m.payload m.moment p in
        continue_unless s.escaped s.pipeline (run ms)

-- ===== src/Workers/Correlate/Announced.antt =====
-- Which incidents the worker of server/oseye/workers/correlation_worker.py announces.
use oseye_plateforme.Prelude.{
  ℕ, ◌+◌, ◌-◌, ◌≤◌, ◌≡◌, refl, ap, ◌∙◌, true, Option, none, some, List, String, arith, All-mono,
  All,
}
use oseye_plateforme.Prelude.Floats.{Floats}
use oseye_plateforme.Correlation.{
  Severity, Alert, Incident, Processed, ignored, linked, created, failed, Linker, process_alert,
  link_alert, new_incident,
}
use oseye_plateforme.Correlation.Incidents.{Request, find_open, serve_all, no_incidents}
use oseye_plateforme.Correlation.Incidents.Reads.{find_open-IsRead, serve_all-IsConsistent}
use oseye_plateforme.Correlation.Candidates.{linked-candidate, created_new}
use oseye_plateforme.Workers.Correlate.{
  alert_of, Stored, Answers, quiet, outcome, severity_before, severity_escalated, has_chain, notify,
  after_engine, run_engine, process_stored, load_alert, process,
}

-- What is published after `process_alert`: the new incident, with the text of the alert.
abbrev pub news : String → Processed → Option (ℕ × String)
news text (created i) = some (i.incident_id, text)
news text _ = none

abbrev pub IsCounted : Incident → Type 0
IsCounted i = 1 ≤ i.alert_count

module _ (f : Floats) (a : Alert) where
  module _ (m : Severity) (ls : List (Linker f)) (now uuid t : ℕ) (is : List Incident) where
    linked_count :
        (out : Incident)
        → All IsCounted is
        → process_alert f m ls now uuid t is a ≡ linked out
        → 2 ≤ out.alert_count
    unfolding link_alert
    linked_count out counted h =
        let (i, old, made) = linked-candidate f IsCounted a m ls now uuid t is out counted h in
        omega (arith, ap (λ (x : Incident). x.alert_count) made)

    created_count :
        (out : Incident) → process_alert f m ls now uuid t is a ≡ created out → out.alert_count ≡ 1
    unfolding new_incident
    created_count out h =
        ap (λ (x : Incident). x.alert_count) (created_new f m ls now uuid t a is out h)

    -- The engine's result, and what follows where every write goes through.
    after-news :
        (answers : Answers) (text : String) (s : Stored) (n k : ℕ)
        → s.incident_chain_id ≡ none
        → answers.alert_updated ≡ true
        → answers.published ≡ true
        → All IsCounted is
        → (p : Processed) → process_alert f m ls now uuid t is a ≡ p
        → (after_engine answers text s none (outcome true p) n k).sent ≡ news text p
    unfolding after_engine notify outcome quiet has_chain severity_escalated
    after-news answers text s n k c u g counted ignored e = refl
    after-news answers text s n k c u g counted (failed i) e = refl
    after-news answers text s n k c u g counted (linked i) e =
        let many = linked_count i counted e in ground arith
    after-news answers text s n k c u g counted (created i) e =
        let one = created_count i e in ground arith

module _ (f : Floats) (min_severity : Severity) (ls : List (Linker f)) (max_timeframe : ℕ) where
  unknown_before : (answers : Answers) (o : Option ℕ) → o ≡ none → severity_before answers o ≡ none
  unfolding severity_before
  unknown_before answers none e = refl
  unknown_before answers (some id) e = cc

  engine_done :
      (answers : Answers) (a : Alert) (is : List Incident)
      → answers.find_open a.hostname ≡ some is
      → answers.incident_written ≡ true
      → run_engine f min_severity ls max_timeframe answers a (answers.find_open a.hostname)
        ≡ outcome true (process_alert f min_severity ls answers.now answers.uuid max_timeframe is a)
  unfolding run_engine
  engine_done answers a is found w =
      let done = process_alert f min_severity ls answers.now answers.uuid max_timeframe is a in
      ap (run_engine f min_severity ls max_timeframe answers a) found ∙ ap (λ b. outcome b done) w

  stored-news :
      (answers : Answers) (text : String) (s : Stored) (is : List Incident) (n k : ℕ)
      → s.incident_chain_id ≡ none
      → answers.find_open s.alert.hostname ≡ some is
      → answers.incident_written ≡ true
      → answers.alert_updated ≡ true
      → answers.published ≡ true
      → All IsCounted is
      → (process_stored f min_severity ls max_timeframe answers text s n k).sent
        ≡ news text
            (process_alert f min_severity ls answers.now answers.uuid max_timeframe is s.alert)
  unfolding process_stored
  stored-news answers text s is n k c found w u g counted =
      let done =
        process_alert f min_severity ls answers.now answers.uuid max_timeframe is s.alert in
      let before : severity_before answers s.incident_chain_id ≡ none =
        unknown_before answers s.incident_chain_id c in
      let engine : run_engine f min_severity ls max_timeframe answers s.alert
            (answers.find_open s.alert.hostname)
          ≡ outcome true done =
        engine_done answers s.alert is found w in
      rw (before, engine)
        (after-news f s.alert min_severity ls answers.now answers.uuid max_timeframe is answers text
          s (n + 1) k c u g counted done refl)

  process-news :
      (answers : Answers) (text : String) (s : Stored) (is : List Incident) (n k : ℕ)
      → load_alert f min_severity ls max_timeframe answers text ≡ some s
      → s.incident_chain_id ≡ none
      → answers.find_open s.alert.hostname ≡ some is
      → answers.incident_written ≡ true
      → answers.alert_updated ≡ true
      → answers.published ≡ true
      → All IsCounted is
      → (process f min_severity ls max_timeframe answers (alert_of text) n k).sent
        ≡ news text
            (process_alert f min_severity ls answers.now answers.uuid max_timeframe is s.alert)
  unfolding process
  process-news answers text s is n k loaded c found w u g counted =
      rw (loaded, process) (stored-news answers text s is n k c found w u g counted)

  -- Over tables that any requests have led to: for a message whose alert can be read and has no
  -- chain identifier yet, with the reads and writes working and the bus taking the message,
  -- what is published is the incident that the engine created, and nothing where it linked the
  -- alert to an incident or ignored it.
  pub process_reached :
      (auto_close_after : ℕ) (rs : List (Request f min_severity ls max_timeframe auto_close_after))
      (answers : Answers) (text : String) (s : Stored) (n k : ℕ)
      → let is =
          find_open s.alert.hostname
            (answers.now - max_timeframe)
            (serve_all f min_severity ls max_timeframe auto_close_after rs no_incidents) in
        load_alert f min_severity ls max_timeframe answers text ≡ some s
        → s.incident_chain_id ≡ none
        → answers.find_open s.alert.hostname ≡ some is
        → answers.incident_written ≡ true
        → answers.alert_updated ≡ true
        → answers.published ≡ true
        → (process f min_severity ls max_timeframe answers (alert_of text) n k).sent
          ≡ news text
              (process_alert f min_severity ls answers.now answers.uuid max_timeframe is s.alert)
  process_reached auto_close_after rs answers text s n k loaded c found w u g =
      let t = serve_all f min_severity ls max_timeframe auto_close_after rs no_incidents in
      process-news answers text s _ n k loaded c found w u g (
        All-mono _ _ (λ i h. h.1) _
          (find_open-IsRead s.alert.hostname (answers.now - max_timeframe) t
            (serve_all-IsConsistent f min_severity ls max_timeframe auto_close_after rs)))

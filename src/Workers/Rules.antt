-- ===== src/Workers/Rules.antt =====
-- RuleWorker of server/oseye/workers/rule_worker.py: what it does with the matches of an event.
-- Times are in microseconds. The text of an entity, `f"{hostname}:{pid}"`, is a parameter.
pub mod Cooldown
pub mod Audit
use oseye_plateforme.Prelude.{
  ℕ, ◌+◌, ◌*◌, ite, Bool, true, false, not, ◌||◌, Option, none, some, List, [], ◌∷◌, ◌++◌, String,
  ltb, leb, ◌==◌, if◌then◌else◌, text_pair_dec, str_dec, length, elem, Dict, lookup, insert,
}
use oseye_plateforme.Correlation.{Severity, low, medium, high, critical, severity_order}

-- The parts of a RuleMatch and of a UniversalEvent that the worker reads.
pub record Match : Type 0 where
  pub rule_id : String
  pub rule_name : String
  pub severity : String
  pub actions : List String
  pub mitre : List String
  pub explanation : String
  pub rule_type : String

pub record Event : Type 0 where
  pub event_id : ℕ
  pub hostname : String
  pub pid : ℕ
  pub process_name : String
  pub src_ip : Option String
  pub dst_ip : Option String

pub record Alert : Type 0 where
  pub alert_id : ℕ
  pub created_at : ℕ
  pub severity : Severity
  pub rule_id : String
  pub rule_type : String
  pub entity_id : String
  pub hostname : String
  pub trigger_event_id : ℕ
  pub title : String
  pub description : String
  pub mitre_techniques : List String
  pub dst_ip : Option String
  pub pid : Option ℕ
  pub process_name : String

-- What the worker publishes: a match, a new alert, the addresses of an alert.
pub data Message : Type 0 where
  rule_match : Match → Event → Message
  alert_created : ℕ → Message
  enrichment : ℕ → List String → Message

-- The clock, the fresh identifier, and which of the calls go through.
pub record Moment : Type 0 where
  pub now : ℕ
  pub uuid : ℕ
  pub match_published : Bool
  pub alert_stored : Bool
  pub alert_published : Bool
  pub enrichment_published : Bool

abbrev pub Key : Type 0
Key = String × String

-- The counts and cooldowns of the worker, the rows of alerts, newest first, and what was sent,
-- newest first.
pub record Worker : Type 0 where
  pub total_evaluated : ℕ
  pub total_matches : ℕ
  pub total_alerts : ℕ
  pub alert_cooldowns : Dict Key ℕ
  pub alerts : List Alert
  pub sent : List Message

abbrev pub alert_cooldown : ℕ
alert_cooldown = 60 * 1000000

unfoldable pub parse_severity : String → Option Severity
parse_severity s = ite (str_dec s "low") (some low) (
    ite (str_dec s "medium") (some medium)
      (ite (str_dec s "high") (some high) (ite (str_dec s "critical") (some critical) none)))

unfoldable pub cap_severity : Severity → Severity
cap_severity s = if leb (severity_order s) (severity_order medium) then s else medium

abbrev pub is_surveillance : String → Bool
is_surveillance rule_type = ite (str_dec rule_type "surveillance") true false

unfoldable pub severity_for : Bool → Option Severity → Option Severity
unfolding cap_severity
severity_for surveillance none = none
severity_for surveillance (some s) = some (if surveillance then cap_severity s else s)

-- The severity of the alert; `none` for the exception of one that is not known.
unfoldable pub alert_severity : Match → Option Severity
unfolding parse_severity severity_for
alert_severity match =
    severity_for (is_surveillance match.rule_type)
      (parse_severity (ite (str_dec match.severity "info") "low" match.severity))

abbrev pub last_fired : Option ℕ → ℕ
last_fired none = 0
last_fired (some t) = t

abbrev pub to_list : Option String → List String
to_list none = []
to_list (some s) = ite (str_dec s "") [] (s ∷ [])

unfoldable pub send : Bool → Message → Worker → Worker
send published m w = if published then record w { sent = m ∷ w.sent } else w

module _ (entity : String → ℕ → String) where
  unfoldable pub new_alert : Moment → Severity → Match → Event → Alert
  new_alert moment severity match event = record {
    alert_id = moment.uuid;
    created_at = moment.now;
    severity = severity;
    rule_id = match.rule_id;
    rule_type = match.rule_type;
    entity_id = entity event.hostname event.pid;
    hostname = event.hostname;
    trigger_event_id = event.event_id;
    title = match.rule_name;
    description = match.explanation;
    mitre_techniques = match.mitre;
    dst_ip = event.dst_ip;
    pid = if event.pid == 0 then none else some event.pid;
    process_name = event.process_name;
  }

  unfoldable pub send_addresses : Bool → ℕ → List String → Worker → Worker
  unfolding send
  send_addresses published id [] w = w
  send_addresses published id (ip ∷ ips) w = send published (enrichment id (ip ∷ ips)) w

  -- The messages about a stored alert.
  unfoldable pub announce : Moment → Event → Alert → Worker → Worker
  unfolding send send_addresses
  announce moment event alert w =
      if is_surveillance alert.rule_type
      then w
      else send_addresses moment.enrichment_published alert.alert_id
          (to_list event.dst_ip ++ to_list event.src_ip)
          (send moment.alert_published (alert_created alert.alert_id) w)

  unfoldable pub store_alert : Moment → Event → Alert → Worker → Worker
  unfolding announce
  store_alert moment event alert w =
      if moment.alert_stored
      then announce moment event alert
          (record w { alerts = alert ∷ w.alerts; total_alerts = w.total_alerts + 1 })
      else w

  -- From the cooldown on; the flag tells that an exception leaves the call.
  unfoldable pub fire : Moment → Event → Match → Option Severity → Worker → Worker × Bool
  unfolding store_alert new_alert
  fire moment event match none w = (w, true)
  fire moment event match (some severity) w =
      (store_alert moment event (new_alert moment severity match event) w, false)

  -- `_create_alert`
  unfoldable pub create_alert : Moment → Event → Match → Worker → Worker × Bool
  unfolding fire alert_severity
  create_alert moment event match w =
      let key : Key = (match.rule_id, entity event.hostname event.pid) in
      if ltb moment.now (last_fired (lookup text_pair_dec key w.alert_cooldowns) + alert_cooldown)
      then (w, false)
      else fire moment event match (alert_severity match)
          (record w { alert_cooldowns = insert text_pair_dec key moment.now w.alert_cooldowns })

  -- One round of `_handle_matches`.
  unfoldable pub handle_match : Moment → Event → Match → Worker → Worker × Bool
  unfolding send create_alert
  handle_match moment event match w =
      if not moment.match_published
      then (w, false)
      else let w' = send true (rule_match match event) w in
        if elem str_dec "ALERT" match.actions || is_surveillance match.rule_type
        then create_alert moment event match w'
        else (w', false)

  -- `_handle_matches`: an exception ends the loop.
  unfoldable pub handle_matches : Event → List (Match × Moment) → Worker → Worker
  unfolding handle_match
  handle_matches event [] w = w
  handle_matches event ((match, moment) ∷ rest) w =
      let (w', raised) = handle_match moment event match w in
      let next = handle_matches event rest w' in if raised then w' else next

  -- One message of `run`: `none` where it does not parse or the evaluation raises, and otherwise
  -- the event and the matches of `evaluate`.
  pub data Input : Type 0 where
    unparsed : Input
    raised : Event → Input
    evaluated : Event → List (Match × Moment) → Input

  unfoldable pub process_event : Input → Worker → Worker
  unfolding handle_matches
  process_event unparsed w = w
  process_event (raised event) w = record w { total_evaluated = w.total_evaluated + 1 }
  process_event (evaluated event matches) w = handle_matches event matches (record w {
    total_evaluated = w.total_evaluated + 1;
    total_matches = w.total_matches + length matches;
  })

  unfoldable pub run_events : List Input → Worker → Worker
  unfolding process_event
  run_events [] w = w
  run_events (i ∷ is) w = run_events is (process_event i w)

abbrev pub fresh_worker : Worker
fresh_worker = record {
  total_evaluated = 0;
  total_matches = 0;
  total_alerts = 0;
  alert_cooldowns = [];
  alerts = [];
  sent = [];
}

-- ===== src/Tests/Execution.antt =====
-- Commands of server/oseye/decision/action_executor.py.
use oseye_plateforme.Prelude.{true, false, none, some, [], ◌∷◌, All}
use oseye_plateforme.Prelude.Floats.{thousandths}
use oseye_plateforme.Decision.Types.{approved, isolate, request_human, alert_, Decision}
use oseye_plateforme.Decision.Executor.{Address, Alert, Services, execute}
use oseye_plateforme.Decision.Executor.Safety.{IsAllowed, execute-IsAllowed}
use oseye_plateforme.Decision.Journal.{genesis_hash}

abbrev public_address : Address
public_address = record {
  is_loopback = false;
  is_link_local = false;
  is_unspecified = false;
  is_private = false;
  is_multicast = false;
  is_reserved = false;
}

abbrev services : Services
services = record {
  bus_takes = λ t. true;
  has_repository = true;
  parse_ip = λ s. some public_address;
}

abbrev alert : Alert
alert = record { dst_ip = some "203.0.113.9"; pid = some 4242; process_name = "nc" }

abbrev isolation : Decision thousandths
isolation = record {
  fields = record {
    decision_id = 1;
    created_at = 5;
    decision_type = alert_;
    rule_score = 75000;
    ml_score = 0;
    ti_score = 100000;
    correlation_depth = 3;
    final_score = 85000;
    entity_id = "host-1";
    trigger_alert_id = none;
    incident_chain_id = some 9;
    policy_version = "v1";
    explanation = "score";
  };
  decision_types = alert_ ∷ isolate ∷ request_human ∷ [];
  related_event_ids = [];
  requires_human = true;
  human_decision = some approved;
  human_operator = none;
  human_note = none;
  approved_at = some 6;
  timeout_at = none;
  prev_journal_hash = genesis_hash;
  journal_hash = "h";
}

execute-IsAllowed_example :
    All (IsAllowed services "host-1") (execute services isolation (some alert) 77).0
execute-IsAllowed_example = execute-IsAllowed services isolation (some alert) 77

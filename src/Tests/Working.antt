-- ===== src/Tests/Working.antt =====
-- Witnesses for the decision worker.
use oseye_plateforme.Prelude.{ℕ, ◌≡◌, refl, Bool, true, false, none, some, List, [], ◌∷◌, String}
use oseye_plateforme.Prelude.Floats.{thousandths}
use oseye_plateforme.Decision.Types.{DecisionType, Fields}
use oseye_plateforme.Decision.Journal.{genesis_hash, init, verify_chain, is_hash}
use oseye_plateforme.Decision.Executor.{Services}
use oseye_plateforme.Decision.Engine.{Engine}
use oseye_plateforme.Decision.Worker.{
  fetch_failed, fetched, Payload, Stores, Pipeline, Moment, Message, run,
}
use oseye_plateforme.Decision.Worker.Chain.{end_of, verify_chain-run}
use mathlib.Core.List.{reverse}

abbrev engine : Engine thousandths ℕ
engine = record {
  overrides = record { whitelist = []; denylist = "host-1" ∷ [] };
  human_timeout_secs = 3600;
  policy_version = "v1";
  weights = record { w_rule = 400; w_ml = 300; w_ti = 200; w_depth = 100 };
  score_fn = none;
}

abbrev explain : List DecisionType → ℕ → ℕ → ℕ → ℕ → ℕ → String
explain types r m t n s = "score"

abbrev constant_digest : String → Fields thousandths → String
constant_digest prev fields = genesis_hash

abbrev services : Services
services = record { bus_takes = λ t. true; has_repository = false; parse_ip = λ s. none }

abbrev stores : Stores ℕ
stores = record {
  parse_uuid = λ s. some 9;
  get_incident = λ id.
      fetched (
        some (record { incident_id = 9; hostname = "host-1"; severity = "high"; alert_count = 3 }));
  get_alert = λ id. fetch_failed;
  get_trigger_event = none;
}

abbrev moment : ℕ → Bool → Moment
moment id up = record {
  now = 5;
  decision_id = id;
  command_id = 70;
  leader = true;
  database_up = up;
}

abbrev payload : Payload
payload = record { incident_id = "9"; trigger_alert_id = some "4" }

-- The database is down for the second message.
abbrev messages : List (Message explain constant_digest engine services)
messages =
    record { stores = stores; payload = payload; moment = moment 1 true }
    ∷ record { stores = stores; payload = payload; moment = moment 2 false }
    ∷ record { stores = stores; payload = payload; moment = moment 3 true }
    ∷ []

abbrev pipeline : Pipeline thousandths
pipeline = record {
  journal = init genesis_hash;
  rows = [];
  total_processed = 0;
  total_decisions = 0;
}

verify_chain-run_example :
    let p = run explain constant_digest engine services messages pipeline in
    (verify_chain thousandths constant_digest (reverse p.rows) (some genesis_hash) ≡ [])
    × (p.journal.last_hash ≡ end_of constant_digest genesis_hash (reverse p.rows))
unfolding is_hash
verify_chain-run_example =
    verify_chain-run constant_digest (λ prev fields. refl) genesis_hash explain engine services
      messages pipeline (record { chain = refl; formed = refl })

-- ===== src/Tests/Decisions.antt =====
-- Decisions made, journalled, reviewed and swept as in server/oseye/decision.
use oseye_plateforme.Prelude.{
  ℕ, ◌≡◌, refl, ◌↔◌, true, Option, none, some, List, [], ◌∷◌, String, arith, codes,
}
use oseye_plateforme.Prelude.Floats.{thousandths}
use oseye_plateforme.Decision.Types.{
  approved, rejected, alert_, isolate, request_human, Fields, Decision,
}
use oseye_plateforme.Decision.Journal.{
  Journal, genesis_hash, init, is_hash, is_hex_digit, rollback, reverted, commit, verify_chain,
}
use oseye_plateforme.Decision.Journal.Undo.{rollback-commit}
use oseye_plateforme.Decision.Journal.Chain.{Linked, verify_chain_iff}
use oseye_plateforme.Decision.Engine.{Engine, compute, ml_signal}
use oseye_plateforme.Decision.Engine.Score.{compute_bounds}
use oseye_plateforme.Decision.Repository.{decide_row, update_human_decision}
use oseye_plateforme.Decision.HumanQueue.{finish_update}
use oseye_plateforme.Decision.HumanQueue.Final.{finish_update_race}

abbrev fields_of : ℕ → Fields thousandths
fields_of id = record {
  decision_id = id;
  created_at = 5;
  decision_type = alert_;
  rule_score = 75000;
  ml_score = 0;
  ti_score = 100000;
  correlation_depth = 3;
  final_score = 85000;
  entity_id = "host-1";
  trigger_alert_id = none;
  incident_chain_id = some 9;
  policy_version = "v1";
  explanation = "score";
}

-- Decisions 1 and 2 wait for a human, with the timeouts 50 and none.
abbrev waiting : ℕ → Option ℕ → Decision thousandths
waiting id timeout_at = record {
  fields = fields_of id;
  decision_types = alert_ ∷ isolate ∷ request_human ∷ [];
  related_event_ids = [];
  requires_human = true;
  human_decision = none;
  human_operator = none;
  human_note = none;
  approved_at = none;
  timeout_at = timeout_at;
  prev_journal_hash = genesis_hash;
  journal_hash = "h";
}

abbrev rows : List (Decision thousandths)
rows = waiting 1 (some 50) ∷ waiting 2 none ∷ []

finish_update_race_example :
    (finish_update
      (some (waiting 1 (some 50)))
      1
      rejected
      []
      []
      60
      (finish_update (some (waiting 1 (some 50))) 1 approved [] [] 59 rows).0).1
    ≡ none
unfolding finish_update update_human_decision
finish_update_race_example =
    finish_update_race (some (waiting 1 (some 50))) (some (waiting 1 (some 50))) 1 approved rejected
      [] [] [] [] 59 60 rows (λ e. ground arith)

abbrev expired_row : Decision thousandths
expired_row =
    decide_row rejected (codes "system") (codes "Auto-expired: timeout reached") 60
      (waiting 1 (some 50))

-- A digest that keeps the previous hash.
abbrev toy_digest : String → Fields thousandths → String
toy_digest prev fields = prev

abbrev chain : List (Decision thousandths)
chain = record (waiting 1 none) { journal_hash = genesis_hash } ∷ []

verify_chain_iff_example :
    ((verify_chain thousandths toy_digest chain (some genesis_hash) ≡ [])
      ↔ Linked thousandths toy_digest genesis_hash chain)
    × ((verify_chain thousandths toy_digest chain none ≡ [])
        ↔ Linked thousandths toy_digest genesis_hash chain)
verify_chain_iff_example = verify_chain_iff thousandths toy_digest chain genesis_hash

abbrev fresh : Journal
fresh = init genesis_hash

rollback-commit_example :
    rollback genesis_hash (commit thousandths toy_digest (fields_of 1) fresh).0
    ≡ reverted
        (record (commit thousandths toy_digest (fields_of 1) fresh).0 { last_hash = genesis_hash })
unfolding is_hash is_hex_digit commit
rollback-commit_example = rollback-commit thousandths toy_digest (fields_of 1) fresh refl

abbrev engine : Engine thousandths ℕ
engine = record {
  overrides = record { whitelist = "gateway" ∷ []; denylist = "host-1" ∷ [] };
  human_timeout_secs = 3600;
  policy_version = "v1";
  weights = record { w_rule = 400; w_ml = 300; w_ti = 200; w_depth = 100 };
  score_fn = some (λ e. e);
}

compute_bounds_example :
    ((thousandths.leb 0 (compute thousandths engine.weights 75000 0 100000 3) ≡ true)
      × (thousandths.leb (compute thousandths engine.weights 75000 0 100000 3) 100000 ≡ true))
    × ((thousandths.leb 0 (ml_signal thousandths engine.score_fn (some 130000)) ≡ true)
        × (thousandths.leb (ml_signal thousandths engine.score_fn (some 130000)) 100000 ≡ true))
compute_bounds_example =
    compute_bounds thousandths engine.weights 75000 0 100000 3 engine.score_fn (some 130000)

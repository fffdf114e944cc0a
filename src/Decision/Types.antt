-- ===== src/Decision/Types.antt =====
-- The decision of server/oseye/core/schema.py, over the floats of its scores.
use oseye_plateforme.Prelude.{ℕ, Bool, Option, List, String, ◌==◌, any}
use oseye_plateforme.Prelude.Floats.{Floats}

-- `decision_type`
pub data DecisionType : Type 0 where
  alert_ ignore escalate investigate isolate request_human collect_more notify : DecisionType

-- The names are different texts in the source: one number for each.
abbrev pub tag : DecisionType → ℕ
tag alert_ = 0
tag ignore = 1
tag escalate = 2
tag investigate = 3
tag isolate = 4
tag request_human = 5
tag collect_more = 6
tag notify = 7

-- `name in types`
abbrev pub includes : DecisionType → List DecisionType → Bool
includes name types = any (λ t. tag name == tag t) types

-- `human_decision`
pub data Outcome : Type 0 where
  approved rejected : Outcome

-- The fields that `_decision_to_fields` hashes. Identifiers and times keep their own types: the
-- `str` and `isoformat` calls and the JSON encoding belong to the digest.
pub record Fields (f : Floats) : Type 0 where
  pub decision_id : ℕ
  pub created_at : ℕ
  pub decision_type : DecisionType
  pub rule_score : f.Float
  pub ml_score : f.Float
  pub ti_score : f.Float
  pub correlation_depth : ℕ
  pub final_score : f.Float
  pub entity_id : String
  pub trigger_alert_id : Option ℕ
  pub incident_chain_id : Option ℕ
  pub policy_version : String
  pub explanation : String

-- `class Decision`. Identifiers are the 128-bit numbers of the UUIDs, times are ticks.
pub record Decision (f : Floats) : Type 0 where
  pub fields : Fields f
  pub decision_types : List DecisionType
  pub related_event_ids : List ℕ
  pub requires_human : Bool
  pub human_decision : Option Outcome
  pub human_operator : Option (List ℕ)
  pub human_note : Option (List ℕ)
  pub approved_at : Option ℕ
  pub timeout_at : Option ℕ
  pub prev_journal_hash : String
  pub journal_hash : String

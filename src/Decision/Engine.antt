-- ===== src/Decision/Engine.antt =====
-- DecisionEngine of server/oseye/decision/engine.py: the weighted score, the overrides, the risk
-- matrix and `decide`. The clock, the fresh identifier, the machine-learning score, the wording of
-- the explanation and the digest of the journal are parameters.
pub mod Score
pub mod Matrix
pub mod Decide
use oseye_plateforme.Prelude.{
  ℕ, ◌+◌, ite, Bool, true, false, not, ◌&&◌, Option, none, some, List, [], ◌∷◌, String, ltb, leb,
  if◌then◌else◌, str_dec, all, elem,
}
use oseye_plateforme.Prelude.Floats.{Floats, ltb as float_ltb, max, min}
use oseye_plateforme.Decision.Types.{
  DecisionType, includes, alert_, ignore, escalate, investigate, isolate, request_human, Fields,
  Decision,
}
use oseye_plateforme.Decision.Journal.{Journal, commit, rollback, Rollback, reverted, refused}

-- PolicyOverrides
pub record PolicyOverrides : Type 0 where
  pub whitelist : List String
  pub denylist : List String

-- `_MAX_CORRELATION_DEPTH`
abbrev pub max_correlation_depth : ℕ
max_correlation_depth = 20

-- The parts of an incident, of an alert and of the engine that `decide` reads.
pub record Incident : Type 0 where
  pub incident_id : ℕ
  pub hostname : String
  pub severity : String
  pub alert_count : ℕ

pub record Alert : Type 0 where
  pub alert_id : ℕ
  pub ti_triggered : Bool
  pub related_event_ids : List ℕ

-- What the Redis server answers to `_is_leader`: it is out of reach, it has set the key, or the
-- key has a holder (or none, when it expired in between).
pub data Election : Type 0 where
  unreachable acquired : Election
  held_by : Option String → Election

-- `_is_leader`; with no `redis_url` there is no election.
unfoldable pub is_leader : String → Option Election → Bool
is_leader server_id none = true
is_leader server_id (some unreachable) = true
is_leader server_id (some acquired) = true
is_leader server_id (some (held_by none)) = false
is_leader server_id (some (held_by (some current))) = ite (str_dec current server_id) true false

module _ (f : Floats) where
  open f use {Float, leb, lit, decimal, add, sub, mul, div}

  pub record Weights : Type 0 where
    pub w_rule : Float
    pub w_ml : Float
    pub w_ti : Float
    pub w_depth : Float

  abs : Float → Float
  abs x = if float_ltb f x (lit 0) then sub (lit 0) x else x

  in_unit : Float → Bool
  in_unit w = leb (lit 0) w && leb w (lit 1)

  -- `WeightedScorer.__init__`: `none` is its `ValueError`.
  unfoldable pub new_scorer : Weights → Option Weights
  unfolding abs in_unit
  new_scorer w =
      let total = add (add (add w.w_rule w.w_ml) w.w_ti) w.w_depth in
      if not (all in_unit (w.w_rule ∷ w.w_ml ∷ w.w_ti ∷ w.w_depth ∷ []))
      then none
      else if float_ltb f (decimal 1 3) (abs (sub total (lit 1)))
      then none
      else some w

  -- `WeightedScorer.compute`
  unfoldable pub compute : Weights → Float → Float → Float → ℕ → Float
  unfolding max min
  compute w rule_score ml_score ti_score correlation_depth =
      let depth_norm =
        mul (min f (div (lit correlation_depth) (lit max_correlation_depth)) (lit 1)) (lit 100) in
      let raw =
        add (add (add (mul rule_score w.w_rule) (mul ml_score w.w_ml)) (mul ti_score w.w_ti))
          (mul depth_norm w.w_depth) in
      max f (lit 0) (min f (lit 100) raw)

  -- `PolicyOverrides.apply`
  unfoldable pub apply : PolicyOverrides → String → Float → Float
  apply o entity_id score =
      if elem str_dec entity_id o.whitelist
      then lit 0
      else if elem str_dec entity_id o.denylist
      then lit 100
      else score

  -- `_apply_risk_matrix`
  unfoldable pub apply_risk_matrix : Float → List DecisionType
  apply_risk_matrix score =
      if leb score (lit 20)
      then ignore ∷ []
      else if leb score (lit 40)
      then escalate ∷ []
      else if leb score (lit 60)
      then alert_ ∷ investigate ∷ []
      else if leb score (lit 80)
      then alert_ ∷ isolate ∷ []
      else alert_ ∷ isolate ∷ request_human ∷ []

  -- `_SEVERITY_SCORE.get(severity, 50.0)`
  unfoldable pub severity_score : String → Float
  severity_score s = ite (str_dec s "low") (lit 25) (
      ite (str_dec s "medium") (lit 50)
        (ite (str_dec s "high") (lit 75) (ite (str_dec s "critical") (lit 100) (lit 50))))

  -- The score of the machine-learning engine, kept within 0 and 100; 0 without engine or event.
  unfoldable pub ml_signal : {E : Type 0} → Option (E → Float) → Option E → Float
  unfolding max min
  ml_signal (some score_fn) (some event) = max f (lit 0) (min f (lit 100) (score_fn event))
  ml_signal _ _ = lit 0

  unfoldable pub ti_signal : Option Alert → Float
  ti_signal none = lit 0
  ti_signal (some a) = if a.ti_triggered then lit 100 else lit 0

  -- `__init__`: the settings of the engine.
  pub record Engine (E : Type 0) : Type 0 where
    pub overrides : PolicyOverrides
    pub human_timeout_secs : ℕ
    pub policy_version : String
    pub weights : Weights
    pub score_fn : Option (E → Float)

  -- The first of a list that the risk matrix returns; it returns no empty one.
  abbrev pub primary : List DecisionType → DecisionType
  primary [] = ignore
  primary (t ∷ ts) = t

  -- The pydantic model refuses a hash that is `None`: both hashes are declared `str`.
  unfoldable pub new_decision :
      Fields f
      → List DecisionType
      → List ℕ
      → Option ℕ
      → Option String
      → Option String
      → Option (Decision f)
  new_decision fields types related timeout_at (some prev) (some new) = some (record {
    fields = fields;
    decision_types = types;
    related_event_ids = related;
    requires_human = includes request_human types;
    human_decision = none;
    human_operator = none;
    human_note = none;
    approved_at = none;
    timeout_at = timeout_at;
    prev_journal_hash = prev;
    journal_hash = new;
  })
  new_decision fields types related timeout_at _ _ = none

  -- The end of `decide` on the leader, under the lock: commit, construct, and roll back if the
  -- construction fails. `none` is an exception.
  unfoldable pub conclude :
      (String → Fields f → String)
      → Fields f
      → List DecisionType
      → List ℕ
      → Option ℕ
      → Journal
      → Journal × Option (Decision f)
  unfolding commit rollback new_decision
  conclude digest fields types related timeout_at j =
      let (j', prev, new) = commit f digest fields j in
      elim (new_decision fields types related timeout_at (some prev) (some new)) [
        | some d ↦ (j', some d)
        | none ↦ elim (rollback prev j') [ reverted j'' ↦ (j'', none) | refused _ ↦ (j', none) ]
      ]

  module _ {E : Type 0}
      (explain : List DecisionType → Float → Float → Float → ℕ → Float → String) where
    -- The scores and fields of `decide`, before the journal is asked.
    unfoldable pub decision_fields :
        Engine E → Incident → Option Alert → Option E → ℕ → ℕ → Fields f
    unfolding compute apply apply_risk_matrix severity_score ml_signal ti_signal
    decision_fields engine incident alert event now uuid =
        let rule_score = severity_score incident.severity in
        let ml_score = ml_signal engine.score_fn event in
        let ti_score = ti_signal alert in
        let final_score =
          apply engine.overrides incident.hostname
            (compute engine.weights rule_score ml_score ti_score incident.alert_count) in
        let types = apply_risk_matrix final_score in
        record {
          decision_id = uuid;
          created_at = now;
          decision_type = primary types;
          rule_score = rule_score;
          ml_score = ml_score;
          ti_score = ti_score;
          correlation_depth = incident.alert_count;
          final_score = final_score;
          entity_id = incident.hostname;
          trigger_alert_id = elim alert [ none ↦ none | some a ↦ some a.alert_id ];
          incident_chain_id = some incident.incident_id;
          policy_version = engine.policy_version;
          explanation = explain types rule_score ml_score ti_score incident.alert_count final_score;
        }

    -- `decide`. The entity is the host of the incident: the incident model has no `entity_id`.
    unfoldable pub decide :
        (String → Fields f → String)
        → Bool
        → Engine E
        → Incident
        → Option Alert
        → Option E
        → ℕ
        → ℕ
        → Journal
        → Journal × Option (Decision f)
    unfolding decision_fields conclude new_decision
    decide digest leader engine incident alert event now uuid j =
        let fields = decision_fields engine incident alert event now uuid in
        let types = apply_risk_matrix fields.final_score in
        let timeout_at =
          if includes request_human types then some (now + engine.human_timeout_secs) else none in
        let related : List ℕ = elim alert [ none ↦ [] | some a ↦ a.related_event_ids ] in
        if leader
        then conclude digest fields types related timeout_at j
        else (j, new_decision fields types related timeout_at none none)

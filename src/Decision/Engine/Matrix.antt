-- ===== src/Decision/Engine/Matrix.antt =====
-- The risk matrix of server/oseye/decision/engine.py.
use oseye_plateforme.Prelude.{ℕ, ◌≤◌, ◌≡◌, true, not, List, [], ◌∷◌, arith}
use oseye_plateforme.Prelude.Floats.{Floats}
use oseye_plateforme.Decision.Types.{
  DecisionType, includes, alert_, ignore, escalate, investigate, isolate, request_human,
}
use oseye_plateforme.Decision.Engine.{apply_risk_matrix}

-- How drastic the actions are.
pub rank : List DecisionType → ℕ
rank (ignore ∷ []) = 0
rank (escalate ∷ []) = 1
rank (alert_ ∷ investigate ∷ []) = 2
rank (alert_ ∷ isolate ∷ []) = 3
rank _ = 4

module _ (f : Floats) where
  open f use {Float, leb, lit, leb_total, leb_trans, leb_lit}

  -- A higher score never brings milder actions.
  pub rank_mono :
      (s t : Float) → leb s t ≡ true → rank (apply_risk_matrix f s) ≤ rank (apply_risk_matrix f t)
  unfolding apply_risk_matrix rank
  rank_mono s t h = ground (
    arith,
    leb_trans s t (lit 20),
    leb_trans s t (lit 40),
    leb_trans s t (lit 60),
    leb_trans s t (lit 80),
  )

  -- A human is asked exactly above 80, and the agent is isolated exactly above 60.
  pub apply_risk_matrix_thresholds :
      (s : Float)
      → (includes request_human (apply_risk_matrix f s) ≡ not (leb s (lit 80)))
        × (includes isolate (apply_risk_matrix f s) ≡ not (leb s (lit 60)))
  unfolding apply_risk_matrix
  apply_risk_matrix_thresholds s = ground (
    arith,
    leb_lit 20 40,
    leb_lit 40 60,
    leb_lit 60 80,
    leb_trans s (lit 20) (lit 40),
    leb_trans s (lit 40) (lit 60),
    leb_trans s (lit 60) (lit 80),
  )

-- ===== src/Decision/Engine/Score.antt =====
-- The weighted score of server/oseye/decision/engine.py stays on its scale.
use oseye_plateforme.Prelude.{ℕ, ◌≡◌, true, Option, none, some, arith}
use oseye_plateforme.Prelude.Floats.{Floats, max, min}
use oseye_plateforme.Decision.Engine.{Weights, compute, ml_signal}

module _ (f : Floats) where
  open f use {Float, leb, lit, leb_total, leb_trans, leb_lit}

  -- `max(lo, min(hi, x))` lies between `lo` and `hi`.
  clamp_bounds :
      (lo hi x : Float)
      → leb lo hi ≡ true
      → (leb lo (max f lo (min f hi x)) ≡ true) × (leb (max f lo (min f hi x)) hi ≡ true)
  unfolding max min
  clamp_bounds lo hi x h =
      ground
        (arith, leb_total lo hi, leb_total lo lo, leb_total hi hi, leb_total lo x, leb_total hi x)

  scale : leb (lit 0) (lit 100) ≡ true
  scale = leb_lit 0 100

  compute_within :
      (w : Weights f) (rule ml ti : Float) (depth : ℕ)
      → (leb (lit 0) (compute f w rule ml ti depth) ≡ true)
        × (leb (compute f w rule ml ti depth) (lit 100) ≡ true)
  unfolding compute
  compute_within w rule ml ti depth = clamp_bounds (lit 0) (lit 100) _ scale

  ml_signal_within :
      {E : Type 0} (score_fn : Option (E → Float)) (event : Option E)
      → (leb (lit 0) (ml_signal f score_fn event) ≡ true)
        × (leb (ml_signal f score_fn event) (lit 100) ≡ true)
  unfolding ml_signal
  ml_signal_within (some g) (some e) = clamp_bounds (lit 0) (lit 100) (g e) scale
  ml_signal_within (some g) none = (leb_lit 0 0, scale)
  ml_signal_within none e = (leb_lit 0 0, scale)

  -- The final score is at least 0 and at most 100, whatever the signals and the weights, and so is
  -- the signal of the machine-learning engine.
  pub compute_bounds :
      {E : Type 0} (w : Weights f) (rule ml ti : Float) (depth : ℕ) (score_fn : Option (E → Float))
      (event : Option E)
      → ((leb (lit 0) (compute f w rule ml ti depth) ≡ true)
          × (leb (compute f w rule ml ti depth) (lit 100) ≡ true))
        × ((leb (lit 0) (ml_signal f score_fn event) ≡ true)
            × (leb (ml_signal f score_fn event) (lit 100) ≡ true))
  compute_bounds w rule ml ti depth score_fn event =
      (compute_within w rule ml ti depth, ml_signal_within score_fn event)

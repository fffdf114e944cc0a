-- ===== src/RuleEngine/Temporal/Threshold.antt =====
-- When `evaluate` of server/oseye/rule_engine/evaluator.py fires.
use oseye_plateforme.Prelude.{
  ℕ, ◌+◌, ◌*◌, ◌≤◌, ◌<◌, ◌≡◌, ◌≢◌, ◌⊎◌, true, false, none, some, String, arith, leb, if◌then◌else◌,
  length,
}
use oseye_plateforme.RuleEngine.Temporal.{
  Store, Rule, window_key, window_of, count_matches, max_window_entries, max_ttl, evaluate,
  applies_to, threshold_of,
}
use oseye_plateforme.RuleEngine.Temporal.Windows.{count_events-record_event}

module _ {E : Type 0} (second now : ℕ) (rule : Rule E) (os : String) (event : E)
    (entity_key : String) (s : Store E) where
  -- A temporal rule of at most an hour fires on an event of its platforms that matches exactly when
  -- the matching events of its window within the timeframe, with this one, reach the threshold, as
  -- long as the window is below its cap.
  pub evaluate_threshold :
      (seconds : ℕ)
      → applies_to second rule os ≡ true
      → rule.condition event ≡ some true
      → rule.timeframe ≡ some seconds
      → seconds ≤ max_ttl
      → length (window_of second (window_key rule.id entity_key) s) < max_window_entries
      → (evaluate second now rule os event entity_key s).1
        ≡ leb (threshold_of second rule) (
            count_matches now
              (seconds * second)
              rule.condition
              (window_of second (window_key rule.id entity_key) s)
            + 1)
  unfolding evaluate
  evaluate_threshold seconds on hit timed fits room =
      rw (on, hit, timed, evaluate)
        (rw (
          count_events-record_event now second (window_key rule.id entity_key) event s
            rule.condition seconds room fits hit))

  -- On every other branch the windows stay as they are: an event of another platform, one that
  -- does not match and one on which the condition raises fire no rule, and a rule with no
  -- timeframe fires at once.
  pub evaluate_untimed :
      (applies_to second rule os ≡ false)
        ⊎ ((rule.condition event ≢ some true) ⊎ (rule.timeframe ≡ none))
      → evaluate second now rule os event entity_key s ≡ (
        s,
        (if applies_to second rule os
            then elim (rule.condition event) [ some b ↦ b | none ↦ false ]
            else false),
      )
  unfolding evaluate
  evaluate_untimed h = ground arith

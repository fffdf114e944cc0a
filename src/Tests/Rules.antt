-- ===== src/Tests/Rules.antt =====
-- Rules parsed, merged, dispatched and counted as in server/oseye/rule_engine.
use oseye_plateforme.Prelude.{
  ℕ, ◌+◌, ◌≡◌, refl, Bool, true, false, Option, none, some, [], ◌∷◌, ◌++◌, String, arith, leb, ◌==◌,
  str_dec, Dict,
}
use oseye_plateforme.Prelude.Int.{pos}
use oseye_plateforme.RuleEngine.Temporal.{
  Store, Rule, window_key, window_of, count_matches, evaluate,
}
use oseye_plateforme.RuleEngine.Temporal.Threshold.{evaluate_threshold}
use oseye_plateforme.RuleEngine.Index as Index
use oseye_plateforme.RuleEngine.Index.Dispatch.{scan, evaluate-index_rules}
use oseye_plateforme.RuleEngine.Parser.{Python, RuleDefinition, parse_rule}

-- Two failed logins within ten seconds, on Linux.
abbrev brute_force : Rule ℕ
brute_force = record {
  id = "brute";
  platforms = "linux" ∷ [];
  timeframe = some 10;
  threshold = some 2;
  condition = λ e. some (e == 1);
}

abbrev one_failure : Store ℕ
one_failure = record { windows = ("brute::host", (95, 1) ∷ []) ∷ []; record_count = 1 }

evaluate_threshold_example :
    (evaluate 1 100 brute_force "linux" 1 "host" one_failure).1
    ≡ leb 2 (
        count_matches 100 10 brute_force.condition
          (window_of 1 (window_key "brute" "host") one_failure)
        + 1)
unfolding str_dec window_key
evaluate_threshold_example =
    evaluate_threshold 1 100 brute_force "linux" 1 "host" one_failure 10 refl refl refl
      (omega arith) (omega arith)

abbrev on_network : Index.Rule
on_network = record { id = "net"; enabled = true; categories = "network" ∷ [] }

abbrev on_all : Index.Rule
on_all = record { id = "all"; enabled = true; categories = [] }

abbrev fires_always : Index.Rule → ℕ → ℕ × Option Bool
fires_always rule n = (n + 1, some true)

evaluate-index_rules_example :
    Index.evaluate fires_always (Index.index_rules (on_network ∷ on_all ∷ []) []) "network" 0
    ≡ Index.try_rules fires_always
        (scan "" (on_network ∷ on_all ∷ []) ++ scan "network" (on_network ∷ on_all ∷ []))
        0
evaluate-index_rules_example =
    evaluate-index_rules fires_always (on_network ∷ on_all ∷ []) "network" 0

-- Values that are texts.
abbrev texts : Python String
texts = record {
  str = λ v. v;
  truthy = λ v. true;
  is_none = λ v. false;
  list_of = λ v. none;
  int = λ s. some (pos 60);
  strip = λ s. s;
}

abbrev rule_text : Dict String String
rule_text = ("id", "brute") ∷ ("condition", "event.type == 'login'") ∷ ("timeframe", "60") ∷ []

abbrev parsed : Option RuleDefinition
parsed = parse_rule texts rule_text "custom"

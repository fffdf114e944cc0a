-- ===== src/Policy/Signer.antt =====
-- RuleSigner of server/oseye/policy/rule_signer.py, and the budgets and autonomy levels of the
-- profiles. A percentage of the processor is in tenths. YAML, JSON and the signature are parameters.
use oseye_plateforme.Prelude.{
  get_or, ℕ, Option, none, some, List, [], ◌∷◌, ◌++◌, String, str_dec, Dict, lookup,
}

-- `ResourceBudget`
pub record Budget : Type 0 where
  pub max_rules : ℕ
  pub cpu_budget_tenths : ℕ
  pub buffer_mb : ℕ
  pub batch_size : ℕ
  pub budget_per_event_micros : ℕ
  pub max_correlation_groups : ℕ
  pub max_correlation_events : ℕ

abbrev pub budget_investigation : Budget
budget_investigation = record {
  max_rules = 100;
  cpu_budget_tenths = 20;
  buffer_mb = 100;
  batch_size = 1000;
  budget_per_event_micros = 200;
  max_correlation_groups = 2000;
  max_correlation_events = 20000;
}

abbrev pub budget_minimal : Budget
budget_minimal = record {
  max_rules = 20;
  cpu_budget_tenths = 5;
  buffer_mb = 20;
  batch_size = 500;
  budget_per_event_micros = 50;
  max_correlation_groups = 500;
  max_correlation_events = 5000;
}

abbrev pub budget_default : Budget
budget_default = record {
  max_rules = 50;
  cpu_budget_tenths = 10;
  buffer_mb = 50;
  batch_size = 1000;
  budget_per_event_micros = 100;
  max_correlation_groups = 1000;
  max_correlation_events = 10000;
}

abbrev pub profile_budget : Dict String Budget
profile_budget =
    ("investigation", budget_investigation)
    ∷ ("minimal", budget_minimal)
    ∷ ("stealth", budget_minimal)
    ∷ []

abbrev pub profile_autonomy : Dict String String
profile_autonomy =
    ("investigation", "always_act")
    ∷ ("compliance", "critical_high")
    ∷ ("workstation", "critical_only")
    ∷ ("desktop", "critical_only")
    ∷ ("laptop", "critical_only")
    ∷ ("server", "critical_only")
    ∷ ("webserver", "critical_only")
    ∷ ("database", "critical_only")
    ∷ ("fileserver", "critical_only")
    ∷ ("dns", "critical_only")
    ∷ ("mail", "critical_only")
    ∷ ("container", "critical_only")
    ∷ ("minimal", "log_only")
    ∷ ("stealth", "log_only")
    ∷ []

unfoldable pub budget_for_profile : String → Budget
budget_for_profile name = get_or (lookup str_dec name profile_budget) budget_default

unfoldable pub autonomy_for_profile : String → String
autonomy_for_profile name = get_or (lookup str_dec name profile_autonomy) "critical_only"

-- What a rule file gives: a list of rules, one rule, another value, or an exception.
pub data RuleFile (R : Type 0) : Type 0 where
  rule_list : List R → RuleFile R
  one_rule : R → RuleFile R
  other unreadable : RuleFile R

-- `_load_rules`, over the files in their order
unfoldable pub load_rules : {R : Type 0} → List (RuleFile R) → List R
load_rules [] = []
load_rules (rule_list rs ∷ files) = rs ++ load_rules files
load_rules (one_rule r ∷ files) = r ∷ load_rules files
load_rules (other ∷ files) = load_rules files
load_rules (unreadable ∷ files) = load_rules files

pub record RuleSet (R : Type 0) : Type 0 where
  pub version : ℕ
  pub rules : List R
  pub signature : Option String

-- The signer: the text that is signed, with `none` where `json.dumps` raises, and the signature by
-- the private key, if there is one.
pub record RuleSigner (R : Type 0) : Type 0 where
  pub canonical : ℕ → List R → Option String
  pub sign : Option (String → String)

abbrev pub sign_with : Option (String → String) → String → Option String
sign_with none text = none
sign_with (some sign) text = some (sign text)

-- `build_ruleset`, and its reading back; `none` is an exception.
unfoldable pub build_ruleset :
    {R : Type 0} → RuleSigner R → ℕ → List (RuleFile R) → Option (RuleSet R)
unfolding load_rules
build_ruleset s version files = elim (s.canonical version (load_rules files)) [
  | none ↦ none
  | some text ↦
      some
        (record { version = version; rules = load_rules files; signature = sign_with s.sign text })
]

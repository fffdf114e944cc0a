-- ===== src/Tests/Distributing.antt =====
-- A profile to every agent, through server/oseye/policy/engine.py.
use oseye_plateforme.Prelude.{
  ◌++◌, get_or, ℕ, ◌≡◌, refl, ite, true, false, Option, none, some, List, [], ◌∷◌, String, str_dec,
  All, lookup,
}
use oseye_plateforme.Policy.Signer.{
  RuleSet, RuleFile, rule_list, one_rule, unreadable, build_ruleset, load_rules,
}
use oseye_plateforme.Policy.{PolicyEngine, Moment, Broadcast, ok, injected, all_agents, push_to_all}
use oseye_plateforme.Policy.Everyone.{messages, verdict, push_to_all-reaches}
use oseye_plateforme.Policy.Silent.{push_to_all_unbuilt}

abbrev files : List (RuleFile ℕ)
files = rule_list (1 ∷ 2 ∷ []) ∷ unreadable ∷ one_rule 3 ∷ []

-- The bus refuses the topic of agent-2, and the clock goes on before it.
abbrev moments : String → Moment ℕ
moments cn = record {
  now = ite (str_dec cn "agent-2") 1701 1700;
  files = files;
  takes = ite (str_dec cn "agent-2") false true;
}

abbrev engine : Option String → PolicyEngine ℕ ℕ
engine text = record {
  profiles = ("server", 10) ∷ [];
  known_agents = "agent-1" ∷ "agent-2" ∷ [];
  default_profile = "server";
  rule_signer = some (record { canonical = λ version rules. text; sign = none });
}

abbrev rules : String → Option (RuleSet ℕ)
rules cn = some (record { version = (moments cn).now; rules = 1 ∷ 2 ∷ 3 ∷ []; signature = none })

abbrev redis : Option (List String)
redis = some ("agent-3" ∷ "agent-1" ∷ [])

push_to_all-reaches_example :
    (b : Broadcast ℕ ℕ) × (push_to_all moments redis "server" (engine (some "{}")) ≡ some b)
    × (b.sent ≡ messages moments "server" 10 rules (all_agents redis (engine (some "{}"))))
    × All
        (λ cn. lookup str_dec cn b.results ≡ some (verdict moments cn))
        ((engine (some "{}")).known_agents ++ get_or redis [])
unfolding str_dec injected build_ruleset load_rules
push_to_all-reaches_example =
    push_to_all-reaches moments "server" 10 redis rules (engine (some "{}")) refl
      (λ cn. ("{}", refl, refl))

-- A rule set that cannot be written as JSON.
push_to_all_unbuilt_example :
    (b : Broadcast ℕ ℕ) × (push_to_all moments redis "server" (engine none) ≡ some b)
    × (b.sent ≡ [])
    × All (λ cn. lookup str_dec cn b.results ≡ some ok) (all_agents redis (engine none))
unfolding str_dec injected build_ruleset load_rules
push_to_all_unbuilt_example =
    push_to_all_unbuilt moments "server" 10 redis (engine none) refl (λ cn. refl)

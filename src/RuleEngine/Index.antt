-- ===== src/RuleEngine/Index.antt =====
-- The dispatch by category of server/oseye/rule_engine/engine.py, and the merge of the rules of
-- server/oseye/rule_engine/parser.py. The evaluator of
-- one rule, with the state of its windows, is a parameter here.
pub mod Dispatch
use oseye_plateforme.Prelude.{
  Bool, true, false, not, Option, none, some, List, [], ◌∷◌, ◌++◌, map, String, if◌then◌else◌,
  str_dec, Dict, lookup, insert,
}

-- The parts of a rule that the index reads.
pub record Rule : Type 0 where
  pub id : String
  pub enabled : Bool
  pub categories : List String

-- `_index`: the rules under each category, and under "" those for every category.
abbrev pub Index : Type 0
Index = Dict String (List Rule)

abbrev pub or_empty : Option (List Rule) → List Rule
or_empty none = []
or_empty (some rs) = rs

-- `index.get(category, _EMPTY)`
abbrev pub bucket : String → Index → List Rule
bucket category index = or_empty (lookup str_dec category index)

-- `index[category].append(rule)` on a `defaultdict`
unfoldable pub append_rule : String → Rule → Index → Index
append_rule category rule index = insert str_dec category (bucket category index ++ rule ∷ []) index

unfoldable pub append_to_each : List String → Rule → Index → Index
append_to_each [] rule index = index
append_to_each (c ∷ cs) rule index = append_to_each cs rule (append_rule c rule index)

-- The index keys of a rule: none if it is disabled, "" if it has no categories.
abbrev pub index_keys : Rule → List String
index_keys rule =
    if not rule.enabled then [] else elim rule.categories [ [] ↦ "" ∷ [] | c ∷ cs ↦ c ∷ cs ]

-- The loop of `_load` and `reload`.
unfoldable pub index_rules : List Rule → Index → Index
index_rules [] index = index
index_rules (rule ∷ rules) index = index_rules rules (append_to_each (index_keys rule) rule index)

-- The candidates of `evaluate` for an event of the category.
unfoldable pub candidates : Index → String → List Rule
candidates index category = bucket "" index ++ bucket category index

-- The rules that match, after the state of the sliding windows.
pub record Outcome {ℓ} (S : Type ℓ) : Type ℓ where
  pub windows : S
  pub matches : List Rule

-- `matches.append(…)` if the rule fires; a rule that raises is passed over.
abbrev pub report : Rule → Option Bool → List Rule → List Rule
report rule (some true) matches = rule ∷ matches
report rule (some false) matches = matches
report rule none matches = matches

-- The loop of `evaluate`: `fires` runs the evaluator on the event, with `none` for an exception.
unfoldable pub try_rules {ℓ} :
    {S : Type ℓ} → (Rule → S → S × Option Bool) → List Rule → S → Outcome S
try_rules fires [] windows = record { windows = windows; matches = [] }
try_rules fires (rule ∷ rules) windows =
    let answer = fires rule windows in
    let rest = try_rules fires rules answer.0 in
    record { windows = rest.windows; matches = report rule answer.1 rest.matches }

unfoldable pub evaluate {ℓ} :
    {S : Type ℓ} → (Rule → S → S × Option Bool) → Index → String → S → Outcome S
evaluate fires index category windows = try_rules fires (candidates index category) windows

-- The loops of `load_all_rules`: each rule goes under its identifier.
unfoldable pub by_id : List Rule → Dict String Rule → Dict String Rule
by_id [] d = d
by_id (rule ∷ rules) d = by_id rules (insert str_dec rule.id rule d)

abbrev pub merged : List Rule → List Rule → Dict String Rule
merged builtin custom = by_id custom (by_id builtin [])

-- `list(by_id.values())`
unfoldable pub load_all_rules : List Rule → List Rule → List Rule
load_all_rules builtin custom = map (λ e. e.1) (merged builtin custom)

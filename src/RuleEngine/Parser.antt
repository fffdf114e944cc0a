-- ===== src/RuleEngine/Parser.antt =====
-- `_parse_rule` of server/oseye/rule_engine/parser.py. The conversions of Python values and texts
-- are a parameter.
pub mod Valid
use oseye_plateforme.Prelude.{
  ite, Bool, true, false, not, Option, none, some, List, [], ◌∷◌, map, String, if◌then◌else◌,
  str_dec, elem, Dict, lookup,
}
use oseye_plateforme.Prelude.Int.{ℤ, pos, negsuc, is_positive}

-- What the parser uses of Python's values: `V` is `object`.
pub record Python (V : Type 0) : Type 0 where
  pub str : V → String
  pub truthy : V → Bool
  pub is_none : V → Bool
  -- The elements, if the value is a list.
  pub list_of : V → Option (List V)
  -- `int(s)`, or `none` for a `ValueError`
  pub int : String → Option ℤ
  pub strip : String → String

pub record RuleDefinition : Type 0 where
  pub id : String
  pub name : String
  pub enabled : Bool
  pub severity : String
  pub condition : String
  pub timeframe : Option ℤ
  pub threshold : Option ℤ
  pub actions : List String
  pub tags : List String
  pub mitre : List String
  pub platforms : List String
  pub categories : List String
  pub explanation : String
  pub source : String
  pub entity_key : Option String
  pub rule_type : String

abbrev pub valid_severities : List String
valid_severities = "info" ∷ "low" ∷ "medium" ∷ "high" ∷ "critical" ∷ []

abbrev pub valid_rule_types : List String
valid_rule_types = "anomaly" ∷ "surveillance" ∷ []

unfoldable pub known_severity : String → Bool
known_severity s = elem str_dec s valid_severities

unfoldable pub known_type : String → Bool
known_type t = elem str_dec t valid_rule_types

-- An integer that is absent, or was read.
pub data Number : Type 0 where
  invalid : Number
  read : Option ℤ → Number

abbrev pub out_of_range : Option ℤ → Bool
out_of_range none = false
out_of_range (some z) = not (is_positive z)

module _ {V : Type 0} (py : Python V) where
  -- `str(data.get(key, default))`
  abbrev pub text_or : String → Option V → String
  text_or default none = default
  text_or default (some v) = py.str v

  abbrev pub flag_or : Bool → Option V → Bool
  flag_or default none = default
  flag_or default (some v) = py.truthy v

  abbrev pub strings : List V → List String
  strings vs = map py.str vs

  abbrev pub strings_if_list : Option (List V) → List String
  strings_if_list none = []
  strings_if_list (some vs) = strings vs

  -- `[str(x) for x in (raw if isinstance(raw, list) else [])]`
  abbrev pub list_or_empty : Option V → List String
  list_or_empty none = []
  list_or_empty (some v) = strings_if_list (py.list_of v)

  abbrev pub strings_or_one : V → Option (List V) → List String
  strings_or_one v none = py.str v ∷ []
  strings_or_one v (some vs) = strings vs

  abbrev pub actions_of : Option V → List String
  actions_of none = "ALERT" ∷ []
  actions_of (some v) = strings_or_one v (py.list_of v)

  abbrev pub number_read : Option ℤ → Number
  number_read none = invalid
  number_read (some z) = read (some z)

  -- `int(str(raw)) if raw is not None else None`
  abbrev pub number_of : Option V → Number
  number_of none = read none
  number_of (some v) = if py.is_none v then read none else number_read (py.int (py.str v))

  abbrev pub entity_key_of : Option V → Option String
  entity_key_of none = none
  entity_key_of (some v) = if py.truthy v then some (py.str v) else none

  abbrev pub rule_type_of : String → String
  rule_type_of t = if known_type t then t else "anomaly"

  -- The checks of the two numbers, and the rule.
  unfoldable pub checked : RuleDefinition → Option RuleDefinition
  checked rule =
      if out_of_range rule.timeframe
      then none
      else if out_of_range rule.threshold
      then none
      else some rule

  -- From the conversion of the two numbers on.
  unfoldable pub numbered : Number → Number → RuleDefinition → Option RuleDefinition
  numbered invalid threshold rule = none
  numbered (read timeframe) invalid rule = none
  numbered (read timeframe) (read threshold) rule =
      checked (record rule { timeframe = timeframe; threshold = threshold })

  -- The rule of the fields, its two numbers not read yet.
  abbrev pub fields : Dict String V → String → String → RuleDefinition
  fields d id source = record {
    id = id;
    name = (text_or id (lookup str_dec "name" d));
    enabled = (flag_or true (lookup str_dec "enabled" d));
    severity = (text_or "medium" (lookup str_dec "severity" d));
    condition = (py.strip (text_or "" (lookup str_dec "condition" d)));
    timeframe = none;
    threshold = none;
    actions = (actions_of (lookup str_dec "actions" d));
    tags = (list_or_empty (lookup str_dec "tags" d));
    mitre = (list_or_empty (lookup str_dec "mitre" d));
    platforms = (list_or_empty (lookup str_dec "platforms" d));
    categories = (list_or_empty (lookup str_dec "categories" d));
    explanation = (text_or "" (lookup str_dec "explanation" d));
    source = source;
    entity_key = (entity_key_of (lookup str_dec "entity_key" d));
    rule_type = (rule_type_of (text_or "anomaly" (lookup str_dec "rule_type" d)));
  }

  -- The checks of the severity and the condition.
  unfoldable pub screened : Number → Number → RuleDefinition → Option RuleDefinition
  screened timeframe threshold rule =
      if known_severity rule.severity
      then ite (str_dec rule.condition "") none (numbered timeframe threshold rule)
      else none

  -- `_parse_rule` from the identifier on; a missing identifier is a `KeyError`.
  unfoldable pub identified : Dict String V → String → Option V → Option RuleDefinition
  identified d source none = none
  identified d source (some v) =
      screened (number_of (lookup str_dec "timeframe" d)) (number_of (lookup str_dec "threshold" d))
        (fields d (py.str v) source)

  unfoldable pub parse_rule : Dict String V → String → Option RuleDefinition
  parse_rule d source = identified d source (lookup str_dec "id" d)

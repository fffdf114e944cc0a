-- ===== src/RuleEngine/Parser/Valid.antt =====
-- What `_parse_rule` of server/oseye/rule_engine/parser.py lets through.
use oseye_plateforme.Prelude.{
  ◌≡◌, refl, ◌≢◌, inl, inr, true, false, Option, none, some, String, arith, Bool-cases, str_dec,
  Dict, lookup,
}
use oseye_plateforme.RuleEngine.Parser.{
  Python, RuleDefinition, known_severity, known_type, Number, invalid, read, out_of_range,
  rule_type_of, checked, numbered, fields, text_or, number_of, screened, identified, parse_rule,
}

-- A rule that the engine can run: a known severity and type, a condition, and a time frame and a
-- threshold that are positive where they are given.
abbrev pub IsRunnable : RuleDefinition → Type 0
IsRunnable rule =
    (known_severity rule.severity ≡ true)
    × (rule.condition ≢ "")
    × (out_of_range rule.timeframe ≡ false)
    × (out_of_range rule.threshold ≡ false)
    × (known_type rule.rule_type ≡ true)

anomaly_known : known_type "anomaly" ≡ true
unfolding known_type str_dec
anomaly_known = refl

module _ {V : Type 0} (py : Python V) where
  rule_type_of_known : (t : String) → known_type (rule_type_of py t) ≡ true
  rule_type_of_known t = elim (Bool-cases (known_type t)) [
    | inl known ↦ ground (arith, anomaly_known)
    | inr unknown ↦ ground (arith, anomaly_known)
  ]

  numbered-IsRunnable :
      (timeframe threshold : Number) (rule out : RuleDefinition)
      → known_severity rule.severity ≡ true
      → rule.condition ≢ ""
      → known_type rule.rule_type ≡ true
      → numbered py timeframe threshold rule ≡ some out
      → IsRunnable out
  unfolding numbered checked
  numbered-IsRunnable invalid b rule out s c t h = ground arith
  numbered-IsRunnable (read a) invalid rule out s c t h = ground arith
  numbered-IsRunnable (read a) (read b) rule out s c t h = ground arith

  screened-IsRunnable :
      (timeframe threshold : Number) (rule out : RuleDefinition)
      → known_type rule.rule_type ≡ true
      → screened py timeframe threshold rule ≡ some out
      → IsRunnable out
  unfolding screened
  screened-IsRunnable a b rule out t h = elim (str_dec rule.condition "") [
    | yes e ↦ ground arith
    | no ne ↦ ground (arith, numbered-IsRunnable a b rule out)
  ]

  identified-IsRunnable :
      (d : Dict String V) (source : String) (id : Option V) (out : RuleDefinition)
      → identified py d source id ≡ some out
      → IsRunnable out
  unfolding identified
  identified-IsRunnable d source none out h = ground arith
  identified-IsRunnable d source (some v) out h =
      screened-IsRunnable (number_of py (lookup str_dec "timeframe" d))
        (number_of py (lookup str_dec "threshold" d)) (fields py d (py.str v) source) out
        (rule_type_of_known (text_or py "anomaly" (lookup str_dec "rule_type" d))) h

  -- A rule that the parser returns has a known severity and a known type, a condition that is not
  -- empty, and a time frame and a threshold that are positive where they are given.
  pub parse_rule-IsRunnable :
      (d : Dict String V) (source : String) (out : RuleDefinition)
      → parse_rule py d source ≡ some out
      → IsRunnable out
  unfolding parse_rule
  parse_rule-IsRunnable d source out h =
      identified-IsRunnable d source (lookup str_dec "id" d) out h

-- ===== src/Policy/Built.antt =====
-- The rule set that PolicyEngine.push_to_agent of server/oseye/policy/engine.py sends, described
-- apart from RuleSigner.build_ruleset.
use mathlib.Core.Option
use oseye_plateforme.Prelude.{
  ◌≡◌, refl, sym, ap, ◌∙◌, Option, none, some, List, [], ◌∷◌, ◌++◌, String,
}
use oseye_plateforme.Policy.Signer.{
  RuleSet, RuleFile, rule_list, one_rule, other, unreadable, RuleSigner, load_rules, build_ruleset,
  sign_with,
}
use oseye_plateforme.Policy.{Moment, injected}

-- The rules of a file.
abbrev pub rules_of : {R : Type 0} → RuleFile R → List R
rules_of (rule_list rs) = rs
rules_of (one_rule r) = r ∷ []
rules_of other = []
rules_of unreadable = []

-- The rules of all files.
abbrev pub all_rules : {R : Type 0} → List (RuleFile R) → List R
all_rules [] = []
all_rules (file ∷ files) = rules_of file ++ all_rules files

load_rules_lem : {R : Type 0} (files : List (RuleFile R)) → load_rules files ≡ all_rules files
unfolding load_rules
load_rules_lem [] = refl
load_rules_lem (rule_list rs ∷ files) = ap (λ l. rs ++ l) (load_rules_lem files)
load_rules_lem (one_rule r ∷ files) = ap (λ l. r ∷ l) (load_rules_lem files)
load_rules_lem (other ∷ files) = load_rules_lem files
load_rules_lem (unreadable ∷ files) = load_rules_lem files

-- Without a signer there is no rule set; a signer gives one of all rules, which it signs when it
-- has a key, provided that they can be written down.
abbrev pub IsBuilt : {R : Type 0} → Option (RuleSigner R) → Moment R → Option (RuleSet R) → Type 0
IsBuilt none m rs = rs ≡ none
IsBuilt (some s) m rs =
    (text : String) × (s.canonical m.now (all_rules m.files) ≡ some text)
    × (rs
        ≡ some (record {
          version = m.now;
          rules = all_rules m.files;
          signature = Option.map (λ sign. sign text) s.sign;
        }))

sign_with_lem :
    (sign : Option (String → String)) (text : String)
    → sign_with sign text ≡ Option.map (λ s. s text) sign
sign_with_lem none text = refl
sign_with_lem (some s) text = refl

pub injected_lem :
    {R : Type 0} (signer : Option (RuleSigner R)) (m : Moment R) (rs : Option (RuleSet R))
    → IsBuilt signer m rs
    → injected signer m.now m.files ≡ some rs
unfolding injected build_ruleset
injected_lem none m rs e = ap some (sym e)
injected_lem (some s) m rs (text, written, e) =
    rw (ap (s.canonical m.now) (load_rules_lem m.files) ∙ written, injected, build_ruleset)
      (ap some (
        (λ i. some (record {
          version = m.now;
          rules = load_rules_lem m.files i;
          signature = sign_with_lem s.sign text i;
        }))
        ∙ sym e))

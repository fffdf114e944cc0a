-- ===== src/RuleEngine/Index/Dispatch.antt =====
-- The index of server/oseye/rule_engine/engine.py finds the rules that a full scan finds.
use oseye_plateforme.Prelude.{
  ◌≡◌, refl, sym, ap, ◌∙◌, ite, if_pos, if_neg, not, if◌then◌else◌, true, false, Bool, Option, none,
  some, List, [], ◌∷◌, ◌++◌, String, arith, str_dec, Dict, lookup, insert, IsDict,
  lookup-insert_self, lookup-insert_ne, insert-IsDict,
}
use mathlib.Core.Path.{ap₂}
use mathlib.Core.List.{append_assoc, append-nil}
use oseye_plateforme.RuleEngine.Index.{
  Rule, Index, or_empty, bucket, append_rule, append_to_each, index_keys, index_rules, candidates,
  try_rules, evaluate, by_id, merged,
}

added :
    (c k : String) (rule : Rule) (index : Index)
    → c ≡ k
    → bucket c (append_rule k rule index) ≡ bucket c index ++ (ite (str_dec c k) (rule ∷ []) [])
unfolding append_rule
added c k rule index same =
    ap or_empty (
      ap (λ j. lookup str_dec j (insert str_dec k (bucket k index ++ rule ∷ []) index)) same
      ∙ lookup-insert_self str_dec k (bucket k index ++ rule ∷ []) index)
    ∙ ap₂ (λ xs ys. xs ++ ys) (ap (λ j. bucket j index) (sym same))
        (sym (if_pos (str_dec c k) same (rule ∷ []) []))

bucket-append_rule :
    (c k : String) (rule : Rule) (index : Index)
    → bucket c (append_rule k rule index) ≡ bucket c index ++ (ite (str_dec c k) (rule ∷ []) [])
unfolding append_rule
bucket-append_rule c k rule index = elim (str_dec c k) [
  | yes same ↦ added c k rule index same
  | no other ↦
      ap or_empty (lookup-insert_ne str_dec c k (bucket k index ++ rule ∷ []) index other)
      ∙ sym (append-nil (bucket c index))
      ∙ ap (λ ys. bucket c index ++ ys) (sym (if_neg (str_dec c k) other (rule ∷ []) []))
]

-- A copy of the rule for each time that the category is among the keys.
abbrev copies : String → List String → Rule → List Rule
copies c [] rule = []
copies c (k ∷ ks) rule = (ite (str_dec c k) (rule ∷ []) []) ++ copies c ks rule

bucket-append_to_each :
    (c : String) (ks : List String) (rule : Rule) (index : Index)
    → bucket c (append_to_each ks rule index) ≡ bucket c index ++ copies c ks rule
unfolding append_to_each
bucket-append_to_each c [] rule index = sym (append-nil (bucket c index))
bucket-append_to_each c (k ∷ ks) rule index =
    bucket-append_to_each c ks rule (append_rule k rule index)
    ∙ ap (λ b. b ++ copies c ks rule) (bucket-append_rule c k rule index)
    ∙ append_assoc (bucket c index) _ (copies c ks rule)

-- How a full scan tries one rule for a category: not at all if it is disabled; under "" if it names
-- no category; otherwise once for each time that it names the category.
abbrev pub tries : String → Rule → List Rule
tries c rule =
    if rule.enabled
    then elim rule.categories [
      | [] ↦ ite (str_dec c "") (rule ∷ []) []
      | k ∷ ks ↦ copies c (k ∷ ks) rule
    ]
    else []

-- The full scan of the loaded rules.
abbrev pub scan : String → List Rule → List Rule
scan c [] = []
scan c (rule ∷ rules) = tries c rule ++ scan c rules

copies-index_keys : (c : String) (rule : Rule) → copies c (index_keys rule) rule ≡ tries c rule
copies-index_keys c rule = keys_of rule.enabled rule.categories
  where
    keys_of :
        (enabled : Bool) (names : List String)
        → copies c (if not enabled then [] else elim names [ [] ↦ "" ∷ [] | k ∷ ks ↦ k ∷ ks ]) rule
          ≡ (if enabled
              then elim names [
                | [] ↦ ite (str_dec c "") (rule ∷ []) []
                | k ∷ ks ↦ copies c (k ∷ ks) rule
              ]
              else [])
    keys_of false names = refl
    keys_of true [] = append-nil _
    keys_of true (k ∷ ks) = refl

bucket-index_rules :
    (c : String) (rules : List Rule) (index : Index)
    → bucket c (index_rules rules index) ≡ bucket c index ++ scan c rules
unfolding index_rules
bucket-index_rules c [] index = sym (append-nil (bucket c index))
bucket-index_rules c (rule ∷ rules) index =
    bucket-index_rules c rules (append_to_each (index_keys rule) rule index)
    ∙ ap (λ b. b ++ scan c rules) (bucket-append_to_each c (index_keys rule) rule index)
    ∙ append_assoc (bucket c index) (copies c (index_keys rule) rule) (scan c rules)
    ∙ ap (λ l. bucket c index ++ (l ++ scan c rules)) (copies-index_keys c rule)

candidates-index_rules :
    (rules : List Rule) (category : String)
    → candidates (index_rules rules []) category ≡ scan "" rules ++ scan category rules
unfolding candidates
candidates-index_rules rules category =
    ap₂ (λ xs ys. xs ++ ys) (bucket-index_rules "" rules []) (bucket-index_rules category rules [])

-- What the engine reports for an event, and the state it leaves, is what a scan of all loaded rules
-- gives, disabled ones left out: first those without categories, or with the empty one, then those
-- that name the event's category, in the order of loading, each once for each time that it names it.
pub evaluate-index_rules {ℓ} :
    {S : Type ℓ} (fires : Rule → S → S × Option Bool) (rules : List Rule) (category : String)
    (windows : S)
    → evaluate fires (index_rules rules []) category windows
      ≡ try_rules fires (scan "" rules ++ scan category rules) windows
unfolding evaluate
evaluate-index_rules fires rules category windows =
    ap (λ rs. try_rules fires rs windows) (candidates-index_rules rules category)

-- The last rule of the list that has the identifier.
abbrev last_named : String → List Rule → Option Rule
last_named i [] = none
last_named i (rule ∷ rules) = elim (last_named i rules) [
  | none ↦ ite (str_dec i rule.id) (some rule) none
  | some r ↦ some r
]

abbrev or_else : Option Rule → Option Rule → Option Rule
or_else none o = o
or_else (some r) o = some r

or_else-none : (o : Option Rule) → or_else o none ≡ o
or_else-none none = refl
or_else-none (some r) = refl

lookup-by_id :
    (i : String) (rules : List Rule) (d : Dict String Rule)
    → lookup str_dec i (by_id rules d) ≡ or_else (last_named i rules) (lookup str_dec i d)
unfolding by_id
lookup-by_id i [] d = refl
lookup-by_id i (rule ∷ rules) d = ground (
  arith,
  lookup-by_id i rules (insert str_dec rule.id rule d),
  lookup-insert_self str_dec rule.id rule d,
  lookup-insert_ne str_dec i rule.id rule d,
)

by_id-IsDict :
    (rules : List Rule) (d : Dict String Rule) → IsDict str_dec d → IsDict str_dec (by_id rules d)
unfolding by_id
by_id-IsDict [] d h = h
by_id-IsDict (rule ∷ rules) d h =
    by_id-IsDict rules (insert str_dec rule.id rule d) (insert-IsDict str_dec rule.id rule d h)

-- After the merge, each identifier is listed once, and it names the last custom rule that has it,
-- or else the last builtin rule that has it.
pub lookup-merged :
    (builtin custom : List Rule) (i : String)
    → IsDict str_dec (merged builtin custom)
      × (lookup str_dec i (merged builtin custom)
          ≡ or_else (last_named i custom) (last_named i builtin))
lookup-merged builtin custom i = (
  by_id-IsDict custom (by_id builtin []) (by_id-IsDict builtin [] tt),
  lookup-by_id i custom (by_id builtin [])
      ∙ ap (or_else (last_named i custom))
          (lookup-by_id i builtin [] ∙ or_else-none (last_named i builtin)),
)

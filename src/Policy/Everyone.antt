-- ===== src/Policy/Everyone.antt =====
-- Whom PolicyEngine.push_to_all of server/oseye/policy/engine.py reaches.
use oseye_plateforme.Prelude.{
  get_or, ◌≡◌, refl, sym, ap, ◌∙◌, Bool, true, false, Option, some, List, [], ◌∷◌, ◌++◌, map,
  String, if◌then◌else◌, str_dec, keep, All, Dict, lookup, insert, lookup-insert_self,
  lookup-insert_ne,
}
use mathlib.Core.List.{append-nil, append_assoc}
use oseye_plateforme.Policy.Signer.{
  RuleSet, profile_autonomy, profile_budget, budget_default, autonomy_for_profile,
  budget_for_profile,
}
use oseye_plateforme.Policy.Agents.{all_agents-All}
use oseye_plateforme.Policy.Built.{IsBuilt, injected_lem}
use oseye_plateforme.Policy.{
  Payload, PolicyEngine, Moment, publish_failed, Run, injected, new_payload, publish_payload,
  push_profile, push_to_agent, Result, ok, error, result_of, Broadcast, push_each, all_agents,
  push_to_all,
}

-- What is said of an agent.
abbrev pub verdict : {R : Type 0} → (String → Moment R) → String → Result
verdict moments cn = if (moments cn).takes then ok else error publish_failed

module _ {P R : Type 0} (moments : String → Moment R) (name : String) (profile : P) where
  -- What an agent is sent: the profile, the autonomy level and the budget of its name, and the
  -- rule set.
  abbrev pub message : Option (RuleSet R) → Payload P R
  message rs = record {
    profile = profile;
    autonomy = get_or (lookup str_dec name profile_autonomy) "critical_only";
    budget = get_or (lookup str_dec name profile_budget) budget_default;
    role = name;
    rule_set = rs;
  }

  -- The messages to the agents whose message the bus takes.
  abbrev pub messages : (String → Option (RuleSet R)) → List String → List (String × Payload P R)
  messages rs cns = map (λ cn. (cn, message (rs cn))) (keep (λ cn. (moments cn).takes) cns)

  -- The parts of the engine that a push leaves alone.
  pub record Loads (o : String → Option (Option (RuleSet R))) (e : PolicyEngine P R) : Type 0 where
    pub found : lookup str_dec name e.profiles ≡ some profile
    pub built : (cn : String) → injected e.rule_signer (moments cn).now (moments cn).files ≡ o cn

  publish-Loads :
      (o : String → Option (Option (RuleSet R))) (takes : Bool) (cn : String) (p : Payload P R)
      (e : PolicyEngine P R)
      → Loads o e
      → Loads o (publish_payload takes cn p e).engine
  unfolding publish_payload
  publish-Loads o true cn p e h = record { found = h.found; built = h.built }
  publish-Loads o false cn p e h = h

  push_lem :
      (rs : String → Option (RuleSet R)) (cn : String) (e : PolicyEngine P R)
      → Loads (λ a. some (rs a)) e
      → push_to_agent (moments cn) cn name e
        ≡ publish_payload (moments cn).takes cn (message (rs cn)) e
  unfolding push_to_agent push_profile new_payload autonomy_for_profile budget_for_profile
  push_lem rs cn e h =
      rw (h.found, push_to_agent)
        (ap (λ o. push_profile (moments cn) cn name profile o e) (h.built cn))

  publish-sent :
      (takes : Bool) (cn : String) (p : Payload P R) (e : PolicyEngine P R)
      → ((publish_payload takes cn p e).sent ≡ (if takes then (cn, p) ∷ [] else []))
        × (result_of (publish_payload takes cn p e).ending
            ≡ (if takes then ok else error publish_failed))
  unfolding publish_payload
  publish-sent true cn p e = (refl, refl)
  publish-sent false cn p e = (refl, refl)

  -- One round of the loop.
  unfoldable pub after : String → Broadcast P R → Broadcast P R
  after cn b =
      let r = push_to_agent (moments cn) cn name b.engine in
      record {
        engine = r.engine;
        sent = b.sent ++ r.sent;
        results = insert str_dec cn (result_of r.ending) b.results;
      }

  after-Loads :
      (rs : String → Option (RuleSet R)) (cn : String) (b : Broadcast P R)
      → Loads (λ a. some (rs a)) b.engine
      → Loads (λ a. some (rs a)) (after cn b).engine
  unfolding after
  after-Loads rs cn b h =
      rw (push_lem rs cn b.engine h)
        (publish-Loads (λ a. some (rs a)) (moments cn).takes cn (message (rs cn)) b.engine h)

  after-sent :
      (rs : String → Option (RuleSet R)) (cn : String) (b : Broadcast P R)
      → Loads (λ a. some (rs a)) b.engine
      → (after cn b).sent
        ≡ b.sent ++ (if (moments cn).takes then (cn, message (rs cn)) ∷ [] else [])
  unfolding after
  after-sent rs cn b h =
      ap (λ (r : Run P R). b.sent ++ r.sent) (push_lem rs cn b.engine h)
      ∙ ap (λ l. b.sent ++ l) (publish-sent (moments cn).takes cn (message (rs cn)) b.engine).0

  after-results :
      (rs : String → Option (RuleSet R)) (cn : String) (b : Broadcast P R)
      → Loads (λ a. some (rs a)) b.engine
      → (after cn b).results ≡ insert str_dec cn (verdict moments cn) b.results
  unfolding after
  after-results rs cn b h =
      ap (λ (r : Run P R). insert str_dec cn (result_of r.ending) b.results)
        (push_lem rs cn b.engine h)
      ∙ ap (λ v. insert str_dec cn v b.results)
          (publish-sent (moments cn).takes cn (message (rs cn)) b.engine).1

  messages_head :
      (rs : String → Option (RuleSet R)) (cn : String) (cns : List String)
      → (if (moments cn).takes then (cn, message (rs cn)) ∷ [] else []) ++ messages rs cns
        ≡ messages rs (cn ∷ cns)
  messages_head rs cn cns =
      elim (moments cn).takes
        as (λ t.
          (if t then (cn, message (rs cn)) ∷ [] else []) ++ messages rs cns
          ≡ map (λ c. (c, message (rs c)))
              (if t
                then cn ∷ keep (λ c. (moments c).takes) cns
                else keep (λ c. (moments c).takes) cns)) [ true ↦ refl | false ↦ refl ]

  push_each-sent :
      (rs : String → Option (RuleSet R)) (cns : List String) (b : Broadcast P R)
      → Loads (λ a. some (rs a)) b.engine
      → (push_each moments name cns b).sent ≡ b.sent ++ messages rs cns
  unfolding push_each after
  push_each-sent rs [] b h = sym (append-nil b.sent)
  push_each-sent rs (cn ∷ cns) b h =
      push_each-sent rs cns (after cn b) (after-Loads rs cn b h)
      ∙ ap (λ l. l ++ messages rs cns) (after-sent rs cn b h)
      ∙ append_assoc b.sent _ (messages rs cns)
      ∙ ap (λ l. b.sent ++ l) (messages_head rs cn cns)

  reported :
      (asked cn : String) (results : Dict String Result)
      → lookup str_dec asked results ≡ some (verdict moments asked)
      → lookup str_dec asked (insert str_dec cn (verdict moments cn) results)
        ≡ some (verdict moments asked)
  reported asked cn results e = elim (str_dec asked cn) [
    | yes same ↦
        ap (λ c. lookup str_dec c (insert str_dec cn (verdict moments cn) results)) same
        ∙ lookup-insert_self str_dec cn (verdict moments cn) results
        ∙ ap (λ c. some (verdict moments c)) (sym same)
    | no other ↦ lookup-insert_ne str_dec asked cn (verdict moments cn) results other ∙ e
  ]

  -- An agent that was reached before is reported in the same way again.
  push_each-keeps :
      (rs : String → Option (RuleSet R)) (asked : String) (cns : List String) (b : Broadcast P R)
      → Loads (λ a. some (rs a)) b.engine
      → lookup str_dec asked b.results ≡ some (verdict moments asked)
      → lookup str_dec asked (push_each moments name cns b).results ≡ some (verdict moments asked)
  unfolding push_each after
  push_each-keeps rs asked [] b h e = e
  push_each-keeps rs asked (cn ∷ cns) b h e =
      push_each-keeps rs asked cns (after cn b) (after-Loads rs cn b h) (
        ap (λ (d : Dict String Result). lookup str_dec asked d) (after-results rs cn b h)
        ∙ reported asked cn b.results e)

  push_each-results :
      (rs : String → Option (RuleSet R)) (cns : List String) (b : Broadcast P R)
      → Loads (λ a. some (rs a)) b.engine
      → All
          (λ cn.
            lookup str_dec cn (push_each moments name cns b).results ≡ some (verdict moments cn))
          cns
  unfolding push_each after
  push_each-results rs [] b h = tt
  push_each-results rs (cn ∷ cns) b h = (
    push_each-keeps rs cn cns (after cn b) (after-Loads rs cn b h) (
        ap (λ (d : Dict String Result). lookup str_dec cn d) (after-results rs cn b h)
        ∙ lookup-insert_self str_dec cn (verdict moments cn) b.results),
    push_each-results rs cns (after cn b) (after-Loads rs cn b h),
  )

  -- With the profile loaded and, for each agent, a rule set that can be built or no signer:
  -- push_to_all sends to every agent whose message the bus takes, in the order of the set, the
  -- profile, the autonomy level and the budget of its name, and the rule set of all rules
  -- signed at that moment, and its result for each agent that the engine knows or Redis lists
  -- is ok or the error, as the bus took the message or not.
  pub push_to_all-reaches :
      (redis : Option (List String)) (rs : String → Option (RuleSet R)) (e : PolicyEngine P R)
      → lookup str_dec name e.profiles ≡ some profile
      → ((cn : String) → IsBuilt e.rule_signer (moments cn) (rs cn))
      → (b : Broadcast P R) × (push_to_all moments redis name e ≡ some b)
        × (b.sent ≡ messages rs (all_agents redis e))
        × All
            (λ cn. lookup str_dec cn b.results ≡ some (verdict moments cn))
            (e.known_agents ++ get_or redis [])
  unfolding push_to_all
  push_to_all-reaches redis rs e found built =
      let b : Broadcast P R = record { engine = e; sent = []; results = [] } in
      let loads : Loads (λ a. some (rs a)) e = record {
        found = found;
        built = λ cn. injected_lem e.rule_signer (moments cn) (rs cn) (built cn);
      } in
      (
        push_each moments name (all_agents redis e) b,
        rw found refl,
        push_each-sent rs (all_agents redis e) b loads,
        all_agents-All _ redis e (push_each-results rs (all_agents redis e) b loads),
      )

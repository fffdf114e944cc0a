-- ===== src/Policy.antt =====
-- PolicyEngine of server/oseye/policy/engine.py. The set of the connected agents is a list without
-- repetitions.
pub mod Signer
pub mod Built
pub mod Agents
pub mod Everyone
pub mod Silent
use oseye_plateforme.Prelude.{
  ℕ, ite, Bool, true, false, Option, none, some, List, [], ◌∷◌, ◌++◌, String, if◌then◌else◌,
  str_dec, elem, Dict, lookup, contains, insert,
}
use oseye_plateforme.Policy.Signer.{
  Budget, budget_for_profile, autonomy_for_profile, RuleFile, RuleSet, RuleSigner, build_ruleset,
}

-- `payload_data`
pub record Payload (P R : Type 0) : Type 0 where
  pub profile : P
  pub autonomy : String
  pub budget : Budget
  pub role : String
  pub rule_set : Option (RuleSet R)

pub record PolicyEngine (P R : Type 0) : Type 0 where
  pub profiles : Dict String P
  pub known_agents : List String
  pub default_profile : String
  pub rule_signer : Option (RuleSigner R)

-- What the surroundings give when an agent is served: the clock, the rule files, and whether the
-- bus takes the message.
pub record Moment (R : Type 0) : Type 0 where
  pub now : ℕ
  pub files : List (RuleFile R)
  pub takes : Bool

-- How a call ends: it returns, or it raises.
pub data Ending : Type 0 where
  returned unknown_profile publish_failed default_missing : Ending

-- The engine, the messages with their agents, and the ending.
pub record Run (P R : Type 0) : Type 0 where
  pub engine : PolicyEngine P R
  pub sent : List (String × Payload P R)
  pub ending : Ending

-- `set.add`
unfoldable pub add_agent : String → List String → List String
add_agent cn cns = if elem str_dec cn cns then cns else cns ++ cn ∷ []

-- `set.update`
unfoldable pub add_agents : List String → List String → List String
unfolding add_agent
add_agents [] cns = cns
add_agents (c ∷ cs) cns = add_agents cs (add_agent c cns)

-- `set.discard`
unfoldable pub discard : String → List String → List String
discard cn [] = []
discard cn (c ∷ cs) = ite (str_dec cn c) cs (c ∷ discard cn cs)

-- `load_profiles`: the files in their order, each with its profile where it is valid.
unfoldable pub load_profiles :
    {P : Type 0} → List (Option (String × P)) → Dict String P → Dict String P
load_profiles [] profiles = profiles
load_profiles (none ∷ files) profiles = load_profiles files profiles
load_profiles (some (name, p) ∷ files) profiles =
    load_profiles files (insert str_dec name p profiles)

-- The rule set of a payload: `none` where it cannot be built.
unfoldable pub injected :
    {R : Type 0} → Option (RuleSigner R) → ℕ → List (RuleFile R) → Option (Option (RuleSet R))
unfolding build_ruleset
injected none now files = some none
injected (some s) now files = elim (build_ruleset s now files) [
  | none ↦ none
  | some rs ↦ some (some rs)
]

-- "ok", or the error of an agent.
pub data Result : Type 0 where
  ok : Result
  error : Ending → Result

abbrev pub result_of : Ending → Result
result_of returned = ok
result_of ending = error ending

-- The engine, the messages and the results after the loop of `push_to_all`.
pub record Broadcast (P R : Type 0) : Type 0 where
  pub engine : PolicyEngine P R
  pub sent : List (String × Payload P R)
  pub results : Dict String Result

module _ {P R : Type 0} where
  unfoldable pub seed_known_agents : List String → PolicyEngine P R → PolicyEngine P R
  unfolding add_agents
  seed_known_agents cns e = record e { known_agents = add_agents cns e.known_agents }

  unfoldable pub unregister_agent : String → PolicyEngine P R → PolicyEngine P R
  unfolding discard
  unregister_agent cn e = record e { known_agents = discard cn e.known_agents }

  abbrev pub stay : PolicyEngine P R → Ending → Run P R
  stay e ending = record { engine = e; sent = []; ending = ending }

  unfoldable pub new_payload : String → P → Option (RuleSet R) → Payload P R
  unfolding autonomy_for_profile budget_for_profile
  new_payload name profile rs = record {
    profile = profile;
    autonomy = autonomy_for_profile name;
    budget = budget_for_profile name;
    role = name;
    rule_set = rs;
  }

  -- The publication, and the agent's entry in the set.
  unfoldable pub publish_payload : Bool → String → Payload P R → PolicyEngine P R → Run P R
  unfolding add_agent
  publish_payload true cn payload e = record {
    engine = record e { known_agents = add_agent cn e.known_agents };
    sent = (cn, payload) ∷ [];
    ending = returned;
  }
  publish_payload false cn payload e = stay e publish_failed

  -- `push_to_agent`, where the profile was found. A rule set that cannot be built ends the call.
  unfoldable pub push_profile :
      Moment R → String → String → P → Option (Option (RuleSet R)) → PolicyEngine P R → Run P R
  unfolding publish_payload new_payload
  push_profile m cn name profile none e = stay e returned
  push_profile m cn name profile (some rs) e =
      publish_payload m.takes cn (new_payload name profile rs) e

  unfoldable pub push_to_agent : Moment R → String → String → PolicyEngine P R → Run P R
  unfolding push_profile injected
  push_to_agent m cn name e = elim (lookup str_dec name e.profiles) [
    | none ↦ stay e unknown_profile
    | some profile ↦ push_profile m cn name profile (injected e.rule_signer m.now m.files) e
  ]

  unfoldable pub push_default_to_agent : Moment R → String → PolicyEngine P R → Run P R
  unfolding push_to_agent
  push_default_to_agent m cn e =
      if contains str_dec e.default_profile e.profiles
      then push_to_agent m cn e.default_profile e
      else stay e default_missing

  -- The loop of `push_to_all`, with what the surroundings give for each agent.
  unfoldable pub push_each :
      (String → Moment R) → String → List String → Broadcast P R → Broadcast P R
  unfolding push_to_agent
  push_each moments name [] b = b
  push_each moments name (cn ∷ cns) b =
      let r = push_to_agent (moments cn) cn name b.engine in
      push_each moments name cns (record {
        engine = r.engine;
        sent = b.sent ++ r.sent;
        results = insert str_dec cn (result_of r.ending) b.results;
      })

  -- The agents of `push_to_all`: the known ones, and those that Redis lists, if it answers.
  unfoldable pub all_agents : Option (List String) → PolicyEngine P R → List String
  unfolding add_agents
  all_agents none e = e.known_agents
  all_agents (some cns) e = add_agents cns e.known_agents

  -- `push_to_all`; `none` is the `KeyError`.
  unfoldable pub push_to_all :
      (String → Moment R)
      → Option (List String)
      → String
      → PolicyEngine P R
      → Option (Broadcast P R)
  unfolding push_each all_agents
  push_to_all moments redis name e =
      if contains str_dec name e.profiles
      then some (
          push_each moments name (all_agents redis e)
            (record { engine = e; sent = []; results = [] }))
      else none

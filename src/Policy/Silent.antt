-- ===== src/Policy/Silent.antt =====
-- PolicyEngine.push_to_all of server/oseye/policy/engine.py without a rule set.
use oseye_plateforme.Prelude.{
  ◌≡◌, refl, ap, ◌∙◌, Option, none, some, List, [], ◌∷◌, ◌++◌, String, str_dec, All, Dict, lookup,
  insert, lookup-insert_self, lookup-insert_ne,
}
use mathlib.Core.List.{append-nil}
use oseye_plateforme.Policy.{
  PolicyEngine, Moment, returned, Run, injected, push_profile, push_to_agent, Result, ok, result_of,
  Broadcast, push_each, all_agents, push_to_all,
}
use oseye_plateforme.Policy.Everyone.{Loads, after}

module _ {P R : Type 0} (moments : String → Moment R) (name : String) (profile : P) where
  unbuilt_lem :
      (cn : String) (e : PolicyEngine P R)
      → Loads moments name profile (λ a. none) e
      → push_to_agent (moments cn) cn name e ≡ record { engine = e; sent = []; ending = returned }
  unfolding push_to_agent push_profile
  unbuilt_lem cn e h =
      rw (h.found, push_to_agent)
        (ap (λ o. push_profile (moments cn) cn name profile o e) (h.built cn))

  -- The engine stays, nothing is sent, and every agent so far is said to be served.
  record IsSilent (e : PolicyEngine P R) (b : Broadcast P R) : Type 0 where
    same_engine : b.engine ≡ e
    no_message : b.sent ≡ []

  after-IsSilent :
      (cn : String) (e : PolicyEngine P R) (b : Broadcast P R)
      → Loads moments name profile (λ a. none) e
      → IsSilent e b
      → IsSilent e (after moments name profile cn b)
        × ((after moments name profile cn b).results ≡ insert str_dec cn ok b.results)
  unfolding after
  after-IsSilent cn e b h s =
      let quiet : push_to_agent (moments cn) cn name b.engine
          ≡ record { engine = e; sent = []; ending = returned } =
        ap (push_to_agent (moments cn) cn name) s.same_engine ∙ unbuilt_lem cn e h in
      (
        record {
          same_engine = ap (λ (r : Run P R). r.engine) quiet;
          no_message =
              ap (λ (r : Run P R). b.sent ++ r.sent) quiet ∙ append-nil b.sent ∙ s.no_message;
        },
        ap (λ (r : Run P R). insert str_dec cn (result_of r.ending) b.results) quiet,
      )

  served :
      (asked cn : String) (results : Dict String Result)
      → lookup str_dec asked results ≡ some ok
      → lookup str_dec asked (insert str_dec cn ok results) ≡ some ok
  served asked cn results e = elim (str_dec asked cn) [
    | yes same ↦
        ap (λ c. lookup str_dec c (insert str_dec cn ok results)) same
        ∙ lookup-insert_self str_dec cn ok results
    | no other ↦ lookup-insert_ne str_dec asked cn ok results other ∙ e
  ]

  silent-keeps :
      (asked : String) (cns : List String) (e : PolicyEngine P R) (b : Broadcast P R)
      → Loads moments name profile (λ a. none) e
      → IsSilent e b
      → lookup str_dec asked b.results ≡ some ok
      → lookup str_dec asked (push_each moments name cns b).results ≡ some ok
  unfolding push_each after
  silent-keeps asked [] e b h s k = k
  silent-keeps asked (cn ∷ cns) e b h s k =
      let next = after-IsSilent cn e b h s in
      silent-keeps asked cns e (after moments name profile cn b) h next.0 (
        ap (λ (d : Dict String Result). lookup str_dec asked d) next.1
        ∙ served asked cn b.results k)

  silent_each :
      (cns : List String) (e : PolicyEngine P R) (b : Broadcast P R)
      → Loads moments name profile (λ a. none) e
      → IsSilent e b
      → ((push_each moments name cns b).sent ≡ [])
        × All (λ cn. lookup str_dec cn (push_each moments name cns b).results ≡ some ok) cns
  unfolding push_each after
  silent_each [] e b h s = (s.no_message, tt)
  silent_each (cn ∷ cns) e b h s =
      let next = after-IsSilent cn e b h s in
      let rest = silent_each cns e (after moments name profile cn b) h next.0 in
      (
        rest.0,
        (
          silent-keeps cn cns e (after moments name profile cn b) h next.0 (
              ap (λ (d : Dict String Result). lookup str_dec cn d) next.1
              ∙ lookup-insert_self str_dec cn ok b.results),
          rest.1,
        ),
      )

  -- With the profile loaded and a rule set that can be built for no agent: push_to_all sends
  -- nothing, and its result for every agent is ok.
  pub push_to_all_unbuilt :
      (redis : Option (List String)) (e : PolicyEngine P R)
      → lookup str_dec name e.profiles ≡ some profile
      → ((cn : String) → injected e.rule_signer (moments cn).now (moments cn).files ≡ none)
      → (b : Broadcast P R) × (push_to_all moments redis name e ≡ some b)
        × (b.sent ≡ [])
        × All (λ cn. lookup str_dec cn b.results ≡ some ok) (all_agents redis e)
  unfolding push_to_all
  push_to_all_unbuilt redis e found built =
      let b : Broadcast P R = record { engine = e; sent = []; results = [] } in
      let loads : Loads moments name profile (λ a. none) e = record {
        found = found;
        built = built;
      } in
      let silent : IsSilent e b = record { same_engine = refl; no_message = refl } in
      let (nothing, all_ok) = silent_each (all_agents redis e) e b loads silent in
      (push_each moments name (all_agents redis e) b, rw found refl, nothing, all_ok)

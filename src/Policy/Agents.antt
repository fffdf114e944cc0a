-- ===== src/Policy/Agents.antt =====
-- The agents that PolicyEngine.push_to_all of server/oseye/policy/engine.py turns to.
use mathlib.Core.Path.{subst}
use oseye_plateforme.Prelude.{
  ◌≡◌, refl, sym, ite, Bool, true, false, Option, none, some, get_or, List, [], ◌∷◌, ◌++◌, String,
  arith, if◌then◌else◌, str_dec, elem, All, All-append,
}
use oseye_plateforme.Policy.{PolicyEngine, add_agent, add_agents, all_agents}

module _ (Q : String → Type 0) where
  elem-All : (c : String) (cns : List String) → elem str_dec c cns ≡ true → All Q cns → Q c
  elem-All c [] e h = absurd (ground arith)
  elem-All c (x ∷ xs) e h = go (str_dec c x) (λ k. elem-All c xs k h.1) e
    where
      go :
          (d : Dec (c ≡ x))
          → (elem str_dec c xs ≡ true → Q c)
          → ite d true (elem str_dec c xs) ≡ true
          → Q c
      go (yes same) later k = subst Q (sym same) h.0
      go (no different) later k = later k

  All-append_parts : (xs ys : List String) → All Q (xs ++ ys) → All Q xs × All Q ys
  All-append_parts [] ys h = (tt, h)
  All-append_parts (x ∷ xs) ys h =
      let (left, right) = All-append_parts xs ys h.1 in ((h.0, left), right)

  add_agent-All : (c : String) (cns : List String) → All Q (add_agent c cns) → All Q cns × Q c
  unfolding add_agent
  add_agent-All c cns = go (elem str_dec c cns) (λ e. elem-All c cns e)
    where
      go :
          (known : Bool)
          → (known ≡ true → All Q cns → Q c)
          → All Q (if known then cns else cns ++ c ∷ [])
          → All Q cns × Q c
      go true old h = (h, old refl h)
      go false old h = let (left, right) = All-append_parts cns (c ∷ []) h in (left, right.0)

  add_agents-All : (cs cns : List String) → All Q (add_agents cs cns) → All Q cns × All Q cs
  unfolding add_agents
  add_agents-All [] cns h = (h, tt)
  add_agents-All (c ∷ cs) cns h =
      let (known, rest) = add_agents-All cs (add_agent c cns) h in
      let (old, new) = add_agent-All c cns known in (old, (new, rest))

  -- They include the agents that the engine knows and those that Redis lists.
  pub all_agents-All :
      {P R : Type 0} (redis : Option (List String)) (e : PolicyEngine P R)
      → All Q (all_agents redis e)
      → All Q (e.known_agents ++ get_or redis [])
  unfolding all_agents
  all_agents-All none e h = All-append Q e.known_agents [] h tt
  all_agents-All (some cs) e h =
      let (known, listed) = add_agents-All cs e.known_agents h in
      All-append Q e.known_agents cs known listed

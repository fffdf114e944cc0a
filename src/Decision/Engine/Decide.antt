-- ===== src/Decision/Engine/Decide.antt =====
-- What `decide` of server/oseye/decision/engine.py returns and does to the journal.
use oseye_plateforme.Prelude.{
  ℕ, ◌+◌, ◌≡◌, refl, true, false, Option, none, some, List, [], ◌∷◌, String, arith, str_dec, elem,
}
use oseye_plateforme.Prelude.Floats.{Floats}
use oseye_plateforme.Decision.Types.{
  DecisionType, alert_, ignore, isolate, request_human, Fields, Decision,
}
use oseye_plateforme.Decision.Journal.{Journal, init, verify_chain, genesis_hash}
use oseye_plateforme.Decision.Journal.Chain.{Linked, verify_chain_iff}
use oseye_plateforme.Decision.Engine.{
  Engine, Incident, Alert, PolicyOverrides, apply, apply_risk_matrix, decide,
}

-- `decide` returned a decision with the property, and left the journal so.
abbrev pub Returns :
    (f : Floats) → (Journal → Decision f → Type 0) → Journal × Option (Decision f) → Type 0
Returns f P (j, none) = ⊥
Returns f P (j, some d) = P j d

-- The decision continues the journal: it names the last hash, its own hash is the digest of that
-- hash and of its fields, and the journal goes on from it.
abbrev pub Continues :
    (f : Floats) → (String → Fields f → String) → Journal → Journal → Decision f → Type 0
Continues f digest j j' d =
    (d.prev_journal_hash ≡ j.last_hash)
    × (d.journal_hash ≡ digest j.last_hash d.fields)
    × (j'.last_hash ≡ d.journal_hash)

module _ (f : Floats) {E : Type 0}
    (explain : List DecisionType → f.Float → f.Float → f.Float → ℕ → f.Float → String)
    (digest : String → Fields f → String) (engine : Engine f E) where
  open f use {Float, leb, lit, leb_total, leb_trans, leb_lit}

  -- On the leader `decide` never fails, and the decision continues the journal.
  pub decide-Continues :
      (i : Incident) (a : Option Alert) (e : Option E) (now uuid : ℕ) (j : Journal)
      → Returns f (Continues f digest j) (decide f explain digest true engine i a e now uuid j)
  unfolding decide
  decide-Continues i a e now uuid j = (refl, refl, refl)

  whitelisted :
      (o : PolicyOverrides) (host : String) (score : Float)
      → elem str_dec host o.whitelist ≡ true
      → apply_risk_matrix f (apply f o host score) ≡ ignore ∷ []
  unfolding apply_risk_matrix apply
  whitelisted o host score h = rw h (ground (arith, leb_lit 0 20))

  denylisted :
      (o : PolicyOverrides) (host : String) (score : Float)
      → elem str_dec host o.whitelist ≡ false
      → elem str_dec host o.denylist ≡ true
      → apply_risk_matrix f (apply f o host score) ≡ alert_ ∷ isolate ∷ request_human ∷ []
  unfolding apply_risk_matrix apply
  denylisted o host score h k =
      rw (h, k) (ground (arith, leb_lit 100 20, leb_lit 100 40, leb_lit 100 60, leb_lit 100 80))

  -- For a host on the whitelist the leader decides to ignore, asks no human and sets no timeout,
  -- also where the host is on the denylist too.
  pub decide-whitelisted :
      (i : Incident) (a : Option Alert) (e : Option E) (now uuid : ℕ) (j : Journal)
      → elem str_dec i.hostname engine.overrides.whitelist ≡ true
      → Returns f
          (λ _ d.
            (d.decision_types ≡ ignore ∷ []) × (d.requires_human ≡ false) × (d.timeout_at ≡ none))
          (decide f explain digest true engine i a e now uuid j)
  unfolding decide
  decide-whitelisted i a e now uuid j h =
      rw (whitelisted engine.overrides i.hostname _ h) (refl, refl, refl)

  -- For a host on the denylist and not on the whitelist the leader decides to alert, isolate and
  -- ask a human, with the timeout set, whatever the signals say.
  pub decide-denylisted :
      (i : Incident) (a : Option Alert) (e : Option E) (now uuid : ℕ) (j : Journal)
      → elem str_dec i.hostname engine.overrides.whitelist ≡ false
      → elem str_dec i.hostname engine.overrides.denylist ≡ true
      → Returns f
          (λ _ d.
            (d.decision_types ≡ alert_ ∷ isolate ∷ request_human ∷ [])
            × (d.requires_human ≡ true)
            × (d.timeout_at ≡ some (now + engine.human_timeout_secs)))
          (decide f explain digest true engine i a e now uuid j)
  unfolding decide
  decide-denylisted i a e now uuid j h k =
      rw (denylisted engine.overrides i.hostname _ h k) (refl, refl, refl)

  -- A server that is not the leader produces no decision at all: the model of a decision refuses
  -- the two missing hashes. Its journal stays as it was.
  pub decide-follower :
      (i : Incident) (a : Option Alert) (e : Option E) (now uuid : ℕ) (j : Journal)
      → decide f explain digest false engine i a e now uuid j ≡ (j, none)
  unfolding decide
  decide-follower i a e now uuid j = refl

  -- The arguments of one call of `decide`.
  pub record Request : Type 0 where
    pub incident : Incident
    pub alert : Option Alert
    pub trigger_event : Option E
    pub now : ℕ
    pub uuid : ℕ

  -- The decisions of calls one after another, as the decision worker makes them.
  pub decide_all : List Request → Journal → List (Decision f)
  decide_all [] j = []
  decide_all (r ∷ rs) j =
      let (j', o) =
        decide f explain digest true engine r.incident r.alert r.trigger_event r.now r.uuid j in
      elim o [ none ↦ decide_all rs j' | some d ↦ d ∷ decide_all rs j' ]

  decide_all-Linked :
      (rs : List Request) (j : Journal) → Linked f digest j.last_hash (decide_all rs j)
  unfolding decide_all decide
  decide_all-Linked [] j = tt
  decide_all-Linked (r ∷ rs) j = (refl, refl, decide_all-Linked rs _)

  -- The decisions that the leader makes one after another from a fresh journal pass
  -- `verify_chain`, and so does any continuation from a journal's last hash.
  pub verify_chain-decide_all :
      (rs : List Request) (j : Journal)
      → (verify_chain f digest (decide_all rs (init genesis_hash)) none ≡ [])
        × (verify_chain f digest (decide_all rs j) (some j.last_hash) ≡ [])
  verify_chain-decide_all rs j = (
    (verify_chain_iff f digest _ genesis_hash).1.1 (decide_all-Linked rs (init genesis_hash)),
    (verify_chain_iff f digest _ j.last_hash).0.1 (decide_all-Linked rs j),
  )

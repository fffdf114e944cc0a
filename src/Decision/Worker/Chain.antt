-- ===== src/Decision/Worker/Chain.antt =====
-- The journal and the stored decisions of server/oseye/workers/decision_worker.py stay in step.
use oseye_plateforme.Prelude.{
  ℕ, ◌≡◌, refl, sym, ap, ◌∙◌, inl, inr, Bool, true, false, some, List, [], ◌∷◌, ◌++◌, String, arith,
  Option-cases,
}
use mathlib.Core.List.{reverse, reverse-cons}
use oseye_plateforme.Prelude.Floats.{Floats}
use oseye_plateforme.Decision.Types.{DecisionType, Fields, Decision}
use oseye_plateforme.Decision.Journal.{Journal, is_hash, commit, rollback, reverted, verify_chain}
use oseye_plateforme.Decision.Journal.Chain.{Linked, verify_chain_iff}
use oseye_plateforme.Decision.Journal.Undo.{rollback-commit}
use oseye_plateforme.Decision.Engine.{Engine, Incident, decide}
use oseye_plateforme.Decision.Repository.{create}
use oseye_plateforme.Decision.Executor.{Services}
use oseye_plateforme.Decision.Worker.{
  Stores, Payload, Pipeline, Moment, Step, persist, finish, rollback_journal, conclude_decision,
  process_incident, load_incident, process, Message, continue_unless, run,
}

module _ {f : Floats} (digest : String → Fields f → String) where
  -- The rows, newest first, are a chain from the start hash to the last one.
  abbrev pub Stands : String → List (Decision f) → String → Type 0
  Stands start [] last = last ≡ start
  Stands start (d ∷ ds) last =
      (last ≡ d.journal_hash)
      × (d.journal_hash ≡ digest d.prev_journal_hash d.fields)
      × Stands start ds d.prev_journal_hash

  -- The hash that a chain in order ends with.
  abbrev pub end_of : String → List (Decision f) → String
  end_of start [] = start
  end_of start (d ∷ ds) = end_of d.journal_hash ds

  Linked-snoc :
      (start : String) (ds : List (Decision f)) (d : Decision f)
      → Linked f digest start ds
      → d.prev_journal_hash ≡ end_of start ds
      → d.journal_hash ≡ digest d.prev_journal_hash d.fields
      → Linked f digest start (ds ++ d ∷ []) × (end_of start (ds ++ d ∷ []) ≡ d.journal_hash)
  Linked-snoc start [] d h p q = ((p, q ∙ ap (λ s. digest s d.fields) p, tt), refl)
  Linked-snoc start (e ∷ ds) d h p q =
      let k = Linked-snoc e.journal_hash ds d h.2 p q in ((h.0, h.1, k.0), k.1)

  Stands-Linked :
      (start : String) (ds : List (Decision f)) (last : String)
      → Stands start ds last
      → Linked f digest start (reverse ds) × (end_of start (reverse ds) ≡ last)
  Stands-Linked start [] last h = (tt, sym h)
  Stands-Linked start (d ∷ ds) last h =
      let k = Stands-Linked start ds d.prev_journal_hash h.2 in
      let s = Linked-snoc start (reverse ds) d k.0 (sym k.1) h.1 in
      rw (reverse-cons d ds) (s.0, s.1 ∙ sym h.0)

  -- The stored decisions are a chain that ends where the journal stands.
  pub record IsConsistent (start : String) (p : Pipeline f) : Type 0 where
    pub chain : Stands start p.rows p.journal.last_hash
    pub formed : is_hash p.journal.last_hash ≡ true

  module _ (hex : (prev : String) (fields : Fields f) → is_hash (digest prev fields) ≡ true)
      (start : String) where
    persist-rows :
        (up : Bool) (d : Decision f) (rows out : List (Decision f))
        → persist up d rows ≡ some out
        → out ≡ d ∷ rows
    unfolding persist create
    persist-rows up d rows out h = ground arith

    abbrev Keeps : Step f → Type 0
    Keeps s = IsConsistent start s.pipeline × (s.escaped ≡ false)

    rollback_journal-Keeps :
        (prev : String) (q : Pipeline f) (j : Journal)
        → rollback prev q.journal ≡ reverted j
        → IsConsistent start (record q { journal = j })
        → Keeps (rollback_journal prev q)
    unfolding rollback_journal
    rollback_journal-Keeps prev q j e h = rw (e, rollback_journal) (h, refl)

    committed-Keeps :
        (services : Services) (m : Moment) (d : Decision f) (p : Pipeline f) (n : ℕ)
        → d.prev_journal_hash ≡ p.journal.last_hash
        → d.journal_hash ≡ digest p.journal.last_hash d.fields
        → IsConsistent start p
        → Keeps (
            conclude_decision services m
              ((commit f digest d.fields p.journal).0, some d)
              (record p { total_processed = n }))
    unfolding conclude_decision finish commit
    committed-Keeps services m d p n e k h = elim (Option-cases (persist m.database_up d p.rows)) [
      | inl lost ↦
          rw (lost, e)
            (rollback_journal-Keeps p.journal.last_hash _ _
              (rollback-commit f digest d.fields p.journal h.formed)
              (record { chain = h.chain; formed = h.formed }))
      | inr (rows, stored) ↦ rw stored (
        record {
          chain =
              rw (persist-rows m.database_up d p.rows rows stored)
                (sym k, k ∙ ap (λ s. digest s d.fields) (sym e), rw e h.chain);
          formed = hex p.journal.last_hash d.fields;
        },
        refl,
      )
    ]

    module _ {E : Type 0}
        (explain : List DecisionType → f.Float → f.Float → f.Float → ℕ → f.Float → String)
        (engine : Engine f E) (services : Services) where
      incident-Keeps :
          (stores : Stores E) (payload : Payload) (m : Moment) (i : Incident) (p : Pipeline f)
          (leader : Bool)
          → m.leader ≡ leader
          → IsConsistent start p
          → Keeps (process_incident explain digest engine services stores payload m i p)
      unfolding process_incident decide
      incident-Keeps stores payload m i p true e h =
          rw e (committed-Keeps services m _ p _ refl refl h)
      incident-Keeps stores payload m i p false e h =
          rw e (record { chain = h.chain; formed = h.formed }, refl)

      process-Keeps :
          (stores : Stores E) (payload : Payload) (m : Moment) (p : Pipeline f)
          → IsConsistent start p
          → Keeps (process explain digest engine services stores payload m p)
      unfolding process
      process-Keeps stores payload m p h = elim (Option-cases (load_incident stores payload)) [
        | inl missing ↦ rw (missing, process) (h, refl)
        | inr (i, found) ↦ rw (found, process) (incident-Keeps stores payload m i p m.leader refl h)
      ]

      run-IsConsistent :
          (ms : List (Message explain digest engine services)) (p : Pipeline f)
          → IsConsistent start p
          → IsConsistent start (run explain digest engine services ms p)
      unfolding run continue_unless
      run-IsConsistent [] p h = h
      run-IsConsistent (m ∷ ms) p h =
          let k = process-Keeps m.stores m.payload m.moment p h in
          rw k.1 (run-IsConsistent ms _ k.0)

      -- Take a digest whose hashes have the right form, and a pipeline whose stored decisions are a
      -- chain from a start hash to where the journal stands, as at the start. Whatever messages the
      -- worker takes, on the leader or not, with databases that fail or refuse a row: the stored
      -- decisions in the order of storing pass `verify_chain` from the start hash, and the journal
      -- stands at the hash that they end with.
      pub verify_chain-run :
          (ms : List (Message explain digest engine services)) (p : Pipeline f)
          → IsConsistent start p
          → let p' = run explain digest engine services ms p in
            (verify_chain f digest (reverse p'.rows) (some start) ≡ [])
            × (p'.journal.last_hash ≡ end_of start (reverse p'.rows))
      verify_chain-run ms p h =
          let k = run-IsConsistent ms p h in
          let s = Stands-Linked start _ _ k.chain in
          ((verify_chain_iff f digest _ start).0.1 s.0, sym s.1)

-- ===== src/Decision/Journal/Chain.antt =====
-- What `verify_chain` of server/oseye/decision/journal.py accepts.
use oseye_plateforme.Prelude.{ℕ, ◌+◌, ◌≡◌, refl, ◌↔◌, none, some, List, [], ◌∷◌, map, String, arith}
use oseye_plateforme.Prelude.Floats.{Floats}
use oseye_plateforme.Decision.Types.{Fields, Decision}
use oseye_plateforme.Decision.Journal.{verify_from, verify_chain, genesis_hash}

module _ (f : Floats) (digest : String → Fields f → String) where
  -- The chain that the journal promises: each decision names the hash before it, and its own hash
  -- is the digest of that hash and its fields.
  abbrev pub Linked : String → List (Decision f) → Type 0
  Linked prev [] = Unit
  Linked prev (d ∷ ds) =
      (d.prev_journal_hash ≡ prev)
      × (d.journal_hash ≡ digest prev d.fields)
      × Linked d.journal_hash ds

  from_Linked :
      (i : ℕ) (prev : String) (ds : List (Decision f))
      → Linked prev ds
      → verify_from f digest i prev ds ≡ []
  unfolding verify_from
  from_Linked i prev [] h = refl
  from_Linked i prev (d ∷ ds) h = ground (arith, from_Linked (i + 1) d.journal_hash ds h.2)

  to_Linked :
      (i : ℕ) (prev : String) (ds : List (Decision f))
      → verify_from f digest i prev ds ≡ []
      → Linked prev ds
  unfolding verify_from
  to_Linked i prev [] h = tt
  to_Linked i prev (d ∷ ds) h = ground (arith, to_Linked (i + 1) d.journal_hash ds)

  -- `verify_chain` reports nothing exactly when the chain is linked from the start hash, which is
  -- the genesis hash unless one is given.
  pub verify_chain_iff :
      (ds : List (Decision f)) (start_hash : String)
      → ((verify_chain f digest ds (some start_hash) ≡ []) ↔ Linked start_hash ds)
        × ((verify_chain f digest ds none ≡ []) ↔ Linked genesis_hash ds)
  unfolding verify_chain
  verify_chain_iff ds h = (
    (to_Linked 0 h ds, from_Linked 0 h ds),
    (to_Linked 0 genesis_hash ds, from_Linked 0 genesis_hash ds),
  )

  -- At every place the fields of the two lists have the same digest over the same hash.
  abbrev pub SameDigests : String → List (Decision f) → List (Decision f) → Type 0
  SameDigests prev [] [] = Unit
  SameDigests prev (d ∷ ds) (e ∷ es) =
      (digest prev d.fields ≡ digest prev e.fields) × SameDigests d.journal_hash ds es
  SameDigests prev _ _ = ⊥

  -- If two linked chains start from one hash and carry the same journal hashes, then at every
  -- place their fields have the same digest over the same hash: an altered decision goes unseen
  -- only where the digest collides.
  pub Linked-SameDigests :
      (prev : String) (ds es : List (Decision f))
      → map (λ d. d.journal_hash) ds ≡ map (λ d. d.journal_hash) es
      → Linked prev ds
      → Linked prev es
      → SameDigests prev ds es
  Linked-SameDigests prev [] [] same p q = tt
  Linked-SameDigests prev [] (e ∷ es) same p q = cc
  Linked-SameDigests prev (d ∷ ds) [] same p q = cc
  Linked-SameDigests prev (d ∷ ds) (e ∷ es) same p q =
      let heads : d.journal_hash ≡ e.journal_hash = cc in
      (ground arith, Linked-SameDigests d.journal_hash ds es (cc) p.2 (rw heads q.2))

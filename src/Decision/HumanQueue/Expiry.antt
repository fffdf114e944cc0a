-- ===== src/Decision/HumanQueue/Expiry.antt =====
-- The sweep of server/oseye/decision/human_queue.py leaves no timed-out decision pending.
use oseye_plateforme.Prelude.{
  ℕ, ◌≡◌, refl, ◌∙◌, ◌≢◌, ◌⊎◌, inl, inr, true, false, some, List, [], ◌∷◌, arith, Option-cases,
  is_some, All, codes,
}
use oseye_plateforme.Prelude.Floats.{Floats}
use oseye_plateforme.Decision.Types.{Decision, Outcome, rejected}
use oseye_plateforme.Decision.Repository.{get, get_pending}
use oseye_plateforme.Decision.HumanQueue.{
  finish_update, update_decision, timed_out, expire_one, expire_each, expire_timeout,
}
use oseye_plateforme.Decision.HumanQueue.Final.{settle, get-update, id-get}

module _ {f : Floats} where
  -- The row of the identifier, if there is one, has a human decision.
  abbrev IsDecided : ℕ → List (Decision f) → Type 0
  IsDecided id ds = (d : Decision f) → get id ds ≡ some d → is_some d.human_decision ≡ true

  -- Every listed decision that has timed out is decided in the end.
  abbrev Swept : ℕ → List (Decision f) → List (Decision f) → Type 0
  Swept now ps ds = All (λ p. timed_out now p ≡ true → IsDecided p.fields.decision_id ds) ps

  -- An update of another identifier leaves what is found.
  get-settle_ne :
      (id q at : ℕ) (o : Outcome) (operator note : List ℕ) (ds : List (Decision f))
      → id ≢ q
      → settle id o operator note at (get q ds) ≡ get q ds
  unfolding settle
  get-settle_ne id q at o operator note ds ne = elim (Option-cases (get q ds)) [
    | inl missing ↦ rw missing
    | inr (x, found) ↦ rw found (ground (arith, id-get q ds x found))
  ]

  expire_one-others :
      (q now : ℕ) (p : Decision f) (ds : List (Decision f))
      → (p.fields.decision_id ≢ q) ⊎ (timed_out now p ≡ false)
      → get q (expire_one now p ds) ≡ get q ds
  unfolding expire_one update_decision finish_update
  expire_one-others q now p ds h = ground (
    arith,
    get-update p.fields.decision_id rejected (codes "system")
        (codes "Auto-expired: timeout reached") now q ds,
    get-settle_ne p.fields.decision_id q now rejected (codes "system")
        (codes "Auto-expired: timeout reached") ds,
    Option-cases (get p.fields.decision_id ds),
  )

  expire_each-others :
      (q now : ℕ) (ps ds : List (Decision f))
      → All (λ p. (p.fields.decision_id ≢ q) ⊎ (timed_out now p ≡ false)) ps
      → get q (expire_each now ps ds) ≡ get q ds
  unfolding expire_each
  expire_each-others q now [] ds h = refl
  expire_each-others q now (p ∷ ps) ds h =
      expire_each-others q now ps (expire_one now p ds) h.1 ∙ expire_one-others q now p ds h.0

  -- A sweep leaves the row of every identifier that no timed-out pending decision has.
  pub expire_timeout-others :
      (q now : ℕ) (ds : List (Decision f))
      → All (λ p. (p.fields.decision_id ≢ q) ⊎ (timed_out now p ≡ false)) (get_pending ds)
      → get q (expire_timeout now ds) ≡ get q ds
  unfolding expire_timeout
  expire_timeout-others q now ds h = expire_each-others q now (get_pending ds) ds h

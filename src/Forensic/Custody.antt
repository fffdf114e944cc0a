-- ===== src/Forensic/Custody.antt =====
-- The custody log of server/oseye/forensic/case_manager.py: a hash chain that only grows.
use oseye_plateforme.Prelude.{
  if-either, ℕ, ◌≡◌, refl, sym, ◌∙◌, ◌⊎◌, inl, inr, Bool, some, List, [], ◌∷◌, ◌++◌, String, arith,
  Bool-cases, Option-cases, lookup, insert, lookup-insert_self, lookup-insert_ne, ℕ_discrete,
}
use mathlib.Core.Path.{subst}
use oseye_plateforme.Forensic.{
  CustodyEntry, ForensicCase, zero_hash, last_hash_of, set_fields, Texts, Cases, Database,
  custody_hash, new_entry, create_case, append_custody, store_change, with_note, with_evidence,
  CaseRequest, updates_case, adds_note, adds_evidence, closes_case, change_case, Request, opens,
  changes, serve_request, serve_requests,
}

module _ (t : Texts) where
  -- Each entry bears the hash of the entry before it and of its own parts.
  abbrev pub IsLinked : String → List CustodyEntry → Type 0
  IsLinked prev [] = Unit
  IsLinked prev (e ∷ es) =
      (e.hash ≡ custody_hash t prev e.timestamp e.operator e.action e.detail) × IsLinked e.hash es

  -- The hash that a log ends with.
  abbrev end_of : String → List CustodyEntry → String
  end_of prev [] = prev
  end_of prev (e ∷ es) = end_of e.hash es

  last_hash_of-end_of : (es : List CustodyEntry) → last_hash_of es ≡ end_of zero_hash es
  unfolding last_hash_of
  last_hash_of-end_of [] = refl
  last_hash_of-end_of (e ∷ []) = refl
  last_hash_of-end_of (e ∷ d ∷ es) = last_hash_of-end_of_cons d es
    where
      last_hash_of-end_of_cons :
          (d : CustodyEntry) (es : List CustodyEntry) → last_hash_of (d ∷ es) ≡ end_of d.hash es
      last_hash_of-end_of_cons d [] = refl
      last_hash_of-end_of_cons d (e ∷ es) = last_hash_of-end_of_cons e es

  IsLinked-snoc :
      (prev : String) (es : List CustodyEntry) (now : ℕ) (operator action detail : String)
      → IsLinked prev es
      → IsLinked prev (es ++ new_entry t (end_of prev es) now operator action detail ∷ [])
  unfolding new_entry
  IsLinked-snoc prev [] now operator action detail h = (refl, tt)
  IsLinked-snoc prev (e ∷ es) now operator action detail h =
      (h.0, IsLinked-snoc e.hash es now operator action detail h.1)

  -- A log that was kept, or that got one entry.
  unfoldable pub Logged : List CustodyEntry → List CustodyEntry → Type 0
  Logged old log =
      (log ≡ old)
      ⊎ ((now : ℕ) × ((operator : String) × ((action : String) × ((detail : String) × (log
                  ≡ old ++ new_entry t (last_hash_of old) now operator action detail ∷ [])))))

  -- What a request may do to the cases: nothing, or one row whose log was kept or got one entry.
  abbrev pub Changed : ℕ → List CustodyEntry → Cases → Cases → Type 0
  Changed id old cases after =
      (after ≡ cases)
      ⊎ ((row : ForensicCase) × ((after ≡ insert ℕ_discrete id row cases)
            × Logged old row.custody_log))

  store_change-Changed :
      (db : Database) (now id : ℕ) (operator action detail : String) (read changed : ForensicCase)
      (cases : Cases)
      → Changed id read.custody_log cases
          (store_change t db now id operator action detail read changed cases)
  unfolding store_change append_custody Logged
  store_change-Changed db now id operator action detail read changed cases =
      elim (Bool-cases db.updates) [
        | inr failed ↦ rw (failed, store_change) (inl refl)
        | inl stored ↦ elim (Bool-cases db.appends) [
          | inl done ↦
              rw (stored, done, store_change)
                (inr (_, (refl, inr (now, (operator, (action, (detail, refl)))))))
          | inr lost ↦ rw (stored, lost, store_change) (inr (_, (refl, inl refl)))
        ]
      ]

  pub change_case-Changed :
      (db : Database) (now id : ℕ) (q : CaseRequest t) (k : ForensicCase) (cases : Cases)
      → Changed id k.custody_log cases (change_case t db now id q k cases)
  unfolding change_case
  change_case-Changed db now id (updates_case operator fields) k cases =
      elim (Option-cases (set_fields fields k)) [
        | inl refused ↦ rw (refused, change_case) (inl refl)
        | inr (changed, e) ↦
            rw (e, change_case) (store_change-Changed db now id operator _ _ k changed cases)
      ]
  change_case-Changed db now id (adds_note n author content) k cases =
      store_change-Changed db now id author _ _ k (with_note now n author content k) cases
  change_case-Changed db now id (adds_evidence n operator type content description) k cases =
      if-either (Changed id k.custody_log cases) _ _ _
        (store_change-Changed db now id operator _ _ k
          (with_evidence now n operator type content description k) cases)
        (inl refl)
  change_case-Changed db now id (closes_case operator resolution) k cases =
      store_change-Changed db now id operator _ _ k (record k { status = "resolved" }) cases

  -- The log of every case is a chain from the first hash on.
  abbrev pub IsIntact : Cases → Type 0
  IsIntact cases =
      (id : ℕ) (k : ForensicCase)
      → lookup ℕ_discrete id cases ≡ some k
      → IsLinked zero_hash k.custody_log

  insert-IsIntact :
      (id : ℕ) (row : ForensicCase) (cases : Cases)
      → IsIntact cases
      → IsLinked zero_hash row.custody_log
      → IsIntact (insert ℕ_discrete id row cases)
  insert-IsIntact id row cases h linked asked k e = elim (ℕ_discrete asked id) [
    | no n ↦ h asked k (sym (lookup-insert_ne ℕ_discrete asked id row cases n) ∙ e)
    | yes p ↦
        let same : row ≡ k = ground (arith, lookup-insert_self ℕ_discrete id row cases) in
        subst (λ (x : ForensicCase). IsLinked zero_hash x.custody_log) same linked
  ]

  Logged-IsLinked :
      (old log : List CustodyEntry)
      → IsLinked zero_hash old
      → Logged old log
      → IsLinked zero_hash log
  unfolding Logged
  Logged-IsLinked old log h (inl e) = rw e h
  Logged-IsLinked old log h (inr (now, (operator, (action, (detail, e))))) =
      rw (e, last_hash_of-end_of old) (IsLinked-snoc zero_hash old now operator action detail h)

  Changed-IsIntact :
      (id : ℕ) (k : ForensicCase) (cases after : Cases)
      → lookup ℕ_discrete id cases ≡ some k
      → Changed id k.custody_log cases after
      → IsIntact cases
      → IsIntact after
  Changed-IsIntact id k cases after e (inl same) h = rw same h
  Changed-IsIntact id k cases after e (inr (row, (made, logged))) h = rw made (
      insert-IsIntact id row cases h
        (Logged-IsLinked k.custody_log row.custody_log (h id k e) logged))

  create_case-IsIntact :
      (stored : Bool) (now id : ℕ) (title severity by description : String) (tags : List String)
      (alerts events : List ℕ) (cases : Cases)
      → IsIntact cases
      → IsIntact
          (create_case t stored now id title severity by description tags alerts events cases)
  unfolding create_case new_entry
  create_case-IsIntact stored now id title severity by description tags alerts events cases h =
      if-either IsIntact _ _ _ (insert-IsIntact id _ cases h (refl, tt)) h

  serve_request-IsIntact :
      (q : Request t) (cases : Cases) → IsIntact cases → IsIntact (serve_request t q cases)
  unfolding serve_request
  serve_request-IsIntact (opens stored now id title severity by description tags alerts events)
        cases h =
      create_case-IsIntact stored now id title severity by description tags alerts events cases h
  serve_request-IsIntact (changes db now id q) cases h =
      elim (Option-cases (lookup ℕ_discrete id cases)) [
        | inl unknown ↦ rw (unknown, serve_request) h
        | inr (k, e) ↦
            rw (e, serve_request)
              (Changed-IsIntact id k cases _ e (change_case-Changed db now id q k cases) h)
      ]

  -- Whatever cases are opened and changed, and whichever statements fail: if the custody log of
  -- every case is a chain of hashes from the first one, it is one afterwards too.
  pub serve_requests-IsIntact :
      (qs : List (Request t)) (cases : Cases)
      → IsIntact cases
      → IsIntact (serve_requests t qs cases)
  unfolding serve_requests
  serve_requests-IsIntact [] cases h = h
  serve_requests-IsIntact (q ∷ qs) cases h =
      serve_requests-IsIntact qs (serve_request t q cases) (serve_request-IsIntact q cases h)

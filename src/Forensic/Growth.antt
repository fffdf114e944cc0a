-- ===== src/Forensic/Growth.antt =====
-- The custody log of server/oseye/forensic/case_manager.py loses nothing.
use oseye_plateforme.Prelude.{
  if-given, ℕ, ◌≡◌, sym, ap, ◌∙◌, inl, inr, Bool, true, not, ◌&&◌, some, List, [], ◌∷◌, ◌++◌,
  String, arith, Option-cases, str_dec, elem, lookup, contains, insert, lookup-insert_self,
  lookup-insert_ne, ℕ_discrete,
}
use mathlib.Core.List.{append_assoc, append-nil}
use oseye_plateforme.Forensic.{
  CustodyEntry, ForensicCase, Texts, Cases, severities, new_entry, last_hash_of, create_case,
  Request, opens, changes, serve_request, serve_requests,
}
use oseye_plateforme.Forensic.Custody.{Logged, Changed, change_case-Changed}

module _ (t : Texts) where
  -- The case of an identifier is there, and its log starts with the given one.
  abbrev pub HasLog : ℕ → List CustodyEntry → Cases → Type 0
  HasLog id log cases =
      (k : ForensicCase) × ((lookup ℕ_discrete id cases ≡ some k)
        × ((more : List CustodyEntry) × (k.custody_log ≡ log ++ more)))

  Logged-grows :
      (start old log : List CustodyEntry)
      → ((more : List CustodyEntry) × (old ≡ start ++ more))
      → Logged t old log
      → ((more : List CustodyEntry) × (log ≡ start ++ more))
  unfolding Logged
  Logged-grows start old log (more, e) (inl same) = (more, same ∙ e)
  Logged-grows start old log (more, e) (inr (now, (operator, (action, (detail, made))))) =
      let entry = new_entry t (last_hash_of old) now operator action detail in
      (
        more ++ entry ∷ [],
        made
            ∙ ap (λ (es : List CustodyEntry). es ++ entry ∷ []) e
            ∙ append_assoc start more (entry ∷ []),
      )

  insert-HasLog :
      (id asked : ℕ) (row : ForensicCase) (log : List CustodyEntry) (cases : Cases)
      → HasLog asked log cases
      → (asked ≡ id → (more : List CustodyEntry) × (row.custody_log ≡ log ++ more))
      → HasLog asked log (insert ℕ_discrete id row cases)
  insert-HasLog id asked row log cases (k, (e, starts)) new = elim (ℕ_discrete asked id) [
    | no n ↦ (k, (lookup-insert_ne ℕ_discrete asked id row cases n ∙ e, starts))
    | yes p ↦ (row, (ground (arith, lookup-insert_self ℕ_discrete id row cases), new p))
  ]

  Changed-HasLog :
      (id asked : ℕ) (read : ForensicCase) (log : List CustodyEntry) (cases after : Cases)
      → lookup ℕ_discrete id cases ≡ some read
      → Changed t id read.custody_log cases after
      → HasLog asked log cases
      → HasLog asked log after
  Changed-HasLog id asked read log cases after e (inl same) h = rw same h
  Changed-HasLog id asked read log cases after e (inr (row, (made, logged))) (k, (at, starts)) =
      rw made (
        insert-HasLog id asked row log cases (k, (at, starts))
          (λ p. Logged-grows log read.custody_log row.custody_log (own p) logged))
    where
      own : asked ≡ id → (more : List CustodyEntry) × (read.custody_log ≡ log ++ more)
      own p =
          let same : k ≡ read = ground arith in
          (starts.0, ap (λ (x : ForensicCase). x.custody_log) (sym same) ∙ starts.1)

  create_case-HasLog :
      (stored : Bool) (now id : ℕ) (title severity by description : String) (tags : List String)
      (alerts events : List ℕ) (asked : ℕ) (log : List CustodyEntry) (cases : Cases)
      → HasLog asked log cases
      → HasLog asked log
          (create_case t stored now id title severity by description tags alerts events cases)
  unfolding create_case
  create_case-HasLog stored now id title severity by description tags alerts events asked log cases
        (k, (e, starts)) =
      if-given (HasLog asked log) _ _ _
        (λ fresh.
          insert-HasLog id asked _ log cases (k, (e, starts))
            (λ p. absurd (ground (arith, known (elem str_dec severity severities) fresh p))))
        (k, (e, starts))
    where
      known :
          (fits : Bool)
          → (stored && (fits && not (contains ℕ_discrete id cases))) ≡ true
          → asked ≡ id
          → ⊥
      known fits fresh p = ground (arith, ap (λ (n : ℕ). lookup ℕ_discrete n cases) p)

  serve_request-HasLog :
      (q : Request t) (id : ℕ) (log : List CustodyEntry) (cases : Cases)
      → HasLog id log cases
      → HasLog id log (serve_request t q cases)
  unfolding serve_request
  serve_request-HasLog (opens stored now id title severity by description tags alerts events) asked
        log cases h =
      create_case-HasLog stored now id title severity by description tags alerts events asked log
        cases h
  serve_request-HasLog (changes db now id q) asked log cases h =
      elim (Option-cases (lookup ℕ_discrete id cases)) [
        | inl unknown ↦ rw (unknown, serve_request) h
        | inr (k, e) ↦
            rw (e, serve_request)
              (Changed-HasLog id asked k log cases _ e (change_case-Changed t db now id q k cases)
                h)
      ]

  -- Whatever cases are opened and changed afterwards, and whichever statements fail: a case that is
  -- there stays there, and its custody log keeps its entries in order and only gets more.
  pub serve_requests-HasLog :
      (qs : List (Request t)) (id : ℕ) (k : ForensicCase) (cases : Cases)
      → lookup ℕ_discrete id cases ≡ some k
      → HasLog id k.custody_log (serve_requests t qs cases)
  unfolding serve_requests
  serve_requests-HasLog qs id k cases e =
      served qs id k.custody_log cases (k, (e, ([], sym (append-nil k.custody_log))))
    where
      served :
          (qs : List (Request t)) (id : ℕ) (log : List CustodyEntry) (cases : Cases)
          → HasLog id log cases
          → HasLog id log (serve_requests t qs cases)
      served [] id log cases h = h
      served (q ∷ qs) id log cases h =
          served qs id log (serve_request t q cases) (serve_request-HasLog q id log cases h)

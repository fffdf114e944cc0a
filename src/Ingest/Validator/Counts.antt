-- ===== src/Ingest/Validator/Counts.antt =====
-- What a validation result of server/oseye/ingest/validator.py says of the batch.
use oseye_plateforme.Prelude.{
  All-append, ℕ, ◌+◌, ◌<◌, ◌≡◌, refl, sym, ap, ◌∙◌, ◌≢◌, ◌⊎◌, inl, inr, true, Option, none, some,
  List, [], ◌∷◌, map, arith, length, length-append,
}
use mathlib.Core.Path.{subst}
use oseye_plateforme.Ingest.Validator.{
  Decoded, ed25519, other_kind, failed, Event, IngestRequest, ValidationResult, Crypto, missing,
  range_from, check_event, check_events, nothing_yet, check_signature, signature_objection,
  validate, other_kind, failed,
}
use oseye_plateforme.Ingest.Validator.Indices.{
  IsBelow, IsBelow-widen, IsBelow-range_from, length-range_from, List-cases, check_event_passes,
  check_event_fails,
}

-- Every event of the batch is accepted or rejected; the set of indices has one for each rejected
-- event, and they are indices of the batch.
pub record IsAccounted (n : ℕ) (r : ValidationResult) : Type 0 where
  pub total : r.accepted + r.rejected ≡ n
  pub indexed : length r.rejected_indices ≡ r.rejected
  pub inside : IsBelow n r.rejected_indices

module _ (i : ℕ) (ev : Event) (r : ValidationResult) where
  check_event-IsAccounted : IsAccounted i r → IsAccounted (i + 1) (check_event i ev r)
  check_event-IsAccounted h =
      let old = IsBelow-widen i r.rejected_indices h.inside in
      elim (List-cases (missing ev)) [
        | inl passes ↦
            subst (IsAccounted (i + 1)) (sym (check_event_passes i ev r passes))
              (record { total = omega (arith, h.total); indexed = h.indexed; inside = old })
        | inr (f, fs, fails) ↦
            subst (IsAccounted (i + 1)) (sym (check_event_fails i ev r f fs fails h.inside))
              (record {
                total = omega (arith, h.total);
                indexed = omega (arith, h.indexed, length-append r.rejected_indices (i ∷ []));
                inside =
                    All-append (λ j. j < i + 1) r.rejected_indices (i ∷ []) old (omega arith, tt);
              })
      ]

check_events-IsAccounted :
    (n : ℕ) (evs : List Event) (r : ValidationResult)
    → IsAccounted n r
    → IsAccounted (n + length evs) (check_events n evs r)
unfolding check_events
check_events-IsAccounted n [] r h = subst (λ k. IsAccounted k r) (omega arith) h
check_events-IsAccounted n (ev ∷ evs) r h =
    subst (λ k. IsAccounted k (check_events (n + 1) evs (check_event n ev r))) (omega arith)
      (check_events-IsAccounted (n + 1) evs (check_event n ev r) (check_event-IsAccounted n ev r h))

Decoded-cases :
    {K : Type 0} (d : Decoded K) → ((k : K) × (d ≡ ed25519 k)) ⊎ ((d ≡ other_kind) ⊎ (d ≡ failed))
Decoded-cases (ed25519 k) = inl (k, refl)
Decoded-cases other_kind = inr (inl refl)
Decoded-cases failed = inr (inr refl)

-- A signature that raises no objection is a valid one.
pub cleared :
    (c : Crypto) (request : IngestRequest) (k : List ℕ)
    → check_signature c request k ≡ some none
    → (pk : c.Key) × (c.load_der_public_key k ≡ ed25519 pk)
      × (c.verify pk request.batch_signature (c.digest (map (λ ev. ev.hash_chain) request.events))
          ≡ true)
unfolding check_signature
cleared c request k h = elim (Decoded-cases (c.load_der_public_key k)) [
  | inl (pk, e) ↦ (pk, e, ground arith)
  | inr other ↦ absurd (ground arith)
]

-- The same where the check is made, as long as there is an event.
pub cleared_batch :
    (c : Crypto) (request : IngestRequest) (k : List ℕ)
    → request.events ≢ []
    → signature_objection c request (some k) ≡ some none
    → check_signature c request k ≡ some none
unfolding signature_objection
cleared_batch c request k some_events h = ground (arith, List-cases request.events)

objection_accepts_none :
    (c : Crypto) (request : IngestRequest) (key : Option (List ℕ)) (r : ValidationResult)
    → signature_objection c request key ≡ some (some r)
    → r.accepted ≡ 0
unfolding signature_objection check_signature
objection_accepts_none c request key r h = ground arith

module _ (c : Crypto) (request : IngestRequest) (key : Option (List ℕ)) (r : ValidationResult) where
  -- The results that reject the whole batch.
  objection_indices :
      signature_objection c request key ≡ some (some r)
      → (r.accepted + r.rejected ≡ length request.events)
        × (r.rejected ≡ length request.events)
        × (r.rejected_indices ≡ range_from 0 request.events)
  unfolding signature_objection check_signature
  objection_indices h = ground arith

  whole-IsAccounted :
      (r.accepted + r.rejected ≡ length request.events)
      → r.rejected ≡ length request.events
      → r.rejected_indices ≡ range_from 0 request.events
      → IsAccounted (length request.events) r
  whole-IsAccounted t k e = record {
    total = t;
    indexed = ap (length {0}) e ∙ length-range_from 0 request.events ∙ sym k;
    inside = subst (IsBelow (length request.events)) (sym e) (
        subst (λ n. IsBelow n (range_from 0 request.events)) (omega arith)
          (IsBelow-range_from 0 request.events));
  }

  validate-cases :
      validate c request key ≡ some r
      → ((r.accepted + r.rejected ≡ length request.events)
          × (r.rejected ≡ length request.events)
          × (r.rejected_indices ≡ range_from 0 request.events))
        ⊎ (r ≡ check_events 0 request.events nothing_yet)
  unfolding validate
  validate-cases h = ground (arith, objection_indices)

  -- Whatever the outcome of a validation, but for an undecodable key: the accepted and the rejected
  -- events add up to the batch, and the set of rejected indices has as many elements as there are
  -- rejected events, each of them the index of an event of the batch.
  pub validate-IsAccounted : validate c request key ≡ some r → IsAccounted (length request.events) r
  validate-IsAccounted h = elim (validate-cases h) [
    | inl (t, k, e) ↦ whole-IsAccounted t k e
    | inr e ↦
        let counted =
          check_events-IsAccounted 0 request.events nothing_yet
            (record { total = refl; indexed = refl; inside = tt }) in
        subst (IsAccounted (length request.events)) (sym e) (
          subst (λ n. IsAccounted n (check_events 0 request.events nothing_yet)) (omega arith)
            counted)
  ]

  -- With a registered key, some event is accepted only if the key decodes to an Ed25519 key under
  -- which the batch signature fits the digest of the hash chain.
  pub validate_needs_signature :
      (k : List ℕ)
      → key ≡ some k
      → validate c request key ≡ some r
      → 0 < r.accepted
      → (pk : c.Key) × (c.load_der_public_key k ≡ ed25519 pk)
        × (c.verify pk request.batch_signature (c.digest (map (λ ev. ev.hash_chain) request.events))
            ≡ true)
  unfolding validate
  validate_needs_signature k e h some_in = cleared c request k (
      cleared_batch c request k
        (λ empty. omega (arith, (validate-IsAccounted h).total, ap (length {0}) empty))
        (ground (arith, objection_accepts_none c request key r)))

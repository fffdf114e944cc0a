-- ===== src/Tests/Batches.antt =====
-- Batches through the validator of server/oseye/ingest/validator.py.
use oseye_plateforme.Prelude.{
  ℕ, ◌≡◌, refl, Bool, true, false, ◌&&◌, some, List, [], ◌∷◌, arith, ◌==◌,
}
use oseye_plateforme.Ingest.Validator.{
  absent, text, number, IngestRequest, ValidationResult, ed25519, Crypto, is_blank, missing,
  check_event, check_events, check_signature, signature_objection, validate, nothing_yet,
}
use oseye_plateforme.Ingest.Validator.Counts.{
  IsAccounted, validate-IsAccounted, validate_needs_signature,
}

-- Every key decodes, the digest is the last hash and a signature is the digest itself.
abbrev last_of : List (List ℕ) → List ℕ
last_of [] = []
last_of (h ∷ []) = h
last_of (h ∷ k ∷ hs) = last_of (k ∷ hs)

abbrev agree : List ℕ → List ℕ → Bool
agree [] [] = true
agree (a ∷ as') (b ∷ bs) = (a == b) && agree as' bs
agree _ _ = false

abbrev toy_crypto : Crypto
toy_crypto = record {
  Key = List ℕ;
  digest = last_of;
  load_der_public_key = λ k. ed25519 k;
  verify = λ k signature d. agree signature d;
}

-- The second event has no type.
abbrev batch : IngestRequest
batch = record {
  events =
      record {
        category = text "network";
        type = text "connect";
        severity = number 2;
        hash_chain = 1 ∷ [];
        extra_json = [];
      }
      ∷ record {
        category = text "network";
        type = absent;
        severity = number 2;
        hash_chain = 5 ∷ [];
        extra_json = [];
      }
      ∷ [];
  batch_signature = 5 ∷ [];
}

abbrev outcome : ValidationResult
outcome = check_events 0 batch.events nothing_yet

validate-batch : validate toy_crypto batch (some (1 ∷ [])) ≡ some outcome
unfolding validate signature_objection check_signature check_events
validate-batch = refl

outcome_accepts : outcome.accepted ≡ 1
unfolding check_events check_event missing is_blank
outcome_accepts = refl

validate-IsAccounted_example : IsAccounted 2 outcome
validate-IsAccounted_example =
    validate-IsAccounted toy_crypto batch (some (1 ∷ [])) outcome validate-batch

validate_needs_signature_example :
    (pk : List ℕ) × (toy_crypto.load_der_public_key (1 ∷ []) ≡ ed25519 pk)
    × (agree (5 ∷ []) (5 ∷ []) ≡ true)
validate_needs_signature_example =
    validate_needs_signature toy_crypto batch (some (1 ∷ [])) outcome (1 ∷ []) refl validate-batch
      (omega (arith, outcome_accepts))

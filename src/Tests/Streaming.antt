-- ===== src/Tests/Streaming.antt =====
-- Witnesses for the event stream.
use oseye_plateforme.Prelude.{
  ℕ, ◌≡◌, refl, true, false, none, some, List, [], ◌∷◌, String, ◌==◌, str_dec, length, All, elem,
  lookup, ℕ_discrete,
}
use oseye_plateforme.Response.{require_cn}
use oseye_plateforme.Decision.Executor.{is_safe_id}
use oseye_plateforme.Ingest.Validator.{
  validate, check_events, check_event, check_signature, signature_objection, missing, is_blank,
  text, number, absent, IngestRequest, Crypto, ed25519,
}
use oseye_plateforme.Ingest.Service.{
  take_batches, take_batch, collect, publish_batch, is_health, pb_to_event, agent_id_of, Bridge,
  Servicer, Progress, answered, run_stream, ingest_events,
}
use oseye_plateforme.Ingest.Service.Stream.{IsProper, ingest_events-IsProper}

abbrev bridge : Bridge
bridge = record {
  Uuid = String;
  Body = List ℕ;
  Health = ℕ;
  parse_uuid = λ s. none;
  uuid5 = λ s. s;
  fields_of = λ ev. some ev.hash_chain;
  read_health = λ bs. none;
}

abbrev crypto : Crypto
crypto = record {
  Key = List ℕ;
  digest = λ hs. [];
  load_der_public_key = λ k. ed25519 k;
  verify = λ k signature d. length signature == length k;
}

-- The second event has no type.
abbrev request : IngestRequest
request = record {
  events =
      record {
        category = text "network";
        type = text "connect";
        severity = number 2;
        hash_chain = 1 ∷ [];
        extra_json = [];
      }
      ∷ record {
        category = text "network";
        type = absent;
        severity = number 2;
        hash_chain = 2 ∷ [];
        extra_json = [];
      }
      ∷ [];
  batch_signature = 5 ∷ [];
}

abbrev servicer : Servicer bridge
servicer = record {
  agent_keys = ("agent-1", 9 ∷ []) ∷ [];
  require_agent_keys = true;
  blocked_cns = "agent-2" ∷ [];
  active_cns = [];
  collector_healths = [];
}

abbrev progress : Progress bridge
progress = (run_stream bridge crypto "agent-1" (request ∷ []) servicer).0

ends_well :
    (ingest_events bridge crypto (some "agent-1") (request ∷ []) servicer).1
    ≡ some (progress, answered)
unfolding take_batches take_batch collect publish_batch is_health pb_to_event agent_id_of validate
    check_events check_event check_signature signature_objection missing is_blank ℕ_discrete
    ingest_events run_stream require_cn str_dec is_safe_id
ends_well = refl

ingest_events-IsProper_example :
    (cn : String) × ((some "agent-1" ≡ some cn)
      × ((elem str_dec cn servicer.blocked_cns ≡ false)
          × All
              (IsProper bridge crypto cn (lookup str_dec cn servicer.agent_keys) (request ∷ []))
              progress.published))
ingest_events-IsProper_example =
    ingest_events-IsProper bridge crypto (some "agent-1") (request ∷ []) servicer progress answered
      ends_well

-- The event that passes is published.
publishes_one : length progress.published ≡ 1
unfolding run_stream take_batches take_batch collect publish_batch is_health pb_to_event agent_id_of
    validate check_events check_event check_signature signature_objection missing is_blank str_dec
    ℕ_discrete
publishes_one = refl

-- ===== src/Ingest/Service/Stream.antt =====
-- What the event stream of server/oseye/ingest/grpc_service.py publishes, over its requests.
use oseye_plateforme.Prelude.{
  All-append, if-either, ℕ, ◌≡◌, refl, ◌≢◌, ◌⊎◌, inl, inr, Bool, true, false, not, ◌&&◌, Option,
  none, some, List, [], ◌∷◌, map, String, arith, if◌then◌else◌, Option-cases, str_dec, is_some, All,
  elem, Dict, lookup,
}
use mathlib.Core.Path.{subst}
use mathlib.Core.List.{Memᴰ}
use mathlib.Core.List.Memᴰ
use oseye_plateforme.Response.{require_cn}
use oseye_plateforme.Ingest.Validator.{
  IngestRequest, ValidationResult, Crypto, ed25519, range_from, nothing_yet, signature_objection,
  check_signature, validate,
}
use oseye_plateforme.Ingest.Validator.Counts.{cleared, cleared_batch}
use oseye_plateforme.Ingest.Validator.Flags.{flags, check_events-flags}
use oseye_plateforme.Ingest.Service.{
  Bridge, UniversalEvent, Servicer, collect, Progress, Ending, unauthenticated, raised,
  publish_batch, take_batch, take_batches, run_stream, ingest_events,
}
use oseye_plateforme.Ingest.Service.Passed.{IsSound, AreSound, collect_none, collect-AreSound}

validate-cases :
    (c : Crypto) (request : IngestRequest) (key : Option (List ℕ)) (r : ValidationResult)
    → validate c request key ≡ some r
    → (r.rejected_indices ≡ range_from 0 request.events)
      ⊎ ((signature_objection c request key ≡ some none)
          × (r.rejected_indices ≡ flags 0 request.events))
unfolding validate signature_objection check_signature
validate-cases c request key r e =
    ground (arith, check_events-flags 0 request.events nothing_yet tt)

module _ (b : Bridge) where
  open b use {Uuid, Body, Health, parse_uuid, uuid5, fields_of, read_health}

  module _ (c : Crypto) where
    -- With a registered key, the batch signature is one under that key.
    abbrev pub IsSigned : Option (List ℕ) → IngestRequest → Type 0
    IsSigned none request = Unit
    IsSigned (some k) request =
        (pk : c.Key) × (c.load_der_public_key k ≡ ed25519 pk)
        × (c.verify pk request.batch_signature (c.digest (map (λ ev. ev.hash_chain) request.events))
            ≡ true)

    -- A published batch stands for one of the requests, whose signature is a valid one.
    abbrev pub IsProper :
        String → Option (List ℕ) → List IngestRequest → List (UniversalEvent b) → Type 0
    IsProper cn key requests es =
        (request : IngestRequest) × ((Memᴰ request requests)
          × (IsSigned key request × All (IsSound b cn request.events) es))

    signed :
        (key : Option (List ℕ)) (request : IngestRequest)
        → request.events ≢ []
        → signature_objection c request key ≡ some none
        → IsSigned key request
    signed none request some_events clear = tt
    signed (some k) request some_events clear =
        cleared c request k (cleared_batch c request k some_events clear)

    -- What a validated batch publishes.
    batch-IsProper :
        (cn : String) (key : Option (List ℕ)) (request : IngestRequest) (r : ValidationResult)
        (healths : Dict String Health) (e : UniversalEvent b) (es : List (UniversalEvent b))
        → validate c request key ≡ some r
        → (collect b cn r.rejected_indices 0 request.events healths).1 ≡ some (e ∷ es)
        → IsSigned key request × All (IsSound b cn request.events) (e ∷ es)
    batch-IsProper cn key request r healths e es valid got =
        elim (validate-cases c request key r valid) [
          | inl all_out ↦ absurd (
              ground (
                arith,
                collect_none b cn r.rejected_indices 0 request.events healths (λ n f. ground arith),
              ))
          | inr (clear, flagged) ↦
              let sound : All (IsSound b cn request.events) (e ∷ es) =
                subst (AreSound b cn request.events) got (
                  collect-AreSound b cn r.rejected_indices 0 request.events healths
                    (λ n f. ground arith)) in
              (
                signed key request
                    (λ empty. Memᴰ.not-nil (subst (Memᴰ (sound.0.1.0)) empty sound.0.1.1.0)) clear,
                sound,
              )
        ]

    publish_batch-All :
        (P : List (UniversalEvent b) → Type 0) (p : Progress b)
        (o : Option (List (UniversalEvent b)))
        → All P p.published
        → ((e : UniversalEvent b) (es : List (UniversalEvent b)) → o ≡ some (e ∷ es) → P (e ∷ es))
        → All P (publish_batch b p o).0.published
    unfolding publish_batch
    publish_batch-All P p none h new = h
    publish_batch-All P p (some []) h new = h
    publish_batch-All P p (some (e ∷ es)) h new = All-append P p.published _ h (new e es refl, tt)

    -- What holds of a stream that ends at a batch, and of one that goes on, holds after the batch.
    round_ends :
        (P : Progress b × Ending b → Type 0) (refused : Bool) (p : Progress b)
        (o : Option ValidationResult) (done : ValidationResult → Progress b × Bool)
        (rest : ValidationResult → Progress b × Ending b)
        → ((end : Ending b) → P (p, end))
        → ((r : ValidationResult) → o ≡ some r → (end : Ending b) → P ((done r).0, end))
        → ((r : ValidationResult) → o ≡ some r → P (rest r))
        → P (
            if◌then◌else◌ {A = Progress b × Ending b} refused
              (p, unauthenticated)
              (elim o [
                | none ↦ (p, raised)
                | some r ↦ if (done r).1 then rest r else ((done r).0, raised)
              ]))
    round_ends P true p o done rest h k l = h unauthenticated
    round_ends P false p none done rest h k l = h raised
    round_ends P false p (some r) done rest h k l =
        if-either P (done r).1 (rest r) ((done r).0, raised) (l r refl) (k r refl raised)

    take_batch-IsProper :
        (cn : String) (key : Option (List ℕ)) (whole : List IngestRequest) (request : IngestRequest)
        (r : ValidationResult) (p : Progress b)
        → Memᴰ request whole
        → validate c request key ≡ some r
        → All (IsProper cn key whole) p.published
        → All (IsProper cn key whole) (take_batch b c cn request r p).0.published
    unfolding take_batch
    take_batch-IsProper cn key whole request r p m valid h =
        publish_batch-All (IsProper cn key whole) _ _ h
          (λ e es got. (request, (m, batch-IsProper cn key request r p.healths e es valid got)))

    take_batches-IsProper :
        (needs_key : Bool) (cn : String) (key : Option (List ℕ))
        (whole requests : List IngestRequest) (p : Progress b)
        → ((request : IngestRequest) → Memᴰ request requests → Memᴰ request whole)
        → All (IsProper cn key whole) p.published
        → All (IsProper cn key whole) (take_batches b c needs_key cn key requests p).0.published
    unfolding take_batches
    take_batches-IsProper needs_key cn key whole [] p part h = h
    take_batches-IsProper needs_key cn key whole (request ∷ requests) p part h =
        round_ends (λ (s : Progress b × Ending b). All (IsProper cn key whole) s.0.published)
          (needs_key && not (is_some key)) p (validate c request key)
          (λ r. take_batch b c cn request r p)
          (λ r. take_batches b c needs_key cn key requests (take_batch b c cn request r p).0)
          (λ end. h) (λ r valid end. taken r valid)
          (λ r valid.
            take_batches-IsProper needs_key cn key whole requests _ (λ q m. part q (Memᴰ.tail m))
              (taken r valid))
      where
        taken :
            (r : ValidationResult)
            → validate c request key ≡ some r
            → All (IsProper cn key whole) (take_batch b c cn request r p).0.published
        taken r valid =
            take_batch-IsProper cn key whole request r p (part request (Memᴰ.head refl)) valid h

    require_cn_lem :
        (blocked : List String) (peer : Option String) (cn : String)
        → require_cn blocked peer ≡ some cn
        → (peer ≡ some cn) × (elem str_dec cn blocked ≡ false)
    unfolding require_cn
    require_cn_lem blocked none cn e = absurd (ground arith)
    require_cn_lem blocked (some name) cn e = ground arith

    ingest_events_refused :
        (peer : Option String) (requests : List IngestRequest) (s : Servicer b)
        → require_cn s.blocked_cns peer ≡ none
        → (ingest_events b c peer requests s).1 ≡ none
    unfolding ingest_events
    ingest_events_refused peer requests s e = rw (ingest_events, e) refl

    ingest_events_passed :
        (peer : Option String) (requests : List IngestRequest) (s : Servicer b) (cn : String)
        → require_cn s.blocked_cns peer ≡ some cn
        → (ingest_events b c peer requests s).1 ≡ some (run_stream b c cn requests s)
    unfolding ingest_events
    ingest_events_passed peer requests s cn e = rw (ingest_events, e) refl

    run_stream-IsProper :
        (cn : String) (requests : List IngestRequest) (s : Servicer b)
        → All
            (IsProper cn (lookup str_dec cn s.agent_keys) requests)
            (run_stream b c cn requests s).0.published
    unfolding run_stream
    run_stream-IsProper cn requests s =
        take_batches-IsProper s.require_agent_keys cn (lookup str_dec cn s.agent_keys) requests
          requests _ (λ q m. m) tt

    -- Each batch that a stream publishes, however the stream ends, stands for messages of one of its
    -- requests that have the required fields, under the identifier of the client's certificate, which
    -- is there and not blocked; and where a key is registered for that name, the request is signed
    -- with it.
    pub ingest_events-IsProper :
        (peer : Option String) (requests : List IngestRequest) (s : Servicer b) (p : Progress b)
        (end : Ending b)
        → (ingest_events b c peer requests s).1 ≡ some (p, end)
        → (cn : String) × ((peer ≡ some cn)
            × ((elem str_dec cn s.blocked_cns ≡ false)
                × All (IsProper cn (lookup str_dec cn s.agent_keys) requests) p.published))
    ingest_events-IsProper peer requests s p end e =
        elim (Option-cases (require_cn s.blocked_cns peer)) [
          | inl refused ↦ absurd (ground (arith, ingest_events_refused peer requests s refused))
          | inr (cn, passed) ↦
              let known = require_cn_lem s.blocked_cns peer cn passed in
              let same : run_stream b c cn requests s ≡ (p, end) =
                ground (arith, ingest_events_passed peer requests s cn passed) in
              (
                cn,
                (
                  known.0,
                  (
                    known.1,
                    subst
                        (λ (q : Progress b × Ending b).
                          All (IsProper cn (lookup str_dec cn s.agent_keys) requests) q.0.published)
                        same (run_stream-IsProper cn requests s),
                  ),
                ),
              )
        ]

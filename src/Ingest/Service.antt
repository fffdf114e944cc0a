-- ===== src/Ingest/Service.antt =====
-- The event stream of server/oseye/ingest/grpc_service.py, IngestEvents, with the agent identifier of
-- server/oseye/ingest/normalizer_bridge.py. UUIDs, JSON and the other fields that a normalized event
-- takes from its message are parameters.
pub mod Passed
pub mod Stream
use oseye_plateforme.Prelude.{
  ℕ, ◌+◌, ◌-◌, ite, Bool, true, false, not, ◌&&◌, Option, none, some, List, [], ◌∷◌, ◌++◌, String,
  leb, if◌then◌else◌, str_dec, is_some, length, take, keep, elem, Dict, lookup, insert, ℕ_discrete,
}
use oseye_plateforme.Decision.Executor.{is_safe_id}
use oseye_plateforme.Response.{require_cn}
use oseye_plateforme.Ingest.Validator.{
  Value, absent, text, bytes, number, Event, IngestRequest, Error, ValidationResult, Crypto,
  validate,
}

-- The identifiers, the contents of a normalized event, and a health snapshot.
pub record Bridge : Type 1 where
  pub Uuid : Type 0
  pub Body : Type 0
  pub Health : Type 0
  pub parse_uuid : String → Option Uuid
  pub uuid5 : String → Uuid
  pub fields_of : Event → Option Body
  pub read_health : List ℕ → Option Health

module _ (b : Bridge) where
  open b use {Uuid, Body, Health, parse_uuid, uuid5, fields_of, read_health}

  pub record UniversalEvent : Type 0 where
    pub agent_id : Uuid
    pub body : Body

  -- The part of the servicer that the stream uses: keys by name, the blocked names, the names with
  -- an open stream, the latest health snapshots.
  pub record Servicer : Type 0 where
    pub agent_keys : Dict String (List ℕ)
    pub require_agent_keys : Bool
    pub blocked_cns : List String
    pub active_cns : List String
    pub collector_healths : Dict String Health

  unfoldable pub register_agent_key : String → List ℕ → Servicer → Servicer
  register_agent_key cn key s = record s { agent_keys = insert str_dec cn key s.agent_keys }

  -- A name goes into a set, or out of it.
  abbrev pub add_cn : String → List String → List String
  add_cn cn cns = if elem str_dec cn cns then cns else cn ∷ cns

  abbrev pub discard_cn : String → List String → List String
  discard_cn cn cns = keep (λ other. not (elem str_dec other (cn ∷ []))) cns

  unfoldable pub block_agent : String → Servicer → Servicer
  block_agent cn s = record s { blocked_cns = add_cn cn s.blocked_cns }

  unfoldable pub unblock_agent : String → Servicer → Servicer
  unblock_agent cn s = record s { blocked_cns = discard_cn cn s.blocked_cns }

  -- The identifier that stands for the certificate's name.
  unfoldable pub agent_id_of : String → Uuid
  agent_id_of cn = elim (parse_uuid cn) [ some id ↦ id | none ↦ uuid5 cn ]

  -- `pb_to_event` with the certificate's name; `none` where the model refuses a field.
  unfoldable pub pb_to_event : String → Event → Option UniversalEvent
  unfolding agent_id_of
  pb_to_event cn ev = elim (fields_of ev) [
    | none ↦ none
    | some body ↦ some (record { agent_id = agent_id_of cn; body = body })
  ]

  -- `pb_event.category == "agent_health" and pb_event.extra_json`
  unfoldable pub is_health : Event → Bool
  is_health ev = elim ev.category [
    | text s ↦ ite (str_dec s "agent_health") (leb 1 (length ev.extra_json)) false
    | absent ↦ false
    | bytes bs ↦ false
    | number n ↦ false
  ]

  -- A snapshot replaces the last one; one that cannot be read is passed over.
  unfoldable pub store_health : String → Event → Dict String Health → Dict String Health
  store_health cn ev healths = elim (read_health ev.extra_json) [
    | none ↦ healths
    | some h ↦ insert str_dec cn h healths
  ]

  -- The loop over a batch: the snapshots, and what there is to publish, or that an event raised.
  unfoldable pub collect :
      String
      → List ℕ
      → ℕ
      → List Event
      → Dict String Health
      → Dict String Health × Option (List UniversalEvent)
  unfolding is_health store_health pb_to_event
  collect cn rejected i [] healths = (healths, some [])
  collect cn rejected i (ev ∷ evs) healths =
      let skipped = collect cn rejected (i + 1) evs healths in
      let stored = collect cn rejected (i + 1) evs (store_health cn ev healths) in
      if elem ℕ_discrete i rejected
      then skipped
      else if is_health ev
      then stored
      else elim (pb_to_event cn ev) [
        | none ↦ (healths, none)
        | some event ↦ elim skipped.1 [
          | none ↦ skipped
          | some events ↦ (skipped.0, some (event ∷ events))
        ]
      ]

  -- The counters of a stream, and the batches that it published.
  pub record Progress : Type 0 where
    pub healths : Dict String Health
    pub published : List (List UniversalEvent)
    pub accepted : ℕ
    pub rejected : ℕ
    pub errors : List Error

  -- How a stream ends.
  pub data Ending : Type 0 where
    answered : Ending
    unauthenticated : Ending
    raised : Ending

  -- The batch is published, if there is something to publish and no event raised.
  unfoldable pub publish_batch : Progress → Option (List UniversalEvent) → Progress × Bool
  publish_batch p none = (p, false)
  publish_batch p (some []) = (p, true)
  publish_batch p (some (event ∷ events)) =
      (record p { published = p.published ++ (event ∷ events) ∷ [] }, true)

  module _ (c : Crypto) where
    -- A batch that was validated; whether all its events could be converted.
    unfoldable pub take_batch :
        String → IngestRequest → ValidationResult → Progress → Progress × Bool
    unfolding collect publish_batch
    take_batch cn request r p =
        let got = collect cn r.rejected_indices 0 request.events p.healths in
        let counted = record p {
          healths = got.0;
          accepted = p.accepted + r.accepted;
          rejected = p.rejected + r.rejected;
          errors = p.errors ++ take (1000 - length p.errors) r.errors;
        } in
        publish_batch counted got.1

    unfoldable pub take_batches :
        Bool → String → Option (List ℕ) → List IngestRequest → Progress → Progress × Ending
    unfolding take_batch validate
    take_batches needs_key cn key [] p = (p, answered)
    take_batches needs_key cn key (request ∷ requests) p =
        if needs_key && not (is_some key)
        then (p, unauthenticated)
        else elim (validate c request key) [
          | none ↦ (p, raised)
          | some r ↦
              let done = take_batch cn request r p in
              let rest = take_batches needs_key cn key requests done.0 in
              if done.1 then rest else (done.0, raised)
        ]

    -- The batches of a caller whose name is accepted; the key is looked up once.
    unfoldable pub run_stream : String → List IngestRequest → Servicer → Progress × Ending
    unfolding take_batches
    run_stream cn requests s =
        take_batches s.require_agent_keys cn (lookup str_dec cn s.agent_keys) requests (record {
          healths = s.collector_healths;
          published = [];
          accepted = 0;
          rejected = 0;
          errors = [];
        })

    -- `IngestEvents`: `none` where the caller's name is refused. The name is in `active_cns` while the
    -- stream runs, and discarded at its end, whatever the ending.
    unfoldable pub ingest_events :
        Option String → List IngestRequest → Servicer → Servicer × Option (Progress × Ending)
    unfolding run_stream require_cn
    ingest_events peer requests s = elim (require_cn s.blocked_cns peer) [
      | none ↦ (s, none)
      | some cn ↦
          let active = add_cn cn s.active_cns in
          let done = run_stream cn requests s in
          (
            record s { active_cns = discard_cn cn active; collector_healths = (done.0).healths },
            some done,
          )
    ]

-- ===== src/Ingest/Validator.antt =====
-- BatchValidator of server/oseye/ingest/validator.py. BLAKE3, the DER decoder and the Ed25519
-- check are parameters.
pub mod Indices
pub mod Flags
pub mod Counts
use oseye_plateforme.Prelude.{
  ℕ, ◌+◌, Bool, true, false, Option, none, some, List, [], ◌∷◌, ◌++◌, map, String, ltb, ◌==◌, any,
  if◌then◌else◌, length,
}

-- The value of a field of a protobuf event, or that there is none.
pub data Value : Type 0 where
  absent : Value
  text : String → Value
  bytes : List ℕ → Value
  number : ℕ → Value

pub record Event : Type 0 where
  pub category : Value
  pub type : Value
  pub severity : Value
  pub hash_chain : List ℕ
  pub extra_json : List ℕ

pub record IngestRequest : Type 0 where
  pub events : List Event
  pub batch_signature : List ℕ

pub data Error : Type 0 where
  too_large : Error
  not_ed25519 bad_signature : ℕ → Error
  missing_fields : ℕ → List String → Error

pub record ValidationResult : Type 0 where
  pub accepted : ℕ
  pub rejected : ℕ
  pub errors : List Error
  pub rejected_indices : List ℕ

-- What decoding a public key gives: an Ed25519 key, a key of another kind, or an exception.
pub data Decoded (Key : Type 0) : Type 0 where
  ed25519 : Key → Decoded Key
  other_kind failed : Decoded Key

pub record Crypto : Type 1 where
  pub Key : Type 0
  pub digest : List (List ℕ) → List ℕ
  pub load_der_public_key : List ℕ → Decoded Key
  pub verify : Key → List ℕ → List ℕ → Bool

abbrev pub max_events : ℕ
max_events = 10_000

-- `v is None or v == "" or v == b""`
unfoldable pub is_blank : Value → Bool
is_blank absent = true
is_blank (text String.[]) = true
is_blank (bytes []) = true
is_blank _ = false

-- The required fields that an event lacks.
unfoldable pub missing : Event → List String
unfolding is_blank
missing ev =
    (if is_blank ev.category then "category" ∷ [] else [])
    ++ ((if is_blank ev.type then "type" ∷ [] else [])
        ++ (if is_blank ev.severity then "severity" ∷ [] else []))

-- `range(n)` from `i` on
abbrev pub range_from : ℕ → List Event → List ℕ
range_from i [] = []
range_from i (ev ∷ evs) = i ∷ range_from (i + 1) evs

-- A result that rejects every event for one reason.
abbrev pub reject_all : (ℕ → Error) → List Event → ValidationResult
reject_all reason events = record {
  accepted = 0;
  rejected = length events;
  errors = map reason (range_from 0 events);
  rejected_indices = range_from 0 events;
}

-- `rejected_indices.add`: the set is a list without repetitions.
unfoldable pub add_index : ℕ → List ℕ → List ℕ
add_index i indices = if any (λ j. j == i) indices then indices else indices ++ i ∷ []

-- One round of the loop over the events.
unfoldable pub check_event : ℕ → Event → ValidationResult → ValidationResult
unfolding missing add_index
check_event i ev r = elim (missing ev) [
  | [] ↦ record r { accepted = r.accepted + 1 }
  | f ∷ fs ↦ record r {
    rejected = r.rejected + 1;
    rejected_indices = add_index i r.rejected_indices;
    errors = r.errors ++ missing_fields i (f ∷ fs) ∷ [];
  }
]

unfoldable pub check_events : ℕ → List Event → ValidationResult → ValidationResult
check_events i [] r = r
check_events i (ev ∷ evs) r = check_events (i + 1) evs (check_event i ev r)

abbrev pub nothing_yet : ValidationResult
nothing_yet = record { accepted = 0; rejected = 0; errors = []; rejected_indices = [] }

module _ (c : Crypto) where
  -- The signature check: a result that rejects all, no objection, or an exception.
  unfoldable pub check_signature : IngestRequest → List ℕ → Option (Option ValidationResult)
  check_signature request key = elim (c.load_der_public_key key) [
    | failed ↦ none
    | other_kind ↦ some (some (reject_all not_ed25519 request.events))
    | ed25519 k ↦
        if c.verify k request.batch_signature (c.digest (map (λ ev. ev.hash_chain) request.events))
        then some none
        else some (some (reject_all bad_signature request.events))
  ]

  -- The check where it is made: with a registered key and at least one event.
  unfoldable pub signature_objection :
      IngestRequest → Option (List ℕ) → Option (Option ValidationResult)
  unfolding check_signature
  signature_objection request none = some none
  signature_objection request (some key) = elim request.events [
    | [] ↦ some none
    | ev ∷ evs ↦ check_signature request key
  ]

  -- `validate`; `none` is the exception of a key that cannot be decoded.
  unfoldable pub validate : IngestRequest → Option (List ℕ) → Option ValidationResult
  unfolding signature_objection check_events
  validate request key =
      if ltb max_events (length request.events)
      then some (record {
        accepted = 0;
        rejected = length request.events;
        errors = too_large ∷ [];
        rejected_indices = range_from 0 request.events;
      })
      else elim (signature_objection request key) [
        | none ↦ none
        | some (some r) ↦ some r
        | some none ↦ some (check_events 0 request.events nothing_yet)
      ]

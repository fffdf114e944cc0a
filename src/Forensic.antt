-- ===== src/Forensic.antt =====
-- CaseManager of server/oseye/forensic/case_manager.py over the rows of
-- server/oseye/storage/repositories/cases.py. Each request runs under the lock of its case; its
-- statements may fail one by one. BLAKE2b and the texts of times and values are parameters.
pub mod Custody
pub mod Growth
use oseye_plateforme.Prelude.{
  ℕ, Bool, not, ◌&&◌, Option, none, some, List, [], ◌∷◌, ◌++◌, String, if◌then◌else◌, str_dec, any,
  get_last?, elem, Dict, lookup, contains, insert, codes, ℕ_discrete,
}
use Prim.Native.String.{◌++◌ as append_text}
use oseye_plateforme.Correlation.Linkers.{holds}

pub record CustodyEntry : Type 0 where
  pub timestamp : ℕ
  pub operator : String
  pub action : String
  pub detail : String
  pub hash : String

pub record CaseNote : Type 0 where
  pub note_id : ℕ
  pub created_at : ℕ
  pub author : String
  pub content : String

pub record EvidenceItem : Type 0 where
  pub evidence_id : ℕ
  pub type : String
  pub content : String
  pub description : Option String
  pub added_by : String
  pub added_at : ℕ
  pub marked_as_evidence_at : ℕ

pub record ForensicCase : Type 0 where
  pub created_at : ℕ
  pub updated_at : ℕ
  pub title : String
  pub description : String
  pub severity : String
  pub status : String
  pub tags : List String
  pub assigned_to : Option String
  pub created_by : String
  pub alert_ids : List ℕ
  pub event_ids : List ℕ
  pub evidence : List EvidenceItem
  pub notes : List CaseNote
  pub custody_log : List CustodyEntry

-- `"0" * 64`
abbrev pub zero_hash : String
zero_hash = "0000000000000000000000000000000000000000000000000000000000000000"

-- `_last_hash`
unfoldable pub last_hash_of : List CustodyEntry → String
last_hash_of log = elim (get_last? log) [ none ↦ zero_hash | some e ↦ e.hash ]

-- A keyword of `update_case` with its value.
pub data Field : Type 0 where
  sets_title sets_description sets_severity sets_status : String → Field
  sets_tags : List String → Field
  sets_assigned_to : Option String → Field
  sets_other : String → Field

abbrev pub severities : List String
severities = "low" ∷ "medium" ∷ "high" ∷ "critical" ∷ []

abbrev pub evidence_types : List String
evidence_types = "event" ∷ "file_hash" ∷ "screenshot" ∷ "note" ∷ "external" ∷ []

abbrev pub statuses : List String
statuses = "open" ∷ "in_progress" ∷ "resolved" ∷ "archived" ∷ []

-- One assignment; `none` for a field that is not updatable, or a value that the model refuses.
unfoldable pub set_field : Field → ForensicCase → Option ForensicCase
set_field (sets_title s) k = some (record k { title = s })
set_field (sets_description s) k = some (record k { description = s })
set_field (sets_severity s) k =
    if elem str_dec s severities then some (record k { severity = s }) else none
set_field (sets_status s) k =
    if elem str_dec s statuses then some (record k { status = s }) else none
set_field (sets_tags ts) k = some (record k { tags = ts })
set_field (sets_assigned_to o) k = some (record k { assigned_to = o })
set_field (sets_other name) k = none

unfoldable pub set_fields : List Field → ForensicCase → Option ForensicCase
unfolding set_field
set_fields [] k = some k
set_fields (x ∷ xs) k = elim (set_field x k) [ none ↦ none | some k' ↦ set_fields xs k' ]

-- The digest, and the texts of times, identifiers and lists.
pub record Texts : Type 0 where
  pub blake2b : String → String
  pub isoformat : ℕ → String
  pub show_id : ℕ → String
  pub show_list : List String → String

-- `_SENSITIVE_FIELD_RE.search`, on names in lower case
unfoldable pub is_sensitive : String → Bool
is_sensitive name =
    any (λ word. holds (codes word) (codes name))
      ("password" ∷ "token" ∷ "key" ∷ "secret" ∷ "hash" ∷ [])

-- `_mask_custody_value`
unfoldable pub mask_custody_value : String → String → String
unfolding is_sensitive
mask_custody_value name value = if is_sensitive name then "***" else value

unfoldable pub field_name : Field → String
field_name (sets_title s) = "title"
field_name (sets_description s) = "description"
field_name (sets_severity s) = "severity"
field_name (sets_status s) = "status"
field_name (sets_tags ts) = "tags"
field_name (sets_assigned_to o) = "assigned_to"
field_name (sets_other name) = name

abbrev pub Cases : Type 0
Cases = Dict ℕ ForensicCase

-- Whether each statement of a request succeeds.
pub record Database : Type 0 where
  pub updates : Bool
  pub appends : Bool

abbrev pub with_note : ℕ → ℕ → String → String → ForensicCase → ForensicCase
with_note now note_id author content k = record k {
  notes =
      k.notes
      ++ record { note_id = note_id; created_at = now; author = author; content = content } ∷ [];
}

abbrev pub with_evidence :
    ℕ → ℕ → String → String → String → Option String → ForensicCase → ForensicCase
with_evidence now evidence_id operator type content description k = record k {
  evidence =
      k.evidence
      ++ record {
        evidence_id = evidence_id;
        type = type;
        content = content;
        description = description;
        added_by = operator;
        added_at = now;
        marked_as_evidence_at = now;
      }
        ∷ [];
}

module _ (t : Texts) where
  open t use {blake2b, isoformat, show_id, show_list}

  -- `str(v)`; a field that is not updatable never gets here.
  unfoldable pub field_value : Field → String
  field_value (sets_title s) = s
  field_value (sets_description s) = s
  field_value (sets_severity s) = s
  field_value (sets_status s) = s
  field_value (sets_tags ts) = show_list ts
  field_value (sets_assigned_to none) = "None"
  field_value (sets_assigned_to (some s)) = s
  field_value (sets_other name) = ""

  -- `k=v`, and the detail of an update: these with commas between them
  unfoldable pub describe_field : Field → String
  unfolding field_name field_value mask_custody_value
  describe_field x =
      append_text (field_name x)
        (append_text "=" (mask_custody_value (field_name x) (field_value x)))

  unfoldable pub describe : List Field → String
  unfolding describe_field
  describe [] = ""
  describe (x ∷ []) = describe_field x
  describe (x ∷ y ∷ xs) = append_text (describe_field x) (append_text ", " (describe (y ∷ xs)))

  -- `_custody_hash`: the parts with `|` between them.
  unfoldable pub custody_hash : String → ℕ → String → String → String → String
  custody_hash prev now operator action detail = blake2b (
      append_text prev (
        append_text "|" (
          append_text (isoformat now) (
            append_text "|" (
              append_text operator
                (append_text "|" (append_text action (append_text "|" detail))))))))

  unfoldable pub new_entry : String → ℕ → String → String → String → CustodyEntry
  unfolding custody_hash
  new_entry prev now operator action detail = record {
    timestamp = now;
    operator = operator;
    action = action;
    detail = detail;
    hash = custody_hash prev now operator action detail;
  }

  -- `create_case`, with a fresh identifier; the row and its first entry are one transaction.
  unfoldable pub create_case :
      Bool
      → ℕ
      → ℕ
      → String
      → String
      → String
      → String
      → List String
      → List ℕ
      → List ℕ
      → Cases
      → Cases
  unfolding new_entry
  create_case stored now id title severity created_by description tags alert_ids event_ids cases =
      if stored && (elem str_dec severity severities && not (contains ℕ_discrete id cases))
      then insert ℕ_discrete id
          (record {
            created_at = now;
            updated_at = now;
            title = title;
            description = description;
            severity = severity;
            status = "open";
            tags = tags;
            assigned_to = none;
            created_by = created_by;
            alert_ids = alert_ids;
            event_ids = event_ids;
            evidence = [];
            notes = [];
            custody_log = new_entry zero_hash now created_by "case_opened" title ∷ [];
          })
          cases
      else cases

  -- `_append_custody` on the row of the case that was read.
  unfoldable pub append_custody :
      ForensicCase → ℕ → String → String → String → ForensicCase → ForensicCase
  unfolding new_entry last_hash_of
  append_custody read now operator action detail row = record row {
    custody_log =
        row.custody_log
        ++ new_entry (last_hash_of read.custody_log) now operator action detail ∷ [];
  }

  -- The update of the row, then the entry, as two transactions; the log is not part of the update.
  unfoldable pub store_change :
      Database → ℕ → ℕ → String → String → String → ForensicCase → ForensicCase → Cases → Cases
  unfolding append_custody
  store_change db now id operator action detail read changed cases =
      let row = record changed { custody_log = read.custody_log; updated_at = now } in
      if not db.updates
      then cases
      else if db.appends
      then insert ℕ_discrete id (append_custody read now operator action detail row) cases
      else insert ℕ_discrete id row cases

  -- The requests on a case that is there.
  pub data CaseRequest : Type 0 where
    updates_case : String → List Field → CaseRequest
    adds_note : ℕ → String → String → CaseRequest
    adds_evidence : ℕ → String → String → String → Option String → CaseRequest
    closes_case : String → String → CaseRequest

  -- `update_case`, `add_note`, `add_evidence` and `close_case`, from the case that was read.
  unfoldable pub change_case : Database → ℕ → ℕ → CaseRequest → ForensicCase → Cases → Cases
  unfolding store_change set_fields describe
  change_case db now id (updates_case operator fields) k cases = elim (set_fields fields k) [
    | none ↦ cases
    | some changed ↦
        store_change db now id operator "case_updated" (describe fields) k changed cases
  ]
  change_case db now id (adds_note note_id author content) k cases =
      store_change db now id author "note_added" (append_text "note_id=" (show_id note_id)) k
        (with_note now note_id author content k) cases
  change_case db now id (adds_evidence evidence_id operator type content description) k cases =
      if elem str_dec type evidence_types
      then store_change db now id operator "evidence_added"
          (append_text "evidence_id=" (show_id evidence_id)) k
          (with_evidence now evidence_id operator type content description k) cases
      else cases
  change_case db now id (closes_case operator resolution) k cases =
      store_change db now id operator "case_closed" resolution k (record k { status = "resolved" })
        cases

  pub data Request : Type 0 where
    opens :
        Bool → ℕ → ℕ → String → String → String → String → List String → List ℕ → List ℕ → Request
    changes : Database → ℕ → ℕ → CaseRequest → Request

  unfoldable pub serve_request : Request → Cases → Cases
  unfolding create_case change_case
  serve_request (opens stored now id title severity by description tags alerts events) cases =
      create_case stored now id title severity by description tags alerts events cases
  serve_request (changes db now id q) cases = elim (lookup ℕ_discrete id cases) [
    | none ↦ cases
    | some k ↦ change_case db now id q k cases
  ]

  unfoldable pub serve_requests : List Request → Cases → Cases
  serve_requests [] cases = cases
  serve_requests (q ∷ qs) cases = serve_requests qs (serve_request q cases)

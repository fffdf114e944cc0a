-- ===== src/Response.antt =====
-- SQLResponseActionsRepository of server/oseye/storage/repositories/response_actions.py, with the
-- report stream of server/oseye/ingest/grpc_service.py and the rollback route of
-- server/oseye/api/routers/response_actions.py, which change its rows. Times are ticks.
pub mod Own
pub mod Requests
pub mod Kept
pub mod Course
pub mod Once
use oseye_plateforme.Prelude.{
  ℕ, ◌+◌, ite, Bool, true, false, not, Option, none, some, List, [], ◌∷◌, String, if◌then◌else◌,
  str_dec, elem, Dict, lookup, insert, ℕ_discrete,
}
use oseye_plateforme.Decision.Executor.{is_safe_id}

pub data Status : Type 0 where
  pending_report executed failed rolled_back : Status

unfoldable pub same_status : Status → Status → Bool
same_status pending_report pending_report = true
same_status executed executed = true
same_status failed failed = true
same_status rolled_back rolled_back = true
same_status _ _ = false

pub record Action : Type 0 where
  pub decision_id : ℕ
  pub agent_cn : String
  pub command_type : String
  pub payload : String
  pub status : Status
  pub created_at : ℕ
  pub executed_at : Option ℕ
  pub rolled_back_at : Option ℕ
  pub error : Option String

-- The rows, by the identifier of the command.
abbrev pub Rows : Type 0
Rows = Dict ℕ Action

abbrev pub new_action : ℕ → ℕ → String → String → String → Action
new_action now decision_id cn command_type payload = record {
  decision_id = decision_id;
  agent_cn = cn;
  command_type = command_type;
  payload = payload;
  status = pending_report;
  created_at = now;
  executed_at = none;
  rolled_back_at = none;
  error = none;
}

-- `create`; `none` is the database's refusal of an identifier that is taken.
unfoldable pub create_action : ℕ → Action → Rows → Option Rows
create_action id new rows = elim (lookup ℕ_discrete id rows) [
  | some a ↦ none
  | none ↦ some (insert ℕ_discrete id new rows)
]

-- An update where the identifier and the status fit; whether it changed a row.
unfoldable pub update_where : Status → (Action → Action) → ℕ → Rows → Rows × Bool
update_where from change id rows = elim (lookup ℕ_discrete id rows) [
  | none ↦ (rows, false)
  | some a ↦
      if same_status a.status from
      then (insert ℕ_discrete id (change a) rows, true)
      else (rows, false)
]

unfoldable pub mark_executed : ℕ → ℕ → Rows → Rows × Bool
unfolding update_where
mark_executed now id rows =
    update_where pending_report (λ a. record a { status = executed; executed_at = some now }) id
      rows

unfoldable pub mark_failed : String → ℕ → Rows → Rows × Bool
unfolding update_where
mark_failed error id rows =
    update_where pending_report (λ a. record a { status = failed; error = some error }) id rows

unfoldable pub atomic_mark_rolled_back : ℕ → ℕ → Rows → Rows × Bool
unfolding update_where
atomic_mark_rolled_back now id rows =
    update_where executed (λ a. record a { status = rolled_back; rolled_back_at = some now }) id
      rows

-- A report of an agent, and how the database answers: whether the row is read in time, and
-- whether the update takes effect.
pub record Report : Type 0 where
  pub command_id : ℕ
  pub status : String
  pub error : String
  pub is_read : Bool
  pub takes_effect : Bool

unfoldable pub apply_report : ℕ → Report → Rows → Rows
unfolding mark_executed mark_failed atomic_mark_rolled_back
apply_report now r rows =
    ite (str_dec r.status "executed") ((mark_executed now r.command_id rows).0) (
      ite (str_dec r.status "failed") ((mark_failed r.error r.command_id rows).0) (
        ite (str_dec r.status "rolled_back") ((atomic_mark_rolled_back now r.command_id rows).0)
          rows))

-- One round of the report stream: the rows, and how many reports are accepted. The
-- repository is attached, and what waits for a ping's answer is left out.
unfoldable pub take_report : ℕ → String → Report → Rows × ℕ → Rows × ℕ
take_report now cn r (rows, accepted) =
    if not r.is_read then (rows, accepted) else elim (lookup ℕ_discrete r.command_id rows) [
      | none ↦ (rows, accepted)
      | some a ↦
          ite (str_dec a.agent_cn cn)
            (if r.takes_effect then apply_report now r rows else rows, accepted + 1)
            (rows, accepted)
    ]

unfoldable pub take_reports : ℕ → String → List Report → Rows × ℕ → Rows × ℕ
take_reports now cn [] s = s
take_reports now cn (r ∷ rs) s = take_reports now cn rs (take_report now cn r s)

-- The name of the client's certificate, if it has the right form and is not blocked.
unfoldable pub require_cn : List String → Option String → Option String
require_cn blocked none = none
require_cn blocked (some cn) =
    if not (is_safe_id cn) then none else if elem str_dec cn blocked then none else some cn

-- The stream of a client, once its name is checked; no count where the call is aborted.
unfoldable pub serve_stream : ℕ → List Report → Rows → Option String → Rows × Option ℕ
unfolding take_reports
serve_stream now reports rows none = (rows, none)
serve_stream now reports rows (some cn) =
    let done = take_reports now cn reports (rows, 0) in (done.0, some (done.1))

-- `ReportActions`
unfoldable pub report_actions :
    ℕ → List String → Option String → List Report → Rows → Rows × Option ℕ
unfolding serve_stream require_cn
report_actions now blocked peer reports rows =
    serve_stream now reports rows (require_cn blocked peer)

-- What the rollback route answers, by its HTTP status.
pub data Reply : Type 0 where
  not_found unprocessable conflict : Reply
  emitted : String → String → String → Reply

-- `rollback_response_action`: the rows, and the reply; `emitted` names the agent, the type and the
-- payload of the command to undo.
unfoldable pub roll_back : ℕ → ℕ → Rows → Rows × Reply
unfolding atomic_mark_rolled_back
roll_back now id rows = elim (lookup ℕ_discrete id rows) [
  | none ↦ (rows, not_found)
  | some a ↦
      ite (str_dec a.command_type "KILL_PROCESS") (rows, unprocessable)
        (let marked = atomic_mark_rolled_back now id rows in
          if marked.1
          then (marked.0, emitted a.agent_cn a.command_type a.payload)
          else (rows, conflict))
]

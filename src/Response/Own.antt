-- ===== src/Response/Own.antt =====
-- An agent's reports, ReportActions of server/oseye/ingest/grpc_service.py, and other agents' rows.
use oseye_plateforme.Prelude.{
  ℕ, ◌≡◌, refl, ◌≢◌, inl, inr, ite, Option, none, some, List, [], ◌∷◌, String, arith, Option-cases,
  str_dec, lookup, lookup-insert_ne, ℕ_discrete,
}
use oseye_plateforme.Response.{
  Status, pending_report, executed, Action, Rows, update_where, mark_executed, mark_failed,
  atomic_mark_rolled_back, Report, apply_report, take_report, take_reports, require_cn,
  serve_stream, report_actions,
}

pub update_where-other :
    (from : Status) (change : Action → Action) (id asked : ℕ) (rows : Rows)
    → asked ≢ id
    → lookup ℕ_discrete asked (update_where from change id rows).0 ≡ lookup ℕ_discrete asked rows
unfolding update_where
update_where-other from change id asked rows differ =
    elim (Option-cases (lookup ℕ_discrete id rows)) [
      | inl e ↦ ground arith
      | inr (a, e) ↦ ground (arith, lookup-insert_ne ℕ_discrete asked id (change a) rows differ)
    ]

-- A property of both branches.
pub ite-either {ℓ κ} :
    {A : Type ℓ} {B : Type 0} (P : A → Type κ) (d : Dec B) {x y : A} → P x → P y → P (ite d x y)
ite-either P (yes b) p q = p
ite-either P (no n) p q = q

-- What holds of the rows and after each of the three updates holds after a report.
pub apply_report-each {κ} :
    (P : Rows → Type κ) (now : ℕ) (r : Report) (rows : Rows)
    → P (mark_executed now r.command_id rows).0
    → P (mark_failed r.error r.command_id rows).0
    → P (atomic_mark_rolled_back now r.command_id rows).0
    → P rows
    → P (apply_report now r rows)
unfolding apply_report
apply_report-each P now r rows e f u h =
    ite-either P (str_dec r.status "executed") e (
      ite-either P (str_dec r.status "failed") f
        (ite-either P (str_dec r.status "rolled_back") u h))

apply_report-other :
    (now : ℕ) (r : Report) (asked : ℕ) (rows : Rows)
    → asked ≢ r.command_id
    → lookup ℕ_discrete asked (apply_report now r rows) ≡ lookup ℕ_discrete asked rows
unfolding mark_executed mark_failed atomic_mark_rolled_back
apply_report-other now r asked rows differ =
    apply_report-each (λ after. lookup ℕ_discrete asked after ≡ lookup ℕ_discrete asked rows) now r
      rows (update_where-other pending_report _ r.command_id asked rows differ)
      (update_where-other pending_report _ r.command_id asked rows differ)
      (update_where-other executed _ r.command_id asked rows differ) refl

take_report-others :
    (now : ℕ) (cn : String) (r : Report) (s : Rows × ℕ) (id : ℕ) (a : Action)
    → lookup ℕ_discrete id s.0 ≡ some a
    → a.agent_cn ≢ cn
    → lookup ℕ_discrete id (take_report now cn r s).0 ≡ some a
unfolding take_report
take_report-others now cn r s id a e other = elim (ℕ_discrete id r.command_id) [
  | yes p ↦ ground (arith)
  | no n ↦ ground (arith, apply_report-other now r id s.0 n)
]

take_reports-others :
    (now : ℕ) (cn : String) (rs : List Report) (s : Rows × ℕ) (id : ℕ) (a : Action)
    → lookup ℕ_discrete id s.0 ≡ some a
    → a.agent_cn ≢ cn
    → lookup ℕ_discrete id (take_reports now cn rs s).0 ≡ some a
unfolding take_reports
take_reports-others now cn [] s id a e other = e
take_reports-others now cn (r ∷ rs) s id a e other =
    take_reports-others now cn rs (take_report now cn r s) id a
      (take_report-others now cn r s id a e other) other

-- The reports of one connection, whatever they say and however the database answers, leave the row
-- of every command that was issued to another agent than the one that the certificate names.
pub report_actions-others :
    (now : ℕ) (blocked : List String) (peer : Option String) (rs : List Report) (rows : Rows)
    (id : ℕ) (a : Action)
    → lookup ℕ_discrete id rows ≡ some a
    → peer ≢ some a.agent_cn
    → lookup ℕ_discrete id (report_actions now blocked peer rs rows).0 ≡ some a
unfolding report_actions serve_stream require_cn
report_actions-others now blocked none rs rows id a e other = e
report_actions-others now blocked (some cn) rs rows id a e other =
    ground (arith, take_reports-others now cn rs (rows, 0) id a e)

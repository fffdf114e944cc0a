-- ===== src/Tests/Responding.antt =====
-- Witnesses for response actions and the retry loop.
use oseye_plateforme.Prelude.{
  ℕ, ◌+◌, ◌≤◌, ◌<◌, ◌≡◌, refl, ap, true, Option, none, some, List, [], ◌∷◌, String, arith, ◌==◌,
  if◌then◌else◌, length, lookup, ℕ_discrete,
}
use oseye_plateforme.Prelude.{differ}
use oseye_plateforme.Prelude.Floats.{thousandths}
use oseye_plateforme.Response.{Action, Rows, new_action, Report, report_actions}
use oseye_plateforme.Response.Own.{report_actions-others}
use oseye_plateforme.Response.Requests.{Request, creates, reports, rolls_back, serve_all}
use oseye_plateforme.Response.Kept.{IsLater}
use oseye_plateforme.Response.Course.{serve_all-IsLater}
use oseye_plateforme.Response.Once.{times, serve_all_once}
use oseye_plateforme.ThreatIntel.Retry.{Ended, gave, http_status, retryable, retry_async}
use oseye_plateforme.ThreatIntel.Retry.Attempts.{retry_async-calls}

abbrev block : Action
block = new_action 3 40 "agent-1" "BLOCK_IP" "{}"

abbrev rows : Rows
rows = (7, block) ∷ []

abbrev done : Report
done = record {
  command_id = 7;
  status = "executed";
  error = "";
  is_read = true;
  takes_effect = true;
}

report_actions-others_example :
    lookup ℕ_discrete 7 (report_actions 5 [] (some "agent-2") (done ∷ []) rows).0 ≡ some block
unfolding ℕ_discrete
report_actions-others_example =
    report_actions-others 5 [] (some "agent-2") (done ∷ []) rows 7 block refl (λ e.
      differ "agent-2" "agent-1" refl
        (ap (λ (o : Option String). elim o [ none ↦ "" | some t ↦ t ]) e))

abbrev requests : List Request
requests =
    creates 4 8 41 "agent-1" "BLOCK_IP" "{}"
    ∷ reports 5 [] (some "agent-1") (done ∷ [])
    ∷ rolls_back 6 7
    ∷ rolls_back 6 7
    ∷ []

serve_all-IsLater_example : IsLater block (lookup ℕ_discrete 7 (serve_all requests rows).0)
unfolding ℕ_discrete
serve_all-IsLater_example = serve_all-IsLater requests rows 7 block refl

serve_all_once_example : times 7 (serve_all requests rows).1 ≤ 1
serve_all_once_example = serve_all_once requests rows 7

-- Two failures before an answer.
abbrev answers : ℕ → Ended ℕ
answers n = if n == 0 then retryable else if n == 1 then http_status 503 else gave 42

abbrev draws : ℕ → ℕ
draws n = 500

retry_async-calls_example :
    let r = retry_async thousandths answers draws 3 500 in
    (0 < r.calls) × ((r.calls ≤ 3) × (length r.slept + 1 ≡ r.calls))
retry_async-calls_example = retry_async-calls thousandths answers draws 3 500 (omega arith)

-- ===== src/Tests/Custodies.antt =====
-- Witnesses for the forensic cases.
use oseye_plateforme.Prelude.{refl, true, false, none, List, [], ◌∷◌, arith, ℕ_discrete}
use oseye_plateforme.Forensic.{
  ForensicCase, Texts, Cases, Database, Request, opens, changes, updates_case, adds_note,
  closes_case, sets_status, serve_requests,
}
use oseye_plateforme.Forensic.Custody.{IsIntact, serve_requests-IsIntact}
use oseye_plateforme.Forensic.Growth.{HasLog, serve_requests-HasLog}

abbrev texts : Texts
texts = record {
  blake2b = λ s. s;
  isoformat = λ n. "2026";
  show_id = λ n. "3";
  show_list = λ ts. "[]";
}

abbrev up : Database
up = record { updates = true; appends = true }

abbrev lossy : Database
lossy = record { updates = true; appends = false }

-- The entry of the second change is lost.
abbrev requests : List (Request texts)
requests =
    opens true 1 7 "leak" "high" "ana" "" [] [] []
    ∷ changes up 2 7 (adds_note 3 "ana" "seen")
    ∷ changes lossy 3 7 (updates_case "ana" (sets_status "in_progress" ∷ []))
    ∷ changes up 4 7 (closes_case "bob" "done")
    ∷ []

serve_requests-IsIntact_example : IsIntact texts (serve_requests texts requests [])
serve_requests-IsIntact_example =
    serve_requests-IsIntact texts requests [] (λ id k e. absurd (ground arith))

abbrev opened : ForensicCase
opened = record {
  created_at = 1;
  updated_at = 1;
  title = "leak";
  description = "";
  severity = "high";
  status = "open";
  tags = [];
  assigned_to = none;
  created_by = "ana";
  alert_ids = [];
  event_ids = [];
  evidence = [];
  notes = [];
  custody_log =
      record {
        timestamp = 1;
        operator = "ana";
        action = "case_opened";
        detail = "leak";
        hash = "h";
      }
      ∷ [];
}

abbrev cases : Cases
cases = (7, opened) ∷ []

serve_requests-HasLog_example :
    HasLog texts 7 opened.custody_log (serve_requests texts requests cases)
unfolding ℕ_discrete
serve_requests-HasLog_example = serve_requests-HasLog texts requests 7 opened cases refl

-- ===== src/Response/Requests.antt =====
-- The requests that change the rows of server/oseye/storage/repositories/response_actions.py.
use oseye_plateforme.Prelude.{ℕ, Option, none, some, List, [], ◌∷◌, ◌++◌, String}
use oseye_plateforme.Response.{
  Rows, new_action, create_action, Report, report_actions, Reply, emitted, roll_back,
}

-- What changes the rows.
pub data Request : Type 0 where
  creates : ℕ → ℕ → ℕ → String → String → String → Request
  reports : ℕ → List String → Option String → List Report → Request
  rolls_back : ℕ → ℕ → Request

-- The identifiers whose undoing was sent to an agent.
abbrev pub sent : ℕ → Reply → List ℕ
sent id (emitted cn command_type payload) = id ∷ []
sent id _ = []

-- One request: the rows after it, and the undoings that it sends.
unfoldable pub serve : Request → Rows → Rows × List ℕ
unfolding create_action report_actions roll_back
serve (creates now id decision_id cn command_type payload) rows =
    elim (create_action id (new_action now decision_id cn command_type payload) rows) [
      | none ↦ (rows, [])
      | some more ↦ (more, [])
    ]
serve (reports now blocked peer rs) rows = ((report_actions now blocked peer rs rows).0, [])
serve (rolls_back now id) rows = let done = roll_back now id rows in (done.0, sent id done.1)

unfoldable pub serve_all : List Request → Rows → Rows × List ℕ
unfolding serve
serve_all [] rows = (rows, [])
serve_all (q ∷ qs) rows =
    let done = serve q rows in let rest = serve_all qs done.0 in (rest.0, done.1 ++ rest.1)

-- ===== src/Response/Course.antt =====
-- The course of a response action of server/oseye/storage/repositories/response_actions.py through
-- creations, report streams and rollback requests, in any order.
use oseye_plateforme.Prelude.{ℕ, ◌≡◌, some, List, [], ◌∷◌, arith, lookup, ℕ_discrete}
use oseye_plateforme.Response.{Action, Rows, new_action, create_action, require_cn, report_actions}
use oseye_plateforme.Response.Requests.{Request, creates, reports, rolls_back, serve, serve_all}
use oseye_plateforme.Response.Kept.{
  IsLater, IsLater-refl, HasLater-trans, Keeps, serve_stream-Keeps, create_action-Keeps,
  roll_back-Keeps,
}

-- A request keeps the course of every action.
pub serve-Keeps : (q : Request) (rows : Rows) → Keeps rows (serve q rows).0
unfolding serve create_action report_actions
serve-Keeps (creates now id decision_id cn command_type payload) rows asked a e = IsLater-refl a _ (
    ground (
      arith,
      create_action-Keeps id (new_action now decision_id cn command_type payload) rows asked a e,
    ))
serve-Keeps (reports now blocked peer rs) rows asked a e =
    serve_stream-Keeps now rs rows (require_cn blocked peer) asked a e
serve-Keeps (rolls_back now id) rows asked a e = roll_back-Keeps now id rows asked a e

-- Whatever is created, reported and rolled back afterwards, and in whatever order, an action that
-- is there stays there, for the same agent and with the same command, and its status is one that
-- the changes reach: from pending to executed or failed, and from executed to rolled back.
pub serve_all-IsLater :
    (qs : List Request) (rows : Rows) (id : ℕ) (a : Action)
    → lookup ℕ_discrete id rows ≡ some a
    → IsLater a (lookup ℕ_discrete id (serve_all qs rows).0)
unfolding serve_all
serve_all-IsLater [] rows id a e = IsLater-refl a _ e
serve_all-IsLater (q ∷ qs) rows id a e =
    HasLater-trans (serve q rows).0 _ id a (serve-Keeps q rows id a e)
      (serve_all-IsLater qs (serve q rows).0)

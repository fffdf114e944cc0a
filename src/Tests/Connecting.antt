-- ===== src/Tests/Connecting.antt =====
-- Sockets of server/oseye/api/ws/manager.py, among them one too many of a user.
use oseye_plateforme.Prelude.{
  ◌≤◌, ◌≡◌, refl, ◌==◌, Option, none, some, List, [], ◌∷◌, String, str_dec, length, keep,
}
use oseye_plateforme.Access.Sockets.{
  Request, connects, broadcasts, max_global_connections, max_per_user_connections, serve_sockets,
  no_sockets, connect, disconnect,
}
use oseye_plateforme.Access.Sockets.Users.{is_of, serve_sockets-bounds}

abbrev analyst : Option String
analyst = some "analyst"

-- Six sockets of one user, of which the last is closed; then the second is found dead.
abbrev visits : List Request
visits =
    connects 1 analyst
    ∷ connects 2 analyst
    ∷ connects 3 analyst
    ∷ connects 4 analyst
    ∷ connects 5 analyst
    ∷ connects 6 analyst
    ∷ broadcasts (λ ws. ws == 2)
    ∷ connects 7 none
    ∷ []

serve_sockets-bounds_example :
    let m = serve_sockets visits no_sockets in
    (length m.connections ≤ max_global_connections)
    × (length (keep (λ ws. is_of "analyst" (m.user_sub ws)) m.connections)
        ≤ max_per_user_connections)
serve_sockets-bounds_example = serve_sockets-bounds visits "analyst"

-- The five that are left.
connections_of_visits : (serve_sockets visits no_sockets).connections ≡ 7 ∷ 5 ∷ 4 ∷ 3 ∷ 1 ∷ []
unfolding serve_sockets connect disconnect str_dec
connections_of_visits = refl

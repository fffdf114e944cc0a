-- ===== src/Access/Sockets.antt =====
-- WebSocketManager of server/oseye/api/ws/manager.py, on one server. A socket is a number, a set a
-- list without repetitions, and `user_sub` the attribute that `connect` sets on a socket. Each
-- locked part is one step; which sockets a message does not reach is an argument.
pub mod Capped
pub mod Users
use oseye_plateforme.Prelude.{
  ℕ, Bool, true, false, not, ◌==◌, leb, if◌then◌else◌, Option, none, some, List, [], ◌∷◌, String,
  str_dec, length, keep, any, Dict, lookup, insert, erase,
}

pub record Manager : Type 0 where
  pub connections : List ℕ
  pub per_user : Dict String (List ℕ)
  pub user_sub : ℕ → Option String

abbrev pub max_global_connections : ℕ
max_global_connections = 500

abbrev pub max_per_user_connections : ℕ
max_per_user_connections = 5

unfoldable pub is_in : ℕ → List ℕ → Bool
is_in ws xs = any (λ x. x == ws) xs

-- `set.add` and `set.discard`
unfoldable pub add_socket : ℕ → List ℕ → List ℕ
unfolding is_in
add_socket ws xs = if is_in ws xs then xs else ws ∷ xs

unfoldable pub discard_socket : ℕ → List ℕ → List ℕ
discard_socket ws xs = keep (λ x. not (x == ws)) xs

-- The sockets of a user, or the empty set.
unfoldable pub held : Option (List ℕ) → List ℕ
held none = []
held (some xs) = xs

unfoldable pub sockets_of : String → Manager → List ℕ
unfolding held
sockets_of user m = held (lookup str_dec user m.per_user)

-- The end of `connect`.
unfoldable pub admit : ℕ → Option String → Manager → Manager
unfolding add_socket
admit ws user m = record m {
  connections = add_socket ws m.connections;
  user_sub = λ x. if x == ws then user else m.user_sub x;
}

unfoldable pub connect_user : ℕ → Option String → Manager → Manager × Bool
unfolding admit sockets_of
connect_user ws none m = (admit ws none m, true)
connect_user ws (some user) m =
    if leb max_per_user_connections (length (sockets_of user m)) then (m, false) else (
      admit ws (some user) (record m {
        per_user = insert str_dec user (add_socket ws (sockets_of user m)) m.per_user;
      }),
      true,
    )

-- `connect`; `false` where the socket is closed with the code 4008.
unfoldable pub connect : ℕ → Option String → Manager → Manager × Bool
unfolding connect_user
connect ws user m =
    if leb max_global_connections (length m.connections) then (m, false) else connect_user ws user m

-- An empty set of a user is removed.
unfoldable pub put_sockets : String → List ℕ → Dict String (List ℕ) → Dict String (List ℕ)
put_sockets user [] d = erase str_dec user d
put_sockets user (x ∷ xs) d = insert str_dec user (x ∷ xs) d

unfoldable pub leave_user :
    ℕ → String → Option (List ℕ) → Dict String (List ℕ) → Dict String (List ℕ)
unfolding put_sockets discard_socket
leave_user ws user none d = d
leave_user ws user (some xs) d = put_sockets user (discard_socket ws xs) d

unfoldable pub leave : ℕ → Option String → Dict String (List ℕ) → Dict String (List ℕ)
unfolding leave_user
leave ws none d = d
leave ws (some user) d = leave_user ws user (lookup str_dec user d) d

-- `disconnect`
unfoldable pub disconnect : ℕ → Manager → Manager
unfolding leave discard_socket
disconnect ws m = record m {
  connections = discard_socket ws m.connections;
  per_user = leave ws (m.user_sub ws) m.per_user;
}

unfoldable pub disconnect_all : List ℕ → Manager → Manager
unfolding disconnect
disconnect_all [] m = m
disconnect_all (ws ∷ rest) m = disconnect_all rest (disconnect ws m)

-- `_broadcast_local`: the sockets that a message does not reach are disconnected afterwards.
unfoldable pub broadcast_local : (ℕ → Bool) → Manager → Manager
unfolding disconnect_all
broadcast_local fails m = disconnect_all (keep fails m.connections) m

pub data Request : Type 0 where
  connects : ℕ → Option String → Request
  disconnects : ℕ → Request
  broadcasts : (ℕ → Bool) → Request

unfoldable pub serve : Request → Manager → Manager
unfolding connect disconnect broadcast_local
serve (connects ws user) m = (connect ws user m).0
serve (disconnects ws) m = disconnect ws m
serve (broadcasts fails) m = broadcast_local fails m

unfoldable pub serve_sockets : List Request → Manager → Manager
unfolding serve
serve_sockets [] m = m
serve_sockets (r ∷ rs) m = serve_sockets rs (serve r m)

abbrev pub no_sockets : Manager
no_sockets = record { connections = []; per_user = []; user_sub = λ x. none }

-- ===== src/Access/Sockets/Capped.antt =====
-- The caps of WebSocketManager of server/oseye/api/ws/manager.py, and its two sets of sockets.
use oseye_plateforme.Prelude.{
  ℕ, inl, inr, ◌+◌, ◌≤◌, ◌≡◌, refl, sym, ap, ◌∙◌, ◌≢◌, true, false, not, ◌==◌, leb, if◌then◌else◌,
  Bool-cases, Option, none, some, List, [], ◌∷◌, String, arith, str_dec, length, keep,
  length-keep-le, All, All-mono, Dict, lookup, insert, lookup-insert_self, lookup-insert_ne,
  lookup-erase_ne, All-insert, All-erase, if_pos, if_neg,
}
use mathlib.Core.Path.{subst}
use oseye_plateforme.Access.Sockets.{
  Manager, max_global_connections, max_per_user_connections, is_in, add_socket, discard_socket,
  held, sockets_of, admit, connect_user, connect, put_sockets, leave_user, leave, disconnect,
  disconnect_all, broadcast_local, Request, connects, disconnects, broadcasts, serve, serve_sockets,
  no_sockets,
}

-- A socket with a user is in the set of that user.
abbrev pub Belongs : ℕ → Option String → Dict String (List ℕ) → Type 0
Belongs ws none d = Unit
Belongs ws (some user) d = is_in ws (held (lookup str_dec user d)) ≡ true

abbrev FitsUser : String × List ℕ → Type 0
FitsUser e = (1 ≤ length e.1) × (length e.1 ≤ max_per_user_connections)

pub record IsCapped (m : Manager) : Type 0 where
  pub few : length m.connections ≤ max_global_connections
  pub users : All FitsUser m.per_user
  pub known : All (λ ws. Belongs ws (m.user_sub ws) m.per_user) m.connections

length-add_socket :
    (ws : ℕ) (xs : List ℕ)
    → (1 ≤ length (add_socket ws xs)) × (length (add_socket ws xs) ≤ length xs + 1)
unfolding add_socket is_in
length-add_socket ws [] = (omega arith, omega arith)
length-add_socket ws (x ∷ xs) = ground arith

is_in-add_socket : (ws : ℕ) (xs : List ℕ) → is_in ws (add_socket ws xs) ≡ true
unfolding add_socket is_in
is_in-add_socket ws xs = ground arith

is_in-add_socket_other :
    (y ws : ℕ) (xs : List ℕ) → is_in y xs ≡ true → is_in y (add_socket ws xs) ≡ true
unfolding add_socket is_in
is_in-add_socket_other y ws xs h = ground arith

pub is_in-discard_socket :
    (y ws : ℕ) (xs : List ℕ) → (y == ws) ≡ false → is_in y (discard_socket ws xs) ≡ is_in y xs
unfolding discard_socket is_in
is_in-discard_socket y ws [] h = refl
is_in-discard_socket y ws (x ∷ xs) h = ground (arith, is_in-discard_socket y ws xs h)

pub length-discard_socket : (ws : ℕ) (xs : List ℕ) → length (discard_socket ws xs) ≤ length xs
unfolding discard_socket
length-discard_socket ws xs = length-keep-le (λ x. not (x == ws)) xs

module _ {κ μ} (P : ℕ → Type κ) (Q : ℕ → Type μ) (ws : ℕ) where
  All-add_socket :
      (xs : List ℕ) → Q ws → ((x : ℕ) → P x → Q x) → All P xs → All Q (add_socket ws xs)
  unfolding add_socket
  All-add_socket xs new old h = elim (is_in ws xs) as (λ b. All Q (if b then xs else ws ∷ xs)) [
    | true ↦ All-mono P Q old xs h
    | false ↦ (new, All-mono P Q old xs h)
  ]

  All-discard_socket :
      (xs : List ℕ)
      → ((x : ℕ) → (x == ws) ≡ false → P x → Q x)
      → All P xs
      → All Q (discard_socket ws xs)
  unfolding discard_socket
  All-discard_socket [] keeps h = tt
  All-discard_socket (x ∷ xs) keeps h = elim (Bool-cases (x == ws)) [
    | inl same ↦ rw same (All-discard_socket xs keeps h.1)
    | inr other ↦ rw other (keeps x other h.0, All-discard_socket xs keeps h.1)
  ]

Belongs-add_socket :
    (y ws : ℕ) (user : String) (d : Dict String (List ℕ))
    → Belongs y (some user) d
    → Belongs y (some user) (insert str_dec user (add_socket ws (held (lookup str_dec user d))) d)
unfolding held
Belongs-add_socket y ws user d h =
    ap (λ o. is_in y (held o)) (lookup-insert_self str_dec user _ d)
    ∙ is_in-add_socket_other y ws (held (lookup str_dec user d)) h

-- Sets of other users change nothing, and a set that grows or loses another socket.
Belongs-grown :
    (y ws : ℕ) (owner : Option String) (user : String) (d : Dict String (List ℕ))
    → Belongs y owner d
    → Belongs y owner (insert str_dec user (add_socket ws (held (lookup str_dec user d))) d)
Belongs-grown y ws none user d h = tt
Belongs-grown y ws (some s) user d h = elim (str_dec s user) [
  | yes same ↦
      subst
        (λ u.
          Belongs y (some u) (insert str_dec user (add_socket ws (held (lookup str_dec user d))) d))
        (sym same) (Belongs-add_socket y ws user d (subst (λ u. Belongs y (some u) d) same h))
  | no other ↦ ap (λ o. is_in y (held o)) (lookup-insert_ne str_dec s user _ d other) ∙ h
]

Belongs-new :
    (ws : ℕ) (user : String) (d : Dict String (List ℕ))
    → Belongs ws (some user) (insert str_dec user (add_socket ws (held (lookup str_dec user d))) d)
unfolding held
Belongs-new ws user d =
    ap (λ o. is_in ws (held o)) (lookup-insert_self str_dec user _ d)
    ∙ is_in-add_socket ws (held (lookup str_dec user d))

put_sockets-Belongs :
    (y : ℕ) (user : String) (xs : List ℕ) (d : Dict String (List ℕ))
    → is_in y xs ≡ true
    → Belongs y (some user) (put_sockets user xs d)
unfolding put_sockets held is_in
put_sockets-Belongs y user [] d h = cc
put_sockets-Belongs y user (x ∷ xs) d h =
    ap (λ o. is_in y (held o)) (lookup-insert_self str_dec user (x ∷ xs) d) ∙ h

put_sockets-other :
    (s user : String) (xs : List ℕ) (d : Dict String (List ℕ))
    → s ≢ user
    → lookup str_dec s (put_sockets user xs d) ≡ lookup str_dec s d
unfolding put_sockets
put_sockets-other s user [] d other = lookup-erase_ne str_dec s user d other
put_sockets-other s user (x ∷ xs) d other = lookup-insert_ne str_dec s user (x ∷ xs) d other

-- Another socket keeps its set where one leaves.
Belongs-leave_user :
    (y ws : ℕ) (owner : Option String) (user : String) (o : Option (List ℕ))
    (d : Dict String (List ℕ))
    → (y == ws) ≡ false
    → lookup str_dec user d ≡ o
    → Belongs y owner d
    → Belongs y owner (leave_user ws user o d)
unfolding leave_user held
Belongs-leave_user y ws none user o d differ found h = tt
Belongs-leave_user y ws (some s) user none d differ found h = h
Belongs-leave_user y ws (some s) user (some xs) d differ found h = elim (str_dec s user) [
  | yes same ↦
      subst (λ u. Belongs y (some u) (leave_user ws user (some xs) d)) (sym same)
        (put_sockets-Belongs y user (discard_socket ws xs) d (
          is_in-discard_socket y ws xs differ
          ∙ ap (λ o. is_in y (held o)) (sym found)
          ∙ subst (λ u. Belongs y (some u) d) same h))
  | no other ↦
      ap (λ o. is_in y (held o)) (put_sockets-other s user (discard_socket ws xs) d other) ∙ h
]

Belongs-leave :
    (y ws : ℕ) (owner user : Option String) (d : Dict String (List ℕ))
    → (y == ws) ≡ false
    → Belongs y owner d
    → Belongs y owner (leave ws user d)
unfolding leave
Belongs-leave y ws owner none d differ h = h
Belongs-leave y ws owner (some user) d differ h =
    Belongs-leave_user y ws owner user (lookup str_dec user d) d differ refl h

put_sockets-FitsUser :
    (user : String) (xs : List ℕ) (d : Dict String (List ℕ))
    → length xs ≤ max_per_user_connections
    → All FitsUser d
    → All FitsUser (put_sockets user xs d)
unfolding put_sockets
put_sockets-FitsUser user [] d short h = All-erase str_dec FitsUser user d h
put_sockets-FitsUser user (x ∷ xs) d short h =
    All-insert str_dec FitsUser user (x ∷ xs) d (omega arith, short) h

leave_user-FitsUser :
    (ws : ℕ) (user : String) (o : Option (List ℕ)) (d : Dict String (List ℕ))
    → length (held o) ≤ max_per_user_connections
    → All FitsUser d
    → All FitsUser (leave_user ws user o d)
unfolding leave_user held
leave_user-FitsUser ws user none d short h = h
leave_user-FitsUser ws user (some xs) d short h =
    put_sockets-FitsUser user (discard_socket ws xs) d
      (let shorter = length-discard_socket ws xs in omega (arith, shorter)) h

pub held-short :
    (user : String) (d : Dict String (List ℕ))
    → All FitsUser d
    → length (held (lookup str_dec user d)) ≤ max_per_user_connections
unfolding held
held-short user [] h = omega arith
held-short user ((s, xs) ∷ d) h = elim (str_dec user s) [
  | yes same ↦ rw (if_pos (str_dec user s) same) (h.0).1
  | no other ↦ rw (if_neg (str_dec user s) other) (held-short user d h.1)
]

leave-FitsUser :
    (ws : ℕ) (user : Option String) (d : Dict String (List ℕ))
    → All FitsUser d
    → All FitsUser (leave ws user d)
unfolding leave
leave-FitsUser ws none d h = h
leave-FitsUser ws (some user) d h =
    leave_user-FitsUser ws user (lookup str_dec user d) d (held-short user d h) h

-- The attribute of a socket that is admitted, and of the others.
Belongs-admit :
    (ws x : ℕ) (user owner : Option String) (d : Dict String (List ℕ))
    → Belongs ws user d
    → Belongs x owner d
    → Belongs x (if x == ws then user else owner) d
Belongs-admit ws x user owner d new old = elim (Bool-cases (x == ws)) [
  | inl same ↦
      let this : x ≡ ws = ground (arith, same) in
      rw same (subst (λ z. Belongs z user d) (sym this) new)
  | inr other ↦ rw other old
]

admit-IsCapped :
    (ws : ℕ) (user : Option String) (per_user : Dict String (List ℕ)) (m : Manager)
    → IsCapped m
    → length m.connections + 1 ≤ max_global_connections
    → All FitsUser per_user
    → Belongs ws user per_user
    → ((x : ℕ) → Belongs x (m.user_sub x) m.per_user → Belongs x (m.user_sub x) per_user)
    → IsCapped (admit ws user (record m { per_user = per_user }))
unfolding admit
admit-IsCapped ws user per_user m h room fits new old =
    let same_self : (ws == ws) ≡ true = ground arith in
    record {
      few = let longer = length-add_socket ws m.connections in omega (arith, longer);
      users = fits;
      known =
          All-add_socket (λ x. Belongs x (m.user_sub x) m.per_user)
            (λ x. Belongs x (if x == ws then user else m.user_sub x) per_user) ws m.connections
            (rw same_self new)
            (λ x b. Belongs-admit ws x user (m.user_sub x) per_user new (old x b)) h.known;
    }

connect_user-IsCapped :
    (ws : ℕ) (user : Option String) (m : Manager)
    → IsCapped m
    → length m.connections + 1 ≤ max_global_connections
    → IsCapped (connect_user ws user m).0
unfolding connect_user sockets_of
connect_user-IsCapped ws none m h room =
    admit-IsCapped ws none m.per_user m h room h.users tt (λ x b. b)
connect_user-IsCapped ws (some user) m h room =
    elim (Bool-cases (leb max_per_user_connections (length (sockets_of user m)))) [
      | inl full ↦ rw full h
      | inr free ↦
          let longer = length-add_socket ws (sockets_of user m) in
          rw free (
            admit-IsCapped ws (some user)
              (insert str_dec user (add_socket ws (sockets_of user m)) m.per_user) m h room
              (All-insert str_dec FitsUser user (add_socket ws (sockets_of user m)) m.per_user
                (longer.0, ground (arith, longer, free)) h.users)
              (Belongs-new ws user m.per_user)
              (λ x b. Belongs-grown x ws (m.user_sub x) user m.per_user b))
    ]

connect-IsCapped :
    (ws : ℕ) (user : Option String) (m : Manager) → IsCapped m → IsCapped (connect ws user m).0
unfolding connect
connect-IsCapped ws user m h =
    elim (Bool-cases (leb max_global_connections (length m.connections))) [
      | inl full ↦ rw full h
      | inr free ↦ rw free (connect_user-IsCapped ws user m h (ground (arith, free)))
    ]

disconnect-IsCapped : (ws : ℕ) (m : Manager) → IsCapped m → IsCapped (disconnect ws m)
unfolding disconnect
disconnect-IsCapped ws m h = record {
  few =
      let shorter = length-discard_socket ws m.connections in
      let bound = h.few in omega (arith, shorter, bound);
  users = leave-FitsUser ws (m.user_sub ws) m.per_user h.users;
  known =
      All-discard_socket (λ x. Belongs x (m.user_sub x) m.per_user)
        (λ x. Belongs x (m.user_sub x) (leave ws (m.user_sub ws) m.per_user)) ws m.connections
        (λ x differ b. Belongs-leave x ws (m.user_sub x) (m.user_sub ws) m.per_user differ b)
        h.known;
}

disconnect_all-IsCapped : (xs : List ℕ) (m : Manager) → IsCapped m → IsCapped (disconnect_all xs m)
unfolding disconnect_all
disconnect_all-IsCapped [] m h = h
disconnect_all-IsCapped (ws ∷ rest) m h =
    disconnect_all-IsCapped rest (disconnect ws m) (disconnect-IsCapped ws m h)

serve-IsCapped : (r : Request) (m : Manager) → IsCapped m → IsCapped (serve r m)
unfolding serve broadcast_local
serve-IsCapped (connects ws user) m h = connect-IsCapped ws user m h
serve-IsCapped (disconnects ws) m h = disconnect-IsCapped ws m h
serve-IsCapped (broadcasts fails) m h = disconnect_all-IsCapped (keep fails m.connections) m h

serve_sockets_from : (rs : List Request) (m : Manager) → IsCapped m → IsCapped (serve_sockets rs m)
unfolding serve_sockets
serve_sockets_from [] m h = h
serve_sockets_from (r ∷ rs) m h = serve_sockets_from rs (serve r m) (serve-IsCapped r m h)

-- Whatever sockets come, leave, or are found dead by a broadcast, from a manager without sockets: at
-- most 500 are connected, each user in the table has between one and five sockets, and a connected
-- socket with a user is in the set of that user.
pub serve_sockets-IsCapped : (rs : List Request) → IsCapped (serve_sockets rs no_sockets)
serve_sockets-IsCapped rs =
    serve_sockets_from rs no_sockets (record { few = omega arith; users = tt; known = tt })

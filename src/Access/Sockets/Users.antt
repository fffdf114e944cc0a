-- ===== src/Access/Sockets/Users.antt =====
-- The number of sockets of a user in WebSocketManager of server/oseye/api/ws/manager.py.
use oseye_plateforme.Prelude.{
  ℕ, inl, inr, ◌+◌, ◌≤◌, ◌≡◌, refl, ◌∙◌, ite, Bool, true, false, not, ◌==◌, leb, if◌then◌else◌,
  Bool-cases, Option, none, some, List, [], ◌∷◌, String, arith, str_dec, length, keep, All, Dict,
  lookup,
}
use mathlib.Core.Path.{subst}
use oseye_plateforme.Access.Sockets.{
  Manager, max_global_connections, max_per_user_connections, is_in, add_socket, discard_socket,
  held, sockets_of, admit, connect_user, connect, disconnect, disconnect_all, broadcast_local,
  Request, connects, disconnects, broadcasts, serve, serve_sockets, no_sockets,
}
use oseye_plateforme.Access.Sockets.Capped.{
  Belongs, IsCapped, is_in-discard_socket, length-discard_socket, held-short,
  serve_sockets-IsCapped,
}

abbrev IsDistinct : List ℕ → Type 0
IsDistinct [] = Unit
IsDistinct (x ∷ xs) = (is_in x xs ≡ false) × IsDistinct xs

IsDistinct-add_socket : (ws : ℕ) (xs : List ℕ) → IsDistinct xs → IsDistinct (add_socket ws xs)
unfolding add_socket
IsDistinct-add_socket ws xs h = elim (Bool-cases (is_in ws xs)) [
  | inl old ↦ rw old h
  | inr new ↦ rw new (new, h)
]

is_in-keep : (p : ℕ → Bool) (y : ℕ) (xs : List ℕ) → is_in y xs ≡ false → is_in y (keep p xs) ≡ false
unfolding is_in
is_in-keep p y [] h = refl
is_in-keep p y (x ∷ xs) h = ground (arith, is_in-keep p y xs)

IsDistinct-keep : (p : ℕ → Bool) (xs : List ℕ) → IsDistinct xs → IsDistinct (keep p xs)
IsDistinct-keep p [] h = tt
IsDistinct-keep p (x ∷ xs) h =
    elim (p x) as (λ b. IsDistinct (if b then x ∷ keep p xs else keep p xs)) [
      | true ↦ (is_in-keep p x xs h.0, IsDistinct-keep p xs h.1)
      | false ↦ IsDistinct-keep p xs h.1
    ]

length-discard_socket_in :
    (ws : ℕ) (xs : List ℕ) → is_in ws xs ≡ true → length (discard_socket ws xs) + 1 ≤ length xs
unfolding discard_socket is_in
length-discard_socket_in ws [] h = cc
length-discard_socket_in ws (x ∷ xs) h =
    let shorter = length-discard_socket ws xs in
    ground (arith, shorter, length-discard_socket_in ws xs)

module _ {κ μ} (P : ℕ → Type κ) (Q : ℕ → Type μ) (x : ℕ) where
  -- The elements of a list that lacks one are others.
  All-others :
      (xs : List ℕ)
      → is_in x xs ≡ false
      → ((z : ℕ) → (z == x) ≡ false → P z → Q z)
      → All P xs
      → All Q xs
  unfolding is_in
  All-others [] h change p = tt
  All-others (z ∷ zs) h change p =
      (change z (ground (arith, h)) p.0, All-others zs (ground (arith, h)) change p.1)

-- A list without repetitions is no longer than one that has its elements.
length-among :
    (xs ys : List ℕ) → IsDistinct xs → All (λ x. is_in x ys ≡ true) xs → length xs ≤ length ys
length-among [] ys d h = omega arith
length-among (x ∷ xs) ys d h =
    let shorter = length-discard_socket_in x ys h.0 in
    let rest = length-among xs (discard_socket x ys) d.1 (
      All-others (λ z. is_in z ys ≡ true) (λ z. is_in z (discard_socket x ys) ≡ true) x xs d.0
        (λ z differ there. is_in-discard_socket z x ys differ ∙ there) h.1) in
    omega (arith, shorter, rest)

abbrev Distinct : Manager → Type 0
Distinct m = IsDistinct m.connections

connect_user-Distinct :
    (ws : ℕ) (user : Option String) (m : Manager) → Distinct m → Distinct (connect_user ws user m).0
unfolding connect_user admit
connect_user-Distinct ws none m h = IsDistinct-add_socket ws m.connections h
connect_user-Distinct ws (some user) m h =
    elim (Bool-cases (leb max_per_user_connections (length (sockets_of user m)))) [
      | inl full ↦ rw full h
      | inr free ↦ rw free (IsDistinct-add_socket ws m.connections h)
    ]

connect-Distinct :
    (ws : ℕ) (user : Option String) (m : Manager) → Distinct m → Distinct (connect ws user m).0
unfolding connect
connect-Distinct ws user m h =
    elim (Bool-cases (leb max_global_connections (length m.connections))) [
      | inl full ↦ rw full h
      | inr free ↦ rw free (connect_user-Distinct ws user m h)
    ]

disconnect_all-Distinct : (xs : List ℕ) (m : Manager) → Distinct m → Distinct (disconnect_all xs m)
unfolding disconnect_all disconnect discard_socket
disconnect_all-Distinct [] m h = h
disconnect_all-Distinct (ws ∷ rest) m h =
    disconnect_all-Distinct rest (disconnect ws m)
      (IsDistinct-keep (λ x. not (x == ws)) m.connections h)

serve_sockets-Distinct :
    (rs : List Request) (m : Manager) → Distinct m → Distinct (serve_sockets rs m)
unfolding serve_sockets serve broadcast_local disconnect discard_socket
serve_sockets-Distinct [] m h = h
serve_sockets-Distinct (connects ws user ∷ rs) m h =
    serve_sockets-Distinct rs (connect ws user m).0 (connect-Distinct ws user m h)
serve_sockets-Distinct (disconnects ws ∷ rs) m h =
    serve_sockets-Distinct rs (disconnect ws m)
      (IsDistinct-keep (λ x. not (x == ws)) m.connections h)
serve_sockets-Distinct (broadcasts fails ∷ rs) m h =
    serve_sockets-Distinct rs (disconnect_all (keep fails m.connections) m)
      (disconnect_all-Distinct (keep fails m.connections) m h)

-- Whether a socket is that of a user.
abbrev pub is_of : String → Option String → Bool
is_of user none = false
is_of user (some owner) = ite (str_dec owner user) true false

Belongs-is_of :
    (ws : ℕ) (owner : Option String) (user : String) (d : Dict String (List ℕ))
    → is_of user owner ≡ true
    → Belongs ws owner d
    → is_in ws (held (lookup str_dec user d)) ≡ true
Belongs-is_of ws none user d of_user h = cc
Belongs-is_of ws (some owner) user d of_user h =
    let same : owner ≡ user = ground arith in
    subst (λ u. is_in ws (held (lookup str_dec u d)) ≡ true) same h

module _ {κ μ} (P : ℕ → Type κ) (Q : ℕ → Type μ) (p : ℕ → Bool) where
  All-keep : (xs : List ℕ) → ((x : ℕ) → p x ≡ true → P x → Q x) → All P xs → All Q (keep p xs)
  All-keep [] change h = tt
  All-keep (x ∷ xs) change h = elim (Bool-cases (p x)) [
    | inl kept ↦ rw kept (change x kept h.0, All-keep xs change h.1)
    | inr left ↦ rw left (All-keep xs change h.1)
  ]

user_bound :
    (m : Manager) (user : String)
    → IsCapped m
    → Distinct m
    → length (keep (λ ws. is_of user (m.user_sub ws)) m.connections) ≤ max_per_user_connections
user_bound m user h d =
    let among =
      length-among (keep (λ ws. is_of user (m.user_sub ws)) m.connections)
        (held (lookup str_dec user m.per_user))
        (IsDistinct-keep (λ ws. is_of user (m.user_sub ws)) m.connections d)
        (All-keep (λ ws. Belongs ws (m.user_sub ws) m.per_user)
          (λ ws. is_in ws (held (lookup str_dec user m.per_user)) ≡ true)
          (λ ws. is_of user (m.user_sub ws)) m.connections
          (λ ws of_user b. Belongs-is_of ws (m.user_sub ws) user m.per_user of_user b) h.known) in
    let short = held-short user m.per_user h.users in omega (arith, among, short)

-- Whatever sockets come, leave, or are found dead by a broadcast, from a manager without
-- sockets: at most 500 sockets are connected, and at most five of them are those of one user.
pub serve_sockets-bounds :
    (rs : List Request) (user : String)
    → let m = serve_sockets rs no_sockets in
      (length m.connections ≤ max_global_connections)
      × (length (keep (λ ws. is_of user (m.user_sub ws)) m.connections) ≤ max_per_user_connections)
serve_sockets-bounds rs user =
    let h = serve_sockets-IsCapped rs in
    (
      h.few,
      user_bound (serve_sockets rs no_sockets) user h (serve_sockets-Distinct rs no_sockets tt),
    )

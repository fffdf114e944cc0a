-- ===== src/Tests/Accessing.antt =====
-- Witnesses for sessions and API keys.
use oseye_plateforme.Prelude.{
  ℕ, zero, suc, ◌<◌, ◌≡◌, refl, ap, ◌≢◌, ite, Bool, true, false, not, ◌&&◌, none, some, List, [],
  ◌∷◌, String, arith, ltb, if◌then◌else◌, str_dec, any, elem,
}
use oseye_plateforme.Access.Sessions.{
  Claims, Decoded, claims, invalid_token, expired_signature, Library, Handler, accepted,
  verify_token, revoke_token, verifies, restarts, use_all,
}
use oseye_plateforme.Access.Sessions.Revoked.{verify_token-revoke_token}
use oseye_plateforme.Access.ApiKeys.{
  ApiKey, key_of_hash, revoke_key, delete_key, verify_key, grant, KeyRequest, creates, deletes,
  serve_keys,
}
use oseye_plateforme.Access.ApiKeys.Dead.{key_of_id}
use oseye_plateforme.Access.Roles.{
  Credentials, unauthorized, header_of, require_role, resolve_identity, resolve_key, check_roles,
  of_grant,
}
use oseye_plateforme.Access.Roles.Checked.{Holds, require_role-Holds, require_role-dead_key}
use text.Mathlib.TextEquality.{eq_iff}

abbrev session : Claims
session = record { sub = "admin"; roles = []; jti = some "j1"; exp = some 100 }

-- The one token that there is ends at 100.
unfoldable decode_at : Bool → ℕ → String → Decoded
decode_at checks now token =
    ite (str_dec token "t")
      (if checks && not (ltb now 100) then expired_signature else claims session) invalid_token

-- A time is written in strokes.
unfoldable strokes : ℕ → String
strokes zero = String.[]
strokes (suc n) = String.◌∷◌ "i" (strokes n)

unfoldable count_strokes : String → ℕ
count_strokes String.[] = 0
count_strokes (String.◌∷◌ c s) = suc (count_strokes s)

count_strokes-strokes : (n : ℕ) → some (count_strokes (strokes n)) ≡ some n
unfolding strokes count_strokes
count_strokes-strokes zero = refl
count_strokes-strokes (suc n) = ap some (ap suc (ground (arith, count_strokes-strokes n)))

abbrev library : Library
library = record {
  decode = decode_at;
  isoformat = strokes;
  fromisoformat = λ s. some (count_strokes s);
}

abbrev handler : Handler
handler = record { token_lifetime = 3600; revoked = []; blocklist_file = [] }

one_expiry :
    (now : ℕ) (t : String) (d : Claims)
    → decode_at false now t ≡ claims d
    → d.jti ≡ some "j1"
    → d.exp ≡ some 100
unfolding decode_at
one_expiry now t d e id = ground arith

refuses_expired :
    (now : ℕ) (d : Claims) → decode_at true now "t" ≡ claims d → (d ≡ session) × (now < 100)
unfolding decode_at str_dec
refuses_expired now d e = ground arith

-- A restart and another verification lie between the revocation at 10 and the use at 50.
verify_token-revoke_token_example :
    (verify_token library true 50 "t" (
      use_all library true
        (verifies 20 "t" ∷ restarts 30 ∷ [])
        (revoke_token library true 10 "t" handler))).1
    ≢ accepted session
unfolding decode_at str_dec
verify_token-revoke_token_example =
    verify_token-revoke_token library count_strokes-strokes "t" "j1" 100 10 50 session
      (verifies 20 "t" ∷ restarts 30 ∷ []) handler session refl refl refl one_expiry refuses_expired
      (omega arith, (omega arith, tt))

abbrev probe_key : ApiKey
probe_key = record {
  key_id = 1;
  key_hash = "secret";
  name = "probe";
  roles = "viewer" ∷ [];
  created_at = 5;
  expires_at = none;
  revoked = false;
  created_by = "admin";
  deleted_at = none;
}

abbrev later_requests : List (KeyRequest (λ raw. raw))
later_requests = creates "secret" 2 "again" [] 8 none "admin" ∷ deletes 9 2 ∷ []

abbrev key_and_token : Credentials
key_and_token = record { api_key = some "secret"; bearer = some "t" }

-- The caller has a good token besides.
require_role-dead_key_example :
    (require_role
        (λ raw. raw)
        library
        ("viewer" ∷ [])
        true
        20
        key_and_token
        (some (serve_keys (λ raw. raw) later_requests (revoke_key 1 (probe_key ∷ [])).0))
        handler
      ≡ (handler, unauthorized))
    × (require_role
          (λ raw. raw)
          library
          ("viewer" ∷ [])
          true
          20
          key_and_token
          (some (serve_keys (λ raw. raw) later_requests (delete_key 7 1 (probe_key ∷ [])).0))
          handler
        ≡ (handler, unauthorized))
unfolding key_of_hash key_of_id str_dec
require_role-dead_key_example =
    require_role-dead_key (λ raw. raw) library ("viewer" ∷ []) true "secret" (some "t") probe_key
      (probe_key ∷ []) later_requests 7 20 handler (λ e. ground (arith, eq_iff "secret" "")) refl
      refl

-- A key whose holder may look.
require_role-Holds_example :
    (any (λ r. elem str_dec r ("viewer" ∷ [])) ("analyst" ∷ "viewer" ∷ []) ≡ true)
    × Holds
        (λ raw. raw)
        library
        true
        20
        (header_of (some "secret"))
        (some "t")
        (some (probe_key ∷ []))
        handler
        (record { sub = "probe"; roles = "viewer" ∷ [] })
unfolding require_role resolve_identity resolve_key check_roles of_grant header_of verify_key
    key_of_hash grant str_dec
require_role-Holds_example =
    require_role-Holds (λ raw. raw) library ("analyst" ∷ "viewer" ∷ []) true 20 key_and_token
      (some (probe_key ∷ [])) handler (record { sub = "probe"; roles = "viewer" ∷ [] }) refl

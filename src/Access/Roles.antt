-- ===== src/Access/Roles.antt =====
-- server/oseye/api/auth/rbac.py, over the keys and the sessions.
pub mod Checked
use oseye_plateforme.Prelude.{
  ℕ, ite, Bool, Option, none, some, List, String, if◌then◌else◌, str_dec, any, elem,
}
use oseye_plateforme.Access.Sessions.{
  Claims, Library, Handler, Verified, accepted, has_expired, failed, is_revoked, verify_token,
}
use oseye_plateforme.Access.ApiKeys.{
  ApiKey, Grant, key_of_hash, revoke_key, delete_key, verify_key, KeyRequest, serve_keys,
}
use oseye_plateforme.Access.ApiKeys.Dead.{key_of_id, verify_key-serve_keys}

-- The header X-API-Key and the bearer token of a request, where they are given.
pub record Credentials : Type 0 where
  pub api_key : Option String
  pub bearer : Option String

-- The subject and the roles of a caller.
pub record Identity : Type 0 where
  pub sub : String
  pub roles : List String

-- What a route answers to the caller: it goes on, or 401, or 403.
pub data Access : Type 0 where
  admitted : Identity → Access
  unauthorized forbidden : Access

-- `api_key_raw`, which is only tested for being empty
unfoldable pub header_of : Option String → Option String
header_of none = none
header_of (some raw) = ite (str_dec raw "") none (some raw)

unfoldable pub of_grant : Option Grant → Option Identity
of_grant none = none
of_grant (some g) = some (record { sub = g.name; roles = g.roles })

unfoldable pub of_verified : Verified → Option Identity
of_verified (accepted c) = some (record { sub = c.sub; roles = c.roles })
of_verified has_expired = none
of_verified failed = none
of_verified is_revoked = none

module _ (hash_key : String → String) (lib : Library) where
  -- A key, where the repository is attached.
  unfoldable pub resolve_key : ℕ → String → Option (List ApiKey) → Option Identity
  unfolding of_grant
  resolve_key now raw none = none
  resolve_key now raw (some rows) = of_grant (verify_key hash_key now raw rows)

  unfoldable pub resolve_bearer : Bool → ℕ → Option String → Handler → Handler × Option Identity
  unfolding of_verified
  resolve_bearer writable now none h = (h, none)
  resolve_bearer writable now (some token) h =
      let done = verify_token lib writable now token h in (done.0, of_verified done.1)

  -- `_resolve_identity`, with the header as it was tested; `none` is the error 401.
  unfoldable pub resolve_identity :
      Bool
      → ℕ
      → Option String
      → Option String
      → Option (List ApiKey)
      → Handler
      → Handler × Option Identity
  unfolding resolve_key resolve_bearer
  resolve_identity writable now (some raw) bearer rows h = (h, resolve_key now raw rows)
  resolve_identity writable now none bearer rows h = resolve_bearer writable now bearer h

  unfoldable pub check_roles : List String → Option Identity → Access
  check_roles roles none = unauthorized
  check_roles roles (some i) =
      if any (λ r. elem str_dec r i.roles) roles then admitted i else forbidden

  -- The dependency that `require_role` makes.
  unfoldable pub require_role :
      List String → Bool → ℕ → Credentials → Option (List ApiKey) → Handler → Handler × Access
  unfolding header_of resolve_identity check_roles
  require_role roles writable now c rows h =
      let done = resolve_identity writable now (header_of c.api_key) c.bearer rows h in
      (done.0, check_roles roles done.1)

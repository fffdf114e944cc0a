-- ===== src/Access/Roles/Checked.antt =====
-- Whom server/oseye/api/auth/rbac.py lets in.
use oseye_plateforme.Prelude.{
  ℕ, ◌≡◌, refl, sym, ap, ◌∙◌, ◌≢◌, if_neg, Bool, true, false, Option, none, some, List, String,
  arith, if◌then◌else◌, str_dec, any, elem,
}
use oseye_plateforme.Access.Sessions.{
  Claims, Library, Handler, Verified, accepted, has_expired, failed, is_revoked, verify_token,
}
use oseye_plateforme.Access.ApiKeys.{
  ApiKey, Grant, key_of_hash, revoke_key, delete_key, verify_key, KeyRequest, serve_keys,
}
use oseye_plateforme.Access.ApiKeys.Dead.{key_of_id, verify_key-serve_keys}
use oseye_plateforme.Access.Roles.{
  Credentials, Identity, admitted, unauthorized, forbidden, header_of, of_grant, of_verified,
  resolve_key, resolve_bearer, resolve_identity, check_roles, require_role,
}

of_grant-some :
    (o : Option Grant) (i : Identity)
    → of_grant o ≡ some i
    → (g : Grant) × (o ≡ some g) × (i.sub ≡ g.name) × (i.roles ≡ g.roles)
unfolding of_grant
of_grant-some none i e = cc
of_grant-some (some g) i e = (g, refl, ground arith, ground arith)

of_verified-some :
    (v : Verified) (i : Identity)
    → of_verified v ≡ some i
    → (c : Claims) × (v ≡ accepted c) × (i.sub ≡ c.sub) × (i.roles ≡ c.roles)
unfolding of_verified
of_verified-some (accepted c) i e = (c, refl, ground arith, ground arith)
of_verified-some has_expired i e = cc
of_verified-some failed i e = cc
of_verified-some is_revoked i e = cc

branch-admitted :
    (t : Bool) (j i : Identity)
    → (if t then admitted j else forbidden) ≡ admitted i
    → (j ≡ i) × (t ≡ true)
branch-admitted true j i e = (ground arith, refl)
branch-admitted false j i e = cc

module _ (hash_key : String → String) (lib : Library) where
  -- A caller that is let in has one of the roles, from its key, if it sent one, and otherwise from
  -- its token.
  abbrev pub Holds :
      Bool → ℕ → Option String → Option String → Option (List ApiKey) → Handler → Identity → Type 0
  Holds writable now (some raw) bearer none h i = ⊥
  Holds writable now (some raw) bearer (some rows) h i =
      (g : Grant) × (verify_key hash_key now raw rows ≡ some g)
      × (i.sub ≡ g.name)
      × (i.roles ≡ g.roles)
  Holds writable now none none rows h i = ⊥
  Holds writable now none (some token) rows h i =
      (c : Claims) × ((verify_token lib writable now token h).1 ≡ accepted c)
      × (i.sub ≡ c.sub)
      × (i.roles ≡ c.roles)

  resolve_identity-Holds :
      (writable : Bool) (now : ℕ) (key bearer : Option String) (rows : Option (List ApiKey))
      (h : Handler) (i : Identity)
      → (resolve_identity hash_key lib writable now key bearer rows h).1 ≡ some i
      → Holds writable now key bearer rows h i
  unfolding resolve_identity resolve_key resolve_bearer
  resolve_identity-Holds writable now (some raw) bearer none h i e = cc
  resolve_identity-Holds writable now (some raw) bearer (some rows) h i e =
      of_grant-some (verify_key hash_key now raw rows) i e
  resolve_identity-Holds writable now none none rows h i e = cc
  resolve_identity-Holds writable now none (some token) rows h i e =
      of_verified-some (verify_token lib writable now token h).1 i e

  check_roles-admitted :
      (roles : List String) (o : Option Identity) (i : Identity)
      → check_roles hash_key lib roles o ≡ admitted i
      → (o ≡ some i) × (any (λ r. elem str_dec r i.roles) roles ≡ true)
  unfolding check_roles
  check_roles-admitted roles none i e = cc
  check_roles-admitted roles (some j) i e =
      let (same, has) = branch-admitted (any (λ r. elem str_dec r j.roles) roles) j i e in
      (
        ap (λ x. some x) same,
        ap (λ (x : Identity). any (λ r. elem str_dec r x.roles) roles) (sym same) ∙ has,
      )

  -- A caller that a route admits has one of the roles asked for; its name and its roles are
  -- those of its key, if it sent one that is not empty, which is valid, and otherwise those of
  -- its token, which is accepted.
  pub require_role-Holds :
      (roles : List String) (writable : Bool) (now : ℕ) (c : Credentials)
      (rows : Option (List ApiKey)) (h : Handler) (i : Identity)
      → (require_role hash_key lib roles writable now c rows h).1 ≡ admitted i
      → (any (λ r. elem str_dec r i.roles) roles ≡ true)
        × Holds writable now (header_of c.api_key) c.bearer rows h i
  unfolding require_role
  require_role-Holds roles writable now c rows h i e =
      let (found, has) = check_roles-admitted roles _ i e in
      (has, resolve_identity-Holds writable now (header_of c.api_key) c.bearer rows h i found)

  refused :
      (roles : List String) (writable : Bool) (now : ℕ) (raw : String) (bearer : Option String)
      (rows : List ApiKey) (h : Handler)
      → raw ≢ ""
      → verify_key hash_key now raw rows ≡ none
      → require_role hash_key lib roles writable now
          (record { api_key = some raw; bearer = bearer })
          (some rows)
          h
        ≡ (h, unauthorized)
  unfolding require_role header_of resolve_identity resolve_key check_roles of_grant
  refused roles writable now raw bearer rows h some_text dead =
      rw (if_neg (str_dec raw "") some_text)
        (ap (λ o. (h, check_roles hash_key lib roles (of_grant o))) dead)

  -- Once the key that a text stands for is revoked or deleted, and its row is the one of its
  -- identifier, no route admits a request with that text as its key, whatever token comes with
  -- it, whatever roles are asked for, and whatever keys are created, revoked and deleted
  -- afterwards.
  pub require_role-dead_key :
      (roles : List String) (writable : Bool) (raw : String) (bearer : Option String) (r : ApiKey)
      (rows : List ApiKey) (qs : List (KeyRequest hash_key)) (at now : ℕ) (h : Handler)
      → raw ≢ ""
      → key_of_hash (hash_key raw) rows ≡ some r
      → key_of_id r.key_id rows ≡ some r
      → let c : Credentials = record { api_key = some raw; bearer = bearer } in
        (require_role hash_key lib roles writable now c
            (some (serve_keys hash_key qs (revoke_key r.key_id rows).0))
            h
          ≡ (h, unauthorized))
        × (require_role hash_key lib roles writable now c
              (some (serve_keys hash_key qs (delete_key at r.key_id rows).0))
              h
            ≡ (h, unauthorized))
  require_role-dead_key roles writable raw bearer r rows qs at now h some_text found named =
      let (revoked, deleted) = verify_key-serve_keys hash_key raw r rows qs at now found named in
      (
        refused roles writable now raw bearer _ h some_text revoked,
        refused roles writable now raw bearer _ h some_text deleted,
      )

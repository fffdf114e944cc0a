-- ===== src/Access/ApiKeys.antt =====
-- SQLApiKeyRepository of server/oseye/storage/repositories/api_keys.py as a list of rows, each
-- statement as one step. The keyed hash of a key is a parameter; times are ticks.
pub mod Dead
use oseye_plateforme.Prelude.{
  ℕ, ite, Bool, true, false, not, ◌&&◌, ◌||◌, Option, none, some, List, [], ◌∷◌, ◌++◌, String, ltb,
  ◌==◌, if◌then◌else◌, str_dec, is_some, keep, any,
}

pub record ApiKey : Type 0 where
  pub key_id : ℕ
  pub key_hash : String
  pub name : String
  pub roles : List String
  pub created_at : ℕ
  pub expires_at : Option ℕ
  pub revoked : Bool
  pub created_by : String
  pub deleted_at : Option ℕ

-- What a valid key stands for.
pub record Grant : Type 0 where
  pub key_id : ℕ
  pub name : String
  pub roles : List String

unfoldable pub key_of_hash : String → List ApiKey → Option ApiKey
key_of_hash hash [] = none
key_of_hash hash (r ∷ rows) = ite (str_dec r.key_hash hash) (some r) (key_of_hash hash rows)

abbrev pub has_ended : ℕ → Option ℕ → Bool
has_ended now none = false
has_ended now (some t) = ltb t now

-- `verify` from the row that was found on
unfoldable pub grant : ℕ → Option ApiKey → Option Grant
grant now none = none
grant now (some r) =
    if r.revoked || is_some r.deleted_at
    then none
    else if has_ended now r.expires_at
    then none
    else some (record { key_id = r.key_id; name = r.name; roles = r.roles })

-- The row of an identifier is changed; whether there was one.
unfoldable pub change_row : (ApiKey → ApiKey) → ℕ → List ApiKey → List ApiKey × Bool
change_row g id [] = ([], false)
change_row g id (r ∷ rows) =
    let rest = change_row g id rows in
    if r.key_id == id then (g r ∷ rows, true) else (r ∷ rest.0, rest.1)

unfoldable pub revoke_key : ℕ → List ApiKey → List ApiKey × Bool
unfolding change_row
revoke_key id rows = change_row (λ r. record r { revoked = true }) id rows

-- `delete` marks the row.
unfoldable pub delete_key : ℕ → ℕ → List ApiKey → List ApiKey × Bool
unfolding change_row
delete_key now id rows = change_row (λ r. record r { deleted_at = some now }) id rows

-- `list`
unfoldable pub list_keys : Bool → List ApiKey → List ApiKey
list_keys include_revoked rows =
    keep (λ r. (include_revoked || not r.revoked) && not (is_some r.deleted_at)) rows

module _ (hash_key : String → String) where
  -- `create` of a key that was generated; a hash or an identifier that is taken is refused.
  unfoldable pub create_key :
      String → ℕ → String → List String → ℕ → Option ℕ → String → List ApiKey → List ApiKey
  create_key raw id name roles now expires_at created_by rows =
      if any (λ r. r.key_id == id) rows || is_some (key_of_hash (hash_key raw) rows)
      then rows
      else rows
        ++ record {
          key_id = id;
          key_hash = hash_key raw;
          name = name;
          roles = roles;
          created_at = now;
          expires_at = expires_at;
          revoked = false;
          created_by = created_by;
          deleted_at = none;
        }
          ∷ []

  unfoldable pub verify_key : ℕ → String → List ApiKey → Option Grant
  unfolding key_of_hash grant
  verify_key now raw rows = grant now (key_of_hash (hash_key raw) rows)

  -- The requests that change the rows.
  pub data KeyRequest : Type 0 where
    creates : String → ℕ → String → List String → ℕ → Option ℕ → String → KeyRequest
    revokes_key : ℕ → KeyRequest
    deletes : ℕ → ℕ → KeyRequest

  unfoldable pub serve_key : KeyRequest → List ApiKey → List ApiKey
  serve_key (creates raw id name roles now expires_at by) rows =
      create_key raw id name roles now expires_at by rows
  serve_key (revokes_key id) rows = (revoke_key id rows).0
  serve_key (deletes now id) rows = (delete_key now id rows).0

  unfoldable pub serve_keys : List KeyRequest → List ApiKey → List ApiKey
  serve_keys [] rows = rows
  serve_keys (q ∷ qs) rows = serve_keys qs (serve_key q rows)

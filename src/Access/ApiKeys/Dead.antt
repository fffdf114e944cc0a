-- ===== src/Access/ApiKeys/Dead.antt =====
-- A key that server/oseye/storage/repositories/api_keys.py has revoked or deleted is never valid.
use oseye_plateforme.Prelude.{
  ℕ, ◌≡◌, refl, inl, inr, true, ◌||◌, Option, none, some, List, [], ◌∷◌, ◌++◌, String, arith, ◌==◌,
  if◌then◌else◌, Bool-cases, is_some, any,
}
use oseye_plateforme.Access.ApiKeys.{
  ApiKey, key_of_hash, grant, change_row, revoke_key, delete_key, create_key, verify_key,
  KeyRequest, creates, revokes_key, deletes, serve_key, serve_keys,
}

-- The row of a hash is there, and revoked or deleted.
abbrev pub IsDead : Option ApiKey → Type 0
IsDead none = ⊥
IsDead (some r) = (r.revoked || is_some r.deleted_at) ≡ true

append-IsDead :
    (hash : String) (rows more : List ApiKey)
    → IsDead (key_of_hash hash rows)
    → IsDead (key_of_hash hash (rows ++ more))
unfolding key_of_hash
append-IsDead hash [] more h = absurd h
append-IsDead hash (r ∷ rows) more h = ground (arith, append-IsDead hash rows more)

change_row-IsDead :
    (g : ApiKey → ApiKey) (id : ℕ) (hash : String) (rows : List ApiKey)
    → ((r : ApiKey) → (g r).key_hash ≡ r.key_hash)
    → ((r : ApiKey)
        → (r.revoked || is_some r.deleted_at) ≡ true
        → ((g r).revoked || is_some (g r).deleted_at) ≡ true)
    → IsDead (key_of_hash hash rows)
    → IsDead (key_of_hash hash (change_row g id rows).0)
unfolding change_row key_of_hash
change_row-IsDead g id hash [] same dead h = absurd h
change_row-IsDead g id hash (r ∷ rows) same dead h =
    ground (arith, same r, dead r, change_row-IsDead g id hash rows same dead)

-- The row of an identifier, and where it stands.
unfoldable pub key_of_id : ℕ → List ApiKey → Option ApiKey
key_of_id id [] = none
key_of_id id (r ∷ rows) = if r.key_id == id then some r else key_of_id id rows

key_of_hash_found :
    (hash : String) (rows : List ApiKey) (r : ApiKey)
    → key_of_hash hash rows ≡ some r
    → r.key_hash ≡ hash
unfolding key_of_hash
key_of_hash_found hash [] r e = cc
key_of_hash_found hash (x ∷ rows) r e = ground (arith, key_of_hash_found hash rows r)

-- Changing the row of the key itself.
killed :
    (g : ApiKey → ApiKey) (hash : String) (rows : List ApiKey) (r : ApiKey)
    → ((x : ApiKey) → (g x).key_hash ≡ x.key_hash)
    → ((x : ApiKey) → ((g x).revoked || is_some (g x).deleted_at) ≡ true)
    → key_of_hash hash rows ≡ some r
    → key_of_id r.key_id rows ≡ some r
    → IsDead (key_of_hash hash (change_row g r.key_id rows).0)
unfolding change_row key_of_hash key_of_id
killed g hash [] r same dead e u = cc
killed g hash (x ∷ rows) r same dead e u =
    ground (arith, same x, dead x, killed g hash rows r same dead, key_of_hash_found hash rows r)

grant-IsDead : (now : ℕ) (o : Option ApiKey) → IsDead o → grant now o ≡ none
unfolding grant
grant-IsDead now none h = refl
grant-IsDead now (some r) h = ground arith

module _ (hash_key : String → String) where
  serve_key-IsDead :
      (q : KeyRequest hash_key) (hash : String) (rows : List ApiKey)
      → IsDead (key_of_hash hash rows)
      → IsDead (key_of_hash hash (serve_key hash_key q rows))
  unfolding serve_key create_key revoke_key delete_key
  serve_key-IsDead (creates raw id name roles now ends by) hash rows h =
      elim (Bool-cases
        (any (λ r. r.key_id == id) rows || is_some (key_of_hash (hash_key raw) rows))) [
          | inl taken ↦ rw taken h
          | inr free ↦ rw free (append-IsDead hash rows _ h)
        ]
  serve_key-IsDead (revokes_key id) hash rows h =
      change_row-IsDead _ id hash rows (λ r. refl) (λ r d. refl) h
  serve_key-IsDead (deletes now id) hash rows h =
      change_row-IsDead _ id hash rows (λ r. refl) (λ r d. ground arith) h

  serve_keys-IsDead :
      (qs : List (KeyRequest hash_key)) (hash : String) (rows : List ApiKey)
      → IsDead (key_of_hash hash rows)
      → IsDead (key_of_hash hash (serve_keys hash_key qs rows))
  unfolding serve_keys
  serve_keys-IsDead [] hash rows h = h
  serve_keys-IsDead (q ∷ qs) hash rows h =
      serve_keys-IsDead qs hash (serve_key hash_key q rows) (serve_key-IsDead q hash rows h)

  -- Once the key that a text stands for has been revoked or deleted, and its row is the one of its
  -- identifier, the text is never valid again, whatever keys are created, revoked and deleted
  -- afterwards.
  pub verify_key-serve_keys :
      (raw : String) (r : ApiKey) (rows : List ApiKey) (qs : List (KeyRequest hash_key))
      (at now : ℕ)
      → key_of_hash (hash_key raw) rows ≡ some r
      → key_of_id r.key_id rows ≡ some r
      → (verify_key hash_key now raw (serve_keys hash_key qs (revoke_key r.key_id rows).0) ≡ none)
        × (verify_key hash_key now raw (serve_keys hash_key qs (delete_key at r.key_id rows).0)
            ≡ none)
  unfolding verify_key revoke_key delete_key
  verify_key-serve_keys raw r rows qs at now e u = (
    grant-IsDead now _ (
        serve_keys-IsDead qs (hash_key raw) _ (
          killed (λ x. record x { revoked = true }) (hash_key raw) rows r (λ x. refl) (λ x. refl) e
            u)),
    grant-IsDead now _ (
        serve_keys-IsDead qs (hash_key raw) _ (
          killed (λ x. record x { deleted_at = some at }) (hash_key raw) rows r (λ x. refl)
            (λ x. ground arith) e u)),
  )

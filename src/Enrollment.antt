-- ===== src/Enrollment.antt =====
-- SQLEnrollmentTokenRepository of server/oseye/storage/repositories/enrollment_tokens.py as a list
-- of rows. Each statement is one transaction, so one step. The keyed hash of a token is a
-- parameter; identifiers are the numbers of the UUIDs, times are ticks.
pub mod Once
use oseye_plateforme.Prelude.{
  ℕ, ite, Bool, false, not, Option, none, some, List, [], ◌∷◌, String, ltb, leb, ◌==◌,
  if◌then◌else◌, str_dec, length, keep, any,
}

-- A row of the table of tokens.
pub record Token : Type 0 where
  pub token_id : ℕ
  pub token_hash : String
  pub created_at : ℕ
  pub expires_at : ℕ
  pub created_by : String

-- The rows that the `DELETE` of `verify_and_consume` takes.
unfoldable pub is_live : String → ℕ → Token → Bool
is_live hash now t = ite (str_dec t.token_hash hash) (ltb now t.expires_at) false

unfoldable pub is_expired : ℕ → Token → Bool
is_expired now t = ltb t.expires_at now

-- `revoke`: the new rows, and whether there was one.
unfoldable pub revoke : ℕ → List Token → List Token × Bool
revoke id rows =
    (keep (λ t. not (t.token_id == id)) rows, leb 1 (length (keep (λ t. t.token_id == id) rows)))

-- The identifiers of the expired rows.
unfoldable pub expired_ids : ℕ → List Token → List ℕ
expired_ids now [] = []
expired_ids now (t ∷ rows) =
    if is_expired now t then t.token_id ∷ expired_ids now rows else expired_ids now rows

-- `list_active`: the rows left by the purge, and the rows listed.
unfoldable pub list_active : ℕ → List Token → List Token × List Token
list_active now rows = (
  keep (λ t. not (any (λ id. id == t.token_id) (expired_ids now rows))) rows,
  keep (λ t. not (is_expired now t)) rows,
)

-- The first row of a hash.
unfoldable pub first_of : String → List Token → Option Token
first_of hash [] = none
first_of hash (t ∷ rows) = ite (str_dec t.token_hash hash) (some t) (first_of hash rows)

abbrev pub unexpired : ℕ → Option Token → Bool
unexpired now none = false
unexpired now (some t) = leb now t.expires_at

module _ (hash_token : String → String) where
  -- `create`; the hash column is unique, so a second row with a hash is refused.
  unfoldable pub create_token : String → ℕ → ℕ → ℕ → String → List Token → Option (List Token)
  create_token raw token_id now expires_at created_by rows = elim (first_of (hash_token raw) rows) [
    | some _ ↦ none
    | none ↦ some (
        record {
          token_id = token_id;
          token_hash = hash_token raw;
          created_at = now;
          expires_at = expires_at;
          created_by = created_by;
        }
        ∷ rows)
  ]

  -- `verify_and_consume`: the rows left, and whether exactly one went.
  unfoldable pub verify_and_consume : ℕ → String → List Token → List Token × Bool
  verify_and_consume now raw rows = (
    keep (λ t. not (is_live (hash_token raw) now t)) rows,
    length (keep (λ t. is_live (hash_token raw) now t) rows) == 1,
  )

  -- `verify`
  unfoldable pub verify : ℕ → String → List Token → Bool
  verify now raw rows = unexpired now (first_of (hash_token raw) rows)

-- The other requests that may come between two uses of a token.
pub data Request : Type 0 where
  consume : ℕ → String → Request
  revoked : ℕ → Request
  listed : ℕ → Request

unfoldable pub serve : (String → String) → Request → List Token → List Token
serve hash_token (consume now raw) rows = (verify_and_consume hash_token now raw rows).0
serve hash_token (revoked id) rows = (revoke id rows).0
serve hash_token (listed now) rows = (list_active now rows).0

unfoldable pub serve_all : (String → String) → List Request → List Token → List Token
serve_all hash_token [] rows = rows
serve_all hash_token (r ∷ rs) rows = serve_all hash_token rs (serve hash_token r rows)

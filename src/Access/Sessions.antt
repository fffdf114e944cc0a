-- ===== src/Access/Sessions.antt =====
-- JWTHandler of server/oseye/api/auth/jwt.py with the list on disk. PyJWT and the texts of times
-- are parameters; the Redis list is left out. Each access to the list holds its lock, so each
-- method is one step. Times are ticks.
pub mod Revoked
use oseye_plateforme.Prelude.{
  ℕ, ◌+◌, Bool, true, false, not, Option, none, some, List, [], ◌∷◌, String, leb, if◌then◌else◌,
  str_dec, keep, any, Dict, contains, insert,
}

-- What a token says.
pub record Claims : Type 0 where
  pub sub : String
  pub roles : List String
  pub jti : Option String
  pub exp : Option ℕ

-- What `jwt.decode` gives: claims, `ExpiredSignatureError` or another `InvalidTokenError`.
pub data Decoded : Type 0 where
  claims : Claims → Decoded
  expired_signature invalid_token : Decoded

-- `jwt.decode` with the expiry checked or not at a time, `isoformat` and `fromisoformat`.
pub record Library : Type 0 where
  pub decode : Bool → ℕ → String → Decoded
  pub isoformat : ℕ → String
  pub fromisoformat : String → Option ℕ

-- `_revoked`, and what `_blocklist_file` holds.
pub record Handler : Type 0 where
  pub token_lifetime : ℕ
  pub revoked : Dict String ℕ
  pub blocklist_file : Dict String String

-- The outcome of a verification: the claims or an error 401 with its detail.
pub data Verified : Type 0 where
  accepted : Claims → Verified
  has_expired failed is_revoked : Verified

module _ (lib : Library) where
  open lib use {decode, isoformat, fromisoformat}

  unfoldable pub format_all : Dict String ℕ → Dict String String
  format_all [] = []
  format_all ((jti, exp) ∷ d) = (jti, isoformat exp) ∷ format_all d

  -- Texts that are no times are passed over.
  unfoldable pub parse_all : Dict String String → Dict String ℕ
  parse_all [] = []
  parse_all ((jti, text) ∷ d) = elim (fromisoformat text) [
    | none ↦ parse_all d
    | some exp ↦ (jti, exp) ∷ parse_all d
  ]

  -- `_save_blocklist`; a failure is logged.
  unfoldable pub save_blocklist : Bool → Handler → Handler
  unfolding format_all
  save_blocklist writable h =
      if writable then record h { blocklist_file = format_all h.revoked } else h

  -- `_load_blocklist` of a new process
  unfoldable pub load_blocklist : Handler → Handler
  unfolding parse_all
  load_blocklist h = record h { revoked = parse_all h.blocklist_file }

  -- `_prune_revoked`
  unfoldable pub prune_revoked : Bool → ℕ → Handler → Handler
  unfolding save_blocklist
  prune_revoked writable now h =
      let h' = record h { revoked = keep (λ (e : String × ℕ). not (leb e.1 now)) h.revoked } in
      if any (λ (e : String × ℕ). leb e.1 now) h.revoked then save_blocklist writable h' else h'

  -- `verify_token` of a token that decodes.
  unfoldable pub check_revoked : Bool → ℕ → Claims → Option String → Handler → Handler × Verified
  unfolding prune_revoked
  check_revoked writable now c none h = (h, failed)
  check_revoked writable now c (some jti) h =
      let h' = prune_revoked writable now h in
      (h', (if contains str_dec jti h'.revoked then is_revoked else accepted c))

  unfoldable pub check_decoded : Bool → ℕ → Decoded → Handler → Handler × Verified
  unfolding check_revoked
  check_decoded writable now (claims c) h = check_revoked writable now c c.jti h
  check_decoded writable now expired_signature h = (h, has_expired)
  check_decoded writable now invalid_token h = (h, failed)

  unfoldable pub verify_token : Bool → ℕ → String → Handler → Handler × Verified
  unfolding check_decoded
  verify_token writable now token h = check_decoded writable now (decode true now token) h

  -- The expiry under which a token is listed.
  abbrev pub listed_until : ℕ → Option ℕ → Handler → ℕ
  listed_until now none h = now + h.token_lifetime
  listed_until now (some exp) h = exp

  unfoldable pub revoke_jti : Bool → ℕ → Option ℕ → Option String → Handler → Handler
  unfolding save_blocklist
  revoke_jti writable now exp none h = h
  revoke_jti writable now exp (some jti) h =
      save_blocklist writable
        (record h { revoked = insert str_dec jti (listed_until now exp h) h.revoked })

  unfoldable pub revoke_decoded : Bool → ℕ → Decoded → Handler → Handler
  revoke_decoded writable now (claims c) h = revoke_jti writable now c.exp c.jti h
  revoke_decoded writable now _ h = h

  -- `revoke_token`
  unfoldable pub revoke_token : Bool → ℕ → String → Handler → Handler
  unfolding revoke_decoded
  revoke_token writable now token h = revoke_decoded writable now (decode false now token) h

  -- What may happen to the handler, each at a time: a verification, a revocation, a restart.
  pub data Use : Type 0 where
    verifies revokes : ℕ → String → Use
    restarts : ℕ → Use

  abbrev pub time_of : Use → ℕ
  time_of (verifies now token) = now
  time_of (revokes now token) = now
  time_of (restarts now) = now

  unfoldable pub use_handler : Bool → Use → Handler → Handler
  use_handler writable (verifies now token) h = (verify_token writable now token h).0
  use_handler writable (revokes now token) h = revoke_token writable now token h
  use_handler writable (restarts now) h = load_blocklist h

  unfoldable pub use_all : Bool → List Use → Handler → Handler
  use_all writable [] h = h
  use_all writable (u ∷ us) h = use_all writable us (use_handler writable u h)

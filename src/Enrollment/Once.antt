-- ===== src/Enrollment/Once.antt =====
-- A token of server/oseye/storage/repositories/enrollment_tokens.py is used once.
use oseye_plateforme.Prelude.{
  ℕ, ◌≤◌, ◌≡◌, refl, sym, ◌∙◌, Bool, true, false, not, Option, none, some, List, [], ◌∷◌, String,
  arith, ltb, ◌==◌, str_dec, length, keep,
}
use oseye_plateforme.Enrollment.{
  unexpired, Token, is_live, revoke, list_active, first_of, verify_and_consume, verify, Request,
  consume, revoked, listed, serve, serve_all,
}

-- How many rows a use of the hash would take at the time.
abbrev live_rows : String → ℕ → List Token → ℕ
live_rows hash now rows = length (keep (λ t. is_live hash now t) rows)

live_rows-keep-le :
    (p : Token → Bool) (hash : String) (now : ℕ) (rows : List Token)
    → live_rows hash now (keep p rows) ≤ live_rows hash now rows
live_rows-keep-le p hash now [] = omega arith
live_rows-keep-le p hash now (t ∷ rows) = ground (arith, live_rows-keep-le p hash now rows)

module _ (hash_token : String → String) where
  consumed :
      (raw : String) (now later : ℕ) (rows : List Token)
      → now ≤ later
      → live_rows (hash_token raw) later (keep (λ t. not (is_live (hash_token raw) now t)) rows) ≡ 0
  unfolding is_live
  consumed raw now later [] h = refl
  consumed raw now later (t ∷ rows) h = ground (arith, consumed raw now later rows h)

  serve-le :
      (r : Request) (hash : String) (now : ℕ) (rows : List Token)
      → live_rows hash now (serve hash_token r rows) ≤ live_rows hash now rows
  unfolding serve verify_and_consume revoke list_active
  serve-le (consume at raw) hash now rows = live_rows-keep-le _ hash now rows
  serve-le (revoked id) hash now rows = live_rows-keep-le _ hash now rows
  serve-le (listed at) hash now rows = live_rows-keep-le _ hash now rows

  serve_all-le :
      (rs : List Request) (hash : String) (now : ℕ) (rows : List Token)
      → live_rows hash now (serve_all hash_token rs rows) ≤ live_rows hash now rows
  unfolding serve_all
  serve_all-le [] hash now rows = omega arith
  serve_all-le (r ∷ rs) hash now rows =
      omega (arith, serve_all-le rs hash now (serve hash_token r rows), serve-le r hash now rows)

  -- After a use of a token, successful or not, no use of it at that time or later succeeds,
  -- whatever uses, revocations and listings come in between.
  pub verify_and_consume_once :
      (raw : String) (now later : ℕ) (rs : List Request) (rows : List Token)
      → now ≤ later
      → (verify_and_consume hash_token later raw
          (serve_all hash_token rs (verify_and_consume hash_token now raw rows).0)).1
        ≡ false
  unfolding verify_and_consume
  verify_and_consume_once raw now later rs rows h = ground (
    arith,
    serve_all-le rs (hash_token raw) later (keep (λ t. not (is_live (hash_token raw) now t)) rows),
    consumed raw now later rows h,
  )

-- No two rows have one hash: the column is unique.
abbrev pub IsUnique : List Token → Type 0
IsUnique [] = Unit
IsUnique (t ∷ rows) = (first_of t.token_hash rows ≡ none) × IsUnique rows

live_rows-absent :
    (hash : String) (now : ℕ) (rows : List Token)
    → first_of hash rows ≡ none
    → live_rows hash now rows ≡ 0
unfolding first_of is_live
live_rows-absent hash now [] h = refl
live_rows-absent hash now (t ∷ rows) h = ground (arith, live_rows-absent hash now rows)

-- Whether a row that was found may be used.
abbrev pub is_usable : ℕ → Option Token → Bool
is_usable now none = false
is_usable now (some t) = ltb now t.expires_at

counted :
    (hash : String) (now : ℕ) (rows : List Token)
    → IsUnique rows
    → (live_rows hash now rows == 1) ≡ is_usable now (first_of hash rows)
unfolding first_of is_live
counted hash now [] u = refl
counted hash now (t ∷ rows) u = elim (str_dec t.token_hash hash) [
  | yes same ↦
      ground (arith, live_rows-absent t.token_hash now rows u.0, live_rows-absent hash now rows)
  | no other ↦ ground (arith, counted hash now rows u.1)
]

-- With unique hashes, a use succeeds exactly when the row of the token is there and expires later.
pub verify_and_consume_lem :
    (hash_token : String → String) (raw : String) (now : ℕ) (rows : List Token)
    → IsUnique rows
    → (verify_and_consume hash_token now raw rows).1
      ≡ is_usable now (first_of (hash_token raw) rows)
unfolding verify_and_consume
verify_and_consume_lem hash_token raw now rows u = counted (hash_token raw) now rows u

usable-unexpired : (now : ℕ) (o : Option Token) → is_usable now o ≡ true → unexpired now o ≡ true
usable-unexpired now none h = h
usable-unexpired now (some t) h = ground arith

-- With unique hashes, a token whose use would succeed passes `verify` at the same time.
pub verify-verify_and_consume :
    (hash_token : String → String) (raw : String) (now : ℕ) (rows : List Token)
    → IsUnique rows
    → (verify_and_consume hash_token now raw rows).1 ≡ true
    → verify hash_token now raw rows ≡ true
unfolding verify
verify-verify_and_consume hash_token raw now rows u h =
    usable-unexpired now (first_of (hash_token raw) rows)
      (sym (verify_and_consume_lem hash_token raw now rows u) ∙ h)

-- ===== src/Access/Sessions/Revoked.antt =====
-- A token that server/oseye/api/auth/jwt.py has revoked is never accepted again.
use oseye_plateforme.Prelude.{
  ℕ, ◌≤◌, ◌<◌, ◌≡◌, refl, sym, ap, ◌∙◌, ◌≢◌, ◌⊎◌, inl, inr, true, false, not, Option, none, some,
  List, [], ◌∷◌, String, arith, leb, Bool-cases, str_dec, keep, any, All, Dict, lookup, insert,
  lookup-insert_self, lookup-insert_ne,
}
use oseye_plateforme.Access.Sessions.{
  Claims, Decoded, claims, expired_signature, invalid_token, Library, Handler, accepted, is_revoked,
  format_all, parse_all, save_blocklist, load_blocklist, prune_revoked, check_revoked,
  check_decoded, verify_token, listed_until, revoke_jti, revoke_decoded, revoke_token, Use,
  verifies, revokes, restarts, time_of, use_handler, use_all,
}

module _ (lib : Library) (iso : (t : ℕ) → lib.fromisoformat (lib.isoformat t) ≡ some t) where
  open lib use {decode, isoformat, fromisoformat}

  parse_all-format_all : (d : Dict String ℕ) → parse_all lib (format_all lib d) ≡ d
  unfolding parse_all format_all
  parse_all-format_all [] = refl
  parse_all-format_all ((j, t) ∷ d) =
      rw (iso t, parse_all) (ap (λ e. (j, t) ∷ e) (parse_all-format_all d))

  -- If the text of a time reads as that time, a process that starts loads the list of revoked tokens
  -- that was saved last.
  pub load_blocklist-save_blocklist :
      (h : Handler) → (load_blocklist lib (save_blocklist lib true h)).revoked ≡ h.revoked
  unfolding load_blocklist save_blocklist
  load_blocklist-save_blocklist h = parse_all-format_all h.revoked

  -- The entry of the identifier is listed with the expiry.
  abbrev pub IsListed : String → ℕ → Dict String ℕ → Type 0
  IsListed jti exp d = lookup str_dec jti d ≡ some exp

  keeps_IsListed :
      (now : ℕ) (jti : String) (exp : ℕ) (d : Dict String ℕ)
      → IsListed jti exp d
      → now < exp
      → IsListed jti exp (keep (λ (e : String × ℕ). not (leb e.1 now)) d)
  keeps_IsListed now jti exp [] h late = h
  keeps_IsListed now jti exp ((j, t) ∷ d) h late = ground (arith, keeps_IsListed now jti exp d)

  -- The entry is in memory and on disk, or its expiry has passed.
  record IsSafe (later : ℕ) (jti : String) (exp : ℕ) (h : Handler) : Type 0 where
    memory : IsListed jti exp h.revoked ⊎ (exp ≤ later)
    disk : IsListed jti exp (parse_all lib h.blocklist_file) ⊎ (exp ≤ later)

  saved-IsSafe :
      (later : ℕ) (jti : String) (exp : ℕ) (h : Handler)
      → IsListed jti exp h.revoked ⊎ (exp ≤ later)
      → IsSafe later jti exp (save_blocklist lib true h)
  unfolding save_blocklist
  saved-IsSafe later jti exp h m = record {
    memory = m;
    disk = rw (parse_all-format_all h.revoked) m;
  }

  keep_entry :
      (now later : ℕ) (jti : String) (exp : ℕ) (d : Dict String ℕ)
      → now ≤ later
      → IsListed jti exp d ⊎ (exp ≤ later)
      → IsListed jti exp (keep (λ (e : String × ℕ). not (leb e.1 now)) d) ⊎ (exp ≤ later)
  keep_entry now later jti exp d past (inr over) = inr over
  keep_entry now later jti exp d past (inl there) = elim (Bool-cases (leb exp now)) [
    | inl over ↦ inr (ground arith)
    | inr live ↦ inl (keeps_IsListed now jti exp d there (ground arith))
  ]

  prune-IsSafe :
      (now later : ℕ) (jti : String) (exp : ℕ) (h : Handler)
      → now ≤ later
      → IsSafe later jti exp h
      → IsSafe later jti exp (prune_revoked lib true now h)
  unfolding prune_revoked
  prune-IsSafe now later jti exp h past safe =
      let kept = keep_entry now later jti exp h.revoked past safe.memory in
      elim (Bool-cases (any (λ (e : String × ℕ). leb e.1 now) h.revoked)) [
        | inl some_over ↦ rw some_over (
            saved-IsSafe later jti exp
              (record h { revoked = keep (λ (e : String × ℕ). not (leb e.1 now)) h.revoked }) kept)
        | inr none_over ↦ rw none_over (record { memory = kept; disk = safe.disk })
      ]

  module _ (later : ℕ) (jti : String) (exp : ℕ)
      (same : (now : ℕ) (token : String) (c : Claims)
        → decode false now token ≡ claims c
        → c.jti ≡ some jti
        → c.exp ≡ some exp) where
    check-IsSafe :
        (now : ℕ) (c : Claims) (o : Option String) (h : Handler)
        → now ≤ later
        → IsSafe later jti exp h
        → IsSafe later jti exp (check_revoked lib true now c o h).0
    unfolding check_revoked
    check-IsSafe now c none h past safe = safe
    check-IsSafe now c (some j) h past safe = prune-IsSafe now later jti exp h past safe

    verify-IsSafe :
        (now : ℕ) (d : Decoded) (h : Handler)
        → now ≤ later
        → IsSafe later jti exp h
        → IsSafe later jti exp (check_decoded lib true now d h).0
    unfolding check_decoded
    verify-IsSafe now (claims c) h past safe = check-IsSafe now c c.jti h past safe
    verify-IsSafe now expired_signature h past safe = safe
    verify-IsSafe now invalid_token h past safe = safe

    entry-insert :
        (now : ℕ) (token j : String) (c : Claims) (h : Handler)
        → decode false now token ≡ claims c
        → c.jti ≡ some j
        → IsListed jti exp h.revoked ⊎ (exp ≤ later)
        → IsListed jti exp (insert str_dec j (listed_until lib now c.exp h) h.revoked)
          ⊎ (exp ≤ later)
    entry-insert now token j c h e there' (inr over) = inr over
    entry-insert now token j c h e there' (inl listed) = elim (str_dec jti j) [
      | yes this ↦ inl (
          ap (λ k. lookup str_dec k (insert str_dec j (listed_until lib now c.exp h) h.revoked))
            this
          ∙ lookup-insert_self str_dec j (listed_until lib now c.exp h) h.revoked
          ∙ ap (λ o. some (listed_until lib now o h))
              (same now token c e (there' ∙ ap some (sym this))))
      | no other ↦ inl (lookup-insert_ne str_dec jti j _ h.revoked other ∙ listed)
    ]

    revoke_jti-IsSafe :
        (now : ℕ) (token : String) (c : Claims) (o : Option String) (h : Handler)
        → decode false now token ≡ claims c
        → c.jti ≡ o
        → IsSafe later jti exp h
        → IsSafe later jti exp (revoke_jti lib true now c.exp o h)
    unfolding revoke_jti
    revoke_jti-IsSafe now token c none h e there safe = safe
    revoke_jti-IsSafe now token c (some j) h e there safe =
        saved-IsSafe later jti exp
          (record h { revoked = insert str_dec j (listed_until lib now c.exp h) h.revoked })
          (entry-insert now token j c h e there safe.memory)

    revoke-IsSafe :
        (now : ℕ) (token : String) (d : Decoded) (h : Handler)
        → decode false now token ≡ d
        → IsSafe later jti exp h
        → IsSafe later jti exp (revoke_decoded lib true now d h)
    unfolding revoke_decoded
    revoke-IsSafe now token (claims c) h e safe = revoke_jti-IsSafe now token c c.jti h e refl safe
    revoke-IsSafe now token expired_signature h e safe = safe
    revoke-IsSafe now token invalid_token h e safe = safe

    use-IsSafe :
        (u : Use lib) (h : Handler)
        → time_of lib u ≤ later
        → IsSafe later jti exp h
        → IsSafe later jti exp (use_handler lib true u h)
    unfolding use_handler verify_token revoke_token load_blocklist
    use-IsSafe (verifies now token) h past safe =
        verify-IsSafe now (decode true now token) h past safe
    use-IsSafe (revokes now token) h past safe =
        revoke-IsSafe now token (decode false now token) h refl safe
    use-IsSafe (restarts now) h past safe = record { memory = safe.disk; disk = safe.disk }

    uses-IsSafe :
        (us : List (Use lib)) (h : Handler)
        → All (λ u. time_of lib u ≤ later) us
        → IsSafe later jti exp h
        → IsSafe later jti exp (use_all lib true us h)
    unfolding use_all
    uses-IsSafe [] h past safe = safe
    uses-IsSafe (u ∷ us) h past safe =
        uses-IsSafe us (use_handler lib true u h) past.1 (use-IsSafe u h past.0 safe)

  -- What a verification answers for a token of the claims while its entry is safe.
  refused :
      (now : ℕ) (jti : String) (exp : ℕ) (c : Claims) (h : Handler)
      → now < exp
      → IsSafe now jti exp h
      → (check_revoked lib true now c (some jti) h).1 ≡ is_revoked
  unfolding check_revoked
  refused now jti exp c h live safe =
      ground (arith, (prune-IsSafe now now jti exp h (omega arith) safe).memory)

  start-IsSafe :
      (now later : ℕ) (jti : String) (exp : ℕ) (h : Handler)
      → IsSafe later jti exp (revoke_jti lib true now (some exp) (some jti) h)
  unfolding revoke_jti
  start-IsSafe now later jti exp h =
      saved-IsSafe later jti exp (record h { revoked = insert str_dec jti exp h.revoked })
        (inl (lookup-insert_self str_dec jti exp h.revoked))

  revoke_token-revoke_jti :
      (now : ℕ) (token jti : String) (exp : ℕ) (c : Claims) (h : Handler)
      → decode false now token ≡ claims c
      → c.jti ≡ some jti
      → c.exp ≡ some exp
      → revoke_token lib true now token h ≡ revoke_jti lib true now (some exp) (some jti) h
  unfolding revoke_token revoke_decoded
  revoke_token-revoke_jti now token jti exp c h e id ends =
      ap (λ d. revoke_decoded lib true now d h) e
      ∙ ap (λ o. revoke_jti lib true now o c.jti h) ends
      ∙ ap (λ o. revoke_jti lib true now (some exp) o h) id

  answer :
      (now : ℕ) (token jti : String) (exp : ℕ) (c out : Claims) (h : Handler) (d : Decoded)
      → c.jti ≡ some jti
      → ((e : Claims) → d ≡ claims e → (e ≡ c) × (now < exp))
      → IsSafe now jti exp h
      → (check_decoded lib true now d h).1 ≢ accepted out
  unfolding check_decoded
  answer now token jti exp c out h (claims e) id live safe = λ ok.
      let (same, fresh) = live e refl in
      let no : (check_revoked lib true now e e.jti h).1 ≡ is_revoked =
        ap (λ (o : Option String). (check_revoked lib true now e o h).1)
          (ap (λ (k : Claims). k.jti) same ∙ id)
        ∙ refused now jti exp e h fresh safe in
      ground arith
  answer now token jti exp c out h expired_signature id live safe = λ ok. ground arith
  answer now token jti exp c out h invalid_token id live safe = λ ok. ground arith

  -- A token with an identifier and an expiry is revoked. If the text of a time reads as that time, no
  -- other token has that identifier with another expiry, PyJWT decodes the token to those claims or
  -- not at all, and only before its expiry, and the list can be written, then after any
  -- verifications, revocations and restarts up to a time, no verification of the token at that time
  -- succeeds.
  pub verify_token-revoke_token :
      (token jti : String) (exp revoked_at later : ℕ) (c : Claims) (us : List (Use lib))
      (h : Handler) (out : Claims)
      → decode false revoked_at token ≡ claims c
      → c.jti ≡ some jti
      → c.exp ≡ some exp
      → ((now : ℕ) (t : String) (d : Claims)
          → decode false now t ≡ claims d
          → d.jti ≡ some jti
          → d.exp ≡ some exp)
      → ((now : ℕ) (d : Claims) → decode true now token ≡ claims d → (d ≡ c) × (now < exp))
      → All (λ u. time_of lib u ≤ later) us
      → (verify_token lib true later token
          (use_all lib true us (revoke_token lib true revoked_at token h))).1
        ≢ accepted out
  unfolding verify_token
  verify_token-revoke_token token jti exp at later c us h out e id ends same live past =
      let first : IsSafe later jti exp (revoke_token lib true at token h) =
        rw (revoke_token-revoke_jti at token jti exp c h e id ends)
          (start-IsSafe at later jti exp h) in
      answer later token jti exp c out _ (decode true later token) id (live later)
        (uses-IsSafe later jti exp same us (revoke_token lib true at token h) past first)

-- ===== src/Ingest/Normalizer/Routes.antt =====
-- Where server/oseye/normalizer/engine.py sends what it gets.
use oseye_plateforme.Prelude.{
  ℕ, zero, suc, ◌≤◌, ◌≡◌, refl, sym, ◌↔◌, ◌⊎◌, inl, inr, true, false, Option, none, some, List, [],
  ◌∷◌, String, arith, Bool-cases, text_pair_dec, lookup,
}
use mathlib.Core.Path.{subst}
use oseye_plateforme.Prelude.Int.{ℤ, pos, negsuc, is_positive}
use oseye_plateforme.Ingest.Normalizer.{
  Event, max_port, is_negative, is_no_port, Fault, bus_publish_failed, validate_event, Message,
  normalized, dead_letter, Adapter, Engine, Call, adapt, send_dead_letter, publish_event, route,
  process,
}

abbrev IsNatural : Option ℤ → Type 0
IsNatural none = Unit
IsNatural (some z) = (n : ℕ) × (z ≡ pos n)

abbrev IsPort : Option ℤ → Type 0
IsPort none = Unit
IsPort (some z) = (n : ℕ) × (z ≡ pos n) × (n ≤ max_port)

-- The fields of an event make sense.
abbrev pub InRange : {Rest : Type 0} → Event Rest → Type 0
InRange e =
    ((n : ℕ) × (e.timestamp_ns ≡ pos (suc n)))
    × IsNatural e.bytes_sent
    × IsNatural e.bytes_recv
    × IsPort e.dst_port
    × IsPort e.src_port

positive_iff : (z : ℤ) → (is_positive z ≡ true) ↔ ((n : ℕ) × (z ≡ pos (suc n)))
positive_iff (pos zero) = ((λ h. cc), (λ (n, h). cc))
positive_iff (pos (suc n)) = ((λ h. (n, refl)), (λ h. refl))
positive_iff (negsuc n) = ((λ h. cc), (λ (m, h). cc))

IsNatural-iff : (o : Option ℤ) → (is_negative o ≡ false) ↔ IsNatural o
unfolding is_negative
IsNatural-iff none = ((λ h. tt), (λ h. refl))
IsNatural-iff (some (pos n)) = ((λ h. (n, refl)), (λ h. refl))
IsNatural-iff (some (negsuc n)) = ((λ h. cc), (λ (m, h). cc))

IsPort-iff : (o : Option ℤ) → (is_no_port o ≡ false) ↔ IsPort o
unfolding is_no_port
IsPort-iff none = ((λ h. tt), (λ h. refl))
IsPort-iff (some (pos n)) = ((λ h. (n, refl, ground arith)), (λ (m, e, le). ground arith))
IsPort-iff (some (negsuc n)) = ((λ h. cc), (λ (m, h, le). cc))

validate_event_iff : {Rest : Type 0} (e : Event Rest) → (validate_event e ≡ none) ↔ InRange e
unfolding validate_event
validate_event_iff e = (
  (λ h. (
    (positive_iff e.timestamp_ns).0 (ground arith),
    (IsNatural-iff e.bytes_sent).0 (ground arith),
    (IsNatural-iff e.bytes_recv).0 (ground arith),
    (IsPort-iff e.dst_port).0 (ground arith),
    (IsPort-iff e.src_port).0 (ground arith),
  )),
  (λ (t, s, r, d, p). ground (
    arith,
    (positive_iff e.timestamp_ns).1 t,
    (IsNatural-iff e.bytes_sent).1 s,
    (IsNatural-iff e.bytes_recv).1 r,
    (IsPort-iff e.dst_port).1 d,
    (IsPort-iff e.src_port).1 p,
  )),
)

module _ {Payload Rest : Type 0} (lower : String → String)
    (parse_uuid : String → Option String) where
  abbrev letter : Fault → Call Payload Rest → Message Payload Rest
  letter reason c = dead_letter (record {
    reason = reason;
    source = c.source;
    os_name = c.os_name;
    agent_id = c.agent_id;
    payload = c.raw_payload;
  })

  -- What becomes of a payload of which the adapter made an event, or none.
  abbrev pub Routed : Option (Event Rest) → Call Payload Rest → List (Message Payload Rest) → Type 0
  Routed none c sent = sent ≡ []
  Routed (some e) c sent =
      (InRange e × (c.published ≡ true) × (sent ≡ normalized e ∷ []))
      ⊎ ((InRange e × (c.published ≡ false) × (sent ≡ letter bus_publish_failed c ∷ []))
          ⊎ ((reason : Fault) × ¬ (InRange e) × (sent ≡ letter reason c ∷ [])))

  published-Routed :
      (e : Event Rest) (c : Call Payload Rest)
      → c.dead_published ≡ true
      → (o : Option Fault) → validate_event e ≡ o
      → Routed (some e) c (publish_event Payload Rest lower parse_uuid o e c).1
  unfolding publish_event send_dead_letter
  published-Routed e c up (some fault) h =
      inr (inr (fault, (λ fine. let sound = (validate_event_iff e).1 fine in cc), ground arith))
  published-Routed e c up none h = elim (Bool-cases c.published) [
    | inl taken ↦ inl ((validate_event_iff e).0 h, taken, ground arith)
    | inr refused ↦ inr (inl ((validate_event_iff e).0 h, refused, ground arith))
  ]

  route-Routed :
      (o : Option (Event Rest)) (c : Call Payload Rest)
      → c.dead_published ≡ true
      → Routed o c (route Payload Rest lower parse_uuid o c).1
  unfolding route
  route-Routed none c up = refl
  route-Routed (some e) c up = published-Routed e c up (validate_event e) refl

  -- What becomes of a call, by the adapter of its system and source and the UUID of its agent:
  -- nothing is sent without either; otherwise what the adapter gives is routed.
  abbrev pub Sent :
      Option (Adapter Payload Rest)
      → Option String
      → String
      → Call Payload Rest
      → List (Message Payload Rest)
      → Type 0
  Sent none uuid hostname c sent = sent ≡ []
  Sent (some adapter) none hostname c sent = sent ≡ []
  Sent (some adapter) (some agent_id) hostname c sent =
      Routed (adapter c.raw_payload hostname agent_id) c sent

  -- What the adapter gives, with the UUID as an argument.
  given :
      Option (Adapter Payload Rest)
      → Option String
      → String
      → Call Payload Rest
      → Option (Event Rest)
  given none uuid hostname c = none
  given (some adapter) uuid hostname c = elim uuid [
    | none ↦ none
    | some agent_id ↦ adapter c.raw_payload hostname agent_id
  ]

  given-Sent :
      (o : Option (Adapter Payload Rest)) (uuid : Option String) (hostname : String)
      (c : Call Payload Rest)
      → c.dead_published ≡ true
      → Sent o uuid hostname c (route Payload Rest lower parse_uuid (given o uuid hostname c) c).1
  unfolding given route
  given-Sent none uuid hostname c up = refl
  given-Sent (some adapter) none hostname c up = refl
  given-Sent (some adapter) (some agent_id) hostname c up =
      route-Routed (adapter c.raw_payload hostname agent_id) c up

  adapt-given :
      (o : Option (Adapter Payload Rest)) (hostname : String) (c : Call Payload Rest)
      → adapt Payload Rest lower parse_uuid o hostname c
        ≡ given o (parse_uuid c.agent_id) hostname c
  unfolding adapt given
  adapt-given none hostname c = refl
  adapt-given (some adapter) hostname c = refl

  -- Where the dead letters are taken: an event that the adapter gives is published if its
  -- fields are in range and the bus takes it, and goes to the dead letters alone otherwise,
  -- with the publication as the reason where its fields are in range; where there is no
  -- adapter, no valid identifier, or the adapter raises, nothing is sent.
  pub process-Routed :
      (engine : Engine Payload Rest) (c : Call Payload Rest)
      → c.dead_published ≡ true
      → Sent
          (lookup text_pair_dec (lower c.os_name, lower c.source) engine.adapters)
          (parse_uuid c.agent_id)
          engine.hostname
          c
          (process Payload Rest lower parse_uuid engine c).1
  unfolding process
  process-Routed engine c up =
      let o = lookup text_pair_dec (lower c.os_name, lower c.source) engine.adapters in
      subst
        (λ e.
          Sent o (parse_uuid c.agent_id) engine.hostname c
            (route Payload Rest lower parse_uuid e c).1)
        (sym (adapt-given o engine.hostname c))
        (given-Sent o (parse_uuid c.agent_id) engine.hostname c up)

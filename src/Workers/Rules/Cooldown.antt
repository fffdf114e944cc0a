-- ===== src/Workers/Rules/Cooldown.antt =====
-- How often the worker of server/oseye/workers/rule_worker.py raises an alert.
use oseye_plateforme.Prelude.{
  ℕ, ◌+◌, ◌≤◌, ◌≡◌, refl, sym, ap, ◌∙◌, inl, inr, Bool, false, not, Option, none, some, List, [],
  ◌∷◌, ◌++◌, String, arith, ltb, Bool-cases, text_pair_dec, if-either, All-mono, All, Dict, lookup,
  insert, lookup-insert_self, lookup-insert_ne,
}
use oseye_plateforme.Workers.Rules.{
  Match, Event, Alert, Message, alert_created, enrichment, Moment, Key, Worker, alert_cooldown,
  alert_severity, last_fired, to_list, send, new_alert, send_addresses, announce, store_alert, fire,
  create_alert, handle_match, handle_matches, Input, unparsed, raised, evaluated, process_event,
  run_events, fresh_worker,
}
use oseye_plateforme.Correlation.{Severity}

-- The rule and the entity of an alert.
abbrev pub key_of : Alert → Key
key_of a = (a.rule_id, a.entity_id)

-- Alerts of one key, newest first, are a cooldown apart.
abbrev pub IsApart : List Alert → Type 0
IsApart [] = Unit
IsApart (x ∷ ys) =
    All (λ y. key_of y ≡ key_of x → y.created_at + alert_cooldown ≤ x.created_at) ys × IsApart ys

-- The cooldown of an alert's key stands at its time at least.
abbrev IsCooled : Dict Key ℕ → Alert → Type 0
IsCooled cooldowns a =
    (t : ℕ) × (lookup text_pair_dec (key_of a) cooldowns ≡ some t) × (a.created_at ≤ t)

abbrev IsPaced : Dict Key ℕ → List Alert → Type 0
IsPaced cooldowns alerts = All (IsCooled cooldowns) alerts × IsApart alerts

fired_before :
    (key : Key) (now : ℕ) (cooldowns : Dict Key ℕ) (a : Alert)
    → last_fired (lookup text_pair_dec key cooldowns) + alert_cooldown ≤ now
    → IsCooled cooldowns a
    → key_of a ≡ key
    → a.created_at + alert_cooldown ≤ now
fired_before key now cooldowns a passed (t, found, at) same =
    let there : last_fired (lookup text_pair_dec key cooldowns) ≡ t =
      ap (λ k. last_fired (lookup text_pair_dec k cooldowns)) (sym same) ∙ ap last_fired found in
    omega (arith, there)

-- The worker once the cooldown of a key has passed.
IsCooled-insert :
    (key : Key) (now : ℕ) (cooldowns : Dict Key ℕ) (a : Alert)
    → last_fired (lookup text_pair_dec key cooldowns) + alert_cooldown ≤ now
    → IsCooled cooldowns a
    → IsCooled (insert text_pair_dec key now cooldowns) a
IsCooled-insert key now cooldowns a passed (t, found, at) = elim (text_pair_dec (key_of a) key) [
  | yes same ↦ (
    now,
    ap (λ k. lookup text_pair_dec k (insert text_pair_dec key now cooldowns)) same
        ∙ lookup-insert_self text_pair_dec key now cooldowns,
    omega (arith, fired_before key now cooldowns a passed (t, found, at) same),
  )
  | no other ↦ (t, lookup-insert_ne text_pair_dec (key_of a) key now cooldowns other ∙ found, at)
]

send-alerts :
    (published : Bool) (m : Message) (w : Worker)
    → ((send published m w).alerts ≡ w.alerts)
      × ((send published m w).alert_cooldowns ≡ w.alert_cooldowns)
unfolding send
send-alerts published m w = ground arith

module _ (entity : String → ℕ → String) where
  send_addresses-alerts :
      (published : Bool) (id : ℕ) (ips : List String) (w : Worker)
      → ((send_addresses entity published id ips w).alerts ≡ w.alerts)
        × ((send_addresses entity published id ips w).alert_cooldowns ≡ w.alert_cooldowns)
  unfolding send_addresses
  send_addresses-alerts published id [] w = (refl, refl)
  send_addresses-alerts published id (ip ∷ ips) w =
      send-alerts published (enrichment id (ip ∷ ips)) w

  announce-alerts :
      (moment : Moment) (event : Event) (a : Alert) (w : Worker)
      → ((announce entity moment event a w).alerts ≡ w.alerts)
        × ((announce entity moment event a w).alert_cooldowns ≡ w.alert_cooldowns)
  unfolding announce
  announce-alerts moment event a w = ground (
    arith,
    send-alerts moment.alert_published (alert_created a.alert_id) w,
    send_addresses-alerts moment.enrichment_published a.alert_id
        (to_list event.dst_ip ++ to_list event.src_ip)
        (send moment.alert_published (alert_created a.alert_id) w),
  )

  abbrev Keeps : Worker → Type 0
  Keeps w = IsPaced w.alert_cooldowns w.alerts

  Keeps-same :
      (w w' : Worker)
      → (w'.alerts ≡ w.alerts) × (w'.alert_cooldowns ≡ w.alert_cooldowns)
      → Keeps w
      → Keeps w'
  Keeps-same w w' e h = rw (e.0, e.1) h

  -- The worker whose cooldown was just set, and where an alert was stored besides.
  set_cooldown : Key → ℕ → Worker → Worker
  set_cooldown key now w = record w {
    alert_cooldowns = insert text_pair_dec key now w.alert_cooldowns;
  }

  module _ (key : Key) (now : ℕ) (w : Worker)
      (passed : last_fired (lookup text_pair_dec key w.alert_cooldowns) + alert_cooldown ≤ now)
      (paced : Keeps w) where
    set_cooldown-Keeps : Keeps (set_cooldown key now w)
    unfolding set_cooldown
    set_cooldown-Keeps = (
      All-mono _ _ (λ a h. IsCooled-insert key now w.alert_cooldowns a passed h) w.alerts paced.0,
      paced.1,
    )

    add_alert-Keeps :
        (a : Alert)
        → key_of a ≡ key
        → a.created_at ≡ now
        → IsPaced (insert text_pair_dec key now w.alert_cooldowns) (a ∷ w.alerts)
    unfolding set_cooldown
    add_alert-Keeps a same at = (
      (
        (
          now,
          ap (λ k. lookup text_pair_dec k (insert text_pair_dec key now w.alert_cooldowns)) same
              ∙ lookup-insert_self text_pair_dec key now w.alert_cooldowns,
          omega arith,
        ),
        set_cooldown-Keeps.0,
      ),
      (
        All-mono _ _
            (λ y h e. omega (arith, fired_before key now w.alert_cooldowns y passed h (e ∙ same)))
            w.alerts paced.0,
        paced.1,
      ),
    )

    store_alert-Keeps :
        (moment : Moment) (event : Event) (a : Alert)
        → key_of a ≡ key
        → a.created_at ≡ now
        → Keeps (store_alert entity moment event a (set_cooldown key now w))
    unfolding store_alert set_cooldown
    store_alert-Keeps moment event a same at =
        let stored = record (set_cooldown key now w) {
          alerts = a ∷ w.alerts;
          total_alerts = w.total_alerts + 1;
        } in
        if-either Keeps moment.alert_stored (announce entity moment event a stored)
          (set_cooldown key now w)
          (Keeps-same stored (announce entity moment event a stored)
            (announce-alerts moment event a stored) (add_alert-Keeps a same at))
          set_cooldown-Keeps

    fire-Keeps :
        (moment : Moment) (event : Event) (match : Match) (o : Option Severity)
        → key ≡ (match.rule_id, entity event.hostname event.pid)
        → now ≡ moment.now
        → Keeps (fire entity moment event match o (set_cooldown key now w)).0
    unfolding fire new_alert
    fire-Keeps moment event match none same at = set_cooldown-Keeps
    fire-Keeps moment event match (some severity) same at =
        store_alert-Keeps moment event (new_alert entity moment severity match event) (sym same)
          (sym at)

  create_alert-Keeps :
      (moment : Moment) (event : Event) (match : Match) (w : Worker)
      → Keeps w
      → Keeps (create_alert entity moment event match w).0
  unfolding create_alert set_cooldown
  create_alert-Keeps moment event match w h =
      let key : Key = (match.rule_id, entity event.hostname event.pid) in
      let due = last_fired (lookup text_pair_dec key w.alert_cooldowns) + alert_cooldown in
      elim (Bool-cases (ltb moment.now due)) [
        | inl soon ↦ rw soon h
        | inr late ↦ rw late (
            fire-Keeps key moment.now w (ground arith) h moment event match (alert_severity match)
              refl refl)
      ]

  handle_match-Keeps :
      (moment : Moment) (event : Event) (match : Match) (w : Worker)
      → Keeps w
      → Keeps (handle_match entity moment event match w).0
  unfolding handle_match send
  handle_match-Keeps moment event match w h =
      let P = λ (r : Worker × Bool). Keeps r.0 in
      if-either P (not moment.match_published) (w, false) _ h
        (if-either P _ _ _ (create_alert-Keeps moment event match _ h) h)

  handle_matches-Keeps :
      (event : Event) (ms : List (Match × Moment)) (w : Worker)
      → Keeps w
      → Keeps (handle_matches entity event ms w)
  unfolding handle_matches
  handle_matches-Keeps event [] w h = h
  handle_matches-Keeps event ((match, moment) ∷ rest) w h =
      let k = handle_match-Keeps moment event match w h in
      if-either Keeps (handle_match entity moment event match w).1 _ _ k
        (handle_matches-Keeps event rest (handle_match entity moment event match w).0 k)

  run_events-Keeps :
      (is : List (Input entity)) (w : Worker) → Keeps w → Keeps (run_events entity is w)
  unfolding run_events process_event
  run_events-Keeps [] w h = h
  run_events-Keeps (unparsed ∷ is) w h = run_events-Keeps is w h
  run_events-Keeps (raised event ∷ is) w h = run_events-Keeps is _ h
  run_events-Keeps (evaluated event ms ∷ is) w h =
      run_events-Keeps is _ (handle_matches-Keeps event ms _ h)

  -- Whatever events a fresh worker takes, and whichever of its calls fail: two alerts of one
  -- rule and one entity are at least a cooldown of 60 seconds apart.
  pub run_events-IsApart :
      (is : List (Input entity)) → IsApart (run_events entity is fresh_worker).alerts
  run_events-IsApart is = (run_events-Keeps is fresh_worker (tt, tt)).1

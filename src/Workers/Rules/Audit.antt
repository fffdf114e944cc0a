-- ===== src/Workers/Rules/Audit.antt =====
-- Which alerts of server/oseye/workers/rule_worker.py go on to the correlation.
use oseye_plateforme.Prelude.{
  ℕ, ◌+◌, ◌≤◌, ◌≡◌, refl, sym, ap, ◌∙◌, inl, inr, ite, Bool, true, false, not, ◌&&◌, Option, none,
  some, List, [], ◌∷◌, String, arith, ◌==◌, Bool-cases, if-either, All-mono, str_dec, any, All,
}
use oseye_plateforme.Workers.Rules.{
  Match, Event, Alert, Message, rule_match, alert_created, enrichment, Moment, Worker,
  parse_severity, cap_severity, is_surveillance, severity_for, alert_severity, send, new_alert,
  send_addresses, announce, store_alert, fire, create_alert, handle_match, handle_matches, Input,
  unparsed, raised, evaluated, process_event, run_events, fresh_worker,
}
use oseye_plateforme.Correlation.{Severity, low, medium, high, critical, severity_order}

-- An alert that may be acted on.
abbrev pub is_live : ℕ → Alert → Bool
is_live id a = a.alert_id == id && not (is_surveillance a.rule_type)

-- A message about an alert is about a stored one that may be acted on.
abbrev pub IsBacked : List Alert → Message → Type 0
IsBacked alerts (rule_match match event) = Unit
IsBacked alerts (alert_created id) = any (is_live id) alerts ≡ true
IsBacked alerts (enrichment id ips) = any (is_live id) alerts ≡ true

-- An alert of a surveillance rule is of medium severity at most.
abbrev pub IsCapped : Alert → Type 0
IsCapped a = is_surveillance a.rule_type ≡ true → severity_order a.severity ≤ severity_order medium

abbrev pub IsAudited : Worker → Type 0
IsAudited w = All IsCapped w.alerts × All (IsBacked w.alerts) w.sent

cap_severity-le : (s : Severity) → severity_order (cap_severity s) ≤ severity_order medium
unfolding cap_severity
cap_severity-le low = omega arith
cap_severity-le medium = omega arith
cap_severity-le high = omega arith
cap_severity-le critical = omega arith

severity_for-capped :
    (o : Option Severity) (s : Severity)
    → severity_for true o ≡ some s
    → severity_order s ≤ severity_order medium
unfolding severity_for
severity_for-capped none s e = cc
severity_for-capped (some r) s e =
    let same : cap_severity r ≡ s = cc in rw (← same) (cap_severity-le r)

alert_severity-capped :
    (match : Match) (s : Severity)
    → alert_severity match ≡ some s
    → is_surveillance match.rule_type ≡ true
    → severity_order s ≤ severity_order medium
unfolding alert_severity
alert_severity-capped match s e h =
    let parsed = parse_severity (ite (str_dec match.severity "info") "low" match.severity) in
    severity_for-capped parsed s (ap (λ b. severity_for b parsed) (sym h) ∙ e)

IsBacked-cons :
    (a : Alert) (alerts : List Alert) (m : Message) → IsBacked alerts m → IsBacked (a ∷ alerts) m
IsBacked-cons a alerts (rule_match match event) h = tt
IsBacked-cons a alerts (alert_created id) h = ground arith
IsBacked-cons a alerts (enrichment id ips) h = ground arith

send-IsAudited :
    (published : Bool) (m : Message) (w : Worker)
    → IsBacked w.alerts m
    → IsAudited w
    → IsAudited (send published m w)
unfolding send
send-IsAudited published m w b h =
    if-either IsAudited published (record w { sent = m ∷ w.sent }) w (h.0, (b, h.1)) h

module _ (entity : String → ℕ → String) where
  send_addresses-IsAudited :
      (published : Bool) (id : ℕ) (ips : List String) (w : Worker)
      → any (is_live id) w.alerts ≡ true
      → IsAudited w
      → IsAudited (send_addresses entity published id ips w)
  unfolding send_addresses
  send_addresses-IsAudited published id [] w live h = h
  send_addresses-IsAudited published id (ip ∷ ips) w live h =
      send-IsAudited published (enrichment id (ip ∷ ips)) w live h

  send-alerts :
      (published : Bool) (m : Message) (w : Worker) → (send published m w).alerts ≡ w.alerts
  unfolding send
  send-alerts published m w = ground arith

  announce-IsAudited :
      (moment : Moment) (event : Event) (a : Alert) (w : Worker)
      → (is_surveillance a.rule_type ≡ false → any (is_live a.alert_id) w.alerts ≡ true)
      → IsAudited w
      → IsAudited (announce entity moment event a w)
  unfolding announce
  announce-IsAudited moment event a w live h = elim (Bool-cases (is_surveillance a.rule_type)) [
    | inl audit ↦ rw audit h
    | inr acts ↦
        let m = alert_created a.alert_id in
        rw acts (
          send_addresses-IsAudited moment.enrichment_published a.alert_id _
            (send moment.alert_published m w)
            (rw (send-alerts moment.alert_published m w) (live acts))
            (send-IsAudited moment.alert_published m w (live acts) h))
  ]

  store_alert-IsAudited :
      (moment : Moment) (event : Event) (a : Alert) (w : Worker)
      → IsCapped a
      → IsAudited w
      → IsAudited (store_alert entity moment event a w)
  unfolding store_alert
  store_alert-IsAudited moment event a w capped h =
      let stored = record w { alerts = a ∷ w.alerts; total_alerts = w.total_alerts + 1 } in
      if-either IsAudited moment.alert_stored (announce entity moment event a stored) w
        (announce-IsAudited moment event a stored (λ acts. ground arith)
          ((capped, h.0), All-mono _ _ (IsBacked-cons a w.alerts) w.sent h.1))
        h

  fire-IsAudited :
      (moment : Moment) (event : Event) (match : Match) (o : Option Severity) (w : Worker)
      → alert_severity match ≡ o
      → IsAudited w
      → IsAudited (fire entity moment event match o w).0
  unfolding fire new_alert
  fire-IsAudited moment event match none w e h = h
  fire-IsAudited moment event match (some s) w e h =
      store_alert-IsAudited moment event (new_alert entity moment s match event) w
        (alert_severity-capped match s e) h

  create_alert-IsAudited :
      (moment : Moment) (event : Event) (match : Match) (w : Worker)
      → IsAudited w
      → IsAudited (create_alert entity moment event match w).0
  unfolding create_alert
  create_alert-IsAudited moment event match w h =
      if-either (λ (r : Worker × Bool). IsAudited r.0) _ (w, false) _ h
        (fire-IsAudited moment event match (alert_severity match) _ refl h)

  handle_match-IsAudited :
      (moment : Moment) (event : Event) (match : Match) (w : Worker)
      → IsAudited w
      → IsAudited (handle_match entity moment event match w).0
  unfolding handle_match
  handle_match-IsAudited moment event match w h =
      let P = λ (r : Worker × Bool). IsAudited r.0 in
      let sent = send-IsAudited true (rule_match match event) w tt h in
      if-either P (not moment.match_published) (w, false) _ h
        (if-either P _ _ _ (create_alert-IsAudited moment event match _ sent) sent)

  handle_matches-IsAudited :
      (event : Event) (ms : List (Match × Moment)) (w : Worker)
      → IsAudited w
      → IsAudited (handle_matches entity event ms w)
  unfolding handle_matches
  handle_matches-IsAudited event [] w h = h
  handle_matches-IsAudited event ((match, moment) ∷ rest) w h =
      let k = handle_match-IsAudited moment event match w h in
      if-either IsAudited (handle_match entity moment event match w).1 _ _ k
        (handle_matches-IsAudited event rest (handle_match entity moment event match w).0 k)

  run_events_from :
      (is : List (Input entity)) (w : Worker) → IsAudited w → IsAudited (run_events entity is w)
  unfolding run_events process_event
  run_events_from [] w h = h
  run_events_from (unparsed ∷ is) w h = run_events_from is w h
  run_events_from (raised event ∷ is) w h = run_events_from is _ h
  run_events_from (evaluated event ms ∷ is) w h =
      run_events_from is _ (handle_matches-IsAudited event ms _ h)

  -- Whatever events a fresh worker takes, and whichever of its calls fail: an alert of a
  -- surveillance rule is of medium severity at most, and every message about a new alert or its
  -- addresses names the identifier of a stored alert of another rule type.
  pub run_events-IsAudited :
      (is : List (Input entity)) → IsAudited (run_events entity is fresh_worker)
  run_events-IsAudited is = run_events_from is fresh_worker (tt, tt)

-- ===== src/RuleEngine/Temporal/Windows.antt =====
-- Pruning and counting in the windows of server/oseye/rule_engine/evaluator.py.
use oseye_plateforme.Prelude.{
  ℕ, ◌+◌, ◌*◌, ◌%◌, ◌≤◌, ◌<◌, ◌≡◌, refl, ap, ◌∙◌, inl, inr, Bool, true, false, Option, some, List,
  [], ◌∷◌, ◌++◌, String, arith, ◌==◌, Bool-cases, str_dec, length, keep, Dict, lookup,
  lookup-insert_self, push_room,
}
use oseye_plateforme.RuleEngine.Temporal.{
  Store, prune, is_stale, purge_stale_windows, window_of, put_window, append_event, record_event,
  count_matches, count_events, max_window_entries, max_ttl, purge_period,
}

module _ {E : Type 0} (now : ℕ) where
  prune-append :
      (age : ℕ) (e : E) (w : List (ℕ × E))
      → prune now age (w ++ (now, e) ∷ []) ≡ prune now age w ++ (now, e) ∷ []
  unfolding prune
  prune-append age e [] = ground arith
  prune-append age e ((ts, x) ∷ w) = ground (arith, prune-append age e w)

  stale-append :
      (age : ℕ) (e : E) (w : List (ℕ × E)) → is_stale now age (w ++ (now, e) ∷ []) ≡ false
  stale-append age e [] = ground arith
  stale-append age e ((ts, x) ∷ w) = ground (arith, stale-append age e w)

  -- Dropping what is older than one age changes no count over a smaller or equal age.
  pub count_matches-prune :
      (age older : ℕ) (filter : E → Option Bool) (w : List (ℕ × E))
      → age ≤ older
      → count_matches now age filter (prune now older w) ≡ count_matches now age filter w
  unfolding prune count_matches
  count_matches-prune age older filter [] h = refl
  count_matches-prune age older filter ((ts, x) ∷ w) h =
      ground (arith, count_matches-prune age older filter w h)

  pub count_matches-append :
      (age : ℕ) (filter : E → Option Bool) (e : E) (w : List (ℕ × E))
      → filter e ≡ some true
      → count_matches now age filter (w ++ (now, e) ∷ []) ≡ count_matches now age filter w + 1
  unfolding count_matches
  count_matches-append age filter e [] h = rw h (ground arith)
  count_matches-append age filter e ((ts, x) ∷ w) h =
      omega (arith, count_matches-append age filter e w h)

  lookup-keep :
      (p : String × List (ℕ × E) → Bool) (k : String) (w : List (ℕ × E))
      (d : Dict String (List (ℕ × E)))
      → lookup str_dec k d ≡ some w
      → p (k, w) ≡ true
      → lookup str_dec k (keep p d) ≡ some w
  lookup-keep p k w [] h t = cc
  lookup-keep p k w ((j, x) ∷ d) h t = ground (arith, lookup-keep p k w d)

  module _ (second : ℕ) (key : String) (event : E) (s : Store E) where
    -- The window of the key after the event is recorded.
    abbrev grown : List (ℕ × E)
    grown = prune now (max_ttl * second) (window_of second key s) ++ (now, event) ∷ []

    lookup-put_window :
        (w : List (ℕ × E)) (x : ℕ × E) (d : Dict String (List (ℕ × E)))
        → lookup str_dec key (put_window key (w ++ x ∷ []) d) ≡ some (w ++ x ∷ [])
    unfolding put_window
    lookup-put_window [] x d = lookup-insert_self str_dec key (x ∷ []) d
    lookup-put_window (y ∷ w) x d = lookup-insert_self str_dec key (y ∷ (w ++ x ∷ [])) d

    -- Below the cap, recording an event leaves its key with the recent part of its window and the
    -- event at the end.
    lookup-append_event :
        length (window_of second key s) < max_window_entries
        → lookup str_dec key (append_event second now key event s).windows ≡ some grown
    unfolding append_event
    lookup-append_event room =
        rw
          (
            push_room max_window_entries (now, event) (window_of second key s) room,
            prune-append (max_ttl * second) event (window_of second key s),
          )
          (lookup-put_window (prune now (max_ttl * second) (window_of second key s)) (now, event)
            s.windows)

    -- The purge spares the window, since its last event is new.
    lookup-record_event :
        length (window_of second key s) < max_window_entries
        → lookup str_dec key (record_event second now key event s).windows ≡ some grown
    unfolding record_event purge_stale_windows
    lookup-record_event room =
        let s' = append_event second now key event s in
        elim (Bool-cases (s'.record_count % purge_period == 0)) [
          | inr later ↦ rw later (lookup-append_event room)
          | inl due ↦ rw due (
              lookup-keep _ key grown s'.windows (lookup-append_event room) (
                rw (
                  stale-append (max_ttl * second) event
                    (prune now (max_ttl * second) (window_of second key s)))))
        ]

    -- After an event that matches is recorded, the count over a timeframe of at most the hour that
    -- windows are kept is the number of matches that the window held within the timeframe, and one.
    pub count_events-record_event :
        (filter : E → Option Bool) (seconds : ℕ)
        → length (window_of second key s) < max_window_entries
        → seconds ≤ max_ttl
        → filter event ≡ some true
        → (count_events second now key filter seconds (record_event second now key event s)).1
          ≡ count_matches now (seconds * second) filter (window_of second key s) + 1
    unfolding count_events
    count_events-record_event filter seconds room fits hit =
        let age = seconds * second in
        rw (lookup-record_event room, count_events)
          (count_matches-prune age age filter grown (omega arith)
            ∙ count_matches-append age filter event _ hit
            ∙ ap (λ (n : ℕ). n + 1)
                (count_matches-prune age (max_ttl * second) filter (window_of second key s)
                  (grind arith)))

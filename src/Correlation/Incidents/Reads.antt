-- ===== src/Correlation/Incidents/Reads.antt =====
-- What server/oseye/storage/repositories/incidents.py hands to the correlation engine, and the
-- tables after any requests.
use oseye_plateforme.Prelude.{
  ℕ, zero, suc, ◌-◌, ◌≤◌, ◌≡◌, refl, sym, ap, ◌∙◌, Bool, some, List, [], ◌∷◌, map, String, arith,
  ◌==◌, if◌then◌else◌, if-either, take, keep, All, Dict, lookup, ℕ_discrete,
}
use mathlib.Core.Path.{subst}
use oseye_plateforme.Prelude.Floats.{Floats}
use oseye_plateforme.Correlation.{
  Severity, Alert, event_of, Incident, Processed, ignored, linked, created, failed, Linker,
  process_alert,
}
use oseye_plateforme.Correlation.Incidents.{
  IncidentRow, Tables, to_domain, create, is_candidate, add_newest, newest_first, max_open,
  find_open, or_same, Works, write_linked, write, Request, correlates, closes_stale, serve,
  serve_all, no_incidents,
}
use oseye_plateforme.Correlation.Candidates.{linked-candidate, created_new}
use oseye_plateforme.Correlation.Incidents.Consistent.{Agrees, IsConsistent}
use oseye_plateforme.Correlation.Incidents.Columns.{entries-lookup}
use oseye_plateforme.Correlation.Incidents.Served.{Stands}
use oseye_plateforme.Correlation.Incidents.Sequence.{
  added-IsConsistent, write_linked-IsConsistent, create-IsConsistent, close_rows-IsConsistent,
}

module _ {A : Type 0} (P : A → Type 0) where
  All-take : (n : ℕ) (xs : List A) → All P xs → All P (take n xs)
  All-take zero xs h = tt
  All-take (suc n) [] h = tt
  All-take (suc n) (x ∷ xs) h = (h.0, All-take n xs h.1)

  All-keep : (p : A → Bool) (xs : List A) → All P xs → All P (keep p xs)
  All-keep p [] h = tt
  All-keep p (x ∷ xs) h =
      if-either (All P) (p x) (x ∷ keep p xs) (keep p xs) (h.0, All-keep p xs h.1)
        (All-keep p xs h.1)

module _ (P : ℕ × IncidentRow → Type 0) where
  add_newest-All :
      (e : ℕ × IncidentRow) (es : Dict ℕ IncidentRow) → P e → All P es → All P (add_newest e es)
  unfolding add_newest
  add_newest-All e [] p h = (p, tt)
  add_newest-All e (x ∷ xs) p h =
      if-either (All P) _ (e ∷ x ∷ xs) (x ∷ add_newest e xs) (p, h) (h.0, add_newest-All e xs p h.1)

  newest_first-All : (es : Dict ℕ IncidentRow) → All P es → All P (newest_first es)
  unfolding newest_first
  newest_first-All [] h = tt
  newest_first-All (e ∷ es) h = add_newest-All e (newest_first es) h.0 (newest_first-All es h.1)

-- An entry of the table of incidents.
abbrev Entry : Tables → ℕ × IncidentRow → Type 0
Entry t e = (lookup ℕ_discrete e.0 t.incidents ≡ some e.1) × Agrees t.incident_alerts e

entries : (t : Tables) → IsConsistent t → All (Entry t) t.incidents
entries t h = pair_up t.incidents (entries-lookup t.incidents h.one_row) h.agree
  where
    pair_up :
        (d : Dict ℕ IncidentRow)
        → All (λ (e : ℕ × IncidentRow). lookup ℕ_discrete e.0 t.incidents ≡ some e.1) d
        → All (Agrees t.incident_alerts) d
        → All (Entry t) d
    pair_up [] p q = tt
    pair_up (e ∷ d) p q = ((p.0, q.0), pair_up d p.1 q.1)

-- A candidate stands in the tables, and has an alert.
abbrev IsRead : Tables → Incident → Type 0
IsRead t i = Stands t i × (1 ≤ i.alert_count)

Entry-IsRead :
    (t : Tables) (e : ℕ × IncidentRow) → Entry t e → IsRead t (to_domain t.incident_alerts e.1)
unfolding to_domain
Entry-IsRead t e (found, agrees) = (
  (e.1, ap (λ id. lookup ℕ_discrete id t.incidents) agrees.own_id ∙ found, refl, refl),
  omega (arith, agrees),
)

All-map-to_domain :
    (t : Tables) (es : Dict ℕ IncidentRow)
    → All (Entry t) es
    → All (IsRead t) (map (λ (e : ℕ × IncidentRow). to_domain t.incident_alerts e.1) es)
All-map-to_domain t [] h = tt
All-map-to_domain t (e ∷ es) h = (Entry-IsRead t e h.0, All-map-to_domain t es h.1)

pub find_open-IsRead :
    (hostname : String) (since : ℕ) (t : Tables)
    → IsConsistent t
    → All (IsRead t) (find_open hostname since t)
unfolding find_open
find_open-IsRead hostname since t h = All-map-to_domain t _ (
    All-take (Entry t) max_open _ (
      newest_first-All (Entry t) _
        (All-keep (Entry t) (is_candidate hostname since) t.incidents (entries t h))))

module _ (f : Floats) (m : Severity) (ls : List (Linker f)) (frame auto_close_after : ℕ) where
  write-IsConsistent :
      (w : Works) (now uuid : ℕ) (a : Alert) (is : List Incident) (t : Tables)
      → IsConsistent t
      → All (IsRead t) is
      → (p : Processed) → process_alert f m ls now uuid frame is a ≡ p
      → IsConsistent (write w a p t)
  unfolding write
  write-IsConsistent w now uuid a is t h reads ignored e = h
  write-IsConsistent w now uuid a is t h reads (linked out) e =
      let (i, (stands, _), made) =
        linked-candidate f (IsRead t) a m ls now uuid frame is out reads e in
      subst (λ (x : Incident). IsConsistent (write_linked w a x t)) (sym made)
        (write_linked-IsConsistent w now a i t h stands)
  write-IsConsistent w now uuid a is t h reads (failed i) e =
      if-either IsConsistent w.adds _ t (added-IsConsistent i.incident_id (event_of a) t h) h
  write-IsConsistent w now uuid a is t h reads (created i) e =
      subst (λ (x : Incident). IsConsistent (if w.creates then or_same (create x t) t else t))
        (sym (created_new f m ls now uuid frame a is i e))
        (if-either IsConsistent w.creates _ t (create-IsConsistent t now uuid frame a h) h)

  serve-IsConsistent :
      (r : Request f m ls frame auto_close_after) (t : Tables)
      → IsConsistent t
      → IsConsistent (serve f m ls frame auto_close_after r t)
  unfolding serve
  serve-IsConsistent (correlates now uuid w a) t h =
      let is = find_open a.hostname (now - frame) t in
      write-IsConsistent w now uuid a is t h (find_open-IsRead a.hostname (now - frame) t h)
        (process_alert f m ls now uuid frame is a) refl
  serve-IsConsistent (closes_stale now) t h =
      if-either IsConsistent (auto_close_after == 0) t _ h
        (close_rows-IsConsistent (now - auto_close_after) t h)

  serve_all-keeps :
      (rs : List (Request f m ls frame auto_close_after)) (t : Tables)
      → IsConsistent t
      → IsConsistent (serve_all f m ls frame auto_close_after rs t)
  unfolding serve_all
  serve_all-keeps [] t h = h
  serve_all-keeps (r ∷ rs) t h =
      serve_all-keeps rs (serve f m ls frame auto_close_after r t) (serve-IsConsistent r t h)

  -- From empty tables, whatever alerts are correlated, whatever stale incidents are closed, and
  -- whichever transactions fail: each incident has one row, under its own identifier, and some
  -- alert; no two rows of alerts have the same alert, and each belongs to an incident that is
  -- there; and the column of alerts of an incident lists those of its rows of alerts, with
  -- their number as its count.
  pub serve_all-IsConsistent :
      (rs : List (Request f m ls frame auto_close_after))
      → IsConsistent (serve_all f m ls frame auto_close_after rs no_incidents)
  serve_all-IsConsistent rs =
      serve_all-keeps rs no_incidents (record { one_row = tt; agree = tt; unique = tt; homes = tt })

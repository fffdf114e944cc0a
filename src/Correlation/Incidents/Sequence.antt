-- ===== src/Correlation/Incidents/Sequence.antt =====
-- The tables of server/oseye/storage/repositories/incidents.py after any requests.
use oseye_plateforme.Prelude.{
  ℕ, ◌≡◌, refl, sym, ap, ◌∙◌, inl, inr, false, not, none, List, [], ◌∷◌, ◌++◌, arith, ◌==◌,
  if◌then◌else◌, Bool-cases, Option-cases, if-either, All-mono, length, All, Dict, lookup, contains,
  IsDict, ℕ_discrete,
}
use oseye_plateforme.Correlation.{
  Alert, IncidentEvent, event_of, Incident, link_alert, new_incident,
}
use oseye_plateforme.Correlation.Incidents.{
  IncidentRow, IncidentAlertRow, Tables, to_row, is_taken, add_rows, create, add_alert, close_row,
  close_rows, or_same, Works, write_linked,
}
use oseye_plateforme.Correlation.Incidents.Consistent.{
  Agrees, IsConsistent, put_alert-IsConsistent, homeless,
}
use oseye_plateforme.Correlation.Incidents.Columns.{ids_of, ids_of-append}
use oseye_plateforme.Correlation.Incidents.Served.{
  add_alert-Added, Added-IsConsistent, Stands, updated-IsConsistent,
}

-- `add_alert` of any incident
pub added-IsConsistent :
    (id : ℕ) (ev : IncidentEvent) (t : Tables)
    → IsConsistent t
    → IsConsistent (or_same (add_alert id ev t) t)
added-IsConsistent id ev t h = elim (Option-cases (add_alert id ev t)) [
  | inl raised ↦ rw raised h
  | inr (t', e) ↦
      let (row, done) = add_alert-Added id ev t t' e in
      rw e (Added-IsConsistent id ev t t' row h done)
]

pub write_linked-IsConsistent :
    (w : Works) (now : ℕ) (a : Alert) (i : Incident) (t : Tables)
    → IsConsistent t
    → Stands t i
    → IsConsistent (write_linked w a (link_alert now a i) t)
unfolding write_linked link_alert
write_linked-IsConsistent w now a i t h s =
    if-either IsConsistent (not w.adds) t _ h
      (elim (Option-cases (add_alert i.incident_id (event_of a) t)) [
        | inl raised ↦ rw raised h
        | inr (t', e) ↦
            let (kept, done) = updated-IsConsistent now a i t t' h s e in
            rw e (if-either IsConsistent w.updates _ t' done kept)
      ])

-- A new incident with its alert.
created-Agrees :
    (t : Tables) (now uuid frame : ℕ) (a : Alert)
    → IsConsistent t
    → contains ℕ_discrete uuid t.incidents ≡ false
    → Agrees
        (t.incident_alerts ++ record { incident_id = uuid; event = event_of a } ∷ [])
        (uuid, to_row (new_incident now uuid frame a))
unfolding new_incident event_of
created-Agrees t now uuid frame a h fresh =
    let r : IncidentAlertRow = record { incident_id = uuid; event = event_of a } in
    let ids : ids_of uuid (t.incident_alerts ++ r ∷ []) ≡ a.alert_id ∷ [] =
      ids_of-append uuid t.incident_alerts r
      ∙ ap (λ l. l ++ (if uuid == uuid then a.alert_id ∷ [] else []))
          (homeless uuid t.incidents t.incident_alerts fresh h.homes)
      ∙ ground arith in
    record {
      own_id = refl;
      same_ids = sym ids;
      same_count = ap length (sym ids);
      not_empty = omega (arith, ap length ids);
    }

pub create-IsConsistent :
    (t : Tables) (now uuid frame : ℕ) (a : Alert)
    → IsConsistent t
    → IsConsistent (or_same (create (new_incident now uuid frame a) t) t)
unfolding create add_rows new_incident event_of
create-IsConsistent t now uuid frame a h =
    elim (Bool-cases (contains ℕ_discrete uuid t.incidents)) [
      | inl there ↦ rw there h
      | inr fresh ↦ elim (Bool-cases (is_taken a.alert_id t.incident_alerts)) [
        | inl taken ↦ rw (fresh, taken) h
        | inr free ↦
            rw (fresh, free)
              (put_alert-IsConsistent t uuid (event_of a) (to_row (new_incident now uuid frame a)) h
                free (created-Agrees t now uuid frame a h fresh))
      ]
    ]

-- Closing changes the status alone.
close_row-Agrees :
    (alerts : List IncidentAlertRow) (cutoff id : ℕ) (row : IncidentRow)
    → Agrees alerts (id, row)
    → Agrees alerts (id, close_row cutoff row)
unfolding close_row
close_row-Agrees alerts cutoff id row h =
    if-either (λ (r : IncidentRow). Agrees alerts (id, r)) _ (record row { is_open = false }) row
      (record {
        own_id = h.own_id;
        same_ids = h.same_ids;
        same_count = h.same_count;
        not_empty = h.not_empty;
      })
      h

close_rows-agree :
    (alerts : List IncidentAlertRow) (cutoff : ℕ) (rows : Dict ℕ IncidentRow)
    → All (Agrees alerts) rows
    → All (Agrees alerts) (close_rows cutoff rows)
unfolding close_rows
close_rows-agree alerts cutoff [] h = tt
close_rows-agree alerts cutoff ((id, row) ∷ rows) h =
    (close_row-Agrees alerts cutoff id row h.0, close_rows-agree alerts cutoff rows h.1)

close_rows-contains :
    (cutoff id : ℕ) (rows : Dict ℕ IncidentRow)
    → contains ℕ_discrete id (close_rows cutoff rows) ≡ contains ℕ_discrete id rows
unfolding close_rows
close_rows-contains cutoff id [] = refl
close_rows-contains cutoff id ((k, row) ∷ rows) = ground (arith, close_rows-contains cutoff id rows)

close_rows-absent :
    (cutoff id : ℕ) (rows : Dict ℕ IncidentRow)
    → lookup ℕ_discrete id rows ≡ none
    → lookup ℕ_discrete id (close_rows cutoff rows) ≡ none
unfolding close_rows
close_rows-absent cutoff id [] h = refl
close_rows-absent cutoff id ((k, row) ∷ rows) h = ground (arith, close_rows-absent cutoff id rows)

close_rows-IsDict :
    (cutoff : ℕ) (rows : Dict ℕ IncidentRow)
    → IsDict ℕ_discrete rows
    → IsDict ℕ_discrete (close_rows cutoff rows)
unfolding close_rows
close_rows-IsDict cutoff [] h = tt
close_rows-IsDict cutoff ((k, row) ∷ rows) h =
    (close_rows-absent cutoff k rows h.0, close_rows-IsDict cutoff rows h.1)

pub close_rows-IsConsistent :
    (cutoff : ℕ) (t : Tables)
    → IsConsistent t
    → IsConsistent (record t { incidents = close_rows cutoff t.incidents })
close_rows-IsConsistent cutoff t h = record {
  one_row = close_rows-IsDict cutoff t.incidents h.one_row;
  agree = close_rows-agree t.incident_alerts cutoff t.incidents h.agree;
  unique = h.unique;
  homes =
      All-mono _ _
        (λ (r : IncidentAlertRow) k. close_rows-contains cutoff r.incident_id t.incidents ∙ k)
        t.incident_alerts h.homes;
}

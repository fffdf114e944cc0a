-- ===== src/Correlation/Incidents/Consistent.antt =====
-- The two records of the alerts of an incident, in
-- server/oseye/storage/repositories/incidents.py, under server/oseye/correlation/engine.py.
use oseye_plateforme.Prelude.{
  ℕ, ◌+◌, ◌≤◌, ◌≡◌, refl, sym, ap, ◌∙◌, ◌≢◌, true, false, some, List, [], ◌∷◌, ◌++◌, arith,
  All-append, All-mono, contains-insert, contains-insert_self, length, length-append, All, Dict,
  lookup, contains, insert, IsDict, insert-IsDict, ℕ_discrete,
}
use mathlib.Core.Path.{subst}
use mathlib.Core.List.{append-nil}
use oseye_plateforme.Correlation.{IncidentEvent, add_alert_id}
use oseye_plateforme.Correlation.Incidents.{IncidentRow, IncidentAlertRow, Tables, is_taken}
use oseye_plateforme.Correlation.Incidents.Columns.{
  All-put, ids_of, ids_of-append, free_ids, add_free, IsUnique, IsUnique-append,
}

-- The columns of a row say what the table of alerts says.
pub record Agrees (alerts : List IncidentAlertRow) (e : ℕ × IncidentRow) : Type 0 where
  pub own_id : e.1.incident.incident_id ≡ e.0
  pub same_ids : e.1.incident.alert_ids ≡ ids_of e.0 alerts
  pub same_count : e.1.incident.alert_count ≡ length (ids_of e.0 alerts)
  pub not_empty : 1 ≤ length (ids_of e.0 alerts)

pub record IsConsistent (t : Tables) : Type 0 where
  pub one_row : IsDict ℕ_discrete t.incidents
  pub agree : All (Agrees t.incident_alerts) t.incidents
  pub unique : IsUnique t.incident_alerts
  pub homes :
      All
        (λ (r : IncidentAlertRow). contains ℕ_discrete r.incident_id t.incidents ≡ true)
        t.incident_alerts

-- An alert of another incident changes nothing.
Agrees-other :
    (alerts : List IncidentAlertRow) (r : IncidentAlertRow) (e : ℕ × IncidentRow)
    → e.0 ≢ r.incident_id
    → Agrees alerts e
    → Agrees (alerts ++ r ∷ []) e
Agrees-other alerts r e other h =
    let same : ids_of e.0 (alerts ++ r ∷ []) ≡ ids_of e.0 alerts =
      ids_of-append e.0 alerts r ∙ ground (arith, append-nil (ids_of e.0 alerts)) in
    record {
      own_id = h.own_id;
      same_ids = h.same_ids ∙ sym same;
      same_count = h.same_count ∙ ap length (sym same);
      not_empty = subst (λ (l : List ℕ). 1 ≤ length l) (sym same) h.not_empty;
    }

-- The row of the incident that gets the alert.
pub Agrees-own :
    (alerts : List IncidentAlertRow) (id : ℕ) (ev : IncidentEvent) (row : IncidentRow)
    → is_taken ev.alert_id alerts ≡ false
    → Agrees alerts (id, row)
    → (add_alert_id ev.alert_id row.incident.alert_ids
        ≡ ids_of id (alerts ++ record { incident_id = id; event = ev } ∷ []))
      × (row.incident.alert_count + 1
          ≡ length (ids_of id (alerts ++ record { incident_id = id; event = ev } ∷ [])))
Agrees-own alerts id ev row free h =
    let grown : ids_of id (alerts ++ record { incident_id = id; event = ev } ∷ [])
        ≡ ids_of id alerts ++ ev.alert_id ∷ [] =
      ids_of-append id alerts (record { incident_id = id; event = ev }) ∙ ground arith in
    (
      ap (add_alert_id ev.alert_id) h.same_ids
          ∙ add_free ev.alert_id (ids_of id alerts) (free_ids ev.alert_id id alerts free)
          ∙ sym grown,
      omega (
        arith,
        h.same_count,
        ap length grown,
        length-append (ids_of id alerts) (ev.alert_id ∷ []),
      ),
    )

-- A row is written and an alert is added to it.
pub put_alert-IsConsistent :
    (t : Tables) (id : ℕ) (ev : IncidentEvent) (row : IncidentRow)
    → IsConsistent t
    → is_taken ev.alert_id t.incident_alerts ≡ false
    → Agrees (t.incident_alerts ++ record { incident_id = id; event = ev } ∷ []) (id, row)
    → IsConsistent (record {
      incidents = insert ℕ_discrete id row t.incidents;
      incident_alerts = t.incident_alerts ++ record { incident_id = id; event = ev } ∷ [];
    })
put_alert-IsConsistent t id ev row h free own =
    let r : IncidentAlertRow = record { incident_id = id; event = ev } in
    let homes =
      All-mono _ _
        (λ (x : IncidentAlertRow) k. contains-insert ℕ_discrete x.incident_id id row t.incidents k)
        t.incident_alerts h.homes in
    record {
      one_row = insert-IsDict ℕ_discrete id row t.incidents h.one_row;
      agree =
          All-put (Agrees t.incident_alerts) (Agrees (t.incident_alerts ++ r ∷ [])) id row
            t.incidents (λ e other k. Agrees-other t.incident_alerts r e other k) own h.one_row
            h.agree;
      unique = IsUnique-append t.incident_alerts r free h.unique;
      homes =
          All-append
            (λ (x : IncidentAlertRow).
              contains ℕ_discrete x.incident_id (insert ℕ_discrete id row t.incidents) ≡ true)
            t.incident_alerts (r ∷ []) homes
            (contains-insert_self ℕ_discrete id row t.incidents, tt);
    }

-- A row is written.
pub put_row-IsConsistent :
    (t : Tables) (id : ℕ) (row : IncidentRow)
    → IsConsistent t
    → Agrees t.incident_alerts (id, row)
    → IsConsistent (record t { incidents = insert ℕ_discrete id row t.incidents })
put_row-IsConsistent t id row h own = record {
  one_row = insert-IsDict ℕ_discrete id row t.incidents h.one_row;
  agree =
      All-put (Agrees t.incident_alerts) (Agrees t.incident_alerts) id row t.incidents
        (λ e other k. k) own h.one_row h.agree;
  unique = h.unique;
  homes =
      All-mono _ _
        (λ (x : IncidentAlertRow) k. contains-insert ℕ_discrete x.incident_id id row t.incidents k)
        t.incident_alerts h.homes;
}

-- The row that a lookup finds.
pub found-Agrees :
    (alerts : List IncidentAlertRow) (id : ℕ) (row : IncidentRow) (rows : Dict ℕ IncidentRow)
    → lookup ℕ_discrete id rows ≡ some row
    → All (Agrees alerts) rows
    → Agrees alerts (id, row)
found-Agrees alerts id row [] e h = cc
found-Agrees alerts id row ((k, r) ∷ rows) e h = elim (ℕ_discrete id k) [
  | yes same ↦ subst (Agrees alerts) (ground arith) h.0
  | no other ↦ found-Agrees alerts id row rows (ground arith) h.1
]

-- An alert without a home: no row lists an alert of an incident that is not there.
pub homeless :
    (id : ℕ) (rows : Dict ℕ IncidentRow) (alerts : List IncidentAlertRow)
    → contains ℕ_discrete id rows ≡ false
    → All (λ (r : IncidentAlertRow). contains ℕ_discrete r.incident_id rows ≡ true) alerts
    → ids_of id alerts ≡ []
homeless id rows [] fresh h = refl
homeless id rows (r ∷ rs) fresh h = elim (ℕ_discrete r.incident_id id) [
  | yes same ↦
      let there : contains ℕ_discrete id rows ≡ true =
        ap (λ i. contains ℕ_discrete i rows) (sym same) ∙ h.0 in
      cc
  | no other ↦ ground (arith, homeless id rows rs fresh h.1)
]

-- ===== src/Correlation/Incidents/Served.antt =====
-- Every request keeps the tables of server/oseye/storage/repositories/incidents.py consistent.
use oseye_plateforme.Prelude.{
  ℕ, ◌+◌, ◌≡◌, refl, sym, ap, ◌∙◌, inl, inr, false, Option, some, List, [], ◌∷◌, ◌++◌, arith,
  Bool-cases, Option-cases, length, lookup, insert, lookup-insert_self, ℕ_discrete,
}
use mathlib.Core.Path.{subst}
use oseye_plateforme.Correlation.{
  Alert, IncidentEvent, event_of, Incident, link_alert, add_alert_id,
}
use oseye_plateforme.Correlation.Incidents.{
  IncidentRow, IncidentAlertRow, Tables, is_taken, updated, update, with_alert, add_alert, or_same,
}
use oseye_plateforme.Correlation.Incidents.Consistent.{
  Agrees, IsConsistent, Agrees-own, put_alert-IsConsistent, put_row-IsConsistent, found-Agrees,
}

-- What `add_alert` did, where it did not raise.
pub record Added (id : ℕ) (ev : IncidentEvent) (t t' : Tables) (row : IncidentRow) : Type 0 where
  pub free : is_taken ev.alert_id t.incident_alerts ≡ false
  pub found : lookup ℕ_discrete id t.incidents ≡ some row
  pub made : t' ≡ record {
    incidents = insert ℕ_discrete id (with_alert ev.alert_id row) t.incidents;
    incident_alerts = t.incident_alerts ++ record { incident_id = id; event = ev } ∷ [];
  }

pub add_alert-Added :
    (id : ℕ) (ev : IncidentEvent) (t t' : Tables)
    → add_alert id ev t ≡ some t'
    → (row : IncidentRow) × Added id ev t t' row
unfolding add_alert
add_alert-Added id ev t t' e = elim (Bool-cases (is_taken ev.alert_id t.incident_alerts)) [
  | inl taken ↦ absurd (ground arith)
  | inr free ↦ elim (Option-cases (lookup ℕ_discrete id t.incidents)) [
    | inl missing ↦ absurd (ground arith)
    | inr (row, found) ↦ (row, record { free = free; found = found; made = ground arith })
  ]
]

with_alert-Agrees :
    (alerts : List IncidentAlertRow) (id : ℕ) (ev : IncidentEvent) (row : IncidentRow)
    → is_taken ev.alert_id alerts ≡ false
    → Agrees alerts (id, row)
    → Agrees
        (alerts ++ record { incident_id = id; event = ev } ∷ [])
        (id, with_alert ev.alert_id row)
unfolding with_alert
with_alert-Agrees alerts id ev row free h =
    let (ids, count) = Agrees-own alerts id ev row free h in
    record {
      own_id = h.own_id;
      same_ids = ids;
      same_count = ap length ids;
      not_empty = omega (arith, count);
    }

pub Added-IsConsistent :
    (id : ℕ) (ev : IncidentEvent) (t t' : Tables) (row : IncidentRow)
    → IsConsistent t
    → Added id ev t t' row
    → IsConsistent t'
Added-IsConsistent id ev t t' row h a = subst IsConsistent (sym a.made) (
    put_alert-IsConsistent t id ev (with_alert ev.alert_id row) h a.free (
      with_alert-Agrees t.incident_alerts id ev row a.free
        (found-Agrees t.incident_alerts id row t.incidents a.found h.agree)))

-- An incident as it was read from the tables.
abbrev pub Stands : Tables → Incident → Type 0
Stands t i =
    (row : IncidentRow) × (lookup ℕ_discrete i.incident_id t.incidents ≡ some row)
    × (i.alert_ids ≡ row.incident.alert_ids)
    × (i.alert_count ≡ row.incident.alert_count)

updated-Agrees :
    (t : Tables) (now : ℕ) (a : Alert) (i : Incident) (row any_row : IncidentRow)
    → is_taken a.alert_id t.incident_alerts ≡ false
    → Agrees t.incident_alerts (i.incident_id, row)
    → i.alert_ids ≡ row.incident.alert_ids
    → i.alert_count ≡ row.incident.alert_count
    → Agrees
        (t.incident_alerts ++ record { incident_id = i.incident_id; event = event_of a } ∷ [])
        (i.incident_id, updated (link_alert now a i) any_row)
unfolding updated link_alert event_of
updated-Agrees t now a i row any_row free h ids count =
    let (grown, more) = Agrees-own t.incident_alerts i.incident_id (event_of a) row free h in
    record {
      own_id = refl;
      same_ids = ap (add_alert_id a.alert_id) ids ∙ grown;
      same_count = ap (λ (n : ℕ). n + 1) count ∙ more;
      not_empty = omega (arith, more);
    }

-- `update`, where the row is there.
update-found :
    (i : Incident) (t : Tables) (row : IncidentRow)
    → lookup ℕ_discrete i.incident_id t.incidents ≡ some row
    → update i t
      ≡ some (record t { incidents = insert ℕ_discrete i.incident_id (updated i row) t.incidents })
unfolding update
update-found i t row e = rw (e, update) refl

-- The update after the alert was added.
pub updated-IsConsistent :
    (now : ℕ) (a : Alert) (i : Incident) (t t' : Tables)
    → IsConsistent t
    → Stands t i
    → add_alert i.incident_id (event_of a) t ≡ some t'
    → IsConsistent t' × IsConsistent (or_same (update (link_alert now a i) t') t')
unfolding link_alert event_of
updated-IsConsistent now a i t t' h (row, found, ids, count) e =
    let (r, done) = add_alert-Added i.incident_id (event_of a) t t' e in
    let kept = Added-IsConsistent i.incident_id (event_of a) t t' r h done in
    let next = with_alert a.alert_id r in
    let there : lookup ℕ_discrete i.incident_id t'.incidents ≡ some next =
      ap (λ (x : Tables). lookup ℕ_discrete i.incident_id x.incidents) done.made
      ∙ lookup-insert_self ℕ_discrete i.incident_id next t.incidents in
    let own =
      updated-Agrees t now a i row next done.free
        (found-Agrees t.incident_alerts i.incident_id row t.incidents found h.agree) ids count in
    let alerts : t'.incident_alerts
        ≡ t.incident_alerts ++ record { incident_id = i.incident_id; event = event_of a } ∷ [] =
      ap (λ (x : Tables). x.incident_alerts) done.made in
    (
      kept,
      subst (λ (o : Option Tables). IsConsistent (or_same o t'))
          (sym (update-found (link_alert now a i) t' next there))
          (put_row-IsConsistent t' i.incident_id (updated (link_alert now a i) next) kept (
            subst
              (λ (l : List IncidentAlertRow).
                Agrees l (i.incident_id, updated (link_alert now a i) next))
              (sym alerts) own)),
    )

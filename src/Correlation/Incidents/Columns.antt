-- ===== src/Correlation/Incidents/Columns.antt =====
-- The list of alerts of an incident and the table incident_alerts, in
-- server/oseye/storage/repositories/incidents.py.
use oseye_plateforme.Prelude.{
  ℕ, ◌≡◌, refl, sym, ap, ◌∙◌, ◌≢◌, ite, false, ◌||◌, none, some, List, [], ◌∷◌, ◌++◌, map, arith,
  ◌==◌, if◌then◌else◌, All-mono, any, All, Dict, lookup, insert, IsDict, ℕ_discrete,
}
use oseye_plateforme.Correlation.{add_alert_id}
use oseye_plateforme.Correlation.Incidents.{IncidentAlertRow, load_alerts, is_taken}

module _ {V : Type 0} where
  -- Every entry of a dictionary is found under its key.
  entry_in_tail :
      (k : ℕ) (v : V) (d : Dict ℕ V) (e : ℕ × V)
      → lookup ℕ_discrete k d ≡ none
      → lookup ℕ_discrete e.0 d ≡ some e.1
      → lookup ℕ_discrete e.0 ((k, v) ∷ d) ≡ some e.1
  entry_in_tail k v d e new found = elim (ℕ_discrete e.0 k) [
    | yes same ↦
        let gone : lookup ℕ_discrete e.0 d ≡ none = ap (λ x. lookup ℕ_discrete x d) same ∙ new in cc
    | no other ↦ ground arith
  ]

  pub entries-lookup :
      (d : Dict ℕ V)
      → IsDict ℕ_discrete d
      → All (λ (e : ℕ × V). lookup ℕ_discrete e.0 d ≡ some e.1) d
  entries-lookup [] h = tt
  entries-lookup ((k, v) ∷ d) h = (
    ground arith,
    All-mono _ _ (λ e found. entry_in_tail k v d e h.0 found) d (entries-lookup d h.1),
  )

  absent_keys :
      (k : ℕ) (d : Dict ℕ V) → lookup ℕ_discrete k d ≡ none → All (λ (e : ℕ × V). e.0 ≢ k) d
  absent_keys k [] h = tt
  absent_keys k ((j, v) ∷ d) h = ((λ same. ground arith), absent_keys k d (ground arith))

  both : (P Q : ℕ × V → Type 0) (d : Dict ℕ V) → All P d → All Q d → All (λ e. P e × Q e) d
  both P Q [] p q = tt
  both P Q (e ∷ d) p q = ((p.0, q.0), both P Q d p.1 q.1)

  -- A write, and a property that it changes at the other keys too.
  pub All-put :
      (P Q : ℕ × V → Type 0) (k : ℕ) (v : V) (d : Dict ℕ V)
      → ((e : ℕ × V) → e.0 ≢ k → P e → Q e)
      → Q (k, v)
      → IsDict ℕ_discrete d
      → All P d
      → All Q (insert ℕ_discrete k v d)
  All-put P Q k v [] change new h all_p = (new, tt)
  All-put P Q k v ((j, u) ∷ d) change new h all_p =
      elim (ℕ_discrete k j)
        as (λ t. All Q (ite t ((k, v) ∷ d) ((j, u) ∷ insert ℕ_discrete k v d))) [
          | yes same ↦ (
            new,
            All-mono _ _ (λ e (n, p). change e n p) d
                (both (λ (e : ℕ × V). e.0 ≢ k) P d
                  (absent_keys k d (ap (λ x. lookup ℕ_discrete x d) same ∙ h.0)) all_p.1),
          )
          | no other ↦
              (change (j, u) (λ e. other (sym e)) all_p.0, All-put P Q k v d change new h.1 all_p.1)
        ]

-- The alerts that the table lists for an incident, in their order.
abbrev pub ids_of : ℕ → List IncidentAlertRow → List ℕ
ids_of id alerts = map (λ r. r.event.alert_id) (load_alerts id alerts)

pub ids_of-append :
    (id : ℕ) (alerts : List IncidentAlertRow) (r : IncidentAlertRow)
    → ids_of id (alerts ++ r ∷ [])
      ≡ ids_of id alerts ++ (if r.incident_id == id then r.event.alert_id ∷ [] else [])
ids_of-append id [] r = ground arith
ids_of-append id (x ∷ xs) r = ground (arith, ids_of-append id xs r)

pub free_ids :
    (a id : ℕ) (alerts : List IncidentAlertRow)
    → is_taken a alerts ≡ false
    → any (λ j. j == a) (ids_of id alerts) ≡ false
free_ids a id [] h = refl
free_ids a id (r ∷ rs) h = ground (arith, free_ids a id rs)

pub add_free :
    (a : ℕ) (ids : List ℕ) → any (λ j. j == a) ids ≡ false → add_alert_id a ids ≡ ids ++ a ∷ []
unfolding add_alert_id
add_free a ids h = rw h

-- No alert is listed twice.
abbrev pub IsUnique : List IncidentAlertRow → Type 0
IsUnique [] = Unit
IsUnique (r ∷ rs) = (is_taken r.event.alert_id rs ≡ false) × IsUnique rs

is_taken-append :
    (a : ℕ) (alerts : List IncidentAlertRow) (r : IncidentAlertRow)
    → is_taken a (alerts ++ r ∷ []) ≡ (is_taken a alerts || r.event.alert_id == a)
is_taken-append a [] r = ground arith
is_taken-append a (x ∷ xs) r = ground (arith, is_taken-append a xs r)

pub IsUnique-append :
    (alerts : List IncidentAlertRow) (r : IncidentAlertRow)
    → is_taken r.event.alert_id alerts ≡ false
    → IsUnique alerts
    → IsUnique (alerts ++ r ∷ [])
IsUnique-append [] r h u = (refl, tt)
IsUnique-append (x ∷ xs) r h u =
    (is_taken-append x.event.alert_id xs r ∙ ground arith, IsUnique-append xs r (ground arith) u.1)

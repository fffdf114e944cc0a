-- ===== src/Response/Kept.antt =====
-- Every statement of server/oseye/storage/repositories/response_actions.py keeps the course of
-- each action.
use oseye_plateforme.Prelude.{
  ℕ, ◌+◌, ◌≡◌, refl, sym, ◌∙◌, inl, inr, ite, Bool, true, false, not, Option, none, some, List, [],
  ◌∷◌, String, arith, if◌then◌else◌, Bool-cases, Option-cases, str_dec, lookup, insert,
  lookup-insert_self, lookup-insert_ne, ℕ_discrete,
}
use oseye_plateforme.Response.{
  Status, pending_report, executed, failed, rolled_back, same_status, Action, Rows, update_where,
  mark_executed, mark_failed, atomic_mark_rolled_back, Report, apply_report, take_report,
  take_reports, serve_stream, Reply, not_found, unprocessable, conflict, emitted, roll_back,
}
use mathlib.Core.Path.{subst}
use oseye_plateforme.Response.Own.{update_where-other, apply_report-each, ite-either}
use oseye_plateforme.Response.Requests.{sent}

-- The changes of a status: a report ends a pending action, and an executed one is rolled back.
pub data Reaches : Status → Status → Type 0 where
  stays : {s : Status} → Reaches s s
  executes : {s : Status} → Reaches executed s → Reaches pending_report s
  fails : {s : Status} → Reaches failed s → Reaches pending_report s
  undoes : {s : Status} → Reaches rolled_back s → Reaches executed s

Reaches-trans : {r s t : Status} → Reaches r s → Reaches s t → Reaches r t
Reaches-trans stays q = q
Reaches-trans (executes p) q = executes (Reaches-trans p q)
Reaches-trans (fails p) q = fails (Reaches-trans p q)
Reaches-trans (undoes p) q = undoes (Reaches-trans p q)

-- The action of an identifier is still there, for the same agent and with the same command, and
-- its status came about by the changes above.
abbrev pub IsLater : Action → Option Action → Type 0
IsLater a none = ⊥
IsLater a (some b) =
    Reaches a.status b.status
    × ((b.agent_cn ≡ a.agent_cn) × ((b.command_type ≡ a.command_type) × (b.payload ≡ a.payload)))

pub IsLater-refl : (a : Action) (o : Option Action) → o ≡ some a → IsLater a o
IsLater-refl a o e = rw e (stays, (refl, (refl, refl)))

IsLater-trans : (a b : Action) (o : Option Action) → IsLater a (some b) → IsLater b o → IsLater a o
IsLater-trans a b none p q = q
IsLater-trans a b (some c) p q =
    (Reaches-trans p.0 q.0, (q.1.0 ∙ p.1.0, (q.1.1.0 ∙ p.1.1.0, q.1.1.1 ∙ p.1.1.1)))

-- The row of an identifier in later rows.
abbrev pub HasLater : ℕ → Action → Rows → Type 0
HasLater id a rows = IsLater a (lookup ℕ_discrete id rows)

-- A change of the rows that keeps every action's course.
abbrev pub Keeps : Rows → Rows → Type 0
Keeps rows after = (id : ℕ) (a : Action) → lookup ℕ_discrete id rows ≡ some a → HasLater id a after

Keeps-refl : (rows : Rows) → Keeps rows rows
Keeps-refl rows id a e = IsLater-refl a _ e

pub HasLater-trans :
    (rows after : Rows) (id : ℕ) (a : Action)
    → HasLater id a rows
    → Keeps rows after
    → HasLater id a after
HasLater-trans rows after id a p q = elim (Option-cases (lookup ℕ_discrete id rows)) [
  | inl e ↦ absurd (subst (IsLater a) e p)
  | inr (b, e) ↦ IsLater-trans a b _ (subst (IsLater a) e p) (q id b e)
]

pub same_status_sound : (s t : Status) → same_status s t ≡ true → s ≡ t
unfolding same_status
same_status_sound pending_report pending_report e = refl
same_status_sound executed executed e = refl
same_status_sound failed failed e = refl
same_status_sound rolled_back rolled_back e = refl
same_status_sound pending_report executed e = cc
same_status_sound pending_report failed e = cc
same_status_sound pending_report rolled_back e = cc
same_status_sound executed pending_report e = cc
same_status_sound executed failed e = cc
same_status_sound executed rolled_back e = cc
same_status_sound failed pending_report e = cc
same_status_sound failed executed e = cc
same_status_sound failed rolled_back e = cc
same_status_sound rolled_back pending_report e = cc
same_status_sound rolled_back executed e = cc
same_status_sound rolled_back failed e = cc

update_where_fits :
    (from : Status) (change : Action → Action) (id : ℕ) (rows : Rows) (a : Action)
    → lookup ℕ_discrete id rows ≡ some a
    → same_status a.status from ≡ true
    → update_where from change id rows ≡ (insert ℕ_discrete id (change a) rows, true)
unfolding update_where
update_where_fits from change id rows a e fits = ground arith

update_where_differs :
    (from : Status) (change : Action → Action) (id : ℕ) (rows : Rows) (a : Action)
    → lookup ℕ_discrete id rows ≡ some a
    → same_status a.status from ≡ false
    → update_where from change id rows ≡ (rows, false)
unfolding update_where
update_where_differs from change id rows a e differs = ground arith

update_where-Keeps :
    (from : Status) (change : Action → Action) (id : ℕ) (rows : Rows)
    → ((a : Action) → a.status ≡ from → IsLater a (some (change a)))
    → Keeps rows (update_where from change id rows).0
update_where-Keeps from change id rows good asked a e = elim (ℕ_discrete asked id) [
  | no n ↦ IsLater-refl a _ (update_where-other from change id asked rows n ∙ e)
  | yes p ↦ rw (← p) (elim (Bool-cases (same_status a.status from)) [
    | inl fits ↦
        rw
          (
            update_where_fits from change asked rows a e fits,
            lookup-insert_self ℕ_discrete asked (change a) rows,
          )
          (good a (same_status_sound a.status from fits))
    | inr other ↦ rw (update_where_differs from change asked rows a e other) (IsLater-refl a _ e)
  ])
]

mark_executed-Keeps : (now id : ℕ) (rows : Rows) → Keeps rows (mark_executed now id rows).0
unfolding mark_executed
mark_executed-Keeps now id rows =
    update_where-Keeps pending_report _ id rows
      (λ a e. (subst (λ s. Reaches s executed) (sym e) (executes stays), (refl, (refl, refl))))

mark_failed-Keeps :
    (error : String) (id : ℕ) (rows : Rows) → Keeps rows (mark_failed error id rows).0
unfolding mark_failed
mark_failed-Keeps error id rows =
    update_where-Keeps pending_report _ id rows
      (λ a e. (subst (λ s. Reaches s failed) (sym e) (fails stays), (refl, (refl, refl))))

atomic_mark_rolled_back-Keeps :
    (now id : ℕ) (rows : Rows) → Keeps rows (atomic_mark_rolled_back now id rows).0
unfolding atomic_mark_rolled_back
atomic_mark_rolled_back-Keeps now id rows =
    update_where-Keeps executed _ id rows
      (λ a e. (subst (λ s. Reaches s rolled_back) (sym e) (undoes stays), (refl, (refl, refl))))

-- What holds before and after the update holds of what either branch of a round leaves.
take_report-either {κ} :
    (P : Rows × ℕ → Type κ) (rows after : Rows) (n : ℕ) (cn : String) (is_read effect : Bool)
    (o : Option Action)
    → ((n : ℕ) → P (rows, n))
    → ((n : ℕ) → P (after, n))
    → P (
        if not is_read then (rows, n) else elim o [
          | none ↦ (rows, n)
          | some a ↦ ite (str_dec a.agent_cn cn) (if effect then after else rows, n + 1) (rows, n)
        ])
take_report-either P rows after n cn false effect o h k = h n
take_report-either P rows after n cn true effect none h k = h n
take_report-either P rows after n cn true false (some a) h k =
    ite-either P (str_dec a.agent_cn cn) (h (n + 1)) (h n)
take_report-either P rows after n cn true true (some a) h k =
    ite-either P (str_dec a.agent_cn cn) (k (n + 1)) (h n)

take_report-Keeps :
    (now : ℕ) (cn : String) (r : Report) (s : Rows × ℕ) → Keeps s.0 (take_report now cn r s).0
unfolding take_report
take_report-Keeps now cn r (rows, n) =
    take_report-either (λ (s : Rows × ℕ). Keeps rows s.0) rows (apply_report now r rows) n cn
      r.is_read r.takes_effect _ (λ m. Keeps-refl rows)
      (λ m.
        apply_report-each (Keeps rows) now r rows (mark_executed-Keeps now r.command_id rows)
          (mark_failed-Keeps r.error r.command_id rows)
          (atomic_mark_rolled_back-Keeps now r.command_id rows) (Keeps-refl rows))

take_reports-Keeps :
    (now : ℕ) (cn : String) (rs : List Report) (s : Rows × ℕ)
    → Keeps s.0 (take_reports now cn rs s).0
unfolding take_reports
take_reports-Keeps now cn [] s id a e = IsLater-refl a _ e
take_reports-Keeps now cn (r ∷ rs) s id a e =
    HasLater-trans (take_report now cn r s).0 _ id a (take_report-Keeps now cn r s id a e)
      (take_reports-Keeps now cn rs (take_report now cn r s))

pub serve_stream-Keeps :
    (now : ℕ) (rs : List Report) (rows : Rows) (peer : Option String)
    → Keeps rows (serve_stream now rs rows peer).0
unfolding serve_stream
serve_stream-Keeps now rs rows none = Keeps-refl rows
serve_stream-Keeps now rs rows (some cn) = take_reports-Keeps now cn rs (rows, 0)

pub create_action-Keeps :
    (id : ℕ) (new : Action) (rows : Rows) (asked : ℕ) (a : Action)
    → lookup ℕ_discrete asked rows ≡ some a
    → lookup ℕ_discrete id rows ≡ none
    → lookup ℕ_discrete asked (insert ℕ_discrete id new rows) ≡ some a
create_action-Keeps id new rows asked a e fresh =
    lookup-insert_ne ℕ_discrete asked id new rows (λ p. cc) ∙ e

pub roll_back-either {κ} :
    (P : Rows × Reply → Type κ) (rows : Rows) (o : Option Action) (marked : Rows × Bool)
    → ((answer : Reply) → ((n : ℕ) → sent n answer ≡ []) → P (rows, answer))
    → ((a : Action)
        → o ≡ some a
        → marked.1 ≡ true
        → P (marked.0, emitted a.agent_cn a.command_type a.payload))
    → P (elim o [
      | none ↦ (rows, not_found)
      | some a ↦
          ite
            (str_dec a.command_type "KILL_PROCESS")
            (rows, unprocessable)
            (if marked.1
              then (marked.0, emitted a.agent_cn a.command_type a.payload)
              else (rows, conflict))
    ])
roll_back-either P rows none marked h k = h not_found (λ n. refl)
roll_back-either P rows (some a) (after, true) h k =
    ite-either P (str_dec a.command_type "KILL_PROCESS") (h unprocessable (λ n. refl))
      (k a refl refl)
roll_back-either P rows (some a) (after, false) h k =
    ite-either P (str_dec a.command_type "KILL_PROCESS") (h unprocessable (λ n. refl))
      (h conflict (λ n. refl))

pub roll_back-Keeps : (now id : ℕ) (rows : Rows) → Keeps rows (roll_back now id rows).0
unfolding roll_back
roll_back-Keeps now id rows =
    roll_back-either (λ (s : Rows × Reply). Keeps rows s.0) rows _
      (atomic_mark_rolled_back now id rows) (λ answer e. Keeps-refl rows)
      (λ a e f. atomic_mark_rolled_back-Keeps now id rows)

-- ===== src/Response/Once.antt =====
-- The undoing of a response action, the rollback route of
-- server/oseye/api/routers/response_actions.py, is sent once.
use oseye_plateforme.Prelude.{
  ℕ, ◌+◌, ◌≤◌, ◌≡◌, refl, ◌⊎◌, inl, inr, true, Option, none, some, List, [], ◌∷◌, ◌++◌, arith, ◌==◌,
  if◌then◌else◌, Option-cases, lookup, lookup-insert_self, ℕ_discrete,
}
use mathlib.Core.Path.{subst}
use oseye_plateforme.Response.{
  Status, pending_report, executed, rolled_back, same_status, Action, Rows, update_where,
  atomic_mark_rolled_back, Reply, roll_back,
}
use oseye_plateforme.Response.Requests.{
  Request, creates, reports, rolls_back, sent, serve, serve_all,
}
use oseye_plateforme.Response.Kept.{
  Reaches, stays, executes, fails, undoes, IsLater, roll_back-either,
}
use oseye_plateforme.Response.Course.{serve-Keeps}

-- How often an identifier is listed.
unfoldable pub times : ℕ → List ℕ → ℕ
times id [] = 0
times id (j ∷ ids) = (if id == j then 1 else 0) + times id ids

times-append : (id : ℕ) (xs ys : List ℕ) → times id (xs ++ ys) ≡ times id xs + times id ys
unfolding times
times-append id [] ys = omega arith
times-append id (x ∷ xs) ys = ground (arith, times-append id xs ys)

-- The row of an identifier is rolled back.
abbrev IsUndone : Option Action → Type 0
IsUndone none = ⊥
IsUndone (some a) = a.status ≡ rolled_back

stays_undone : (r s : Status) → r ≡ rolled_back → Reaches r s → s ≡ rolled_back
stays_undone r s e stays = e
stays_undone pending_report s e (executes p) = cc
stays_undone pending_report s e (fails p) = cc
stays_undone executed s e (undoes p) = cc

IsLater-IsUndone :
    (a : Action) (o : Option Action) → a.status ≡ rolled_back → IsLater a o → IsUndone o
IsLater-IsUndone a none e h = h
IsLater-IsUndone a (some b) e h = stays_undone a.status b.status e h.0

serve-IsUndone :
    (q : Request) (rows : Rows) (id : ℕ)
    → IsUndone (lookup ℕ_discrete id rows)
    → IsUndone (lookup ℕ_discrete id (serve q rows).0)
serve-IsUndone q rows id h = elim (Option-cases (lookup ℕ_discrete id rows)) [
  | inl e ↦ absurd (subst IsUndone e h)
  | inr (a, e) ↦ IsLater-IsUndone a _ (subst IsUndone e h) (serve-Keeps q rows id a e)
]

-- An update that changes a row found it executed, and leaves it rolled back.
mark_takes :
    (now id : ℕ) (rows : Rows)
    → (atomic_mark_rolled_back now id rows).1 ≡ true
    → (¬ IsUndone (lookup ℕ_discrete id rows))
      × IsUndone (lookup ℕ_discrete id (atomic_mark_rolled_back now id rows).0)
unfolding atomic_mark_rolled_back update_where same_status
mark_takes now id rows e = elim (Option-cases (lookup ℕ_discrete id rows)) [
  | inl none_there ↦ ground arith
  | inr (a, there) ↦ ground (
    arith,
    lookup-insert_self ℕ_discrete id (record a { status = rolled_back; rolled_back_at = some now })
        rows,
  )
]

-- What a request sends of an identifier: nothing, or one undoing of an action that it leaves
-- rolled back.
abbrev Sends : ℕ → Rows × List ℕ → Type 0
Sends id s = (times id s.1 ≡ 0) ⊎ ((times id s.1 ≡ 1) × IsUndone (lookup ℕ_discrete id s.0))

roll_back-Sends :
    (now id asked : ℕ) (rows : Rows)
    → Sends asked ((roll_back now id rows).0, sent id (roll_back now id rows).1)
unfolding roll_back times
roll_back-Sends now id asked rows =
    roll_back-either (λ (s : Rows × Reply). Sends asked (s.0, sent id s.1)) rows _
      (atomic_mark_rolled_back now id rows) (λ answer e. inl (rw (e id) refl))
      (λ a e marked. elim (ℕ_discrete asked id) [
        | yes p ↦ inr (ground arith, rw p (mark_takes now id rows marked).1)
        | no n ↦ inl (ground arith)
      ])

serve-Sends : (q : Request) (rows : Rows) (id : ℕ) → Sends id (serve q rows)
unfolding serve times
serve-Sends (creates now i decision_id cn command_type payload) rows id = inl (ground arith)
serve-Sends (reports now blocked peer rs) rows id = inl refl
serve-Sends (rolls_back now i) rows id = roll_back-Sends now i id rows

roll_back_undone :
    (now id asked : ℕ) (rows : Rows)
    → IsUndone (lookup ℕ_discrete asked rows)
    → times asked (sent id (roll_back now id rows).1) ≡ 0
unfolding roll_back times
roll_back_undone now id asked rows h =
    roll_back-either (λ (s : Rows × Reply). times asked (sent id s.1) ≡ 0) rows _
      (atomic_mark_rolled_back now id rows) (λ answer e. rw (e id) refl)
      (λ a e marked. elim (ℕ_discrete asked id) [
        | yes p ↦ absurd ((mark_takes now id rows marked).0 (rw (← p) h))
        | no n ↦ ground arith
      ])

serve_undone :
    (q : Request) (rows : Rows) (id : ℕ)
    → IsUndone (lookup ℕ_discrete id rows)
    → times id (serve q rows).1 ≡ 0
unfolding serve times
serve_undone (creates now i decision_id cn command_type payload) rows id h = ground arith
serve_undone (reports now blocked peer rs) rows id h = refl
serve_undone (rolls_back now i) rows id h = roll_back_undone now i id rows h

serve_all_undone :
    (qs : List Request) (rows : Rows) (id : ℕ)
    → IsUndone (lookup ℕ_discrete id rows)
    → times id (serve_all qs rows).1 ≡ 0
unfolding serve_all times
serve_all_undone [] rows id h = refl
serve_all_undone (q ∷ qs) rows id h = ground (
  arith,
  times-append id (serve q rows).1 (serve_all qs (serve q rows).0).1,
  serve_undone q rows id h,
  serve_all_undone qs (serve q rows).0 id (serve-IsUndone q rows id h),
)

-- In every sequence of creations, report streams and rollback requests, whatever rows it starts
-- from, the command that undoes an action is sent at most once.
pub serve_all_once : (qs : List Request) (rows : Rows) (id : ℕ) → times id (serve_all qs rows).1 ≤ 1
unfolding serve_all times
serve_all_once [] rows id = omega arith
serve_all_once (q ∷ qs) rows id = elim (serve-Sends q rows id) [
  | inl z ↦ ground (
    arith,
    times-append id (serve q rows).1 (serve_all qs (serve q rows).0).1,
    serve_all_once qs (serve q rows).0 id,
  )
  | inr (one, h) ↦ ground (
    arith,
    times-append id (serve q rows).1 (serve_all qs (serve q rows).0).1,
    serve_all_undone qs (serve q rows).0 id h,
  )
]

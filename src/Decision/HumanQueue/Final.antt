-- ===== src/Decision/HumanQueue/Final.antt =====
-- A human decision is taken once: server/oseye/decision/human_queue.py over the repository.
use oseye_plateforme.Prelude.{
  ℕ, ◌≡◌, refl, ◌≢◌, true, false, Option, none, some, List, [], ◌∷◌, arith, if◌then◌else◌, is_some,
}
use oseye_plateforme.Prelude.Floats.{Floats}
use oseye_plateforme.Decision.Types.{Decision, Outcome}
use oseye_plateforme.Decision.Repository.{get, update_human_decision, is_open_row, decide_row}
use oseye_plateforme.Decision.HumanQueue.{finish_update, update_decision}

pub id-get :
    {f : Floats} (id : ℕ) (ds : List (Decision f)) (d : Decision f)
    → get id ds ≡ some d
    → d.fields.decision_id ≡ id
unfolding get
id-get id [] d e = cc
id-get id (x ∷ ds) d e = ground (arith, id-get id ds d)

module _ {f : Floats} (id : ℕ) (o : Outcome) (operator note : List ℕ) (at : ℕ) where
  -- What the update makes of one row.
  unfoldable pub settle : Option (Decision f) → Option (Decision f)
  settle none = none
  settle (some d) = if is_open_row id d then some (decide_row o operator note at d) else some d

  pub get-update :
      (q : ℕ) (ds : List (Decision f))
      → get q (update_human_decision id o operator note at ds).0 ≡ settle (get q ds)
  unfolding get update_human_decision settle
  get-update q [] = refl
  get-update q (d ∷ ds) = ground (arith, get-update q ds)

  -- An open row that is found is updated.
  hit-update :
      (d : Decision f) (ds : List (Decision f))
      → get id ds ≡ some d
      → d.human_decision ≡ none
      → (update_human_decision id o operator note at ds).1 ≡ true
  unfolding get update_human_decision
  hit-update d [] e h = cc
  hit-update d (x ∷ ds) e h = ground (arith, hit-update d ds)

  -- After an update no row of that identifier is open.
  pub update_twice :
      (o' : Outcome) (operator' note' : List ℕ) (at' : ℕ) (ds : List (Decision f))
      → (update_human_decision id o' operator' note' at'
          (update_human_decision id o operator note at ds).0).1
        ≡ false
  unfolding update_human_decision
  update_twice o' operator' note' at' [] = refl
  update_twice o' operator' note' at' (d ∷ ds) =
      ground (arith, update_twice o' operator' note' at' ds)

  -- The undecided row of an identifier is decided by the call, which returns it as the repository
  -- then holds it.
  pub update_decision_lem :
      (d : Decision f) (ds : List (Decision f))
      → get id ds ≡ some d
      → d.human_decision ≡ none
      → let (ds', result) = update_decision id o operator note at ds in
        (result ≡ some (decide_row o operator note at d)) × (get id ds' ≡ result)
  unfolding update_decision settle
  update_decision_lem d ds e h =
      ground (arith, hit-update d ds e h, get-update id ds, id-get id ds d e)

-- Once an identifier has a human decision, no later call changes its row, whatever it has read
-- before: approvals, rejections and expiries are final.
pub finish_update-final :
    {f : Floats} (seen : Option (Decision f)) (id : ℕ) (o : Outcome) (operator note : List ℕ)
    (at : ℕ) (ds : List (Decision f)) (q : ℕ) (d : Decision f)
    → get q ds ≡ some d
    → is_some d.human_decision ≡ true
    → get q (finish_update seen id o operator note at ds).0 ≡ some d
unfolding finish_update settle
finish_update-final none id o operator note at ds q d e h = e
finish_update-final (some x) id o operator note at ds q d e h =
    ground (arith, get-update id o operator note at q ds)

-- Of two calls on one identifier, whatever each has read, at most one gets a result: if the first
-- one did, the second one, which writes later, gets none.
pub finish_update_race :
    {f : Floats} (seen seen' : Option (Decision f)) (id : ℕ) (o o' : Outcome)
    (operator note operator' note' : List ℕ) (at at' : ℕ) (ds : List (Decision f))
    → (finish_update seen id o operator note at ds).1 ≢ none
    → (finish_update seen' id o' operator' note' at'
        (finish_update seen id o operator note at ds).0).1
      ≡ none
unfolding finish_update
finish_update_race none seen' id o o' operator note operator' note' at at' ds won =
    absurd (won refl)
finish_update_race (some d) none id o o' operator note operator' note' at at' ds won = refl
finish_update_race (some d) (some d') id o o' operator note operator' note' at at' ds won =
    ground (arith, update_twice id o operator note at o' operator' note' at' ds)

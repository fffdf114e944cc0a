-- ===== src/Decision/Repository.antt =====
-- SQLDecisionRepository of server/oseye/storage/repositories/decisions.py as a list of rows. Each
-- statement is one transaction, so one step.
use oseye_plateforme.Prelude.{
  ℕ, Bool, true, false, not, ◌&&◌, Option, none, some, List, [], ◌∷◌, ◌==◌, if◌then◌else◌, is_some,
  keep,
}
use oseye_plateforme.Prelude.Floats.{Floats}
use oseye_plateforme.Decision.Types.{Decision, Outcome}

module _ {f : Floats} where
  -- `get`
  unfoldable pub get : ℕ → List (Decision f) → Option (Decision f)
  get id [] = none
  get id (d ∷ ds) = if d.fields.decision_id == id then some d else get id ds

  -- `create`; the identifier is the primary key, so a second row with it is refused.
  unfoldable pub create : Decision f → List (Decision f) → Option (List (Decision f))
  create d ds = elim (get d.fields.decision_id ds) [ none ↦ some (d ∷ ds) | some _ ↦ none ]

  -- The rows of `update_human_decision`: the identifier, and no human decision yet.
  abbrev pub is_open_row : ℕ → Decision f → Bool
  is_open_row id d = (d.fields.decision_id == id) && not (is_some d.human_decision)

  abbrev pub decide_row : Outcome → List ℕ → List ℕ → ℕ → Decision f → Decision f
  decide_row o operator note at d = record d {
    human_decision = some o;
    human_operator = some operator;
    human_note = some note;
    approved_at = some at;
  }

  -- `update_human_decision`: the new rows, and whether one was updated.
  unfoldable pub update_human_decision :
      ℕ → Outcome → List ℕ → List ℕ → ℕ → List (Decision f) → List (Decision f) × Bool
  update_human_decision id o operator note at [] = ([], false)
  update_human_decision id o operator note at (d ∷ ds) =
      let (ds', hit) = update_human_decision id o operator note at ds in
      if is_open_row id d then (decide_row o operator note at d ∷ ds', true) else (d ∷ ds', hit)

  -- `get_pending`
  unfoldable pub get_pending : List (Decision f) → List (Decision f)
  get_pending ds = keep (λ d. d.requires_human && not (is_some d.human_decision)) ds

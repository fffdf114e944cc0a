-- ===== src/Decision/HumanQueue.antt =====
-- HumanApprovalQueue of server/oseye/decision/human_queue.py. `_update_decision` suspends between
-- its read and its write, so the write takes the decision that was read, which may be stale.
pub mod Final
pub mod Expiry
use oseye_plateforme.Prelude.{
  ℕ, Bool, false, Option, none, some, List, [], ◌∷◌, leb, if◌then◌else◌, is_some, take, codes,
}
use mathlib.Core.List.{reverse}
use oseye_plateforme.Prelude.Floats.{Floats}
use oseye_plateforme.Decision.Types.{Decision, Outcome, approved, rejected}
use oseye_plateforme.Decision.Repository.{get, update_human_decision, get_pending, decide_row}

drop_spaces : (ℕ → Bool) → List ℕ → List ℕ
drop_spaces is_space [] = []
drop_spaces is_space (c ∷ cs) = if is_space c then drop_spaces is_space cs else c ∷ cs

-- `text.strip()[:n]`, where `is_space` is Python's white space.
unfoldable pub sanitise : (ℕ → Bool) → ℕ → List ℕ → List ℕ
unfolding drop_spaces
sanitise is_space n text =
    take n (reverse (drop_spaces is_space (reverse (drop_spaces is_space text))))

module _ {f : Floats} where
  -- `_update_decision` from its write on: `seen` is what its read returned.
  unfoldable pub finish_update :
      Option (Decision f)
      → ℕ
      → Outcome
      → List ℕ
      → List ℕ
      → ℕ
      → List (Decision f)
      → List (Decision f) × Option (Decision f)
  finish_update none id o operator note now ds = (ds, none)
  finish_update (some d) id o operator note now ds =
      if is_some d.human_decision
      then (ds, none)
      else let (ds', updated) = update_human_decision id o operator note now ds in
        (ds', (if updated then some (decide_row o operator note now d) else none))

  -- `_update_decision` when no other task runs between its read and its write
  unfoldable pub update_decision :
      ℕ
      → Outcome
      → List ℕ
      → List ℕ
      → ℕ
      → List (Decision f)
      → List (Decision f) × Option (Decision f)
  unfolding finish_update
  update_decision id o operator note now ds = finish_update (get id ds) id o operator note now ds

  -- `reject`
  unfoldable pub reject :
      (ℕ → Bool)
      → ℕ
      → List ℕ
      → List ℕ
      → ℕ
      → List (Decision f)
      → List (Decision f) × Option (Decision f)
  unfolding sanitise update_decision
  reject is_space id operator note now ds =
      update_decision id rejected (sanitise is_space 200 operator) (sanitise is_space 2000 note) now
        ds

  -- `approve`: the new rows, the result, and the decision that goes to `execute_after_approval`,
  -- if any. What that call raises is caught.
  unfoldable pub approve :
      Bool
      → (ℕ → Bool)
      → ℕ
      → List ℕ
      → List ℕ
      → ℕ
      → List (Decision f)
      → List (Decision f) × Option (Decision f) × Option (Decision f)
  unfolding sanitise update_decision
  approve has_executor is_space id operator note now ds =
      let (ds', result) =
        update_decision id approved (sanitise is_space 200 operator) (sanitise is_space 2000 note)
          now ds in
      (ds', result, (if has_executor then result else none))

  -- `decision.timeout_at and decision.timeout_at <= now`
  abbrev pub timed_out : ℕ → Decision f → Bool
  timed_out now d = elim d.timeout_at [ none ↦ false | some t ↦ leb t now ]

  -- The body of the loop of `_expire_timeout`.
  unfoldable pub expire_one : ℕ → Decision f → List (Decision f) → List (Decision f)
  expire_one now p ds =
      if timed_out now p
      then (update_decision p.fields.decision_id rejected (codes "system")
          (codes "Auto-expired: timeout reached") now ds).0
      else ds

  -- The loop, over the decisions that were pending.
  unfoldable pub expire_each : ℕ → List (Decision f) → List (Decision f) → List (Decision f)
  expire_each now [] ds = ds
  expire_each now (p ∷ ps) ds = expire_each now ps (expire_one now p ds)

  -- `_expire_timeout`
  unfoldable pub expire_timeout : ℕ → List (Decision f) → List (Decision f)
  expire_timeout now ds = expire_each now (get_pending ds) ds

-- ===== src/Decision/Journal/Undo.antt =====
-- Undoing a commit in server/oseye/decision/journal.py.
use oseye_plateforme.Prelude.{
  ◌≤◌, ◌≡◌, ◌↔◌, ◌⊎◌, true, String, arith, str_dec, length, elem, length-push-le, elem-push,
}
use oseye_plateforme.Prelude.Floats.{Floats}
use oseye_plateforme.Decision.Types.{Fields}
use oseye_plateforme.Decision.Journal.{
  Journal, is_hash, rollback, reverted, commit, genesis_hash, max_history,
}

module _ (f : Floats) (digest : String → Fields f → String) (fields : Fields f) (j : Journal) where
  -- If the last hash has the right form, a rollback with the hash that `commit` returned restores it,
  -- whatever the history held, and keeps the history of the commit.
  pub rollback-commit :
      is_hash j.last_hash ≡ true
      → let (j', prev, _) = commit f digest fields j in
        rollback prev j' ≡ reverted (record j' { last_hash = j.last_hash })
  unfolding commit rollback
  rollback-commit ok = rw (ok, elem-push str_dec max_history j.last_hash j.commit_history)

  -- The history never holds more than its 200 entries.
  pub commit-bounded :
      length j.commit_history ≤ max_history
      → length (commit f digest fields j).0.commit_history ≤ max_history
  unfolding commit
  commit-bounded h = length-push-le max_history j.last_hash j.commit_history (omega arith) h

-- Exactly what a rollback accepts, and that it then sets the last hash alone: a hash of the right
-- form that is in the recent history or is the genesis hash.
pub rollback_iff :
    (h : String) (j : Journal)
    → (rollback h j ≡ reverted (record j { last_hash = h }))
      ↔ ((is_hash h ≡ true) × ((elem str_dec h j.commit_history ≡ true) ⊎ (h ≡ genesis_hash)))
unfolding rollback
rollback_iff h j = (λ e. ground arith, λ e. ground arith)

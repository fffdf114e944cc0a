-- ===== src/RuleEngine/Temporal.antt =====
-- The temporal windows of server/oseye/rule_engine/evaluator.py: for each rule and entity the
-- recent events with their times, oldest first. Each function takes the lock once, so it is one
-- step. Times are whole ticks, `second` of them in a second. The evaluation of a condition on an
-- event is a parameter: `none` is an exception.
pub mod Windows
pub mod Threshold
use oseye_plateforme.Prelude.{
  ℕ, ◌+◌, ◌*◌, ◌%◌, Bool, true, false, not, Option, none, some, List, [], ◌∷◌, ◌++◌, String, ltb,
  leb, ◌==◌, if◌then◌else◌, str_dec, keep, all, elem, Dict, lookup, insert, erase, push,
}
use Prim.Native.String.{◌++◌ as append_text}

-- `_MAX_WINDOW_ENTRIES`, `_MAX_TTL`, and the calls between two purges
abbrev pub max_window_entries : ℕ
max_window_entries = 10_000

abbrev pub max_ttl : ℕ
max_ttl = 3600

abbrev pub purge_period : ℕ
purge_period = 500

-- `_temporal_windows` and `_record_count`
pub record Store (E : Type 0) : Type 0 where
  pub windows : Dict String (List (ℕ × E))
  pub record_count : ℕ

-- `_window_key`
unfoldable pub window_key : String → String → String
window_key rule_id entity_key = append_text rule_id (append_text "::" entity_key)

-- The parts of a rule that `evaluate` reads. A condition that itself counts events is left out.
pub record Rule (E : Type 0) : Type 0 where
  pub id : String
  pub platforms : List String
  pub timeframe : Option ℕ
  pub threshold : Option ℕ
  pub condition : E → Option Bool

module _ {E : Type 0} where
  -- `while dq and dq[0][0] < cutoff: dq.popleft()`, with the cutoff `age` before `now`
  unfoldable pub prune : ℕ → ℕ → List (ℕ × E) → List (ℕ × E)
  prune now age [] = []
  prune now age ((ts, e) ∷ w) = if ltb (ts + age) now then prune now age w else (ts, e) ∷ w

  -- Whether every entry is older than the cutoff: an empty window counts.
  abbrev pub is_stale : ℕ → ℕ → List (ℕ × E) → Bool
  is_stale now age w = all (λ (e : ℕ × E). ltb (e.0 + age) now) w

  -- The count over the snapshot; an exception of the filter counts nothing.
  unfoldable pub count_matches : ℕ → ℕ → (E → Option Bool) → List (ℕ × E) → ℕ
  count_matches now age filter [] = 0
  count_matches now age filter ((ts, e) ∷ w) =
      (if ltb (ts + age) now then 0 else elim (filter e) [ some true ↦ 1 | _ ↦ 0 ])
      + count_matches now age filter w

  -- A window that has become empty is deleted; the count of an empty window is 0.
  unfoldable pub put_window :
      String → List (ℕ × E) → Dict String (List (ℕ × E)) → Dict String (List (ℕ × E))
  put_window key [] windows = erase str_dec key windows
  put_window key (e ∷ es) windows = insert str_dec key (e ∷ es) windows

  module _ (second : ℕ) where
    -- `purge_stale_windows` of the engine; `_purge_old_windows` is it at `_MAX_TTL`.
    unfoldable pub purge_stale_windows : ℕ → ℕ → Store E → Store E
    purge_stale_windows now max_age s = record s {
      windows =
          keep (λ (w : String × List (ℕ × E)). not (is_stale now (max_age * second) w.1)) s.windows;
    }

    -- The window of a key; a new one is empty.
    abbrev pub window_of : String → Store E → List (ℕ × E)
    window_of key s = elim (lookup str_dec key s.windows) [ none ↦ [] | some w ↦ w ]

    -- `record_event_for_temporal` at the key, without the purge.
    unfoldable pub append_event : ℕ → String → E → Store E → Store E
    append_event now key event s =
        let w =
          prune now (max_ttl * second) (push max_window_entries (now, event) (window_of key s)) in
        record { windows = put_window key w s.windows; record_count = s.record_count + 1 }

    -- `record_event_for_temporal`
    unfoldable pub record_event : ℕ → String → E → Store E → Store E
    record_event now key event s =
        let s' = append_event now key event s in
        if s'.record_count % purge_period == 0 then purge_stale_windows now max_ttl s' else s'

    -- `_count_events_in_window` at the key: the pruned store and the count.
    unfoldable pub count_events : ℕ → String → (E → Option Bool) → ℕ → Store E → Store E × ℕ
    count_events now key filter seconds s = elim (lookup str_dec key s.windows) [
      | none ↦ (s, 0)
      | some w ↦
          let w' = prune now (seconds * second) w in
          (
            record s { windows = put_window key w' s.windows },
            count_matches now (seconds * second) filter w',
          )
    ]

    -- The platform filter: no list of platforms means all of them.
    abbrev pub applies_to : Rule E → String → Bool
    applies_to rule os = elim rule.platforms [ [] ↦ true | p ∷ ps ↦ elem str_dec os (p ∷ ps) ]

    -- `threshold`, or 1
    abbrev pub threshold_of : Rule E → ℕ
    threshold_of rule = elim rule.threshold [ none ↦ 1 | some t ↦ t ]

    -- `evaluate` for an event on an operating system, at an entity key. An exception of the
    -- condition is no match.
    unfoldable pub evaluate : ℕ → Rule E → String → E → String → Store E → Store E × Bool
    evaluate now rule os event entity_key s =
        if not (applies_to rule os) then (s, false) else elim (rule.condition event) [
          | some true ↦ elim rule.timeframe [
            | none ↦ (s, true)
            | some seconds ↦
                let key = window_key rule.id entity_key in
                let (s', count) =
                  count_events now key rule.condition seconds (record_event now key event s) in
                (s', leb (threshold_of rule) count)
          ]
          | _ ↦ (s, false)
        ]

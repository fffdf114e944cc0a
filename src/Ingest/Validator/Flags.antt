-- ===== src/Ingest/Validator/Flags.antt =====
-- Which indices BatchValidator of server/oseye/ingest/validator.py collects.
use oseye_plateforme.Prelude.{
  All-append, ℕ, ◌+◌, ◌<◌, ◌≡◌, sym, ap, ◌∙◌, inl, inr, List, [], ◌∷◌, ◌++◌, String, arith,
}
use mathlib.Core.List.{append-nil, append_assoc}
use mathlib.Core.Path.{subst}
use oseye_plateforme.Ingest.Validator.{Event, ValidationResult, missing, check_event, check_events}
use oseye_plateforme.Ingest.Validator.Indices.{
  IsBelow, IsBelow-widen, List-cases, check_event_passes, check_event_fails,
}

-- Which events the loop rejects.
abbrev pub flags : ℕ → List Event → List ℕ
flags i [] = []
flags i (ev ∷ evs) = elim (missing ev) [ [] ↦ flags (i + 1) evs | f ∷ fs ↦ i ∷ flags (i + 1) evs ]

flags_passes :
    (i : ℕ) (ev : Event) (evs : List Event)
    → missing ev ≡ []
    → flags i (ev ∷ evs) ≡ flags (i + 1) evs
flags_passes i ev evs e =
    ap (λ (ms : List String). elim ms [ [] ↦ flags (i + 1) evs | f ∷ fs ↦ i ∷ flags (i + 1) evs ]) e

flags_fails :
    (i : ℕ) (ev : Event) (evs : List Event) (f : String) (fs : List String)
    → missing ev ≡ f ∷ fs
    → flags i (ev ∷ evs) ≡ i ∷ flags (i + 1) evs
flags_fails i ev evs f fs e =
    ap (λ (ms : List String). elim ms [ [] ↦ flags (i + 1) evs | g ∷ gs ↦ i ∷ flags (i + 1) evs ]) e

check_event-flags :
    (i : ℕ) (ev : Event) (evs : List Event) (r : ValidationResult)
    → IsBelow i r.rejected_indices
    → ((check_event i ev r).rejected_indices ++ flags (i + 1) evs
        ≡ r.rejected_indices ++ flags i (ev ∷ evs))
      × IsBelow (i + 1) (check_event i ev r).rejected_indices
check_event-flags i ev evs r h =
    let old = IsBelow-widen i r.rejected_indices h in
    elim (List-cases (missing ev)) [
      | inl passes ↦
          let same =
            ap (λ (x : ValidationResult). x.rejected_indices) (check_event_passes i ev r passes) in
          (
            ap (λ js. js ++ flags (i + 1) evs) same
                ∙ ap (λ l. r.rejected_indices ++ l) (sym (flags_passes i ev evs passes)),
            subst (IsBelow (i + 1)) (sym same) old,
          )
      | inr (f, fs, fails) ↦
          let same =
            ap (λ (x : ValidationResult). x.rejected_indices)
              (check_event_fails i ev r f fs fails h) in
          (
            ap (λ js. js ++ flags (i + 1) evs) same
                ∙ append_assoc r.rejected_indices (i ∷ []) (flags (i + 1) evs)
                ∙ ap (λ l. r.rejected_indices ++ l) (sym (flags_fails i ev evs f fs fails)),
            subst (IsBelow (i + 1)) (sym same)
                (All-append (λ j. j < i + 1) r.rejected_indices (i ∷ []) old (omega arith, tt)),
          )
    ]

pub check_events-flags :
    (i : ℕ) (evs : List Event) (r : ValidationResult)
    → IsBelow i r.rejected_indices
    → (check_events i evs r).rejected_indices ≡ r.rejected_indices ++ flags i evs
unfolding check_events
check_events-flags i [] r h = sym (append-nil r.rejected_indices)
check_events-flags i (ev ∷ evs) r h =
    let (same, below) = check_event-flags i ev evs r h in
    check_events-flags (i + 1) evs (check_event i ev r) below ∙ same

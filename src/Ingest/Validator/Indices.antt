-- ===== src/Ingest/Validator/Indices.antt =====
-- The indices that BatchValidator of server/oseye/ingest/validator.py collects, and one round of
-- its loop.
use oseye_plateforme.Prelude.{
  All-mono, All, any, ◌==◌, false, ℕ, ◌+◌, ◌<◌, ◌≡◌, refl, ap, ◌⊎◌, inl, inr, List, [], ◌∷◌, ◌++◌,
  String, arith, length,
}
use mathlib.Core.Path.{subst}
use oseye_plateforme.Ingest.Validator.{
  Event, ValidationResult, add_index, missing_fields, missing, range_from, check_event,
}

-- The indices are below a number.
abbrev pub IsBelow : ℕ → List ℕ → Type 0
IsBelow n indices = All (λ j. j < n) indices

add_index_new : (i : ℕ) (js : List ℕ) → IsBelow i js → any (λ j. j == i) js ≡ false
add_index_new i [] h = refl
add_index_new i (j ∷ js) h = ground (arith, add_index_new i js h.1)

-- An index above all others is a new one.
pub add_index-above : (i : ℕ) (js : List ℕ) → IsBelow i js → add_index i js ≡ js ++ i ∷ []
unfolding add_index
add_index-above i js h = rw (add_index_new i js h) refl

pub IsBelow-widen : (i : ℕ) (js : List ℕ) → IsBelow i js → IsBelow (i + 1) js
IsBelow-widen i js h = All-mono (λ j. j < i) (λ j. j < i + 1) (λ j p. omega (arith, p)) js h

pub IsBelow-range_from : (i : ℕ) (evs : List Event) → IsBelow (i + length evs) (range_from i evs)
IsBelow-range_from i [] = tt
IsBelow-range_from i (ev ∷ evs) = (
  omega arith,
  subst (λ n. IsBelow n (range_from (i + 1) evs)) (omega arith) (IsBelow-range_from (i + 1) evs),
)

pub length-range_from : (i : ℕ) (evs : List Event) → length (range_from i evs) ≡ length evs
length-range_from i [] = refl
length-range_from i (ev ∷ evs) = omega (arith, length-range_from (i + 1) evs)

pub List-cases {ℓ} :
    {A : Type ℓ} (xs : List A) → (xs ≡ []) ⊎ ((x : A) × (ys : List A) × (xs ≡ x ∷ ys))
List-cases [] = inl refl
List-cases (x ∷ ys) = inr (x, ys, refl)

module _ (i : ℕ) (ev : Event) (r : ValidationResult) where
  pub check_event_passes :
      missing ev ≡ [] → check_event i ev r ≡ record r { accepted = r.accepted + 1 }
  unfolding check_event
  check_event_passes e = rw (e, check_event) refl

  pub check_event_fails :
      (f : String) (fs : List String)
      → missing ev ≡ f ∷ fs
      → IsBelow i r.rejected_indices
      → check_event i ev r ≡ record r {
        rejected = r.rejected + 1;
        rejected_indices = r.rejected_indices ++ i ∷ [];
        errors = r.errors ++ missing_fields i (f ∷ fs) ∷ [];
      }
  unfolding check_event
  check_event_fails f fs e h =
      rw (e, check_event)
        (ap
          (λ js. record r {
            rejected = r.rejected + 1;
            rejected_indices = js;
            errors = r.errors ++ missing_fields i (f ∷ fs) ∷ [];
          })
          (add_index-above i r.rejected_indices h))

-- ===== src/Prelude/Ordered.antt =====
-- The order of Python's `OrderedDict`: `move_to_end` and `popitem(last=False)`.
use mathlib.Core.Path.{◌≡◌, refl, ◌∙◌}
use mathlib.Core.Logic.{◌≢◌}
use mathlib.Core.List.{[], ◌∷◌, ◌++◌}
use mathlib.Core.Option.{none, some}
use native.Mathlib.Omega.{arith}
use oseye_plateforme.Prelude.Lists.{length, length-append}
use oseye_plateforme.Prelude.Assoc.{
  Dict, lookup, erase, IsDict, lookup-erase_ne, lookup-erase_self, erase-IsDict, length-erase,
}

-- `popitem(last=False)`: the oldest entry goes.
abbrev pub pop_first {ℓ} : {K V : Type ℓ} → Dict K V → Dict K V
pop_first [] = []
pop_first (e ∷ d) = d

module _ {ℓ} {K V : Type ℓ} (dec : Discrete K) where
  lookup-append_ne :
      (j k : K) (v : V) (d : Dict K V) → j ≢ k → lookup dec j (d ++ (k, v) ∷ []) ≡ lookup dec j d
  lookup-append_ne j k v [] h = ground arith
  lookup-append_ne j k v (e ∷ d) h = ground (arith, lookup-append_ne j k v d h)

  pub lookup-append_self :
      (k : K) (v : V) (d : Dict K V)
      → lookup dec k d ≡ none
      → lookup dec k (d ++ (k, v) ∷ []) ≡ some v
  lookup-append_self k v [] h = ground arith
  lookup-append_self k v (e ∷ d) h = ground (arith, lookup-append_self k v d)

  pub append-IsDict :
      (k : K) (v : V) (d : Dict K V)
      → IsDict dec d
      → lookup dec k d ≡ none
      → IsDict dec (d ++ (k, v) ∷ [])
  append-IsDict k v [] u h = (refl, tt)
  append-IsDict k v (e ∷ d) u h =
      ground (arith, append-IsDict k v d u.1, lookup-append_ne e.0 k v d)

  -- The entry put last: `move_to_end` of a present key, and `d[k] = v` after `del d[k]`.
  abbrev pub put_last : K → V → Dict K V → Dict K V
  put_last k v d = erase dec k d ++ (k, v) ∷ []

  pub put_last-IsDict : (k : K) (v : V) (d : Dict K V) → IsDict dec d → IsDict dec (put_last k v d)
  put_last-IsDict k v d u =
      append-IsDict k v (erase dec k d) (erase-IsDict dec k d u) (lookup-erase_self dec k d u)

  pub lookup-put_last_self :
      (k : K) (v : V) (d : Dict K V) → IsDict dec d → lookup dec k (put_last k v d) ≡ some v
  lookup-put_last_self k v d u = lookup-append_self k v _ (lookup-erase_self dec k d u)

  pub lookup-put_last_ne :
      (j k : K) (v : V) (d : Dict K V) → j ≢ k → lookup dec j (put_last k v d) ≡ lookup dec j d
  lookup-put_last_ne j k v d h =
      lookup-append_ne j k v (erase dec k d) h ∙ lookup-erase_ne dec j k d h

  pub length-put_last :
      (k : K) (v u : V) (d : Dict K V)
      → lookup dec k d ≡ some u
      → length (put_last k v d) ≡ length d
  length-put_last k v u d h =
      omega (arith, length-append (erase dec k d) ((k, v) ∷ []), length-erase dec k u d h)

  pub erase_absent : (k : K) (d : Dict K V) → lookup dec k d ≡ none → erase dec k d ≡ d
  erase_absent k [] h = refl
  erase_absent k (e ∷ d) h = ground (arith, erase_absent k d)

  pub pop_first-IsDict : (d : Dict K V) → IsDict dec d → IsDict dec (pop_first d)
  pop_first-IsDict [] u = tt
  pop_first-IsDict (e ∷ d) u = u.1

  pub lookup-pop_first_absent :
      (k : K) (d : Dict K V) → lookup dec k d ≡ none → lookup dec k (pop_first d) ≡ none
  lookup-pop_first_absent k [] h = refl
  lookup-pop_first_absent k (e ∷ d) h = ground arith

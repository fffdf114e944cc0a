-- ===== src/Prelude/Assoc.antt =====
-- Python's `dict` and `OrderedDict`: an association list in insertion order.
use Prim.Native.Nat.{◌+◌, ◌≤◌}
use mathlib.Core.Path.{◌≡◌, refl}
use mathlib.Core.Logic.{◌≢◌, ite, if_pos}
use mathlib.Core.Bool.{Bool, true}
use mathlib.Core.List.{List, [], ◌∷◌, ◌++◌}
use mathlib.Core.Option.{Option, none, some}
use native.Mathlib.Omega.{arith}
use oseye_plateforme.Prelude.Tests.{is_some}
use oseye_plateforme.Prelude.Lists.{length, All}

abbrev pub Dict {ℓ} : Type ℓ → Type ℓ → Type ℓ
Dict K V = List (K × V)

module _ {ℓ} {K V : Type ℓ} (dec : Discrete K) where
  -- `d.get(k)`
  abbrev pub lookup : K → Dict K V → Option V
  lookup k [] = none
  lookup k ((j, v) ∷ d) = ite (dec k j) (some v) (lookup k d)

  -- `k in d`
  abbrev pub contains : K → Dict K V → Bool
  contains k d = is_some (lookup k d)

  -- `del d[k]`, `d.pop(k, None)`
  abbrev pub erase : K → Dict K V → Dict K V
  erase k [] = []
  erase k (e ∷ d) = ite (dec k e.0) d (e ∷ erase k d)

  -- No key is listed twice.
  abbrev pub IsDict : Dict K V → Type ℓ
  IsDict [] = Unit
  IsDict ((k, v) ∷ d) = (lookup k d ≡ none) × IsDict d

  pub lookup-erase_ne : (j k : K) (d : Dict K V) → j ≢ k → lookup j (erase k d) ≡ lookup j d
  lookup-erase_ne j k [] h = refl
  lookup-erase_ne j k (e ∷ d) h = ground (arith, lookup-erase_ne j k d h)

  pub lookup-erase_self : (k : K) (d : Dict K V) → IsDict d → lookup k (erase k d) ≡ none
  lookup-erase_self k [] h = refl
  lookup-erase_self k (e ∷ d) h = ground (arith, lookup-erase_self k d h.1)

  -- `d[k] = v`: a new key goes to the end.
  abbrev pub insert : K → V → Dict K V → Dict K V
  insert key new [] = (key, new) ∷ []
  insert key new ((head, old) ∷ rows) =
      ite (dec key head) ((key, new) ∷ rows) ((head, old) ∷ insert key new rows)

  pub lookup-insert_self :
      (key : K) (new : V) (rows : Dict K V) → lookup key (insert key new rows) ≡ some new
  lookup-insert_self key new [] = ground arith
  lookup-insert_self key new ((head, old) ∷ rows) = ground (arith, lookup-insert_self key new rows)

  pub lookup-insert_ne :
      (asked key : K) (new : V) (rows : Dict K V)
      → asked ≢ key
      → lookup asked (insert key new rows) ≡ lookup asked rows
  lookup-insert_ne asked key new [] differ = ground arith
  lookup-insert_ne asked key new ((head, old) ∷ rows) differ =
      ground (arith, lookup-insert_ne asked key new rows differ)

  -- What is there stays there, and what is written is there.
  pub contains-insert :
      (asked key : K) (new : V) (rows : Dict K V)
      → contains asked rows ≡ true
      → contains asked (insert key new rows) ≡ true
  contains-insert asked key new rows h = elim (dec asked key) [
    | yes same ↦ rw (same, lookup-insert_self key new rows) refl
    | no other ↦ rw (lookup-insert_ne asked key new rows other) h
  ]

  pub contains-insert_self :
      (key : K) (new : V) (rows : Dict K V) → contains key (insert key new rows) ≡ true
  contains-insert_self key new rows = rw (lookup-insert_self key new rows) refl

  pub insert-IsDict : (k : K) (v : V) (d : Dict K V) → IsDict d → IsDict (insert k v d)
  insert-IsDict k v [] h = (refl, tt)
  insert-IsDict k v (e ∷ d) h = ground (arith, insert-IsDict k v d h.1, lookup-insert_ne e.0 k v d)

  pub erase-IsDict : (k : K) (d : Dict K V) → IsDict d → IsDict (erase k d)
  erase-IsDict k [] h = tt
  erase-IsDict k (e ∷ d) h = ground (arith, erase-IsDict k d h.1, lookup-erase_ne e.0 k d)

  pub length-erase :
      (k : K) (v : V) (d : Dict K V) → lookup k d ≡ some v → length (erase k d) + 1 ≡ length d
  length-erase k v [] h = ground arith
  length-erase k v (e ∷ d) h = ground (arith, length-erase k v d)

  pub length-erase-le : (k : K) (d : Dict K V) → length (erase k d) ≤ length d
  length-erase-le k [] = omega arith
  length-erase-le k (e ∷ d) = ground (arith, length-erase-le k d)

  -- At a key that is not there, `d[k] = v` appends.
  pub insert_new :
      (k : K) (v : V) (d : Dict K V) → lookup k d ≡ none → insert k v d ≡ d ++ (k, v) ∷ []
  insert_new k v [] h = refl
  insert_new k v (e ∷ d) h = ground (arith, insert_new k v d)

  pub length-insert_new :
      (k : K) (v : V) (d : Dict K V) → lookup k d ≡ none → length (insert k v d) ≡ length d + 1
  length-insert_new k v [] h = omega arith
  length-insert_new k v (e ∷ d) h = ground (arith, length-insert_new k v d)

  pub length-insert_old :
      (k : K) (v u : V) (d : Dict K V) → lookup k d ≡ some u → length (insert k v d) ≡ length d
  length-insert_old k v u [] h = ground arith
  length-insert_old k v u (e ∷ d) h = ground (arith, length-insert_old k v u d)

module _ {ℓ κ} {K V : Type ℓ} (dec : Discrete K) (P : K × V → Type κ) where
  pub All-insert : (k : K) (v : V) (d : Dict K V) → P (k, v) → All P d → All P (insert dec k v d)
  All-insert k v [] p h = (p, tt)
  All-insert k v (e ∷ d) p h =
      elim (dec k e.0) as (λ t. All P (ite t ((k, v) ∷ d) (e ∷ insert dec k v d))) [
        | yes same ↦ (p, h.1)
        | no other ↦ (h.0, All-insert k v d p h.1)
      ]

  pub All-erase : (k : K) (d : Dict K V) → All P d → All P (erase dec k d)
  All-erase k [] h = tt
  All-erase k (e ∷ d) h = elim (dec k e.0) as (λ t. All P (ite t d (e ∷ erase dec k d))) [
    | yes same ↦ h.1
    | no other ↦ (h.0, All-erase k d h.1)
  ]

  All-erase_head : (k : K) (v : V) (d : Dict K V) → All P d → All P (erase dec k ((k, v) ∷ d))
  All-erase_head k v d h = rw (if_pos (dec k k) refl) h

  -- Written and removed at once.
  pub All-erase-insert :
      (k : K) (v : V) (d : Dict K V) → All P d → All P (erase dec k (insert dec k v d))
  All-erase-insert k v [] h = All-erase_head k v [] h
  All-erase-insert k v (e ∷ d) h = elim (dec k e.0) [
    | yes same ↦ rw (if_pos (dec k e.0) same) (All-erase_head k v d h.1)
    | no other ↦
        let same : erase dec k (insert dec k v (e ∷ d)) ≡ e ∷ erase dec k (insert dec k v d) =
          ground arith in
        rw same (h.0, All-erase-insert k v d h.1)
  ]

-- ===== src/Prelude/Deque.antt =====
-- Python's `deque(maxlen=n)`, oldest entry first, and texts as code points.
use Prim.Native.Nat.{ℕ, ◌≤◌, ◌<◌}
use Prim.Native.Char.{code}
use Prim.Native.String.{String}
use mathlib.Core.Path.{◌≡◌}
use mathlib.Core.Bool.{true}
use mathlib.Core.List.{List, [], ◌∷◌, ◌++◌}
use native.Mathlib.Omega.{arith}
use oseye_plateforme.Prelude.Tests.{ltb, if◌then◌else◌}
use oseye_plateforme.Prelude.Lists.{length, length-append, elem}

-- The code points of a text.
abbrev pub codes : String → List ℕ
codes String.[] = []
codes (String.◌∷◌ c s) = code c ∷ codes s

module _ {ℓ} {A : Type ℓ} where
  abbrev pub drop_first : List A → List A
  drop_first [] = []
  drop_first (x ∷ xs) = xs

  -- `append` on a deque: past `maxlen` the oldest entry is dropped. (`maxlen` is positive in
  -- every use.)
  unfoldable pub push : ℕ → A → List A → List A
  push maxlen x xs = if ltb (length xs) maxlen then xs ++ x ∷ [] else drop_first xs ++ x ∷ []

  pub push_room :
      (maxlen : ℕ) (x : A) (xs : List A) → length xs < maxlen → push maxlen x xs ≡ xs ++ x ∷ []
  unfolding push
  push_room n x xs h = ground arith

  pub length-push-le :
      (maxlen : ℕ) (x : A) (xs : List A)
      → 0 < maxlen
      → length xs ≤ maxlen
      → length (push maxlen x xs) ≤ maxlen
  unfolding push
  length-push-le n x [] pos h = ground (arith)
  length-push-le n x (y ∷ ys) pos h = ground (arith, length-append ys (x ∷ []))

module _ {ℓ} {A : Type ℓ} (dec : Discrete A) where
  pub elem-append : (x : A) (xs : List A) → elem dec x (xs ++ x ∷ []) ≡ true
  elem-append x [] = ground arith
  elem-append x (y ∷ ys) = ground (arith, elem-append x ys)

  pub elem-push : (maxlen : ℕ) (x : A) (xs : List A) → elem dec x (push maxlen x xs) ≡ true
  unfolding push
  elem-push n x xs = ground (arith, elem-append x xs, elem-append x (drop_first xs))

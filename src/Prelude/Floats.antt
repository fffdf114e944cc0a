-- ===== src/Prelude/Floats.antt =====
-- The floating-point numbers of the scores, as an interface: Python's `float` is not part of the
-- sources. The laws are what the code relies on for numbers that are no NaN.
use Prim.Native.Nat.{ℕ, ◌+◌, ◌-◌, ◌*◌, ◌/◌, ◌^◌}
use mathlib.Core.Path.{◌≡◌}
use mathlib.Core.Bool.{Bool, true, not}
use mathlib.Core.Logic.{◌⊎◌}
use native.Mathlib.Omega.{arith}
use oseye_plateforme.Prelude.Tests.{leb as nat_leb, if◌then◌else◌}

pub record Floats : Type 1 where
  pub Float : Type 0
  pub leb : Float → Float → Bool
  -- a whole number, and the decimal `n / 10 ** k`
  pub lit : ℕ → Float
  pub decimal : ℕ → ℕ → Float
  pub add : Float → Float → Float
  pub sub : Float → Float → Float
  pub mul : Float → Float → Float
  pub div : Float → Float → Float
  pub leb_total : (a b : Float) → (leb a b ≡ true) ⊎ (leb b a ≡ true)
  pub leb_trans : (a b c : Float) → leb a b ≡ true → leb b c ≡ true → leb a c ≡ true
  pub leb_lit : (m n : ℕ) → leb (lit m) (lit n) ≡ nat_leb m n

module _ (f : Floats) where
  open f use {Float, leb, leb_total}

  -- `a < b`
  abbrev pub ltb : Float → Float → Bool
  ltb a b = not (leb b a)

  -- Python's `max(a, b)` and `min(a, b)` return the first of equal values.
  unfoldable pub max : Float → Float → Float
  max a b = if ltb a b then b else a

  unfoldable pub min : Float → Float → Float
  min a b = if ltb b a then b else a

-- Fixed-point thousandths meet the laws.
pub leb_lit_thousandths : (m n : ℕ) → nat_leb (m * 1000) (n * 1000) ≡ nat_leb m n
leb_lit_thousandths m n = ground arith

pub thousandths_total : (a b : ℕ) → (nat_leb a b ≡ true) ⊎ (nat_leb b a ≡ true)
thousandths_total a b = ground arith

pub thousandths_trans : (a b c : ℕ) → nat_leb a b ≡ true → nat_leb b c ≡ true → nat_leb a c ≡ true
thousandths_trans a b c p q = ground arith

abbrev pub thousandths : Floats
thousandths = record {
  Float = ℕ;
  leb = nat_leb;
  lit = λ n. n * 1000;
  decimal = λ n k. n * 1000 / 10 ^ k;
  add = λ a b. a + b;
  sub = λ a b. a - b;
  mul = λ a b. a * b / 1000;
  div = λ a b. a * 1000 / b;
  leb_total = thousandths_total;
  leb_trans = thousandths_trans;
  leb_lit = leb_lit_thousandths;
}

-- ===== src/ThreatIntel/Retry.antt =====
-- retry_async of server/oseye/threat_intel/retry.py. What the n-th call of the function brings, and
-- the n-th random number, are parameters.
pub mod Attempts
use oseye_plateforme.Prelude.{
  ℕ, zero, suc, ◌+◌, ◌||◌, Option, none, some, List, [], ◌∷◌, ltb, ◌==◌, if◌then◌else◌,
}
use oseye_plateforme.Prelude.Floats.{Floats}

-- How a call ends: with a value, an HTTP status error, one of the errors worth a retry, or another.
pub data Ended (A : Type 0) : Type 0 where
  gave : A → Ended A
  http_status : ℕ → Ended A
  retryable : Ended A
  unexpected : Ended A

module _ (f : Floats) {A : Type 0} (fn : ℕ → Ended A) (random : ℕ → f.Float) where
  open f use {Float, lit, decimal, add, mul}

  -- What the loop returns, how often it called, and how long it slept each time.
  pub record Retried : Type 0 where
    pub result : Option A
    pub calls : ℕ
    pub slept : List Float

  -- The delay after a sleep, with the random number that it draws.
  unfoldable pub next_delay : Float → Float → Float
  next_delay delay r = mul (mul delay (lit 2)) (add (decimal 5 1) (mul r (decimal 5 1)))

  abbrev pub stop : Option A → ℕ → Retried
  stop result calls = record { result = result; calls = calls; slept = [] }

  -- The attempts that are left, after `n` of them.
  unfoldable pub retry_from : ℕ → ℕ → Float → Retried
  unfolding next_delay
  retry_from zero n delay = stop none n
  retry_from (suc left) n delay =
      let rest = retry_from left (n + 1) (next_delay delay (random n)) in
      let again = record rest { slept = delay ∷ rest.slept } in
      elim (fn n) [
        | gave a ↦ stop (some a) (n + 1)
        | http_status status ↦ if ltb status 500 || (left == 0) then stop none (n + 1) else again
        | retryable ↦ if left == 0 then stop none (n + 1) else again
        | unexpected ↦ stop none (n + 1)
      ]

  unfoldable pub retry_async : ℕ → Float → Retried
  unfolding retry_from
  retry_async attempts base_delay = retry_from attempts 0 base_delay

-- ===== src/ThreatIntel/Retry/Attempts.antt =====
-- How often retry_async of server/oseye/threat_intel/retry.py calls, and what it returns.
use oseye_plateforme.Prelude.{
  ℕ, zero, suc, ◌+◌, ◌≤◌, ◌<◌, ◌≡◌, refl, Bool, true, false, not, Option, none, some, [], ◌∷◌,
  arith, ltb, Bool-cases, length, ℕ_discrete,
}
use oseye_plateforme.Prelude.Floats.{Floats}
use oseye_plateforme.ThreatIntel.Retry.{
  Ended, gave, http_status, retryable, unexpected, next_delay, retry_from, retry_async,
}

-- An ending that the loop goes on after, if attempts are left.
unfoldable pub is_transient : {A : Type 0} → Ended A → Bool
is_transient (gave a) = false
is_transient (http_status status) = not (ltb status 500)
is_transient retryable = true
is_transient unexpected = false

-- What an ending that is not worth a retry returns.
unfoldable pub value_of : {A : Type 0} → Ended A → Option A
value_of (gave a) = some a
value_of _ = none

module _ (f : Floats) {A : Type 0} (fn : ℕ → Ended A) (random : ℕ → f.Float) where
  open f use {Float}

  retry_from-stops :
      (left n : ℕ) (delay : Float)
      → is_transient (fn n) ≡ false
      → (let r = retry_from f fn random (suc left) n delay in
          (r.result ≡ value_of (fn n)) × ((r.calls ≡ n + 1) × (r.slept ≡ [])))
  unfolding retry_from is_transient value_of
  retry_from-stops left n delay e = ground arith

  retry_from-ends :
      (n : ℕ) (delay : Float)
      → is_transient (fn n) ≡ true
      → (let r = retry_from f fn random 1 n delay in
          (r.result ≡ none) × ((r.calls ≡ n + 1) × (r.slept ≡ [])))
  unfolding retry_from is_transient
  retry_from-ends n delay e = ground arith

  retry_from-goes_on :
      (left n : ℕ) (delay : Float)
      → is_transient (fn n) ≡ true
      → (let r = retry_from f fn random (suc (suc left)) n delay in
          let s =
            retry_from f fn random (suc left) (n + 1) (next_delay f fn random delay (random n)) in
          (r.result ≡ s.result) × ((r.calls ≡ s.calls) × (r.slept ≡ delay ∷ s.slept)))
  unfolding retry_from is_transient
  retry_from-goes_on left n delay e = ground arith

  retry_from-calls :
      (left n : ℕ) (delay : Float)
      → (let r = retry_from f fn random (suc left) n delay in
          (n < r.calls) × ((r.calls ≤ n + suc left) × (length r.slept + (n + 1) ≡ r.calls)))
  retry_from-calls zero n delay =
      ground (
        arith,
        Bool-cases (is_transient (fn n)),
        retry_from-ends n delay,
        retry_from-stops 0 n delay,
      )
  retry_from-calls (suc left) n delay = ground (
    arith,
    Bool-cases (is_transient (fn n)),
    retry_from-stops (suc left) n delay,
    retry_from-goes_on left n delay,
    retry_from-calls left (n + 1) (next_delay f fn random delay (random n)),
  )

  -- With at least one attempt, the function is called at least once and at most as often as there are attempts, whatever the
  -- calls bring, and between two calls there is one sleep.
  pub retry_async-calls :
      (attempts : ℕ) (base_delay : Float)
      → 0 < attempts
      → (let r = retry_async f fn random attempts base_delay in
          (0 < r.calls) × ((r.calls ≤ attempts) × (length r.slept + 1 ≡ r.calls)))
  unfolding retry_async
  retry_async-calls zero base_delay some_left = absurd (omega arith)
  retry_async-calls (suc left) base_delay some_left =
      ground (arith, retry_from-calls left 0 base_delay)

  stops_at :
      (left n : ℕ) (delay : Float)
      → is_transient (fn n) ≡ false
      → (let r = retry_from f fn random (suc left) n delay in
          (r.result ≡ value_of (fn n)) × (r.calls ≡ n + 1))
  stops_at left n delay e = let h = retry_from-stops left n delay e in (h.0, h.1.0)

  retry_from-first :
      (left n k : ℕ) (delay : Float)
      → n ≤ k
      → k < n + suc left
      → ((j : ℕ) → n ≤ j → j < k → is_transient (fn j) ≡ true)
      → is_transient (fn k) ≡ false
      → (let r = retry_from f fn random (suc left) n delay in
          (r.result ≡ value_of (fn k)) × (r.calls ≡ k + 1))
  retry_from-first zero n k delay from below again ended =
      let here : n ≡ k = omega arith in rw (← here) (stops_at 0 n delay (rw here ended))
  retry_from-first (suc left) n k delay from below again ended = elim (ℕ_discrete n k) [
    | yes here ↦ rw (← here) (stops_at (suc left) n delay (rw here ended))
    | no later ↦ ground (
      arith,
      retry_from-goes_on left n delay (again n (omega arith) (omega arith)),
      retry_from-first left (n + 1) k (next_delay f fn random delay (random n)) (omega arith)
          (omega arith) (λ j p q. again j (omega arith) q) ended,
    )
  ]

  retry_from-none :
      (left n : ℕ) (delay : Float)
      → ((j : ℕ) → n ≤ j → j < n + suc left → is_transient (fn j) ≡ true)
      → (let r = retry_from f fn random (suc left) n delay in
          (r.result ≡ none) × (r.calls ≡ n + suc left))
  retry_from-none zero n delay again =
      ground (arith, retry_from-ends n delay (again n (omega arith) (omega arith)))
  retry_from-none (suc left) n delay again = ground (
    arith,
    retry_from-goes_on left n delay (again n (omega arith) (omega arith)),
    retry_from-none left (n + 1) (next_delay f fn random delay (random n))
        (λ j p q. again j (omega arith) (omega arith)),
  )

  -- If the calls before the k-th are worth a retry, the k-th is not, and k is below the number of
  -- attempts, counted from zero: the loop returns the value that the k-th call gave, or nothing if
  -- it gave none, and calls no more.
  pub retry_async-first :
      (attempts k : ℕ) (base_delay : Float)
      → k < attempts
      → ((j : ℕ) → j < k → is_transient (fn j) ≡ true)
      → is_transient (fn k) ≡ false
      → (let r = retry_async f fn random attempts base_delay in
          (r.result ≡ value_of (fn k)) × (r.calls ≡ k + 1))
  unfolding retry_async
  retry_async-first zero k base_delay below again ended = absurd (omega arith)
  retry_async-first (suc left) k base_delay below again ended =
      retry_from-first left 0 k base_delay (omega arith) (omega arith) (λ j p q. again j q) ended

  -- If every attempt is worth a retry, the loop returns nothing, after all the attempts.
  pub retry_async-none :
      (attempts : ℕ) (base_delay : Float)
      → ((j : ℕ) → j < attempts → is_transient (fn j) ≡ true)
      → (let r = retry_async f fn random attempts base_delay in
          (r.result ≡ none) × (r.calls ≡ attempts))
  unfolding retry_async retry_from
  retry_async-none zero base_delay again = (refl, refl)
  retry_async-none (suc left) base_delay again =
      ground (arith, retry_from-none left 0 base_delay (λ j p q. again j (omega arith)))

-- ===== src/ThreatIntel/Breaker/Recovery.antt =====
-- When the circuit breaker of server/oseye/threat_intel/breaker.py refuses, trips and recovers.
use oseye_plateforme.Prelude.{
  ℕ, suc, ◌+◌, ◌-◌, ◌≤◌, ◌<◌, ◌≡◌, refl, ◌≢◌, ◌↔◌, ◌⊎◌, true, false, List, [], ◌∷◌, arith, length,
}
use oseye_plateforme.ThreatIntel.Breaker.{
  closed, open_, half_open, Breaker, refused, enter, on_failure, on_cancel, System, Event, arrive,
  fail, cancel, step, run, start,
}
use oseye_plateforme.ThreatIntel.Breaker.Invariant.{IsValid, IsHeld, run-IsHeld}

refused_iff :
    (now : ℕ) (b : Breaker)
    → IsValid b
    → ((enter now b).1 ≡ refused) ↔ (
        ((b.state ≡ open_) × (now < b.opened_at + b.reset_timeout))
        ⊎ ((b.state ≡ half_open) × (b.half_open_probe_in_flight ≡ true)))
unfolding enter
refused_iff now b h = (λ r. ground arith, λ r. ground arith)

-- In every interleaving, from a fresh breaker with a positive limit: a caller is refused exactly
-- when the circuit is open and the reset timeout has not passed since it opened, or when it is
-- half-open and its probe slot is taken.
pub enter-refused_iff :
    (fail_max reset_timeout : ℕ) (es : List Event) (now : ℕ)
    → 0 < fail_max
    → let b = (run es (start fail_max reset_timeout)).breaker in
      ((enter now b).1 ≡ refused) ↔ (
        ((b.state ≡ open_) × (now < b.opened_at + b.reset_timeout))
        ⊎ ((b.state ≡ half_open) × (b.half_open_probe_in_flight ≡ true)))
enter-refused_iff m r es now h = refused_iff now _ (run-IsHeld m r es h).valid

admits :
    (now : ℕ) (s : System)
    → IsHeld s
    → s.probes ≡ 0
    → s.breaker.opened_at + s.breaker.reset_timeout ≤ now
    → (enter now s.breaker).1 ≢ refused
unfolding enter
admits now s h none_running late = ground arith

-- The circuit recovers: in every interleaving from a fresh breaker with a positive limit,
-- cancelled calls included, once no probe is running and the reset timeout has passed, the next
-- caller is let through.
pub enter_recovers :
    (fail_max reset_timeout : ℕ) (es : List Event) (now : ℕ)
    → 0 < fail_max
    → (run es (start fail_max reset_timeout)).probes ≡ 0
    → (run es (start fail_max reset_timeout)).breaker.opened_at
        + (run es (start fail_max reset_timeout)).breaker.reset_timeout
      ≤ now
    → (enter now (run es (start fail_max reset_timeout)).breaker).1 ≢ refused
enter_recovers m r es now h = admits now _ (run-IsHeld m r es h)

-- Calls one after another, each failing at once, at the given times.
pub failures : List ℕ → List Event
failures [] = []
failures (t ∷ ts) = arrive t ∷ fail false t ∷ failures ts

-- One failed call on a closed circuit.
abbrev after_failure : ℕ → System → System
after_failure t s = step (fail false t) (step (arrive t) s)

-- A closed circuit with `k` failures out of `m`.
abbrev IsCounted : ℕ → ℕ → System → Type 0
IsCounted m k s =
    (s.breaker.state ≡ closed) × (s.breaker.failure_count ≡ k) × (s.breaker.fail_max ≡ m)

failure-IsCounted :
    (m k t : ℕ) (s : System) → IsCounted m k s → k + 1 < m → IsCounted m (k + 1) (after_failure t s)
unfolding step enter on_failure
failure-IsCounted m k t s h few = ground arith

failure_trips :
    (m k t : ℕ) (s : System)
    → IsCounted m k s
    → k + 1 ≡ m
    → ((after_failure t s).breaker.state ≡ open_) × ((after_failure t s).breaker.opened_at ≡ t)
unfolding step enter on_failure
failure_trips m k t s h last = ground arith

trips :
    (ts : List ℕ) (m k t : ℕ) (s : System)
    → IsCounted m k s
    → k + length ts + 1 ≡ m
    → let s' = run (failures ts) s in
      (s'.breaker.state ≡ closed)
      × ((after_failure t s').breaker.state ≡ open_)
      × ((after_failure t s').breaker.opened_at ≡ t)
unfolding run failures
trips [] m k t s h last = let p = failure_trips m k t s h (omega arith) in (h.0, p.0, p.1)
trips (x ∷ ts) m k t s h last =
    trips ts m (k + 1) t (after_failure x s) (failure-IsCounted m k x s h (omega arith))
      (omega arith)

-- The limit is exact: on a fresh breaker, one failed call fewer than the limit leaves the circuit
-- closed, and the next failed call, at time `t`, opens it with `t` as its opening time.
pub run-failures_trips :
    (ts : List ℕ) (t reset_timeout : ℕ)
    → let s = run (failures ts) (start (length ts + 1) reset_timeout) in
      (s.breaker.state ≡ closed)
      × ((step (fail false t) (step (arrive t) s)).breaker.state ≡ open_)
      × ((step (fail false t) (step (arrive t) s)).breaker.opened_at ≡ t)
run-failures_trips ts t r =
    trips ts (length ts + 1) 0 t (start (length ts + 1) r) (refl, refl, refl) (omega arith)

-- A call that came in before the circuit opened, and is cancelled while a probe runs in the
-- half-open circuit, frees the probe's slot: the next caller becomes a second probe.
pub cancel_admits_second_probe :
    (s : System) (now : ℕ)
    → s.breaker.state ≡ half_open
    → s.breaker.half_open_probe_in_flight ≡ true
    → 0 < s.plains
    → (step (arrive now) (step (cancel false) s)).probes ≡ s.probes + 1
unfolding step enter on_cancel
cancel_admits_second_probe s now half taken old =
    let e : s.plains ≡ suc (s.plains - 1) = omega arith in rw e (ground arith)

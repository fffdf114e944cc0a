-- ===== src/ThreatIntel/Breaker/Invariant.antt =====
-- What holds of the circuit breaker of server/oseye/threat_intel/breaker.py in every
-- interleaving of its calls.
use oseye_plateforme.Prelude.{
  inl, ltb, ◌⊎◌, ℕ, zero, suc, refl, ◌<◌, ◌≡◌, Bool, true, false, List, [], ◌∷◌, arith,
}
use oseye_plateforme.ThreatIntel.Breaker.{
  State, closed, half_open, Breaker, enter, on_failure, on_success, on_cancel, System, Event,
  arrive, fail, succeed, cancel, admit, leave, step, run, start,
}

abbrev is_closed : State → Bool
is_closed closed = true
is_closed _ = false

-- The circuit is closed exactly while the failures stay under the limit, and the probe slot is
-- taken only in a half-open circuit.
pub record IsValid (b : Breaker) : Type 0 where
  pub limit : 0 < b.fail_max
  pub counted : is_closed b.state ≡ ltb b.failure_count b.fail_max
  pub slot : (b.half_open_probe_in_flight ≡ false) ⊎ (b.state ≡ half_open)

pub enter-IsValid : (now : ℕ) (b : Breaker) → IsValid b → IsValid (enter now b).0
unfolding enter
enter-IsValid now b h = ground arith

on_failure-IsValid : (now : ℕ) (b : Breaker) → IsValid b → IsValid (on_failure now b)
unfolding on_failure
on_failure-IsValid now b h = ground arith

on_success-IsValid : (b : Breaker) → IsValid b → IsValid (on_success b)
unfolding on_success
on_success-IsValid b h = ground arith

on_cancel-IsValid : (b : Breaker) → IsValid b → IsValid (on_cancel b)
unfolding on_cancel
on_cancel-IsValid b h = ground arith

-- A taken slot belongs to a probe that is still running, so that its end frees the slot.
pub record IsHeld (s : System) : Type 0 where
  pub valid : IsValid s.breaker
  pub held : (s.breaker.half_open_probe_in_flight ≡ false) ⊎ (0 < s.probes)

leave-IsHeld :
    (kind : Bool) (b : Breaker) (n m : ℕ) (s : System)
    → s.plains ≡ n
    → s.probes ≡ m
    → b.half_open_probe_in_flight ≡ false
    → IsValid b
    → IsHeld s
    → IsHeld (leave kind b n m s)
leave-IsHeld true b n zero s p q off v h = h
leave-IsHeld true b n (suc m) s p q off v h = record { valid = v; held = inl off }
leave-IsHeld false b zero m s p q off v h = h
leave-IsHeld false b (suc n) m s p q off v h = record { valid = v; held = inl off }

slot-on_failure : (now : ℕ) (b : Breaker) → (on_failure now b).half_open_probe_in_flight ≡ false
unfolding on_failure
slot-on_failure now b = ground arith

slot-on_success : (b : Breaker) → (on_success b).half_open_probe_in_flight ≡ false
unfolding on_success
slot-on_success b = ground arith

slot-on_cancel : (b : Breaker) → IsValid b → (on_cancel b).half_open_probe_in_flight ≡ false
unfolding on_cancel
slot-on_cancel b h = ground arith

arrive-IsHeld :
    (now : ℕ) (s : System)
    → IsHeld s
    → IsValid (enter now s.breaker).0
    → IsHeld (admit (enter now s.breaker) s)
unfolding enter
arrive-IsHeld now s h v = ground arith

step-IsHeld : (e : Event) (s : System) → IsHeld s → IsHeld (step e s)
unfolding step
step-IsHeld (arrive now) s h = arrive-IsHeld now s h (enter-IsValid now s.breaker h.valid)
step-IsHeld (fail k now) s h =
    leave-IsHeld k (on_failure now s.breaker) s.plains s.probes s refl refl
      (slot-on_failure now s.breaker) (on_failure-IsValid now s.breaker h.valid) h
step-IsHeld (succeed k) s h =
    leave-IsHeld k (on_success s.breaker) s.plains s.probes s refl refl (slot-on_success s.breaker)
      (on_success-IsValid s.breaker h.valid) h
step-IsHeld (cancel k) s h =
    leave-IsHeld k (on_cancel s.breaker) s.plains s.probes s refl refl
      (slot-on_cancel s.breaker h.valid) (on_cancel-IsValid s.breaker h.valid) h

run_keeps : (es : List Event) (s : System) → IsHeld s → IsHeld (run es s)
unfolding run
run_keeps [] s h = h
run_keeps (e ∷ es) s h = run_keeps es (step e s) (step-IsHeld e s h)

start-IsValid : (m r : ℕ) → 0 < m → IsValid (start m r).breaker
start-IsValid m r h = ground arith

-- In every interleaving of calls, from a fresh breaker with a positive limit: the circuit is
-- closed exactly while fewer failures than the limit are counted, the probe slot is taken only in
-- a half-open circuit, and a taken slot belongs to a probe call that has not ended yet.
pub run-IsHeld :
    (fail_max reset_timeout : ℕ) (es : List Event)
    → 0 < fail_max
    → IsHeld (run es (start fail_max reset_timeout))
run-IsHeld m r es h =
    run_keeps es (start m r) (record { valid = start-IsValid m r h; held = inl refl })

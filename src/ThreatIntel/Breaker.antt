-- ===== src/ThreatIntel/Breaker.antt =====
-- AsyncCircuitBreaker of server/oseye/threat_intel/breaker.py. The coroutine `call` is cut at its
-- only suspension point, the await of the provider: each part runs without a switch of tasks,
-- since nothing is awaited while the lock is held. Times are whole ticks of the monotonic clock.
pub mod Invariant
pub mod Recovery
use oseye_plateforme.Prelude.{
  ℕ, suc, ◌+◌, Bool, true, false, ◌||◌, List, [], ◌∷◌, leb, if◌then◌else◌,
}

pub data State : Type 0 where
  closed open_ half_open : State

pub record Breaker : Type 0 where
  pub fail_max : ℕ
  pub reset_timeout : ℕ
  pub state : State
  pub failure_count : ℕ
  pub opened_at : ℕ
  pub half_open_probe_in_flight : Bool

-- `__init__`
abbrev pub init : ℕ → ℕ → Breaker
init fail_max reset_timeout = record {
  fail_max = fail_max;
  reset_timeout = reset_timeout;
  state = closed;
  failure_count = 0;
  opened_at = 0;
  half_open_probe_in_flight = false;
}

abbrev pub is_half_open : State → Bool
is_half_open half_open = true
is_half_open _ = false

abbrev pub is_open : State → Bool
is_open open_ = true
is_open _ = false

-- What `call` does with a caller: refused by `CircuitOpenError`, or let through, as a plain call
-- or as the probe of a half-open circuit.
pub data Verdict : Type 0 where
  refused plain probe : Verdict

-- The test of the half-open slot, the second `if` under the lock.
unfoldable pub take_slot : Breaker → Breaker × Verdict
take_slot b =
    if is_half_open b.state
    then (if b.half_open_probe_in_flight
        then (b, refused)
        else (record b { half_open_probe_in_flight = true }, probe))
    else (b, plain)

-- The part of `call` before the provider is awaited. `now - opened_at >= reset_timeout`
-- is written with a sum, so that it does not depend on the truncated difference.
unfoldable pub enter : ℕ → Breaker → Breaker × Verdict
unfolding take_slot
enter now b =
    if is_open b.state
    then (if leb (b.opened_at + b.reset_timeout) now
        then take_slot (record b { state = half_open })
        else (b, refused))
    else take_slot b

-- The `finally` clause, which every way out of the provider call passes.
unfoldable pub release : Breaker → Breaker
release b = if is_half_open b.state then record b { half_open_probe_in_flight = false } else b

-- The `except Exception` clause under the lock, and then `finally`.
unfoldable pub on_failure : ℕ → Breaker → Breaker
unfolding release
on_failure now b =
    let count = b.failure_count + 1 in
    release (
      if is_half_open b.state || leb b.fail_max count
      then record b {
        state = open_;
        failure_count = count;
        opened_at = if is_open b.state then b.opened_at else now;
        half_open_probe_in_flight = false;
      }
      else record b { failure_count = count; half_open_probe_in_flight = false })

-- The `else` clause under the lock, and then `finally`.
unfoldable pub on_success : Breaker → Breaker
unfolding release
on_success b =
    release (record b { state = closed; failure_count = 0; half_open_probe_in_flight = false })

-- A cancelled provider call (`CancelledError` is no `Exception`) runs `finally` alone.
unfoldable pub on_cancel : Breaker → Breaker
unfolding release
on_cancel b = release b

-- The breaker with the calls that wait for the provider: how many came in as plain calls, and
-- how many as probes.
pub record System : Type 0 where
  pub breaker : Breaker
  pub plains : ℕ
  pub probes : ℕ

-- One atomic part of one task. A call that ends is named by how it came in; an end when there
-- is no such call is no step.
pub data Event : Type 0 where
  arrive : ℕ → Event
  fail : Bool → ℕ → Event
  succeed cancel : Bool → Event

abbrev pub admit : Breaker × Verdict → System → System
admit (b, refused) s = record s { breaker = b }
admit (b, plain) s = record s { breaker = b; plains = s.plains + 1 }
admit (b, probe) s = record s { breaker = b; probes = s.probes + 1 }

-- The call that ends leaves the count of its kind; `true` names a probe.
abbrev pub leave : Bool → Breaker → ℕ → ℕ → System → System
leave true b plains (suc n) s = record s { breaker = b; probes = n }
leave false b (suc n) probes s = record s { breaker = b; plains = n }
leave _ b plains probes s = s

unfoldable pub step : Event → System → System
step (arrive now) s = admit (enter now s.breaker) s
step (fail kind now) s = leave kind (on_failure now s.breaker) s.plains s.probes s
step (succeed kind) s = leave kind (on_success s.breaker) s.plains s.probes s
step (cancel kind) s = leave kind (on_cancel s.breaker) s.plains s.probes s

-- Any interleaving of calls is a list of such parts.
unfoldable pub run : List Event → System → System
run [] s = s
run (e ∷ es) s = run es (step e s)

abbrev pub start : ℕ → ℕ → System
start fail_max reset_timeout = record {
  breaker = init fail_max reset_timeout;
  plains = 0;
  probes = 0;
}

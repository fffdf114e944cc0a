-- ===== src/Tests/Intel.antt =====
-- Runs of the circuit breaker and of the report cache of server/oseye/threat_intel.
use oseye_plateforme.Prelude.{◌≡◌, refl, ◌≢◌, true, false, List, [], ◌∷◌, arith}
use oseye_plateforme.ThreatIntel.Breaker.{
  half_open, refused, init as new_breaker, enter, take_slot, release, on_failure, on_cancel, System,
  Event, arrive, fail, cancel, step, run, start,
}
use oseye_plateforme.ThreatIntel.Breaker.Invariant.{IsHeld, run-IsHeld}
use oseye_plateforme.ThreatIntel.Breaker.Recovery.{enter_recovers, cancel_admits_second_probe}

-- Two failures open the circuit, a probe starts and is cancelled.
abbrev cancelled_probe : List Event
cancelled_probe = arrive 0 ∷ fail false 1 ∷ arrive 2 ∷ fail false 3 ∷ arrive 40 ∷ cancel true ∷ []

run-IsHeld_example : IsHeld (run cancelled_probe (start 2 30))
run-IsHeld_example = run-IsHeld 2 30 cancelled_probe (omega arith)

enter_recovers_example : (enter 50 (run cancelled_probe (start 2 30)).breaker).1 ≢ refused
unfolding run step enter take_slot on_failure on_cancel release
enter_recovers_example = enter_recovers 2 30 cancelled_probe 50 (omega arith) refl (omega arith)

-- A probe runs beside a call that came in before the circuit opened.
abbrev straggler : System
straggler = record {
  breaker = record (new_breaker 1 30) {
    state = half_open;
    failure_count = 1;
    half_open_probe_in_flight = true;
  };
  plains = 1;
  probes = 1;
}

cancel_admits_second_probe_example : (step (arrive 50) (step (cancel false) straggler)).probes ≡ 2
cancel_admits_second_probe_example = cancel_admits_second_probe straggler 50 refl refl (omega arith)

-- ===== src/Tests/Delivering.antt =====
-- Witnesses for the event bus.
use oseye_plateforme.Prelude.{
  ℕ, ◌≡◌, refl, Bool, false, List, [], ◌∷◌, ◌++◌, String, arith, ℕ_discrete,
}
use oseye_plateforme.Bus.{EventBus, Step, publishes, subscribes, reads, leaves}
use oseye_plateforme.Bus.Delivery.{run_steps, sent, got, Holds, run_steps-Holds}

abbrev match_none : String → String → Bool
match_none topic pattern = false

-- Queue 1 belongs to the topic of commands and is empty.
abbrev bus : EventBus ℕ
bus = record {
  topic_queues = (1, record { topic = "commands"; waiting = [] }) ∷ [];
  pattern_queues = [];
  closed = false;
}

abbrev steps : List (Step ℕ match_none)
steps =
    publishes "commands" 10
    ∷ subscribes 2 "commands"
    ∷ publishes "alerts" 11
    ∷ reads 1
    ∷ publishes "commands" 12
    ∷ leaves 2
    ∷ []

run_steps-Holds_example :
    (rest : List ℕ) × (Holds ℕ match_none 1 "commands" rest (run_steps ℕ match_none steps bus)
      × (sent ℕ match_none "commands" steps ≡ got ℕ match_none 1 steps bus ++ rest))
unfolding ℕ_discrete
run_steps-Holds_example =
    run_steps-Holds ℕ match_none 1 "commands" [] steps bus
      (tt, ((λ e. omega arith), (tt, (tt, (tt, ((λ e. omega arith), tt)))))) (refl, refl)

-- ===== src/Bus/Delivery.antt =====
-- What the readers of server/oseye/bus/memory_bus.py get.
use oseye_plateforme.Prelude.{
  ℕ, ◌≡◌, refl, sym, ap, ◌∙◌, ◌≢◌, ite, Bool, false, Option, none, some, List, [], ◌∷◌, ◌++◌, map,
  String, arith, str_dec, All, Dict, lookup, insert, lookup-insert_self, lookup-insert_ne,
  lookup-erase_ne, ℕ_discrete,
}
use mathlib.Core.Path.{subst}
use mathlib.Core.List.{append-nil, append_assoc}
use oseye_plateforme.Bus.{
  TopicQueue, EventBus, put_topic, put_topics, read_from, read_bytes, read_tuples, read_tuples_from,
  subscribe, subscribe_pattern, leave, leave_pattern, publish, Step, publishes, subscribes,
  subscribes_pattern, reads, reads_pattern, leaves, leaves_pattern, take_step,
}

module _ (Payload : Type 0) (fnmatch : String → String → Bool) where
  unfoldable pub run_steps : List (Step Payload fnmatch) → EventBus Payload → EventBus Payload
  unfolding take_step
  run_steps [] b = b
  run_steps (s ∷ ss) b = run_steps ss (take_step Payload fnmatch s b).0

  -- The messages of a topic that a step publishes, and those that a step hands to a reader.
  unfoldable pub sent_by : String → Step Payload fnmatch → List Payload
  sent_by topic (publishes t m) = ite (str_dec topic t) (m ∷ []) []
  sent_by topic _ = []

  abbrev pub to_list : Option Payload → List Payload
  to_list none = []
  to_list (some m) = m ∷ []

  unfoldable pub got_by : ℕ → Step Payload fnmatch → Option Payload → List Payload
  got_by i (reads j) o = ite (ℕ_discrete i j) (to_list o) []
  got_by i _ o = []

  unfoldable pub sent : String → List (Step Payload fnmatch) → List Payload
  unfolding sent_by
  sent topic [] = []
  sent topic (s ∷ ss) = sent_by topic s ++ sent topic ss

  unfoldable pub got : ℕ → List (Step Payload fnmatch) → EventBus Payload → List Payload
  unfolding got_by take_step
  got i [] b = []
  got i (s ∷ ss) b =
      let done = take_step Payload fnmatch s b in got_by i s done.1 ++ got i ss done.0

  -- The number stays with the queue: no step leaves it or takes it for another queue.
  abbrev pub Spares : ℕ → Step Payload fnmatch → Type 0
  Spares i (subscribes j topic) = i ≢ j
  Spares i (leaves j) = i ≢ j
  Spares i _ = Unit

  -- The bus is open, and the queue of a topic holds the messages.
  abbrev pub Holds : ℕ → String → List Payload → EventBus Payload → Type 0
  Holds i topic held b =
      (b.closed ≡ false)
      × (lookup ℕ_discrete i b.topic_queues
          ≡ some (record { topic = topic; waiting = map some held }))

  lookup-put_topics :
      (i : ℕ) (t : String) (m : Payload) (q : TopicQueue Payload) (qs : Dict ℕ (TopicQueue Payload))
      → lookup ℕ_discrete i qs ≡ some q
      → lookup ℕ_discrete i (put_topics Payload t m qs) ≡ some (put_topic Payload t m q)
  unfolding put_topics
  lookup-put_topics i t m q [] e = cc
  lookup-put_topics i t m q ((j, r) ∷ qs) e =
      elim (ℕ_discrete i j)
          as (λ d.
            ite d (some r) (lookup ℕ_discrete i qs) ≡ some q
            → ite d (some (put_topic Payload t m r))
                (lookup ℕ_discrete i (put_topics Payload t m qs))
              ≡ some (put_topic Payload t m q)) [
                | yes p ↦ λ same. cc
                | no n ↦ λ later. lookup-put_topics i t m q qs later
              ]
        e

  map_snoc :
      (held : List Payload) (m : Payload)
      → map (λ x. some x) held ++ some m ∷ [] ≡ map (λ x. some x) (held ++ m ∷ [])
  map_snoc [] m = refl
  map_snoc (h ∷ hs) m = ap (λ r. some h ∷ r) (map_snoc hs m)

  -- The next state of a queue, with what came in and what went out.
  abbrev Moves : ℕ → String → List Payload → Step Payload fnmatch → EventBus Payload → Type 0
  Moves i topic held s b =
      (rest : List Payload) × (Holds i topic rest (take_step Payload fnmatch s b).0
        × (held ++ sent_by topic s ≡ got_by i s (take_step Payload fnmatch s b).1 ++ rest))

  abbrev queue_of : String → List (Option Payload) → TopicQueue Payload
  queue_of topic waiting = record { topic = topic; waiting = waiting }

  put_topic-held :
      (topic t : String) (m : Payload) (held : List Payload) (d : Dec (topic ≡ t))
      → ite d
          (queue_of topic (map (λ x. some x) held ++ some m ∷ []))
          (queue_of topic (map (λ x. some x) held))
        ≡ queue_of topic (map (λ x. some x) (held ++ ite d (m ∷ []) []))
  put_topic-held topic t m held (yes p) = ap (queue_of topic) (map_snoc held m)
  put_topic-held topic t m held (no n) =
      ap (λ (hs : List Payload). queue_of topic (map (λ x. some x) hs)) (sym (append-nil held))

  publish_open :
      (t : String) (m : Payload) (b : EventBus Payload)
      → b.closed ≡ false
      → ((publish Payload fnmatch t m b).closed ≡ false)
        × ((publish Payload fnmatch t m b).topic_queues ≡ put_topics Payload t m b.topic_queues)
  unfolding publish
  publish_open t m b e = ground arith

  publishes-Moves :
      (i : ℕ) (topic t : String) (m : Payload) (held : List Payload) (b : EventBus Payload)
      → Holds i topic held b
      → Moves i topic held (publishes t m) b
  unfolding take_step sent_by got_by
  publishes-Moves i topic t m held b (open_bus, e) =
      let (still, queues) = publish_open t m b open_bus in
      (
        held ++ ite (str_dec topic t) (m ∷ []) [],
        (
          (
            still,
            ap (lookup ℕ_discrete i) queues
                ∙ lookup-put_topics i t m _ b.topic_queues e
                ∙ ap some (put_topic-held topic t m held (str_dec topic t)),
          ),
          refl,
        ),
      )

  -- A step that neither publishes nor hands anything to the reader, and leaves its queue.
  quiet-Moves :
      (i : ℕ) (topic : String) (held : List Payload) (b after : EventBus Payload)
      → Holds i topic held b
      → after.closed ≡ b.closed
      → lookup ℕ_discrete i after.topic_queues ≡ lookup ℕ_discrete i b.topic_queues
      → (rest : List Payload) × (Holds i topic rest after × (held ++ [] ≡ rest))
  quiet-Moves i topic held b after (open_bus, e) same_state same_queue =
      (held, ((same_state ∙ open_bus, same_queue ∙ e), append-nil held))

  read_empty :
      (i : ℕ) (topic : String) (b : EventBus Payload)
      → b.closed ≡ false
      → lookup ℕ_discrete i b.topic_queues ≡ some (queue_of topic [])
      → read_bytes Payload i b ≡ (b, none)
  unfolding read_bytes read_from
  read_empty i topic b open_bus e = ground arith

  read_first :
      (i : ℕ) (topic : String) (m : Payload) (rest : List (Option Payload)) (b : EventBus Payload)
      → b.closed ≡ false
      → lookup ℕ_discrete i b.topic_queues ≡ some (queue_of topic (some m ∷ rest))
      → read_bytes Payload i b ≡ (
        record b { topic_queues = insert ℕ_discrete i (queue_of topic rest) b.topic_queues },
        some m,
      )
  unfolding read_bytes read_from
  read_first i topic m rest b open_bus e = ground arith

  own_read-Moves :
      (i : ℕ) (topic : String) (held : List Payload) (b : EventBus Payload)
      → Holds i topic held b
      → (rest : List Payload) × (Holds i topic rest (read_bytes Payload i b).0
          × (held ++ [] ≡ to_list (read_bytes Payload i b).1 ++ rest))
  own_read-Moves i topic [] b (open_bus, e) =
      ([], rw (read_empty i topic b open_bus e) ((open_bus, e), refl))
  own_read-Moves i topic (m ∷ rest) b (open_bus, e) = (
    rest,
    rw (read_first i topic m (map (λ x. some x) rest) b open_bus e)
        ((open_bus, lookup-insert_self ℕ_discrete i _ b.topic_queues), append-nil (m ∷ rest)),
  )

  other_read_from :
      (i j : ℕ) (o : Option (TopicQueue Payload)) (b : EventBus Payload)
      → i ≢ j
      → ((read_from Payload j o b).0.closed ≡ b.closed)
        × (lookup ℕ_discrete i (read_from Payload j o b).0.topic_queues
            ≡ lookup ℕ_discrete i b.topic_queues)
  unfolding read_from leave
  other_read_from i j none b n = (refl, refl)
  other_read_from i j (some q) b n =
      elim q.waiting
        as (λ w.
          ((read_from Payload j (some (queue_of q.topic w)) b).0.closed ≡ b.closed)
          × (lookup ℕ_discrete i (read_from Payload j (some (queue_of q.topic w)) b).0.topic_queues
              ≡ lookup ℕ_discrete i b.topic_queues)) [
                | [] ↦ (refl, refl)
                | none ∷ rest ↦ (refl, lookup-erase_ne ℕ_discrete i j b.topic_queues n)
                | some m ∷ rest ↦ (refl, lookup-insert_ne ℕ_discrete i j _ b.topic_queues n)
              ]

  other_read :
      (i j : ℕ) (b : EventBus Payload)
      → i ≢ j
      → b.closed ≡ false
      → ((read_bytes Payload j b).0.closed ≡ b.closed)
        × (lookup ℕ_discrete i (read_bytes Payload j b).0.topic_queues
            ≡ lookup ℕ_discrete i b.topic_queues)
  unfolding read_bytes
  other_read i j b n open_bus =
      ground (arith, other_read_from i j (lookup ℕ_discrete j b.topic_queues) b n)

  pattern_read :
      (j : ℕ) (b : EventBus Payload)
      → ((read_tuples Payload j b).0.closed ≡ b.closed)
        × ((read_tuples Payload j b).0.topic_queues ≡ b.topic_queues)
  unfolding read_tuples read_tuples_from leave_pattern
  pattern_read j b = ground arith

  take_step-Moves :
      (i : ℕ) (topic : String) (held : List Payload) (s : Step Payload fnmatch)
      (b : EventBus Payload)
      → Spares i s
      → Holds i topic held b
      → Moves i topic held s b
  unfolding take_step sent_by got_by subscribe subscribe_pattern leave leave_pattern
  take_step-Moves i topic held (publishes t m) b spared h = publishes-Moves i topic t m held b h
  take_step-Moves i topic held (subscribes j t) b spared h =
      quiet-Moves i topic held b (take_step Payload fnmatch (subscribes j t) b).0 h refl
        (lookup-insert_ne ℕ_discrete i j _ b.topic_queues spared)
  take_step-Moves i topic held (subscribes_pattern j t) b spared h =
      quiet-Moves i topic held b (take_step Payload fnmatch (subscribes_pattern j t) b).0 h refl
        refl
  take_step-Moves i topic held (reads j) b spared h =
      elim (ℕ_discrete i j)
        as (λ d.
          (rest : List Payload) × (Holds i topic rest (read_bytes Payload j b).0
            × (held ++ [] ≡ ite d (to_list (read_bytes Payload j b).1) [] ++ rest))) [
              | yes p ↦
                  subst
                    (λ (k : ℕ).
                      (rest : List Payload) × (Holds i topic rest (read_bytes Payload k b).0
                        × (held ++ [] ≡ to_list (read_bytes Payload k b).1 ++ rest)))
                    p (own_read-Moves i topic held b h)
              | no n ↦
                  let (same_state, same_queue) = other_read i j b n h.0 in
                  quiet-Moves i topic held b (read_bytes Payload j b).0 h same_state same_queue
            ]
  take_step-Moves i topic held (reads_pattern j) b spared h =
      let (same_state, same_queues) = pattern_read j b in
      quiet-Moves i topic held b (read_tuples Payload j b).0 h same_state
        (ap (lookup ℕ_discrete i) same_queues)
  take_step-Moves i topic held (leaves j) b spared h =
      quiet-Moves i topic held b (take_step Payload fnmatch (leaves j) b).0 h refl
        (lookup-erase_ne ℕ_discrete i j b.topic_queues spared)
  take_step-Moves i topic held (leaves_pattern j) b spared h =
      quiet-Moves i topic held b (take_step Payload fnmatch (leaves_pattern j) b).0 h refl refl

  -- If a queue of a topic on an open bus holds some messages, and its reader neither leaves nor
  -- shares its number with another: after any interleaving of publications, subscriptions and reads,
  -- what the reader got, and then what the queue holds, are the held messages and then those
  -- published on the topic, each once and in order.
  pub run_steps-Holds :
      (i : ℕ) (topic : String) (held : List Payload) (ss : List (Step Payload fnmatch))
      (b : EventBus Payload)
      → All (Spares i) ss
      → Holds i topic held b
      → (rest : List Payload) × (Holds i topic rest (run_steps ss b)
          × (held ++ sent topic ss ≡ got i ss b ++ rest))
  unfolding run_steps sent got
  run_steps-Holds i topic held [] b spared h = (held, (h, append-nil held))
  run_steps-Holds i topic held (s ∷ ss) b spared h =
      let (next, (holds, balance)) = take_step-Moves i topic held s b spared.0 h in
      let (rest, (ends, later)) =
        run_steps-Holds i topic next ss (take_step Payload fnmatch s b).0 spared.1 holds in
      let out = got_by i s (take_step Payload fnmatch s b).1 in
      (
        rest,
        (
          ends,
          sym (append_assoc held (sent_by topic s) (sent topic ss))
              ∙ ap (λ (es : List Payload). es ++ sent topic ss) balance
              ∙ append_assoc out next (sent topic ss)
              ∙ ap (λ (es : List Payload). out ++ es) later
              ∙ sym (append_assoc out (got i ss (take_step Payload fnmatch s b).0) rest),
        ),
      )

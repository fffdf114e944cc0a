-- ===== src/Bus.antt =====
-- InMemoryEventBus of server/oseye/bus/memory_bus.py. A queue is named by a number, as by its
-- `id`. `fnmatch` is a parameter.
pub mod Delivery
use oseye_plateforme.Prelude.{
  ℕ, ite, Bool, true, Option, none, some, List, [], ◌∷◌, ◌++◌, String, if◌then◌else◌, str_dec, Dict,
  lookup, insert, erase, ℕ_discrete,
}

module _ (Payload : Type 0) where
  -- A queue of a topic, and one of a pattern; `none` is the sentinel of `close`.
  pub record TopicQueue : Type 0 where
    pub topic : String
    pub waiting : List (Option Payload)

  pub record PatternQueue : Type 0 where
    pub pattern : String
    pub waiting : List (Option (String × Payload))

  pub record EventBus : Type 0 where
    pub topic_queues : Dict ℕ TopicQueue
    pub pattern_queues : Dict ℕ PatternQueue
    pub closed : Bool

  abbrev pub put_topic : String → Payload → TopicQueue → TopicQueue
  put_topic topic message q =
      ite (str_dec q.topic topic) (record q { waiting = q.waiting ++ some message ∷ [] }) q

  unfoldable pub put_topics : String → Payload → Dict ℕ TopicQueue → Dict ℕ TopicQueue
  put_topics topic message [] = []
  put_topics topic message ((i, q) ∷ qs) =
      (i, put_topic topic message q) ∷ put_topics topic message qs

  unfoldable pub put_patterns :
      (String → String → Bool) → String → Payload → Dict ℕ PatternQueue → Dict ℕ PatternQueue
  put_patterns fnmatch topic message [] = []
  put_patterns fnmatch topic message ((i, q) ∷ qs) =
      (
        i,
        (if fnmatch topic q.pattern
            then record q { waiting = q.waiting ++ some (topic, message) ∷ [] }
            else q),
      )
      ∷ put_patterns fnmatch topic message qs

  -- The sentinel goes into every queue.
  unfoldable pub wake_topics : Dict ℕ TopicQueue → Dict ℕ TopicQueue
  wake_topics [] = []
  wake_topics ((i, q) ∷ qs) = (i, record q { waiting = q.waiting ++ none ∷ [] }) ∷ wake_topics qs

  unfoldable pub wake_patterns : Dict ℕ PatternQueue → Dict ℕ PatternQueue
  wake_patterns [] = []
  wake_patterns ((i, q) ∷ qs) =
      (i, record q { waiting = q.waiting ++ none ∷ [] }) ∷ wake_patterns qs

  -- `close`
  unfoldable pub close_bus : EventBus → EventBus
  unfolding wake_topics wake_patterns
  close_bus b = record {
    topic_queues = wake_topics b.topic_queues;
    pattern_queues = wake_patterns b.pattern_queues;
    closed = true;
  }

  -- `subscribe` and `subscribe_pattern`, with the number of a queue that is not in use.
  unfoldable pub subscribe : ℕ → String → EventBus → EventBus
  subscribe i topic b = record b {
    topic_queues = insert ℕ_discrete i (record { topic = topic; waiting = [] }) b.topic_queues;
  }

  unfoldable pub subscribe_pattern : ℕ → String → EventBus → EventBus
  subscribe_pattern i pattern b = record b {
    pattern_queues =
        insert ℕ_discrete i (record { pattern = pattern; waiting = [] }) b.pattern_queues;
  }

  -- The end of a reader of a topic or of a pattern
  unfoldable pub leave : ℕ → EventBus → EventBus
  leave i b = record b { topic_queues = erase ℕ_discrete i b.topic_queues }

  unfoldable pub leave_pattern : ℕ → EventBus → EventBus
  leave_pattern i b = record b { pattern_queues = erase ℕ_discrete i b.pattern_queues }

  -- One round of `_read_bytes`, from the queue that was found: the message that it yields.
  unfoldable pub read_from : ℕ → Option TopicQueue → EventBus → EventBus × Option Payload
  unfolding leave
  read_from i none b = (b, none)
  read_from i (some q) b = elim q.waiting [
    | [] ↦ (b, none)
    | none ∷ rest ↦ (leave i b, none)
    | some message ∷ rest ↦ (
      record b { topic_queues = insert ℕ_discrete i (record q { waiting = rest }) b.topic_queues },
      some message,
    )
  ]

  unfoldable pub read_bytes : ℕ → EventBus → EventBus × Option Payload
  unfolding read_from
  read_bytes i b =
      if b.closed then (leave i b, none) else read_from i (lookup ℕ_discrete i b.topic_queues) b

  -- The same of `_read_tuples`
  unfoldable pub read_tuples_from :
      ℕ → Option PatternQueue → EventBus → EventBus × Option (String × Payload)
  unfolding leave_pattern
  read_tuples_from i none b = (b, none)
  read_tuples_from i (some q) b = elim q.waiting [
    | [] ↦ (b, none)
    | none ∷ rest ↦ (leave_pattern i b, none)
    | some message ∷ rest ↦ (
      record b {
        pattern_queues = insert ℕ_discrete i (record q { waiting = rest }) b.pattern_queues;
      },
      some message,
    )
  ]

  unfoldable pub read_tuples : ℕ → EventBus → EventBus × Option (String × Payload)
  unfolding read_tuples_from
  read_tuples i b =
      if b.closed
      then (leave_pattern i b, none)
      else read_tuples_from i (lookup ℕ_discrete i b.pattern_queues) b

  module _ (fnmatch : String → String → Bool) where
    unfoldable pub publish : String → Payload → EventBus → EventBus
    unfolding put_topics put_patterns
    publish topic message b = if b.closed then b else record b {
      topic_queues = put_topics topic message b.topic_queues;
      pattern_queues = put_patterns fnmatch topic message b.pattern_queues;
    }

    unfoldable pub publish_batch : String → List Payload → EventBus → EventBus
    unfolding publish
    publish_batch topic [] b = b
    publish_batch topic (m ∷ ms) b = publish_batch topic ms (publish topic m b)

    -- What the tasks of the server do with the bus, one after another.
    pub data Step : Type 0 where
      publishes : String → Payload → Step
      subscribes subscribes_pattern : ℕ → String → Step
      reads reads_pattern leaves leaves_pattern : ℕ → Step

    -- The bus after a step, and what a reader of a topic got.
    unfoldable pub take_step : Step → EventBus → EventBus × Option Payload
    unfolding publish subscribe subscribe_pattern read_bytes read_tuples leave leave_pattern
    take_step (publishes topic m) b = (publish topic m b, none)
    take_step (subscribes i topic) b = (subscribe i topic b, none)
    take_step (subscribes_pattern i pattern) b = (subscribe_pattern i pattern b, none)
    take_step (reads i) b = read_bytes i b
    take_step (reads_pattern i) b = ((read_tuples i b).0, none)
    take_step (leaves i) b = (leave i b, none)
    take_step (leaves_pattern i) b = (leave_pattern i b, none)

-- ===== src/Workers/Storage.antt =====
-- StorageWriter of server/oseye/workers/storage_writer.py, over the rows of events that
-- `insert_batch` of storage/repositories/events.py writes. The reader of the bus and the timer
-- are two tasks that meet at the awaits of `_flush`.
pub mod Kept
pub mod Stored
use oseye_plateforme.Prelude.{
  ℕ, ◌+◌, Bool, true, false, not, ◌&&◌, Option, none, some, List, [], ◌∷◌, ◌++◌, map, String, leb,
  ◌==◌, if◌then◌else◌, length,
}

-- The parsers of a message, and `none` for their exceptions.
pub record Parser (M D E : Type 0) : Type 0 where
  pub validate_json : M → Option E
  pub loads : M → Option D
  pub has_event_id : D → Bool
  pub with_event_id : String → D → D
  pub validate : D → Option E

-- The slow path: a missing identifier is filled in.
unfoldable pub slow_path : {M D E : Type 0} → Parser M D E → String → Option D → Option E
slow_path p fresh none = none
slow_path p fresh (some d) = p.validate (if p.has_event_id d then d else p.with_event_id fresh d)

-- The event of a message, with the identifier that `uuid4` would give.
unfoldable pub read_event : {M D E : Type 0} → Parser M D E → M × String → Option E
unfolding slow_path
read_event p (m, fresh) = elim (p.validate_json m) [
  | some e ↦ some e
  | none ↦ slow_path p fresh (p.loads m)
]

abbrev pub max_flush_failures : ℕ
max_flush_failures = 5

pub data Task : Type 0 where
  reader timer : Task

-- The writer's fields; the batch that each task is inserting, empty where it inserts none; the
-- messages to come, the rows of the table, and what went to the dead letters. `dropped` and `lost`
-- only record the events that the code gives up.
pub record Writer (M E : Type 0) : Type 0 where
  pub batch : List E
  pub total_written : ℕ
  pub consecutive_failures : ℕ
  pub reader_flush : List E
  pub timer_flush : List E
  pub stopped : Bool
  pub inbox : List (M × String)
  pub rows : List E
  pub dead_letters : List (List ℕ)
  pub dropped : List E
  pub lost : List E

-- What happens next. A message is read, the timer fires, an insertion ends, stored or not, with
-- the dead letter published or not; or the writer is stopped, with the insertions that were
-- running stored or not.
pub data Step : Type 0 where
  reads : Step
  fires : Step
  ends : Task → (stored published : Bool) → Step
  stops : (reader_stored timer_stored : Bool) → Step

abbrev pub is_empty : {A : Type 0} → List A → Bool
is_empty [] = true
is_empty (x ∷ xs) = false

module _ {M D E : Type 0} (p : Parser M D E) (event_id : E → ℕ) (batch_max_size : ℕ) where
  -- Whether an identifier is that of one of the events.
  unfoldable pub among : ℕ → List E → Bool
  among i [] = false
  among i (e ∷ es) = if event_id e == i then true else among i es

  -- `INSERT OR IGNORE`
  unfoldable pub insert_batch : List E → List E → List E
  unfolding among
  insert_batch [] rows = rows
  insert_batch (e ∷ es) rows =
      insert_batch es (if among (event_id e) rows then rows else rows ++ e ∷ [])

  -- `_flush` up to its await.
  unfoldable pub begin_flush : Task → Writer M E → Writer M E
  begin_flush reader w = record w { reader_flush = w.batch; batch = [] }
  begin_flush timer w = record w { timer_flush = w.batch; batch = [] }

  -- `_flush` from its await on.
  unfoldable pub end_flush : Bool → Bool → List E → Writer M E → Writer M E
  unfolding insert_batch
  end_flush stored published batch w =
      if is_empty batch
      then w
      else if stored
      then record w {
        rows = insert_batch batch w.rows;
        total_written = w.total_written + length batch;
        consecutive_failures = 0;
      }
      else if leb max_flush_failures (w.consecutive_failures + 1)
      then record w {
        dead_letters =
            (if published then w.dead_letters ++ map event_id batch ∷ [] else w.dead_letters);
        dropped = w.dropped ++ batch;
        consecutive_failures = 0;
      }
      else record w { batch = batch ++ w.batch; consecutive_failures = w.consecutive_failures + 1 }

  unfoldable pub end_task : Task → Bool → Bool → Writer M E → Writer M E
  unfolding end_flush
  end_task reader stored published w =
      end_flush stored published w.reader_flush (record w { reader_flush = [] })
  end_task timer stored published w =
      end_flush stored published w.timer_flush (record w { timer_flush = [] })

  -- An insertion that is cancelled: its exception passes the handler of `_flush`.
  unfoldable pub abandon : Bool → List E → Writer M E → Writer M E
  unfolding insert_batch
  abandon stored batch w =
      if stored
      then record w { rows = insert_batch batch w.rows }
      else record w { lost = w.lost ++ batch }

  -- One message of `run`, and the flush where the batch is full.
  unfoldable pub take_event : Option E → Writer M E → Writer M E
  unfolding begin_flush
  take_event none w = w
  take_event (some e) w =
      let w' = record w { batch = w.batch ++ e ∷ [] } in
      if leb batch_max_size (length w'.batch) then begin_flush reader w' else w'

  unfoldable pub take_message : List (M × String) → Writer M E → Writer M E
  unfolding take_event read_event
  take_message [] w = w
  take_message (m ∷ ms) w = take_event (read_event p m) (record w { inbox = ms })

  -- The `finally` of `run`: the timer is cancelled, and what is left is flushed.
  unfoldable pub stop : Bool → Bool → Writer M E → Writer M E
  unfolding begin_flush abandon
  stop reader_stored timer_stored w = begin_flush reader (
      abandon reader_stored w.reader_flush (
        abandon timer_stored w.timer_flush
          (record w { stopped = true; reader_flush = []; timer_flush = [] })))

  -- A task goes on only where its own flush has ended.
  unfoldable pub take_step : Step → Writer M E → Writer M E
  unfolding take_message begin_flush end_task stop
  take_step reads w = if not w.stopped && is_empty w.reader_flush then take_message w.inbox w else w
  take_step fires w = if not w.stopped && is_empty w.timer_flush then begin_flush timer w else w
  take_step (ends task stored published) w = end_task task stored published w
  take_step (stops reader_stored timer_stored) w =
      if w.stopped then w else stop reader_stored timer_stored w

  unfoldable pub run_writer : List Step → Writer M E → Writer M E
  unfolding take_step
  run_writer [] w = w
  run_writer (s ∷ ss) w = run_writer ss (take_step s w)

  -- The writer before its first message.
  unfoldable pub start : List (M × String) → List E → Writer M E
  start inbox rows = record {
    batch = [];
    total_written = 0;
    consecutive_failures = 0;
    reader_flush = [];
    timer_flush = [];
    stopped = false;
    inbox = inbox;
    rows = rows;
    dead_letters = [];
    dropped = [];
    lost = [];
  }

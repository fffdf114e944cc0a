-- ===== src/Workers/Storage/Kept.antt =====
-- Where the events of server/oseye/workers/storage_writer.py are.
use oseye_plateforme.Prelude.{
  ℕ, ◌≡◌, refl, ◌∙◌, Bool, true, false, ◌||◌, Option, none, some, List, [], ◌∷◌, ◌++◌, String,
  arith, ◌==◌, if◌then◌else◌,
}
use oseye_plateforme.Workers.Storage.{
  Parser, read_event, Task, reader, timer, Writer, Step, reads, fires, ends, stops, is_empty, among,
  insert_batch, begin_flush, end_flush, end_task, abandon, stop, take_event, take_message,
  take_step, run_writer, start,
}

module _ {M D E : Type 0} (p : Parser M D E) (event_id : E → ℕ) (batch_max_size : ℕ) where
  -- The events that messages bring.
  unfoldable pub accepted : List (M × String) → List E
  accepted [] = []
  accepted (m ∷ ms) = elim (read_event p m) [ none ↦ accepted ms | some e ↦ e ∷ accepted ms ]

  abbrev pub has : ℕ → List E → Bool
  has i es = among p event_id batch_max_size i es

  -- Whether an event is in the database, in the writer's hands, given up, or still to come.
  abbrev pub stands : ℕ → Writer M E → Bool
  stands i w =
      has i w.rows
      || has i w.batch
      || has i w.reader_flush
      || has i w.timer_flush
      || has i w.dropped
      || has i w.lost
      || has i (accepted w.inbox)

  pub among-append : (i : ℕ) (xs ys : List E) → has i (xs ++ ys) ≡ (has i xs || has i ys)
  unfolding among
  among-append i [] ys = refl
  among-append i (x ∷ xs) ys = ground (arith, among-append i xs ys)

  insert_one :
      (i : ℕ) (e : E) (rows : List E)
      → has i (if has (event_id e) rows then rows else rows ++ e ∷ [])
        ≡ (has i rows || event_id e == i)
  unfolding among
  insert_one i e rows = ground (arith, among-append i rows (e ∷ []))

  among-insert_batch :
      (i : ℕ) (es rows : List E)
      → has i (insert_batch p event_id batch_max_size es rows) ≡ (has i rows || has i es)
  unfolding among insert_batch
  among-insert_batch i [] rows = ground arith
  among-insert_batch i (e ∷ es) rows = ground (
    arith,
    among-insert_batch i es (if has (event_id e) rows then rows else rows ++ e ∷ []),
    insert_one i e rows,
  )

  -- What a part of the code does to the place of an event: nothing.
  end_flush-stands :
      (i : ℕ) (stored published : Bool) (batch : List E) (w : Writer M E)
      → stands i (end_flush p event_id batch_max_size stored published batch w)
        ≡ (has i batch || stands i w)
  unfolding end_flush among
  end_flush-stands i stored published [] w = refl
  end_flush-stands i stored published (e ∷ es) w = ground (
    arith,
    among-insert_batch i (e ∷ es) w.rows,
    among-append i w.dropped (e ∷ es),
    among-append i (e ∷ es) w.batch,
  )

  abandon-stands :
      (i : ℕ) (stored : Bool) (batch : List E) (w : Writer M E)
      → stands i (abandon p event_id batch_max_size stored batch w) ≡ (has i batch || stands i w)
  unfolding abandon
  abandon-stands i stored batch w =
      ground (arith, among-insert_batch i batch w.rows, among-append i w.lost batch)

  begin_flush-reader :
      (i : ℕ) (w : Writer M E)
      → w.reader_flush ≡ []
      → stands i (begin_flush p event_id batch_max_size reader w) ≡ stands i w
  unfolding begin_flush among
  begin_flush-reader i w h = ground arith

  begin_flush-timer :
      (i : ℕ) (w : Writer M E)
      → w.timer_flush ≡ []
      → stands i (begin_flush p event_id batch_max_size timer w) ≡ stands i w
  unfolding begin_flush among
  begin_flush-timer i w h = ground arith

  take_event-stands :
      (i : ℕ) (o : Option E) (w : Writer M E)
      → w.reader_flush ≡ []
      → stands i (take_event p event_id batch_max_size o w)
        ≡ (elim o [ none ↦ false | some e ↦ event_id e == i ] || stands i w)
  unfolding take_event among
  take_event-stands i none w h = refl
  take_event-stands i (some e) w h = ground (
    arith,
    among-append i w.batch (e ∷ []),
    begin_flush-reader i (record w { batch = w.batch ++ e ∷ [] }) h,
  )

  take_message-stands :
      (i : ℕ) (ms : List (M × String)) (w : Writer M E)
      → w.inbox ≡ ms
      → w.reader_flush ≡ []
      → stands i (take_message p event_id batch_max_size ms w) ≡ stands i w
  unfolding take_message accepted among
  take_message-stands i [] w e h = refl
  take_message-stands i (m ∷ ms) w e h =
      ground (arith, take_event-stands i (read_event p m) (record w { inbox = ms }) h)

  is_empty-eq : (es : List E) → is_empty es ≡ true → es ≡ []
  is_empty-eq [] h = refl
  is_empty-eq (e ∷ es) h = cc

  end_task-stands :
      (i : ℕ) (t : Task) (stored published : Bool) (w : Writer M E)
      → stands i (end_task p event_id batch_max_size t stored published w) ≡ stands i w
  unfolding end_task among
  end_task-stands i reader stored published w =
      ground
        (arith, end_flush-stands i stored published w.reader_flush (record w { reader_flush = [] }))
  end_task-stands i timer stored published w =
      ground
        (arith, end_flush-stands i stored published w.timer_flush (record w { timer_flush = [] }))

  abandon-reader_flush :
      (stored : Bool) (batch : List E) (w : Writer M E)
      → (abandon p event_id batch_max_size stored batch w).reader_flush ≡ w.reader_flush
  unfolding abandon
  abandon-reader_flush stored batch w = ground arith

  stop-stands :
      (i : ℕ) (rs ts : Bool) (w : Writer M E)
      → stands i (stop p event_id batch_max_size rs ts w) ≡ stands i w
  unfolding stop among
  stop-stands i rs ts w =
      let idle = record w { stopped = true; reader_flush = []; timer_flush = [] } in
      let one = abandon p event_id batch_max_size ts w.timer_flush idle in
      let two = abandon p event_id batch_max_size rs w.reader_flush one in
      begin_flush-reader i two
        (abandon-reader_flush rs w.reader_flush one ∙ abandon-reader_flush ts w.timer_flush idle)
      ∙ abandon-stands i rs w.reader_flush one
      ∙ ground (arith, abandon-stands i ts w.timer_flush idle)

  take_step-stands :
      (i : ℕ) (s : Step) (w : Writer M E)
      → stands i (take_step p event_id batch_max_size s w) ≡ stands i w
  unfolding take_step
  take_step-stands i reads w =
      ground (arith, is_empty-eq w.reader_flush, take_message-stands i w.inbox w)
  take_step-stands i fires w = ground (arith, is_empty-eq w.timer_flush, begin_flush-timer i w)
  take_step-stands i (ends t stored published) w = end_task-stands i t stored published w
  take_step-stands i (stops rs ts) w = ground (arith, stop-stands i rs ts w)

  run_writer-stands :
      (i : ℕ) (ss : List Step) (w : Writer M E)
      → stands i (run_writer p event_id batch_max_size ss w) ≡ stands i w
  unfolding run_writer
  run_writer-stands i [] w = refl
  run_writer-stands i (s ∷ ss) w =
      run_writer-stands i ss (take_step p event_id batch_max_size s w) ∙ take_step-stands i s w

  -- However the reader, the timer and the stop interleave, and whichever insertions fail: an
  -- event, by its identifier, is in the table, in the batch, in an insertion that is running,
  -- dropped, lost to a cancelled insertion or still to be read exactly when it was in the table
  -- at the start or some message brings it.
  pub run_writer_keeps :
      (inbox : List (M × String)) (rows : List E) (ss : List Step) (i : ℕ)
      → stands i
          (run_writer p event_id batch_max_size ss (start p event_id batch_max_size inbox rows))
        ≡ (has i rows || has i (accepted inbox))
  unfolding start among
  run_writer_keeps inbox rows ss i =
      run_writer-stands i ss (start p event_id batch_max_size inbox rows) ∙ ground arith

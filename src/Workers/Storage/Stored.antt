-- ===== src/Workers/Storage/Stored.antt =====
-- What the table of server/oseye/workers/storage_writer.py holds once the writer has stopped.
use oseye_plateforme.Prelude.{
  ℕ, ◌≡◌, refl, sym, ◌∙◌, inl, inr, Bool, true, false, not, ◌&&◌, ◌||◌, Option, none, some, List,
  [], ◌∷◌, ◌++◌, String, arith, leb, if◌then◌else◌, Bool-cases, if-either, length, All,
}
use oseye_plateforme.Workers.Storage.{
  Parser, Task, reader, timer, Writer, Step, reads, fires, ends, stops, is_empty, among,
  insert_batch, begin_flush, end_flush, end_task, abandon, stop, take_event, take_message,
  take_step, run_writer, start, read_event,
}
use oseye_plateforme.Workers.Storage.Kept.{accepted, has, stands, run_writer_keeps, among-append}

-- The insertion succeeds, also one that is cancelled.
abbrev pub Works : Step → Type 0
Works (ends t stored published) = stored ≡ true
Works (stops reader_stored timer_stored) = (reader_stored ≡ true) × (timer_stored ≡ true)
Works _ = Unit

module _ {M D E : Type 0} (p : Parser M D E) (event_id : E → ℕ) (batch_max_size : ℕ) where
  -- No identifier has two rows.
  abbrev pub IsUnique : List E → Type 0
  IsUnique [] = Unit
  IsUnique (e ∷ es) = (has p event_id batch_max_size (event_id e) es ≡ false) × IsUnique es

  IsUnique-append :
      (e : E) (es : List E)
      → has p event_id batch_max_size (event_id e) es ≡ false
      → IsUnique es
      → IsUnique (es ++ e ∷ [])
  unfolding among
  IsUnique-append e [] h u = (refl, tt)
  IsUnique-append e (x ∷ xs) h u = (
    among-append p event_id batch_max_size (event_id x) xs (e ∷ []) ∙ ground arith,
    IsUnique-append e xs (ground arith) u.1,
  )

  insert_batch-IsUnique :
      (es rows : List E) → IsUnique rows → IsUnique (insert_batch p event_id batch_max_size es rows)
  unfolding insert_batch
  insert_batch-IsUnique [] rows u = u
  insert_batch-IsUnique (e ∷ es) rows u =
      insert_batch-IsUnique es _
        (elim (Bool-cases (has p event_id batch_max_size (event_id e) rows)) [
          | inl old ↦ rw old u
          | inr new ↦ rw new (IsUnique-append e rows new u)
        ])

  -- Nothing is given up, and a stopped writer holds nothing but the reader's last insertion.
  record IsClean (w : Writer M E) : Type 0 where
    nothing_dropped : w.dropped ≡ []
    nothing_lost : w.lost ≡ []
    at_rest : w.stopped ≡ true → (w.batch ≡ []) × (w.timer_flush ≡ [])
    unique : IsUnique w.rows

  -- The same before the writer has stopped.
  going :
      {w : Writer M E}
      → w.dropped ≡ []
      → w.lost ≡ []
      → w.stopped ≡ false
      → IsUnique w.rows
      → IsClean w
  going d l s u = record { nothing_dropped = d; nothing_lost = l; at_rest = λ e. cc; unique = u }

  end_flush-IsClean :
      (published : Bool) (batch : List E) (w : Writer M E)
      → IsClean w
      → IsClean (end_flush p event_id batch_max_size true published batch w)
  unfolding end_flush
  end_flush-IsClean published [] w h = h
  end_flush-IsClean published (e ∷ es) w h = record {
    nothing_dropped = h.nothing_dropped;
    nothing_lost = h.nothing_lost;
    at_rest = h.at_rest;
    unique = insert_batch-IsUnique (e ∷ es) w.rows h.unique;
  }

  -- What the cancelled insertions leave for the last flush.
  record IsSound (w : Writer M E) : Type 0 where
    none_dropped : w.dropped ≡ []
    none_lost : w.lost ≡ []
    timer_idle : w.timer_flush ≡ []
    one_each : IsUnique w.rows

  abandon-IsSound :
      (batch : List E) (w : Writer M E)
      → IsSound w
      → IsSound (abandon p event_id batch_max_size true batch w)
  unfolding abandon
  abandon-IsSound batch w h = record {
    none_dropped = h.none_dropped;
    none_lost = h.none_lost;
    timer_idle = h.timer_idle;
    one_each = insert_batch-IsUnique batch w.rows h.one_each;
  }

  begin_flush-IsSound :
      (w : Writer M E) → IsSound w → IsClean (begin_flush p event_id batch_max_size reader w)
  unfolding begin_flush
  begin_flush-IsSound w h = record {
    nothing_dropped = h.none_dropped;
    nothing_lost = h.none_lost;
    at_rest = λ e. (refl, h.timer_idle);
    unique = h.one_each;
  }

  stop-IsClean : (w : Writer M E) → IsClean w → IsClean (stop p event_id batch_max_size true true w)
  unfolding stop
  stop-IsClean w h =
      let idle = record w { stopped = true; reader_flush = []; timer_flush = [] } in
      let one = abandon p event_id batch_max_size true w.timer_flush idle in
      begin_flush-IsSound (abandon p event_id batch_max_size true w.reader_flush one) (
        abandon-IsSound w.reader_flush one (
          abandon-IsSound w.timer_flush idle (record {
            none_dropped = h.nothing_dropped;
            none_lost = h.nothing_lost;
            timer_idle = refl;
            one_each = h.unique;
          })))

  end_task-IsClean :
      (t : Task) (published : Bool) (w : Writer M E)
      → IsClean w
      → IsClean (end_task p event_id batch_max_size t true published w)
  unfolding end_task
  end_task-IsClean reader published w h =
      end_flush-IsClean published w.reader_flush (record w { reader_flush = [] })
        (record {
          nothing_dropped = h.nothing_dropped;
          nothing_lost = h.nothing_lost;
          at_rest = h.at_rest;
          unique = h.unique;
        })
  end_task-IsClean timer published w h =
      end_flush-IsClean published w.timer_flush (record w { timer_flush = [] })
        (record {
          nothing_dropped = h.nothing_dropped;
          nothing_lost = h.nothing_lost;
          at_rest = λ e. ((h.at_rest e).0, refl);
          unique = h.unique;
        })

  take_event-IsClean :
      (o : Option E) (w : Writer M E)
      → w.stopped ≡ false
      → IsClean w
      → IsClean (take_event p event_id batch_max_size o w)
  unfolding take_event begin_flush
  take_event-IsClean none w e h = h
  take_event-IsClean (some x) w e h =
      if-either IsClean (leb batch_max_size (length (w.batch ++ x ∷ []))) _ _
        (going h.nothing_dropped h.nothing_lost e h.unique)
        (going h.nothing_dropped h.nothing_lost e h.unique)

  take_message-IsClean :
      (ms : List (M × String)) (w : Writer M E)
      → w.stopped ≡ false
      → IsClean w
      → IsClean (take_message p event_id batch_max_size ms w)
  unfolding take_message
  take_message-IsClean [] w e h = h
  take_message-IsClean (m ∷ ms) w e h =
      take_event-IsClean (read_event p m) (record w { inbox = ms }) e
        (going h.nothing_dropped h.nothing_lost e h.unique)

  going_or :
      (w w' : Writer M E) (idle : Bool)
      → IsClean w
      → (w.stopped ≡ false → IsClean w')
      → (halted : Bool) → w.stopped ≡ halted
      → IsClean (if not halted && idle then w' else w)
  going_or w w' idle h k true e = h
  going_or w w' idle h k false e = if-either IsClean idle w' w (k e) h

  -- A task goes on only in a writer that has not stopped.
  while_going :
      (w w' : Writer M E) (idle : Bool)
      → IsClean w
      → (w.stopped ≡ false → IsClean w')
      → IsClean (if not w.stopped && idle then w' else w)
  while_going w w' idle h k = going_or w w' idle h k w.stopped refl

  take_step-IsClean :
      (s : Step) (w : Writer M E)
      → Works s
      → IsClean w
      → IsClean (take_step p event_id batch_max_size s w)
  unfolding take_step stop begin_flush
  take_step-IsClean reads w k h =
      while_going w _ (is_empty w.reader_flush) h (λ e. take_message-IsClean w.inbox w e h)
  take_step-IsClean fires w k h =
      while_going w _ (is_empty w.timer_flush) h
        (λ e. going h.nothing_dropped h.nothing_lost e h.unique)
  take_step-IsClean (ends t stored published) w k h = rw k (end_task-IsClean t published w h)
  take_step-IsClean (stops true true) w k h =
      if-either IsClean w.stopped w (stop p event_id batch_max_size true true w) h
        (stop-IsClean w h)
  take_step-IsClean (stops false ts) w k h = cc
  take_step-IsClean (stops true false) w k h = cc

  run_writer-IsClean :
      (ss : List Step) (w : Writer M E)
      → All Works ss
      → IsClean w
      → IsClean (run_writer p event_id batch_max_size ss w)
  unfolding run_writer
  run_writer-IsClean [] w k h = h
  run_writer-IsClean (s ∷ ss) w k h = run_writer-IsClean ss _ k.1 (take_step-IsClean s w k.0 h)

  at_end :
      (i : ℕ) (w : Writer M E)
      → IsClean w
      → w.stopped ≡ true
      → w.reader_flush ≡ []
      → stands p event_id batch_max_size i w ≡ (
          has p event_id batch_max_size i w.rows
          || has p event_id batch_max_size i (accepted p event_id batch_max_size w.inbox))
  unfolding among
  at_end i w h d r = ground (arith, h.at_rest d, h.nothing_dropped, h.nothing_lost)

  -- If every insertion succeeds, also those that the stop cancels, and no identifier has two
  -- rows at the start: once the writer has stopped and its last insertion has ended, no
  -- identifier has two rows, and an event, by its identifier, is in the table or still to be
  -- read exactly when it was in the table at the start or some message brings it.
  pub run_writer_stores :
      (inbox : List (M × String)) (rows : List E) (ss : List Step)
      → IsUnique rows
      → All Works ss
      → let w =
          run_writer p event_id batch_max_size ss (start p event_id batch_max_size inbox rows) in
        w.stopped ≡ true
        → w.reader_flush ≡ []
        → IsUnique w.rows
          × ((i : ℕ)
              → (has p event_id batch_max_size i w.rows
                  || has p event_id batch_max_size i (accepted p event_id batch_max_size w.inbox))
                ≡ (has p event_id batch_max_size i rows
                    || has p event_id batch_max_size i (accepted p event_id batch_max_size inbox)))
  unfolding start
  run_writer_stores inbox rows ss u k d r =
      let h =
        run_writer-IsClean ss (start p event_id batch_max_size inbox rows) k
          (going refl refl refl u) in
      (
        h.unique,
        λ i. sym (at_end i _ h d r) ∙ run_writer_keeps p event_id batch_max_size inbox rows ss i,
      )

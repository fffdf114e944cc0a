-- ===== src/Tests/Storing.antt =====
-- A storage writer that meets every case of server/oseye/workers/storage_writer.py.
use oseye_plateforme.Prelude.{
  ℕ, ◌≡◌, refl, true, false, ◌||◌, none, some, List, [], ◌∷◌, String, ◌==◌, if◌then◌else◌,
}
use oseye_plateforme.Workers.Storage.{
  Parser, reader, Writer, Step, reads, fires, ends, stops, run_writer, start, among, read_event,
  insert_batch, begin_flush, end_flush, end_task, abandon, stop, take_event, take_message,
  take_step,
}
use oseye_plateforme.Workers.Storage.Kept.{accepted, stands, has, run_writer_keeps}
use oseye_plateforme.Workers.Storage.Stored.{IsUnique, run_writer_stores}

-- A message is the number of its event, and 0 does not parse.
abbrev parser : Parser ℕ ℕ ℕ
parser = record {
  validate_json = λ m. if m == 0 then none else some m;
  loads = λ m. none;
  has_event_id = λ d. true;
  with_event_id = λ fresh d. d;
  validate = λ d. some d;
}

abbrev inbox : List (ℕ × String)
inbox = (7, "a") ∷ (0, "b") ∷ (8, "c") ∷ (7, "d") ∷ (9, "e") ∷ []

-- Two events to a batch: the first insertion fails, and is tried again by the timer.
abbrev failing : List Step
failing =
    reads
    ∷ reads
    ∷ reads
    ∷ ends reader false true
    ∷ fires
    ∷ reads
    ∷ stops true false
    ∷ ends reader true true
    ∷ []

run_writer_keeps_example :
    stands parser
      (λ e. e)
      2
      8
      (run_writer parser (λ e. e) 2 failing (start parser (λ e. e) 2 inbox (5 ∷ [])))
    ≡ (has parser (λ e. e) 2 8 (5 ∷ [])
        || has parser (λ e. e) 2 8 (accepted parser (λ e. e) 2 inbox))
run_writer_keeps_example = run_writer_keeps parser (λ e. e) 2 inbox (5 ∷ []) failing 8

-- The same with a database that works.
abbrev working : List Step
working =
    reads
    ∷ reads
    ∷ reads
    ∷ ends reader true true
    ∷ reads
    ∷ fires
    ∷ reads
    ∷ stops true true
    ∷ ends reader true true
    ∷ []

abbrev done : Writer ℕ ℕ
done = run_writer parser (λ e. e) 2 working (start parser (λ e. e) 2 inbox (5 ∷ []))

done_rows : done.rows ≡ 5 ∷ 7 ∷ 8 ∷ 9 ∷ []
unfolding run_writer take_step take_message take_event read_event begin_flush end_task end_flush
    stop abandon insert_batch among start
done_rows = refl

run_writer_stores_example :
    IsUnique parser (λ e. e) 2 done.rows
    × ((i : ℕ)
        → (has parser (λ e. e) 2 i done.rows
            || has parser (λ e. e) 2 i (accepted parser (λ e. e) 2 done.inbox))
          ≡ (has parser (λ e. e) 2 i (5 ∷ [])
              || has parser (λ e. e) 2 i (accepted parser (λ e. e) 2 inbox)))
unfolding run_writer take_step take_message take_event read_event begin_flush end_task end_flush
    stop abandon insert_batch among start
run_writer_stores_example =
    run_writer_stores parser (λ e. e) 2 inbox (5 ∷ []) working (refl, tt)
      (tt, (tt, (tt, (refl, (tt, (tt, (tt, ((refl, refl), (refl, tt))))))))) refl refl

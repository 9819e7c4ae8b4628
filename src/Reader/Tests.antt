-- ===== src/Reader/Tests.antt =====
-- Runs and instances for the reader of src/flnr/_observatory.py.
use flnr.Base.{◌≡◌, ◌≢◌, ◌↔◌, refl, true, none, some, List, [], ◌∷◌}
use flnr.Base.Int.{pos}
use flnr.Floats.{PyFloat, finite}
use flnr.Monitors.{Monitor, PyException, stdout}
use flnr.Sink.{
  Behaviour, handles_from, on_data, for_each, deliver, handle_process, process_failed, disable,
  record_failure, log_call,
}
use flnr.Reader.{
  completed, failed, unstarted, reading, ended, assertion_failed, Reader, start_reader,
  after_allowed, after_read, relay_starts, read_returns, slept, Reach, begun, moved,
}
use flnr.Reader.Delivery.{failed_iff_read_error}

-- Two monitors; a callback raises when it is the third that is made.
abbrev monitors : List Monitor
monitors = record { type_name = "Tee" } ∷ record { type_name = "Watch" } ∷ []

abbrev broken : PyException
broken = record {
  type_name = "ValueError";
  text = "no";
  representation = "ValueError('no')";
  backtrace = "Traceback";
}

abbrev third_raises : Behaviour
third_raises (a ∷ b ∷ c ∷ []) = some broken
third_raises _ = none

abbrev at : PyFloat
at = finite (pos 7)

abbrev first_reader : Reader
first_reader = start_reader monitors stdout []

abbrev begun_reader : Reader
begun_reader = record first_reader { relay = reading }

abbrev after_chunk : Reader
after_chunk = after_read third_raises (104 ∷ 105 ∷ []) at at begun_reader

abbrev after_sleep : Reader
after_sleep = record after_chunk { relay = reading }

abbrev after_second : Reader
after_second = after_read third_raises (33 ∷ []) at at after_sleep

abbrev second_sleep : Reader
second_sleep = record after_second { relay = reading }

abbrev at_end : Reader
at_end = after_read third_raises [] at at second_sleep

run_to_chunk : Reach third_raises first_reader after_chunk
unfolding start_reader
run_to_chunk =
    moved (moved begun (relay_starts first_reader refl refl))
      (read_returns begun_reader (104 ∷ 105 ∷ []) at at refl refl)

run_to_end : Reach third_raises first_reader at_end
unfolding start_reader after_read after_allowed on_data for_each deliver handle_process
    process_failed disable record_failure log_call handles_from
run_to_end =
    moved
      (moved
        (moved (moved run_to_chunk (slept after_chunk refl refl))
          (read_returns after_sleep (33 ∷ []) at at refl refl))
        (slept after_second refl refl))
      (read_returns second_sleep [] at at refl refl)

completed-started : completed ≢ unstarted
completed-started e = cc

failed_iff_read_error_example :
    ((at_end.relay ≡ ended failed) ↔ (at_end.read_error ≡ true))
    × (at_end.fatal_reader_error ≡ at_end.read_error)
    × (at_end.drain ≢ assertion_failed)
failed_iff_read_error_example =
    failed_iff_read_error third_raises monitors stdout [] at_end run_to_end

-- The stream gives nothing more, as when a grandchild holds it open.
abbrev requested : Reader
requested = record after_chunk { drain_requested = true }

-- ===== src/TextOutput.antt =====
-- `TextOutputMonitor` and `BinaryOutputMonitor` of src/flnr/mu.py. The sink keeps the calls that are
-- made of it; one that raises ends the callback, which the sink of monitors (Sink) stands for.
pub mod Validity
pub mod Output
mod Tests
use flnr.Base.{
  ℕ, ◌+◌, ◌*◌, ◌^◌, ◌-◌, Bool, true, false, not, ◌||◌, ◌&&◌, Option, none, some, List, [], ◌∷◌,
  ◌++◌, ◌==◌, leb, if◌then◌else◌, length, take, drop, is_some,
}
use flnr.Base.Int.{ℤ, pos, negsuc, ltb_ℤ, leb_ℤ}
use flnr.Base.Text.{Text, codes, text_eq}
use flnr.Outcome.{Result, ok, err, value_error, type_error, overflow_error, raise_if, ◌>>=◌, ◌>>◌}
use flnr.Floats.{PyFloat, is_finite, finite, float_lt}
use flnr.Floats.Arithmetic.{subtract, to_float, int_overflow, show_fixed}
use flnr.Monitors.{DisableReason, eof, error, drain_timeout}
use flnr.LineSplitter.{IncrementalLineSplitter, Bytes, init, feed}

-- `timestamp_precision`, by what `operator.index` makes of it
pub data Precision : Type 0 where
  no_precision : Precision
  a_bool : Bool → Precision
  index : ℤ → Precision
  no_index : Precision

-- `timestamp_base`
pub data Base : Type 0 where
  no_base : Base
  a_bool : Bool → Base
  an_int : ℤ → Base
  a_float : PyFloat → Base
  no_number : Base

-- `_validate_timestamp_precision`
pub validate_timestamp_precision : Precision → Result (Unit {0})
validate_timestamp_precision no_precision = ok tt
validate_timestamp_precision (Precision.a_bool b) =
    err (type_error "timestamp_precision must be integer between 0 and 9 or None")
validate_timestamp_precision no_index =
    err (type_error "timestamp_precision must be integer between 0 and 9 or None")
validate_timestamp_precision (index n) =
    raise_if (not (leb_ℤ (pos 0) n && leb_ℤ n (pos 9)))
      (value_error "timestamp_precision must be integer between 0 and 9 or None")

-- `math.isfinite(n)` of an int, which raises where the int has no float
abbrev pub has_float : ℤ → Bool
has_float (pos n) = not (leb int_overflow n)
has_float (negsuc n) = not (leb int_overflow (n + 1))

-- `_validate_timestamp_base`
pub validate_timestamp_base : Base → Result (Unit {0})
validate_timestamp_base no_base = ok tt
validate_timestamp_base (Base.a_bool b) =
    err (type_error "timestamp_base must be finite non-negative real number or None")
validate_timestamp_base no_number =
    err (type_error "timestamp_base must be finite non-negative real number or None")
validate_timestamp_base (an_int n) = do
  raise_if (not (has_float n)) (overflow_error "int too large to convert to float")
  raise_if (ltb_ℤ n (pos 0))
      (value_error "timestamp_base must be finite non-negative real number or None")
validate_timestamp_base (a_float x) = do
  raise_if (not (is_finite x))
      (value_error "timestamp_base must be finite non-negative real number or None")
  raise_if (float_lt x (finite (pos 0)))
      (value_error "timestamp_base must be finite non-negative real number or None")

-- What is called of a text sink.
pub data SinkCall : Type 0 where
  write : Text → SinkCall
  flush : SinkCall

-- The state; precision and base are as accepted.
pub record TextOutputMonitor : Type 0 where
  pub sink : List SinkCall
  pub auto_flush : Bool
  pub timestamp_precision : Option ℕ
  pub timestamp_base : Option PyFloat
  pub append_disable_marker : Bool
  pub ils : IncrementalLineSplitter
  pub ts_created : PyFloat

abbrev pub accepted_precision : Precision → Option ℕ
accepted_precision (index (pos n)) = some n
accepted_precision _ = none

-- An int is converted when it is subtracted.
abbrev pub accepted_base : Base → Option PyFloat
accepted_base (an_int n) = some (to_float n)
accepted_base (a_float x) = some x
accepted_base _ = none

abbrev pub is_given : Base → Bool
is_given no_base = false
is_given _ = true

-- `__init__`; the last argument is `time.monotonic()`
pub text_output_monitor : ℕ → Bool → Precision → Base → Bool → PyFloat → Result TextOutputMonitor
unfolding validate_timestamp_precision validate_timestamp_base
text_output_monitor limit auto_flush precision base marker now = do
  validate_timestamp_precision precision
  validate_timestamp_base base
  raise_if (is_given base && not (is_some (accepted_precision precision)))
      (value_error "timestamp_base is specified, but timestamp_precision is missing")
  ils ← init limit
  ok (record {
    sink = [];
    auto_flush = auto_flush;
    timestamp_precision = accepted_precision precision;
    timestamp_base = accepted_base base;
    append_disable_marker = marker;
    ils = ils;
    ts_created = now;
  })

-- `line[:-2] + b"\n"` where the line ends in `\r\n`
pub normalize : Bytes → Bytes
normalize line =
    let stem = length line - 2 in
    if leb 2 (length line) && text_eq (drop stem line) (13 ∷ 10 ∷ [])
    then take stem line ++ 10 ∷ []
    else line

abbrev pub reason_text : DisableReason → Text
reason_text eof = codes "eof"
reason_text error = codes "error"
reason_text drain_timeout = codes "drain_timeout"

-- The time that a timestamp shows.
abbrev pub relative : Option PyFloat → PyFloat → PyFloat
relative none ts = ts
relative (some base) ts = subtract ts base

-- The timestamp in front of a line.
pub stamp : Option ℕ → Option PyFloat → PyFloat → List SinkCall
stamp none base ts = []
stamp (some precision) base ts =
    write (codes "[" ++ (show_fixed precision (relative base ts) ++ codes "] ")) ∷ []

-- `decode` is what the codec of the monitor's encoding makes of bytes, errors replaced; `str_float`
-- is `str` of a float.
module _ (decode : Bytes → Text) (str_float : PyFloat → Text) where
  -- the calls for one line
  pub line_calls : TextOutputMonitor → PyFloat → Bytes → List SinkCall
  unfolding normalize stamp
  line_calls m ts line =
      stamp m.timestamp_precision m.timestamp_base ts
      ++ write (decode (normalize line)) ∷ (if m.auto_flush then flush ∷ [] else [])

  -- the loop over the lines
  pub write_lines : TextOutputMonitor → PyFloat → List Bytes → TextOutputMonitor
  unfolding line_calls
  write_lines m ts [] = m
  write_lines m ts (line ∷ lines) =
      write_lines (record m { sink = m.sink ++ line_calls m ts line }) ts lines

  -- `process`
  pub process_text : TextOutputMonitor → Bytes → PyFloat → Result TextOutputMonitor
  unfolding write_lines
  process_text m chunk ts = do
    (lines, ils) ← feed m.ils chunk
    ok (write_lines (record m { ils = ils }) ts lines)

  pub marker : TextOutputMonitor → DisableReason → PyFloat → Text
  marker m reason ts =
      codes "\n[flnr] !! text output monitor disabled: "
      ++ (reason_text reason
          ++ (codes "\n[flnr] !! monitor was created @ monotonic "
              ++ (str_float m.ts_created
                  ++ (codes "\n[flnr] !! end of watch @ monotonic "
                      ++ (str_float ts ++ codes "\n")))))

  -- `on_disable`
  pub on_disable_text : TextOutputMonitor → DisableReason → PyFloat → Result TextOutputMonitor
  unfolding process_text marker
  on_disable_text m reason ts = do
    m' ← process_text m [] ts
    ok (record m' {
      sink =
          m'.sink
          ++ flush
            ∷ (if m.append_disable_marker then write (marker m reason ts) ∷ flush ∷ [] else []);
    })

-- What is called of a binary sink.
pub data BinaryCall : Type 0 where
  write_bytes : Bytes → BinaryCall
  flush_bytes : BinaryCall

-- `BinaryOutputMonitor.process` and `on_disable`, over the calls made of the sink so far
pub process_binary : List BinaryCall → Bytes → PyFloat → List BinaryCall
process_binary sink chunk ts = sink ++ write_bytes chunk ∷ []

pub on_disable_binary : List BinaryCall → DisableReason → PyFloat → List BinaryCall
on_disable_binary sink reason ts = sink ++ flush_bytes ∷ []

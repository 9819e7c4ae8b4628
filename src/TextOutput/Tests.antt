-- ===== src/TextOutput/Tests.antt =====
-- Runs and instances for the text and binary monitors of src/flnr/mu.py.
use flnr.Base.{◌≡◌, ◌≢◌, ◌↔◌, ◌⊎◌, ◌<◌, ◌^◌, refl, true, false, none, some, List, [], ◌∷◌, arith}
use flnr.Base.Int.{pos}
use flnr.Base.Text.{Text, codes, text_eq}
use flnr.Base.Decimal.{show_ℕ}
use flnr.Outcome.{ok, err, overflow_error, ◌>>=◌}
use flnr.Floats.{PyFloat, finite}
use flnr.Floats.Arithmetic.{int_overflow, subtract, show_fixed}
use flnr.Monitors.{eof}
use flnr.LineSplitter.{Bytes, init}
use flnr.LineSplitter.Refinement.{IsValid}
use flnr.TextOutput.{
  no_precision, index, no_base, an_int, a_float, write, TextOutputMonitor,
  validate_timestamp_precision, validate_timestamp_base, text_output_monitor, normalize, stamp,
  on_disable_text, process_binary, on_disable_binary, write_bytes, flush_bytes,
}
use flnr.TextOutput.Validity.{IsPrecision, IsBase, is_created, text_output_monitor_iff}
use flnr.TextOutput.Output.{written, all_lines, process_all, plain, process_all-plain}

abbrev second : PyFloat
second = finite (pos (2 ^ 1074))

abbrev half : PyFloat
half = finite (pos (2 ^ 1073))

-- latin-1
abbrev latin_1 : Bytes → Text
latin_1 bytes = bytes

abbrev str_float : PyFloat → Text
str_float x = codes "1.0"

abbrev plain_monitor : TextOutputMonitor
plain_monitor = record {
  sink = [];
  auto_flush = true;
  timestamp_precision = none;
  timestamp_base = none;
  append_disable_marker = false;
  ils = record { buf = []; start = 0; buffer_sz_limit = 8 };
  ts_created = second;
}

created : text_output_monitor 8 true no_precision no_base false second ≡ ok plain_monitor
unfolding text_output_monitor validate_timestamp_precision validate_timestamp_base init
created = refl

normalize-crlf : normalize (codes "ok\r\n") ≡ codes "ok\n"
unfolding normalize text_eq
normalize-crlf = refl

normalize-cr : normalize (codes "ok\r") ≡ codes "ok\r"
unfolding normalize text_eq
normalize-cr = refl

stamp-relative : stamp (some 1) (some half) second ≡ write (codes "[0.5] ") ∷ []
unfolding stamp show_fixed subtract show_ℕ
stamp-relative = refl

-- An int that has no float is refused by an exception that the constructor does not document.
base-overflow :
    validate_timestamp_base (an_int (pos int_overflow))
    ≡ err (overflow_error "int too large to convert to float")
unfolding validate_timestamp_base
base-overflow = refl

binary_run :
    on_disable_binary (process_binary [] (0 ∷ 255 ∷ []) second) eof second
    ≡ write_bytes (0 ∷ 255 ∷ []) ∷ flush_bytes ∷ []
unfolding process_binary on_disable_binary
binary_run = refl

text_output_monitor_iff_example :
    (is_created (text_output_monitor 8 true (index (pos 3)) (a_float half) false second) ≡ true) ↔ (
      IsPrecision (index (pos 3))
      × IsBase (a_float half)
      × ((a_float half ≡ no_base) ⊎ (index (pos 3) ≢ no_precision))
      × (0 < 8))
text_output_monitor_iff_example =
    text_output_monitor_iff 8 true (index (pos 3)) (a_float half) false second

-- "ab\r", then "\ncd"
abbrev stream : List (Bytes × PyFloat)
stream = (97 ∷ 98 ∷ 13 ∷ [], half) ∷ (10 ∷ 99 ∷ 100 ∷ [], second) ∷ []

abbrev text : Bytes
text = 97 ∷ 98 ∷ 13 ∷ 10 ∷ 99 ∷ 100 ∷ []

plain-IsValid : IsValid plain_monitor.ils
plain-IsValid = record {
  limit_pos = omega arith;
  in_buffer = omega arith;
  compacted = omega arith;
  within_limit = omega arith;
}

process_all-plain_example :
    (after : TextOutputMonitor) × ((process_all latin_1 str_float plain_monitor stream >>= λ m.
    on_disable_text latin_1 str_float m eof second)
      ≡ ok after)
    × (written after.sink ≡ plain latin_1 str_float (all_lines text))
process_all-plain_example =
    process_all-plain latin_1 str_float plain_monitor stream eof second plain-IsValid refl refl refl
      (refl, (refl, tt)) ((omega arith, tt), omega arith)

text_of_stream : plain latin_1 str_float (all_lines text) ≡ codes "ab\ncd"
unfolding normalize text_eq
text_of_stream = refl

-- ===== src/LineSplitter.antt =====
-- `IncrementalLineSplitter` of src/flnr/mu.py: a byte buffer with a read position, fed in chunks.
-- A byte is a number, `bytearray` a list of bytes; a method returns its result and the new state.
pub mod Reference
pub mod Refinement
pub mod Streams
pub mod Chunking
mod Tests
use flnr.Base.{
  ℕ, zero, suc, ◌+◌, ◌-◌, ◌/◌, ◌&&◌, Option, none, some, List, [], ◌∷◌, ◌++◌, ◌==◌, ltb, leb,
  if◌then◌else◌, length, take, drop, nonempty,
}
use flnr.Outcome.{Result, ok, err, value_error, assertion_error, ◌>>=◌}
use mathlib.Core.Option

abbrev pub Bytes : Type 0
Bytes = List ℕ

abbrev pub newline : ℕ
newline = 10

-- `_DEFAULT_ILS_BUFFER_LIMIT`
abbrev pub default_buffer_limit : ℕ
default_buffer_limit = 10485760

pub record IncrementalLineSplitter : Type 0 where
  pub buf : Bytes
  pub start : ℕ
  pub buffer_sz_limit : ℕ

-- `__init__`; Python's int may be negative there, and every such limit is refused like 0.
unfoldable pub init : ℕ → Result IncrementalLineSplitter
init buffer_limit =
    if leb buffer_limit 0
    then err (value_error "buffer limit should be > 0")
    else ok (record { buf = []; start = 0; buffer_sz_limit = buffer_limit })

-- `buf[a:b]` and `buf[a:]`
abbrev pub slice : Bytes → ℕ → ℕ → Bytes
slice buf a b = take (b - a) (drop a buf)

-- The position of the first newline, counted from the head of the list.
pub find_newline : Bytes → Option ℕ
find_newline [] = none
find_newline (b ∷ bs) = if b == newline then some 0 else Option.map suc (find_newline bs)

-- `buf.find(b"\n", start)`, with `none` for -1
abbrev pub find : Bytes → ℕ → Option ℕ
find buf start = Option.map (λ i. start + i) (find_newline (drop start buf))

-- `_flush`
pub flush : IncrementalLineSplitter → Bytes × IncrementalLineSplitter
flush s =
    if ltb s.start (length s.buf)
    then (drop s.start s.buf, record s { buf = []; start = 0 })
    else ([], s)

pub data LoopEnd : Type 0 where
  -- the lines found and the final read position
  done : List Bytes → ℕ → LoopEnd
  -- `assert self._start > line_start` failed
  assertion_failed : LoopEnd
  -- more rounds than the fuel allows
  out_of_fuel : LoopEnd

-- The `while True` loop of `feed`, over the read position and the lines found.
pub split_loop : ℕ → Bytes → ℕ → List Bytes → LoopEnd
split_loop zero buf line_start lines = out_of_fuel
split_loop (suc fuel) buf line_start lines = elim (find buf line_start) [
  | none ↦ done lines line_start
  | some newline_pos ↦
      let line_end = newline_pos + 1 in
      let rest = split_loop fuel buf line_end (lines ++ slice buf line_start line_end ∷ []) in
      if ltb line_start line_end then rest else assertion_failed
]

-- The tail that has outgrown the limit is emitted as a fragment.
pub emit_tail : ℕ → Bytes → List Bytes → ℕ → List Bytes × ℕ
emit_tail limit buf lines start =
    if ltb limit (length buf - start)
    then (lines ++ drop start buf ∷ [], length buf)
    else (lines, start)

-- What was read is dropped once it takes up more than half of the buffer.
pub compact : Bytes → ℕ → Bytes × ℕ
compact buf start =
    if ltb 0 start && ltb (length buf / 2) start then (drop start buf, 0) else (buf, start)

-- What follows the loop in `feed`.
pub finish : ℕ → Bytes → LoopEnd → Result (List Bytes × IncrementalLineSplitter)
unfolding emit_tail compact
finish limit buf out_of_fuel = err assertion_error
finish limit buf assertion_failed = err assertion_error
finish limit buf (done lines start) =
    let (lines', start') = emit_tail limit buf lines start in
    let (buf', start'') = compact buf start' in
    ok (lines', record { buf = buf'; start = start''; buffer_sz_limit = limit })

-- `feed`; the loop takes a byte at least each round, so the length of the buffer bounds it.
pub feed : IncrementalLineSplitter → Bytes → Result (List Bytes × IncrementalLineSplitter)
unfolding flush split_loop finish
feed s [] =
    let (flushed, s') = flush s in ok (if nonempty flushed then (flushed ∷ [], s') else ([], s'))
feed s (b ∷ bs) =
    let buf = s.buf ++ b ∷ bs in
    finish s.buffer_sz_limit buf (split_loop (suc (length buf)) buf s.start [])

-- Chunks fed one after the other: the lines that come out, in order, and the final state.
unfoldable pub feed_all :
    IncrementalLineSplitter → List Bytes → Result (List Bytes × IncrementalLineSplitter)
feed_all s [] = ok ([], s)
feed_all s (chunk ∷ chunks) = do
  (lines, s') ← feed s chunk
  (more, s'') ← feed_all s' chunks
  ok (lines ++ more, s'')

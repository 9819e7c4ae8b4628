-- ===== src/LineSplitter/Refinement.antt =====
-- The buffer of `IncrementalLineSplitter` (src/flnr/mu.py) against the abstract splitter.
use flnr.Base.{
  ℕ, zero, suc, ◌+◌, ◌-◌, ◌*◌, ◌≤◌, ◌<◌, ◌≡◌, refl, ap, ◌∙◌, none, some, List, [], ◌∷◌, ◌++◌, ltb,
  arith, length, take, drop, true, Bool-cases, Option-cases, inl, inr, append_assoc, append-nil,
  length-append, length-drop, drop-drop, drop-eq-nil, nonempty-drop, drop-append,
}
use flnr.Outcome.{Result, ok}
use flnr.LineSplitter.{
  Bytes, IncrementalLineSplitter, find_newline, LoopEnd, done, split_loop, emit_tail, compact,
  finish, feed,
}
use flnr.LineSplitter.Reference.{
  split_lines, reference_feed, emit, split_lines-found, split_lines-none, find_newline-lt,
}

-- The bytes that were fed and not yet emitted.
abbrev pub pending : IncrementalLineSplitter → Bytes
pending s = drop s.start s.buf

-- Between two calls the read position lies in the first half of the buffer, and the bytes kept are
-- within the limit.
pub record IsValid (s : IncrementalLineSplitter) : Type 0 where
  pub limit_pos : 0 < s.buffer_sz_limit
  pub in_buffer : s.start ≤ length s.buf
  pub compacted : 2 * s.start ≤ length s.buf
  pub within_limit : length s.buf - s.start ≤ s.buffer_sz_limit

-- Where the loop ends: it found the lines of what it started at, and stopped at the rest.
pub record Splits (buf : Bytes) (start : ℕ) (before : List Bytes) (e : LoopEnd) : Type 0 where
  pub stop : ℕ
  pub stop_in_buffer : stop ≤ length buf
  pub ended : e ≡ done (before ++ (split_lines (drop start buf)).0) stop
  pub rest : drop stop buf ≡ (split_lines (drop start buf)).1

split_loop-none :
    (fuel : ℕ) (buf : Bytes) (start : ℕ) (before : List Bytes)
    → find_newline (drop start buf) ≡ none
    → split_loop (suc fuel) buf start before ≡ done before start
unfolding split_loop
split_loop-none fuel buf start before e = ground arith

-- A round emits a line and moves behind its newline; the assertion holds.
split_loop-found :
    (fuel : ℕ) (buf : Bytes) (start i : ℕ) (before : List Bytes)
    → find_newline (drop start buf) ≡ some i
    → split_loop (suc fuel) buf start before
      ≡ split_loop fuel buf (start + (i + 1)) (before ++ take (i + 1) (drop start buf) ∷ [])
unfolding split_loop
split_loop-found fuel buf start i before e =
    let step : start + i + 1 ≡ start + (i + 1) = omega arith in
    let width : start + (i + 1) - start ≡ i + 1 = omega arith in
    let later : ltb start (start + (i + 1)) ≡ true = ground arith in
    rw (e, split_loop) (rw (step, width, later))

split_lines-drop :
    (buf : Bytes) (start i : ℕ)
    → find_newline (drop start buf) ≡ some i
    → split_lines (drop start buf) ≡ (
      take (i + 1) (drop start buf) ∷ (split_lines (drop (start + (i + 1)) buf)).0,
      (split_lines (drop (start + (i + 1)) buf)).1,
    )
split_lines-drop buf start i e =
    rw (split_lines-found (drop start buf) i e, drop-drop (i + 1) start buf)

-- A round in front of a loop that splits.
Splits-next :
    (fuel : ℕ) (buf : Bytes) (start i : ℕ) (before : List Bytes)
    → find_newline (drop start buf) ≡ some i
    → Splits buf
        (start + (i + 1))
        (before ++ take (i + 1) (drop start buf) ∷ [])
        (split_loop fuel buf (start + (i + 1)) (before ++ take (i + 1) (drop start buf) ∷ []))
    → Splits buf start before (split_loop (suc fuel) buf start before)
Splits-next fuel buf start i before e later = record {
  stop = later.stop;
  stop_in_buffer = later.stop_in_buffer;
  ended =
      split_loop-found fuel buf start i before e
      ∙ later.ended
      ∙ rw (split_lines-drop buf start i e, append_assoc);
  rest = rw (split_lines-drop buf start i e) later.rest;
}

pub split_loop-Splits :
    (fuel : ℕ) (buf : Bytes) (start : ℕ) (before : List Bytes)
    → start ≤ length buf
    → length buf - start < fuel
    → Splits buf start before (split_loop fuel buf start before)
split_loop-Splits zero buf start before h f = absurd (omega arith)
split_loop-Splits (suc fuel) buf start before h f =
    elim (Option-cases (find_newline (drop start buf))) [
      | inl e ↦ record {
        stop = start;
        stop_in_buffer = h;
        ended =
            split_loop-none fuel buf start before e
            ∙ rw (split_lines-none (drop start buf) e, append-nil);
        rest = rw (split_lines-none (drop start buf) e);
      }
      | inr (i, e) ↦
          let bound : i < length buf - start =
            rw (← length-drop start buf) (find_newline-lt (drop start buf) i e) in
          Splits-next fuel buf start i before e (
            split_loop-Splits fuel buf (start + (i + 1))
              (before ++ take (i + 1) (drop start buf) ∷ []) (omega arith) (omega arith))
    ]

-- What a call of `feed` has done: the reference's lines and kept bytes, in a valid state.
pub record Feeds (s : IncrementalLineSplitter) (chunk : Bytes)
    (r : Result (List Bytes × IncrementalLineSplitter)) : Type 0 where
  pub after : IncrementalLineSplitter
  pub returned : r ≡ ok ((reference_feed s.buffer_sz_limit (pending s) chunk).0, after)
  pub kept : pending after ≡ (reference_feed s.buffer_sz_limit (pending s) chunk).1
  pub same_limit : after.buffer_sz_limit ≡ s.buffer_sz_limit
  pub valid : IsValid after

flush-Feeds : (s : IncrementalLineSplitter) → IsValid s → Feeds s [] (feed s [])
unfolding feed
flush-Feeds s v = elim (Bool-cases (ltb s.start (length s.buf))) [
  | inl e ↦ record {
    after = record s { buf = []; start = 0 };
    returned = ground (arith, nonempty-drop s.start s.buf);
    kept = refl;
    same_limit = refl;
    valid = ground (arith, v.limit_pos);
  }
  | inr e ↦
      let empty : pending s ≡ [] = drop-eq-nil s.start s.buf (ground arith) in
      record {
        after = s;
        returned = ground (arith, empty);
        kept = empty;
        same_limit = refl;
        valid = v;
      }
]

module _ (limit : ℕ) (buf : Bytes) (lines : List Bytes) (stop : ℕ)
    (inside : stop ≤ length buf) where
  -- The concrete emission of the tail against the abstract one.
  emit_tail_lem :
      ((emit_tail limit buf lines stop).0 ≡ (emit limit (lines, drop stop buf)).0)
      × (drop (emit_tail limit buf lines stop).1 buf ≡ (emit limit (lines, drop stop buf)).1)
      × ((emit_tail limit buf lines stop).1 ≤ length buf)
      × (length buf - (emit_tail limit buf lines stop).1 ≤ limit)
  unfolding emit_tail
  emit_tail_lem = ground (arith, length-drop stop buf, drop-eq-nil (length buf) buf)

-- Compaction keeps the pending bytes, and leaves the read position in the first half.
compact_lem :
    (buf : Bytes) (start : ℕ)
    → start ≤ length buf
    → let (buf', start') = compact buf start in
      (drop start' buf' ≡ drop start buf)
      × (2 * start' ≤ length buf')
      × (length buf' - start' ≡ length buf - start)
unfolding compact
compact_lem buf start h = ground (arith, length-drop start buf)

record Finishes (limit : ℕ) (kept : List Bytes × Bytes)
    (r : Result (List Bytes × IncrementalLineSplitter)) : Type 0 where
  after : IncrementalLineSplitter
  returned : r ≡ ok (kept.0, after)
  pending_after : pending after ≡ kept.1
  same_limit : after.buffer_sz_limit ≡ limit
  valid : IsValid after

finish-Finishes :
    (limit : ℕ) (buf : Bytes) (lines : List Bytes) (stop : ℕ)
    → 0 < limit
    → stop ≤ length buf
    → Finishes limit (emit limit (lines, drop stop buf)) (finish limit buf (done lines stop))
unfolding finish
finish-Finishes limit buf lines stop pos inside =
    let (out, kept, in_buffer, small) = emit_tail_lem limit buf lines stop inside in
    let position : ℕ = (emit_tail limit buf lines stop).1 in
    let (same, half, room) = compact_lem buf position in_buffer in
    let s' : IncrementalLineSplitter = record {
      buf = (compact buf position).0;
      start = (compact buf position).1;
      buffer_sz_limit = limit;
    } in
    record {
      after = s';
      returned = ap (λ t. ok (t, s')) out;
      pending_after = same ∙ kept;
      same_limit = refl;
      valid = record {
        limit_pos = pos;
        in_buffer = omega arith;
        compacted = half;
        within_limit = rw room small;
      };
    }

-- What follows the loop, at the place where the loop stopped.
finish-Feeds :
    (s : IncrementalLineSplitter) (b : ℕ) (bs : Bytes) (e : LoopEnd)
    → IsValid s
    → Splits (s.buf ++ b ∷ bs) s.start [] e
    → Feeds s (b ∷ bs) (finish s.buffer_sz_limit (s.buf ++ b ∷ bs) e)
finish-Feeds s b bs e v l =
    let whole : drop s.start (s.buf ++ b ∷ bs) ≡ pending s ++ b ∷ bs =
      drop-append s.start s.buf (b ∷ bs) v.in_buffer in
    let f =
      finish-Finishes s.buffer_sz_limit (s.buf ++ b ∷ bs)
        (split_lines (drop s.start (s.buf ++ b ∷ bs))).0 l.stop v.limit_pos l.stop_in_buffer in
    let same : emit s.buffer_sz_limit
          ((split_lines (drop s.start (s.buf ++ b ∷ bs))).0, drop l.stop (s.buf ++ b ∷ bs))
        ≡ reference_feed s.buffer_sz_limit (pending s) (b ∷ bs) =
      rw (l.rest, whole) in
    record {
      after = f.after;
      returned =
          ap (finish s.buffer_sz_limit (s.buf ++ b ∷ bs)) l.ended
          ∙ f.returned
          ∙ ap (λ t. ok (t.0, f.after)) same;
      kept = f.pending_after ∙ ap (λ t. t.1) same;
      same_limit = f.same_limit;
      valid = f.valid;
    }

-- One call of `feed` on a valid splitter returns what the reference emits, keeps what it keeps,
-- and leaves the splitter valid: the loop ends, and no assertion fails.
pub feed-Feeds :
    (s : IncrementalLineSplitter) (chunk : Bytes) → IsValid s → Feeds s chunk (feed s chunk)
unfolding feed
feed-Feeds s [] v = flush-Feeds s v
feed-Feeds s (b ∷ bs) v =
    let buf = s.buf ++ b ∷ bs in
    let inside : s.start ≤ length buf =
      rw (length-append s.buf (b ∷ bs)) (omega (arith, v.in_buffer)) in
    finish-Feeds s b bs (split_loop (suc (length buf)) buf s.start []) v
      (split_loop-Splits (suc (length buf)) buf s.start [] inside (omega arith))

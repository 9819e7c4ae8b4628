-- ===== src/TextOutput/Output.antt =====
-- The text that `TextOutputMonitor` of src/flnr/mu.py writes for a whole stream.
use flnr.Base.{
  All, ℕ, ◌≡◌, refl, sym, subst, ap, ap₂, ◌∙◌, Bool, true, false, Option, none, some, List, [], ◌∷◌,
  ◌++◌, if◌then◌else◌, append-nil, append_assoc, map, concat, nonempty,
}
use flnr.Base.Text.{Text}
use flnr.Outcome.{Result, ok, ◌>>=◌, chain_returned, ok_inj}
use flnr.Floats.{PyFloat}
use flnr.Monitors.{DisableReason}
use flnr.LineSplitter.{IncrementalLineSplitter, Bytes, feed, feed_all}
use flnr.LineSplitter.Reference.{split_lines, HasNoNewline}
use flnr.LineSplitter.Refinement.{IsValid, pending, feed-Feeds}
use flnr.LineSplitter.Streams.{feed_all-FeedsAll}
use flnr.LineSplitter.Chunking.{Fits, feed_all-split_lines}
use flnr.TextOutput.{
  SinkCall, write, flush, TextOutputMonitor, normalize, stamp, line_calls, write_lines,
  process_text, on_disable_text,
}

-- The text that a sink holds after its calls.
abbrev pub written : List SinkCall → Text
written [] = []
written (write text ∷ calls) = text ++ written calls
written (flush ∷ calls) = written calls

written-append : (a b : List SinkCall) → written (a ++ b) ≡ written a ++ written b
written-append [] b = refl
written-append (write text ∷ a) b = rw (written-append a b, append_assoc)
written-append (flush ∷ a) b = written-append a b

-- What is kept, as a line of its own.
abbrev pub tail : Bytes → List Bytes
tail rest = if nonempty rest then rest ∷ [] else []

-- The lines of a text, the last one also where no newline ends it.
abbrev pub all_lines : Bytes → List Bytes
all_lines text = let (lines, rest) = split_lines text in lines ++ tail rest

no_stamp : (p : Option ℕ) (base : Option PyFloat) (ts : PyFloat) → p ≡ none → stamp p base ts ≡ []
unfolding stamp
no_stamp none base ts e = refl
no_stamp (some precision) base ts e = cc

flushed : (b : Bool) (t : Text) → written (write t ∷ (if b then flush ∷ [] else [])) ≡ t
flushed true t = append-nil t
flushed false t = append-nil t

module _ (decode : Bytes → Text) (str_float : PyFloat → Text) where
  abbrev pub process_all : TextOutputMonitor → List (Bytes × PyFloat) → Result TextOutputMonitor
  process_all m [] = ok m
  process_all m ((chunk, ts) ∷ chunks) = do
    m' ← process_text decode str_float m chunk ts
    process_all m' chunks

  -- The lines, with `\r\n` made `\n`, as text.
  abbrev pub plain : List Bytes → Text
  plain lines = concat (map (λ line. decode (normalize line)) lines)

  -- A monitor without timestamps has written `text` since it was `m`.
  record Wrote (m : TextOutputMonitor) (ils : IncrementalLineSplitter) (text : Text)
      (after : TextOutputMonitor) : Type 0 where
    splitter : after.ils ≡ ils
    untimed : after.timestamp_precision ≡ none
    unmarked : after.append_disable_marker ≡ m.append_disable_marker
    output : written after.sink ≡ written m.sink ++ text

  line_text :
      (m : TextOutputMonitor) (ts : PyFloat) (line : Bytes)
      → m.timestamp_precision ≡ none
      → written (line_calls decode str_float m ts line) ≡ decode (normalize line)
  unfolding line_calls
  line_text m ts line e =
      rw (line_calls, no_stamp m.timestamp_precision m.timestamp_base ts e)
        (flushed m.auto_flush (decode (normalize line)))

  write_lines-Wrote :
      (m : TextOutputMonitor) (ts : PyFloat) (lines : List Bytes)
      → m.timestamp_precision ≡ none
      → Wrote m m.ils (plain lines) (write_lines decode str_float m ts lines)
  unfolding write_lines
  write_lines-Wrote m ts [] e = record {
    splitter = refl;
    untimed = e;
    unmarked = refl;
    output = sym (append-nil (written m.sink));
  }
  write_lines-Wrote m ts (line ∷ lines) e =
      let calls = line_calls decode str_float m ts line in
      let w = write_lines-Wrote (record m { sink = m.sink ++ calls }) ts lines e in
      record {
        splitter = w.splitter;
        untimed = w.untimed;
        unmarked = w.unmarked;
        output =
            w.output ∙ rw (written-append m.sink calls, line_text m ts line e, append_assoc) refl;
      }

  process_text-Wrote :
      (m : TextOutputMonitor) (chunk : Bytes) (ts : PyFloat) (lines : List Bytes)
      (ils : IncrementalLineSplitter)
      → m.timestamp_precision ≡ none
      → feed m.ils chunk ≡ ok (lines, ils)
      → (after : TextOutputMonitor) × (process_text decode str_float m chunk ts ≡ ok after)
        × Wrote m ils (plain lines) after
  unfolding process_text
  process_text-Wrote m chunk ts lines ils e f =
      let w = write_lines-Wrote (record m { ils = ils }) ts lines e in
      (
        write_lines decode str_float (record m { ils = ils }) ts lines,
        rw f refl,
        record {
          splitter = w.splitter;
          untimed = w.untimed;
          unmarked = w.unmarked;
          output = w.output;
        },
      )

  plain-append : (a b : List Bytes) → plain (a ++ b) ≡ plain a ++ plain b
  plain-append [] b = refl
  plain-append (line ∷ a) b = rw (plain-append a b, append_assoc)

  process_all-Wrote :
      (m : TextOutputMonitor) (chunks : List (Bytes × PyFloat)) (lines : List Bytes)
      (ils : IncrementalLineSplitter)
      → m.timestamp_precision ≡ none
      → feed_all m.ils (map (λ (chunk, ts). chunk) chunks) ≡ ok (lines, ils)
      → (after : TextOutputMonitor) × (process_all m chunks ≡ ok after)
        × Wrote m ils (plain lines) after
  unfolding feed_all
  process_all-Wrote m [] lines ils e f =
      subst
        (λ (ls, i).
          (after : TextOutputMonitor) × (process_all m [] ≡ ok after) × Wrote m i (plain ls) after)
        (ok_inj f)
        (
          m,
          refl,
          record {
            splitter = refl;
            untimed = e;
            unmarked = refl;
            output = sym (append-nil (written m.sink));
          },
        )
  process_all-Wrote m ((chunk, ts) ∷ chunks) lines ils e f =
      let ((first, i₁), fed, f₁) = chain_returned (feed m.ils chunk) f in
      let rest = map (λ (chunk, ts). chunk) chunks in
      let ((more, i₂), fed', f₂) = chain_returned (feed_all i₁ rest) f₁ in
      let (m', processed, w) = process_text-Wrote m chunk ts first i₁ e fed in
      let (after, processed', w') =
        process_all-Wrote m' chunks more i₂ w.untimed
          (subst (λ i. feed_all i rest ≡ ok (more, i₂)) (sym w.splitter) fed') in
      subst
        (λ (ls, i).
          (after : TextOutputMonitor) × (process_all m ((chunk, ts) ∷ chunks) ≡ ok after)
          × Wrote m i (plain ls) after)
        (ok_inj f₂)
        (
          after,
          rw processed processed',
          record {
            splitter = w'.splitter;
            untimed = w'.untimed;
            unmarked = w'.unmarked ∙ w.unmarked;
            output =
                w'.output
                ∙ ap (λ t. t ++ plain more) w.output
                ∙ append_assoc (written m.sink) (plain first) (plain more)
                ∙ ap (λ t. written m.sink ++ t) (sym (plain-append first more));
          },
        )

  -- `on_disable` writes what was kept, where no marker is wanted.
  on_disable-output :
      (m : TextOutputMonitor) (reason : DisableReason) (ts : PyFloat)
      → IsValid m.ils
      → m.timestamp_precision ≡ none
      → m.append_disable_marker ≡ false
      → (after : TextOutputMonitor) × (on_disable_text decode str_float m reason ts ≡ ok after)
        × (written after.sink ≡ written m.sink ++ plain (tail (pending m.ils)))
  unfolding on_disable_text
  on_disable-output m reason ts v e u =
      let f = feed-Feeds m.ils [] v in
      let (m', processed, w) = process_text-Wrote m [] ts _ f.after e f.returned in
      (
        record m' { sink = m'.sink ++ flush ∷ [] },
        rw (processed, u) refl,
        written-append m'.sink (flush ∷ []) ∙ append-nil (written m'.sink) ∙ w.output,
      )

  -- Without timestamps and marker, whatever the chunks that a stream comes in, if no line of it
  -- outgrows the buffer limit then the monitor has written, once it is disabled, every line of the
  -- stream in order, each decoded on its own with `\r\n` made `\n`, the last one also where no
  -- newline ends it, and nothing else.
  pub process_all-plain :
      (m : TextOutputMonitor) (chunks : List (Bytes × PyFloat)) (reason : DisableReason)
      (ts : PyFloat)
      → IsValid m.ils
      → pending m.ils ≡ []
      → m.timestamp_precision ≡ none
      → m.append_disable_marker ≡ false
      → All (λ chunk. nonempty chunk ≡ true) (map (λ (chunk, ts). chunk) chunks)
      → Fits m.ils.buffer_sz_limit (split_lines (concat (map (λ (chunk, ts). chunk) chunks)))
      → (after : TextOutputMonitor) × ((process_all m chunks >>= λ m'.
            on_disable_text decode str_float m' reason ts)
          ≡ ok after)
        × (written after.sink
            ≡ written m.sink ++ plain (all_lines (concat (map (λ (chunk, ts). chunk) chunks))))
  process_all-plain m chunks reason ts v empty e u h fits =
      let bytes = map (λ (chunk, ts). chunk) chunks in
      let same = ap (λ p. split_lines (p ++ concat bytes)) empty in
      let whole = split_lines (pending m.ils ++ concat bytes) in
      let a = feed_all-FeedsAll m.ils bytes v in
      let (ils, fed, kept) =
        feed_all-split_lines m.ils bytes v (subst HasNoNewline (sym empty) tt) h
          (subst (Fits m.ils.buffer_sz_limit) (sym same) fits) in
      let valid = subst IsValid (ap (λ (lines, i). i) (ok_inj (sym a.returned ∙ fed))) a.valid in
      let (m', processed, w) = process_all-Wrote m chunks whole.0 ils e fed in
      let (after, closed, output) =
        on_disable-output m' reason ts (subst IsValid (sym w.splitter) valid) w.untimed
          (w.unmarked ∙ u) in
      let left = ap pending w.splitter ∙ kept in
      (
        after,
        rw processed closed,
        output
            ∙ ap₂ (λ a b. a ++ plain (tail b)) w.output left
            ∙ append_assoc (written m.sink) (plain whole.0) (plain (tail whole.1))
            ∙ ap (λ t. written m.sink ++ t) (sym (plain-append whole.0 (tail whole.1)))
            ∙ ap (λ (lines, rest). written m.sink ++ plain (lines ++ tail rest)) same,
      )

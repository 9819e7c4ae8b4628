-- ===== src/LineSplitter/Streams.antt =====
-- Whole streams through `IncrementalLineSplitter` (src/flnr/mu.py): nothing is lost or reordered,
-- where the lines end does not depend on how the stream was cut, and memory stays bounded.
use flnr.Base.{
  ℕ, ◌*◌, ◌≤◌, ◌≡◌, refl, ap, ap₂, ◌∙◌, List, [], ◌∷◌, ◌++◌, ltb, arith, length, concat, Bool-cases,
  inl, inr, append_assoc, append-nil, concat-append,
}
use flnr.Outcome.{Result, ok}
use flnr.LineSplitter.{Bytes, IncrementalLineSplitter, feed, feed_all}
use flnr.LineSplitter.Reference.{split_lines, emit, reference_feed, concat-split_lines}
use flnr.LineSplitter.Refinement.{pending, IsValid, Feeds, feed-Feeds}

-- The reference, fed chunk by chunk.
abbrev pub reference_all : ℕ → Bytes → List Bytes → List Bytes × Bytes
reference_all limit kept [] = ([], kept)
reference_all limit kept (chunk ∷ chunks) =
    let (lines, kept') = reference_feed limit kept chunk in
    let (more, kept'') = reference_all limit kept' chunks in (lines ++ more, kept'')

-- What feeding a list of chunks has done.
pub record FeedsAll (s : IncrementalLineSplitter) (chunks : List Bytes)
    (r : Result (List Bytes × IncrementalLineSplitter)) : Type 0 where
  pub after : IncrementalLineSplitter
  pub returned : r ≡ ok ((reference_all s.buffer_sz_limit (pending s) chunks).0, after)
  pub kept : pending after ≡ (reference_all s.buffer_sz_limit (pending s) chunks).1
  pub same_limit : after.buffer_sz_limit ≡ s.buffer_sz_limit
  pub valid : IsValid after

-- A first feed, then the rest.
FeedsAll-cons :
    (s : IncrementalLineSplitter) (chunk : Bytes) (chunks : List Bytes)
    (f : Feeds s chunk (feed s chunk))
    → FeedsAll f.after chunks (feed_all f.after chunks)
    → FeedsAll s (chunk ∷ chunks) (feed_all s (chunk ∷ chunks))
unfolding feed_all
FeedsAll-cons s chunk chunks f g =
    let limit = s.buffer_sz_limit in
    let next = (reference_feed limit (pending s) chunk).1 in
    let e : reference_all f.after.buffer_sz_limit (pending f.after) chunks
        ≡ reference_all limit next chunks =
      ap₂ (λ l p. reference_all l p chunks) f.same_limit f.kept in
    record {
      after = g.after;
      returned = rw (f.returned, g.returned, e);
      kept = g.kept ∙ ap (λ t. t.1) e;
      same_limit = g.same_limit ∙ f.same_limit;
      valid = g.valid;
    }

pub feed_all-FeedsAll :
    (s : IncrementalLineSplitter) (chunks : List Bytes)
    → IsValid s
    → FeedsAll s chunks (feed_all s chunks)
unfolding feed_all
feed_all-FeedsAll s [] v = record {
  after = s;
  returned = refl;
  kept = refl;
  same_limit = refl;
  valid = v;
}
feed_all-FeedsAll s (chunk ∷ chunks) v =
    let f = feed-Feeds s chunk v in
    FeedsAll-cons s chunk chunks f (feed_all-FeedsAll f.after chunks f.valid)

concat-emit :
    (limit : ℕ) (s : List Bytes × Bytes)
    → concat (emit limit s).0 ++ (emit limit s).1 ≡ concat s.0 ++ s.1
concat-emit limit (lines, rest) = elim (Bool-cases (ltb limit (length rest))) [
  | inl e ↦ rw e (simp (concat-append, append-nil))
  | inr e ↦ rw e
]

concat-reference_feed :
    (limit : ℕ) (kept chunk : Bytes)
    → let (lines, kept') = reference_feed limit kept chunk in concat lines ++ kept' ≡ kept ++ chunk
concat-reference_feed limit [] [] = refl
concat-reference_feed limit (b ∷ bs) [] = simp (append-nil)
concat-reference_feed limit kept (b ∷ bs) =
    concat-emit limit (split_lines (kept ++ b ∷ bs)) ∙ concat-split_lines (kept ++ b ∷ bs)

concat-reference_all :
    (limit : ℕ) (kept : Bytes) (chunks : List Bytes)
    → let (lines, kept') = reference_all limit kept chunks in
      concat lines ++ kept' ≡ kept ++ concat chunks
concat-reference_all limit kept [] = rw append-nil
concat-reference_all limit kept (chunk ∷ chunks) =
    let (lines, next) = reference_feed limit kept chunk in
    let (more, last) = reference_all limit next chunks in
    rw (concat-append lines more, append_assoc, concat-reference_all limit next chunks)
      (rw (← append_assoc) (rw (concat-reference_feed limit kept chunk, append_assoc)))

-- From a valid splitter `feed` always returns, whatever the chunks, and no byte is lost, invented
-- or reordered: the lines joined, with the bytes still kept, are the bytes kept before and the
-- chunks joined.
pub feed_all_conserves :
    (s : IncrementalLineSplitter) (chunks : List Bytes)
    → IsValid s
    → (r : List Bytes × IncrementalLineSplitter) × (feed_all s chunks ≡ ok r)
      × (concat r.0 ++ pending r.1 ≡ pending s ++ concat chunks)
feed_all_conserves s chunks v =
    let f = feed_all-FeedsAll s chunks v in
    let r = reference_all s.buffer_sz_limit (pending s) chunks in
    (
      (r.0, f.after),
      f.returned,
      ap (λ t. concat r.0 ++ t) f.kept ∙ concat-reference_all s.buffer_sz_limit (pending s) chunks,
    )

-- However the stream is cut, between two calls the buffer holds at most twice the limit.
pub feed_all-bounded :
    (s : IncrementalLineSplitter) (chunks : List Bytes)
    → IsValid s
    → (r : List Bytes × IncrementalLineSplitter) × (feed_all s chunks ≡ ok r)
      × (length r.1.buf ≤ 2 * s.buffer_sz_limit)
feed_all-bounded s chunks v =
    let f = feed_all-FeedsAll s chunks v in
    let r = reference_all s.buffer_sz_limit (pending s) chunks in
    let bound : length f.after.buf ≤ 2 * s.buffer_sz_limit =
      omega (arith, f.valid.within_limit, f.valid.compacted, f.same_limit) in
    ((r.0, f.after), f.returned, bound)

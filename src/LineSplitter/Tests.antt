-- ===== src/LineSplitter/Tests.antt =====
-- Runs and instances for `IncrementalLineSplitter` of src/flnr/mu.py.
use flnr.Base.{◌*◌, ◌≤◌, ◌≡◌, refl, List, [], ◌∷◌, ◌++◌, arith, length, concat}
use flnr.Outcome.{ok, err, value_error}
use flnr.LineSplitter.{Bytes, IncrementalLineSplitter, find_newline, init, feed, feed_all}
use flnr.LineSplitter.Reference.{split_lines}
use flnr.LineSplitter.Refinement.{pending, IsValid, Feeds, feed-Feeds}
use flnr.LineSplitter.Streams.{feed_all_conserves, feed_all-bounded}
use flnr.LineSplitter.Chunking.{feed_all-split_lines}

-- A limit of four bytes.
abbrev fresh : IncrementalLineSplitter
fresh = record { buf = []; start = 0; buffer_sz_limit = 4 }

init-fresh : init 4 ≡ ok fresh
unfolding init
init-fresh = refl

init-zero : init 0 ≡ err (value_error "buffer limit should be > 0")
unfolding init
init-zero = refl

-- "ab\ncd", then "e\nf"
abbrev chunks : List Bytes
chunks = (97 ∷ 98 ∷ 10 ∷ 99 ∷ 100 ∷ []) ∷ (101 ∷ 10 ∷ 102 ∷ []) ∷ []

feed_all-chunks :
    feed_all fresh chunks
    ≡ ok (
      (97 ∷ 98 ∷ 10 ∷ []) ∷ (99 ∷ 100 ∷ 101 ∷ 10 ∷ []) ∷ [],
      record { buf = 102 ∷ []; start = 0; buffer_sz_limit = 4 },
    )
unfolding feed_all feed find_newline
feed_all-chunks = refl

-- Five bytes with no newline outgrow the limit, and an empty chunk then has nothing to flush.
feed_all-oversized :
    feed_all fresh ((1 ∷ 2 ∷ 3 ∷ 4 ∷ 5 ∷ []) ∷ [] ∷ (6 ∷ []) ∷ [] ∷ [])
    ≡ ok ((1 ∷ 2 ∷ 3 ∷ 4 ∷ 5 ∷ []) ∷ (6 ∷ []) ∷ [], fresh)
unfolding feed_all feed find_newline
feed_all-oversized = refl

fresh-IsValid : IsValid fresh
fresh-IsValid = omega arith

feed-Feeds_example : Feeds fresh (97 ∷ 10 ∷ 98 ∷ []) (feed fresh (97 ∷ 10 ∷ 98 ∷ []))
feed-Feeds_example = feed-Feeds fresh (97 ∷ 10 ∷ 98 ∷ []) fresh-IsValid

feed_all_conserves_example :
    (r : List Bytes × IncrementalLineSplitter) × (feed_all fresh chunks ≡ ok r)
    × (concat r.0 ++ pending r.1 ≡ concat chunks)
feed_all_conserves_example = feed_all_conserves fresh chunks fresh-IsValid

feed_all-bounded_example :
    (r : List Bytes × IncrementalLineSplitter) × (feed_all fresh chunks ≡ ok r)
    × (length r.1.buf ≤ 2 * 4)
feed_all-bounded_example = feed_all-bounded fresh chunks fresh-IsValid

feed_all-split_lines_example :
    (after : IncrementalLineSplitter) × (feed_all fresh chunks
      ≡ ok ((split_lines (concat chunks)).0, after))
    × (pending after ≡ (split_lines (concat chunks)).1)
feed_all-split_lines_example =
    feed_all-split_lines fresh chunks fresh-IsValid tt (refl, (refl, tt)) (omega arith)

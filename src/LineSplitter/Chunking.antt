-- ===== src/LineSplitter/Chunking.antt =====
-- Where the lines of a stream end does not depend on how it was cut into chunks, as long as no line
-- outgrows the limit of `IncrementalLineSplitter` (src/flnr/mu.py).
use native.Mathlib.Nat.{le_trans}
use flnr.Base.{
  All, ℕ, suc, ◌≤◌, ◌<◌, ◌≡◌, refl, ap, sym, subst, ◌∙◌, ==_iff, ltb→lt, List, [], ◌∷◌, ◌++◌, ◌==◌,
  ltb, arith, length, nonempty, concat, true, false, Bool-cases, inl, inr, append_assoc, append-nil,
}
use flnr.Outcome.{Result, ok}
use flnr.LineSplitter.{Bytes, newline, IncrementalLineSplitter, feed, feed_all}
use flnr.LineSplitter.Reference.{IsLine, HasNoNewline, prepend, split_lines, emit}
use flnr.LineSplitter.Refinement.{pending, IsValid, feed-Feeds}
use flnr.LineSplitter.Streams.{reference_all, feed_all-FeedsAll}

-- A split text with more text behind it.
abbrev join : List Bytes × Bytes → Bytes → List Bytes × Bytes
join (lines, rest) more = let (later, last) = split_lines (rest ++ more) in (lines ++ later, last)

join-prepend :
    (b : ℕ) (s : List Bytes × Bytes) (ys : Bytes)
    → (b == newline) ≡ false
    → prepend b (join s ys) ≡ join (prepend b s) ys
join-prepend b ([], rest) ys e = rw e
join-prepend b (line ∷ lines, rest) ys e = refl

-- Splitting a text in two steps is splitting it at once.
split_lines-append : (xs ys : Bytes) → split_lines (xs ++ ys) ≡ join (split_lines xs) ys
split_lines-append [] ys = refl
split_lines-append (b ∷ bs) ys = elim (Bool-cases (b == newline)) [
  | inl e ↦ rw (e, split_lines-append bs ys)
  | inr e ↦ rw (e, split_lines-append bs ys) (join-prepend b (split_lines bs) ys e)
]

-- No line of a split text, nor what stands behind the last, is longer than the limit.
abbrev pub Fits : ℕ → List Bytes × Bytes → Type 0
Fits limit (lines, rest) = All (λ line. length line ≤ limit) lines × (length rest ≤ limit)

abbrev head_length : List Bytes × Bytes → ℕ
head_length ([], rest) = length rest
head_length (line ∷ lines, rest) = length line

head_length-Fits : (limit : ℕ) (s : List Bytes × Bytes) → Fits limit s → head_length s ≤ limit
head_length-Fits limit ([], rest) (_, h) = h
head_length-Fits limit (line ∷ lines, rest) ((h, _), _) = h

head_length-prepend :
    (b : ℕ) (s : List Bytes × Bytes) → head_length (prepend b s) ≡ suc (head_length s)
head_length-prepend b ([], rest) = refl
head_length-prepend b (line ∷ lines, rest) = refl

prepend-HasNoNewline :
    (b : ℕ) (s : List Bytes × Bytes)
    → (b == newline) ≡ false
    → HasNoNewline s.1
    → HasNoNewline (prepend b s).1
prepend-HasNoNewline b ([], rest) e h = (ground arith, h)
prepend-HasNoNewline b (line ∷ lines, rest) e h = h

-- What stands behind the last newline holds none.
pub split_lines-HasNoNewline : (bs : Bytes) → HasNoNewline (split_lines bs).1
split_lines-HasNoNewline [] = tt
split_lines-HasNoNewline (b ∷ bs) = elim (Bool-cases (b == newline)) [
  | inl e ↦ rw e (split_lines-HasNoNewline bs)
  | inr e ↦ rw e (prepend-HasNoNewline b (split_lines bs) e (split_lines-HasNoNewline bs))
]

other_byte : (b : ℕ) → ¬ (b ≡ newline) → (b == newline) ≡ false
other_byte b h = ground arith

split_lines-rest : (r : Bytes) → HasNoNewline r → split_lines r ≡ ([], r)
split_lines-rest [] h = refl
split_lines-rest (b ∷ bs) (ne, h) = rw (other_byte b ne, split_lines-rest bs h)

-- Bytes without a newline stand whole at the head of what is split.
length-le-head_length :
    (r ys : Bytes) → HasNoNewline r → length r ≤ head_length (split_lines (r ++ ys))
length-le-head_length [] ys h = omega arith
length-le-head_length (b ∷ bs) ys (ne, h) =
    rw (other_byte b ne, head_length-prepend b (split_lines (bs ++ ys)))
      (omega (arith, length-le-head_length bs ys h))

All-append {ℓ κ} : {A : Type ℓ} (P : A → Type κ) (xs ys : List A) → All P (xs ++ ys) → All P ys
All-append P [] ys h = h
All-append P (x ∷ xs) ys (_, h) = All-append P xs ys h

-- If no line of the whole outgrows the limit, neither does what is left of a part of it.
rest-le-limit :
    (limit : ℕ) (xs ys : Bytes)
    → Fits limit (split_lines (xs ++ ys))
    → Fits limit (split_lines ((split_lines xs).1 ++ ys)) × (length (split_lines xs).1 ≤ limit)
rest-le-limit limit xs ys h =
    let s = split_lines xs in
    let (lines, last) = split_lines (s.1 ++ ys) in
    let (all, small) = rw (split_lines-append xs ys) at h in
    let fits : Fits limit (lines, last) = (All-append _ s.0 lines all, small) in
    (
      fits,
      le_trans (length-le-head_length s.1 ys (split_lines-HasNoNewline xs))
          (head_length-Fits limit (lines, last) fits),
    )

-- A chunk that leaves a small tail is split as it stands.
emit-fits : (limit : ℕ) (s : List Bytes × Bytes) → length s.1 ≤ limit → emit limit s ≡ s
emit-fits limit (lines, rest) h = ground arith

reference_all-split_lines :
    (limit : ℕ) (kept : Bytes) (chunks : List Bytes)
    → split_lines kept ≡ ([], kept)
    → All (λ chunk. nonempty chunk ≡ true) chunks
    → Fits limit (split_lines (kept ++ concat chunks))
    → reference_all limit kept chunks ≡ split_lines (kept ++ concat chunks)
reference_all-split_lines limit kept [] n h f = rw append-nil (sym n)
reference_all-split_lines limit kept ([] ∷ chunks) n (e, h) f = cc
reference_all-split_lines limit kept ((b ∷ bs) ∷ chunks) n (e, h) f =
    let text = kept ++ b ∷ bs in
    let whole = sym (append_assoc kept (b ∷ bs) (concat chunks)) in
    let fits : Fits limit (split_lines (text ++ concat chunks)) =
      subst (λ t. Fits limit (split_lines t)) whole f in
    let (later, small) = rest-le-limit limit text (concat chunks) fits in
    let rest = (split_lines text).1 in
    let ih =
      reference_all-split_lines limit rest chunks
        (split_lines-rest rest (split_lines-HasNoNewline text)) h later in
    rw (emit-fits limit (split_lines text) small, ih)
      (sym (ap split_lines whole ∙ split_lines-append text (concat chunks)))

-- However a stream is cut into non-empty chunks, if none of its lines outgrows the limit then
-- `feed` emits the newline-terminated lines of the whole stream and keeps what stands behind the
-- last newline.
pub feed_all-split_lines :
    (s : IncrementalLineSplitter) (chunks : List Bytes)
    → IsValid s
    → HasNoNewline (pending s)
    → All (λ chunk. nonempty chunk ≡ true) chunks
    → Fits s.buffer_sz_limit (split_lines (pending s ++ concat chunks))
    → (after : IncrementalLineSplitter) × (feed_all s chunks
        ≡ ok ((split_lines (pending s ++ concat chunks)).0, after))
      × (pending after ≡ (split_lines (pending s ++ concat chunks)).1)
feed_all-split_lines s chunks v n h f =
    let r = feed_all-FeedsAll s chunks v in
    let e =
      reference_all-split_lines s.buffer_sz_limit (pending s) chunks
        (split_lines-rest (pending s) n) h f in
    (r.after, r.returned ∙ ap (λ t. ok (t.0, r.after)) e, r.kept ∙ ap (λ t. t.1) e)

-- What one feed emits: whole lines, then at most one fragment.
pub record Emits (s : IncrementalLineSplitter) (r : Result (List Bytes × IncrementalLineSplitter))
    : Type 0 where
  pub lines : List Bytes
  pub fragments : List Bytes
  pub after : IncrementalLineSplitter
  pub returned : r ≡ ok (lines ++ fragments, after)
  -- each line ends at its only newline
  pub whole : All IsLine lines
  -- a fragment is longer than the limit and holds no newline
  pub oversized : All (λ f. (s.buffer_sz_limit < length f) × HasNoNewline f) fragments
  pub at_most_one : length fragments ≤ 1
  -- what is kept never holds a newline
  pub kept : HasNoNewline (pending after)

prepend-IsLine :
    (b : ℕ) (s : List Bytes × Bytes) → ¬ (b ≡ newline) → All IsLine s.0 → All IsLine (prepend b s).0
prepend-IsLine b ([], rest) ne h = tt
prepend-IsLine b ([] ∷ lines, rest) ne (h, hs) = absurd h
prepend-IsLine b ((c ∷ line) ∷ lines, rest) ne (h, hs) = ((ne, h), hs)

split_lines-IsLine : (bs : Bytes) → All IsLine (split_lines bs).0
split_lines-IsLine [] = tt
split_lines-IsLine (b ∷ bs) = elim (Bool-cases (b == newline)) [
  | inl e ↦ rw e ((==_iff b newline).0 e, split_lines-IsLine bs)
  | inr e ↦ rw e (prepend-IsLine b (split_lines bs) (ground arith) (split_lines-IsLine bs))
]

emitted :
    (s : IncrementalLineSplitter) (lines : List Bytes) (rest : Bytes) (f : IncrementalLineSplitter)
    (r : Result (List Bytes × IncrementalLineSplitter))
    → All IsLine lines
    → HasNoNewline rest
    → r ≡ ok ((emit s.buffer_sz_limit (lines, rest)).0, f)
    → pending f ≡ (emit s.buffer_sz_limit (lines, rest)).1
    → Emits s r
emitted s lines rest f r h n e k = elim (Bool-cases (ltb s.buffer_sz_limit (length rest))) [
  | inl big ↦ record {
    lines = lines;
    fragments = rest ∷ [];
    after = f;
    returned = e ∙ rw big;
    whole = h;
    oversized = ((ltb→lt _ _ big, n), tt);
    at_most_one = omega arith;
    kept = rw (k, big) tt;
  }
  | inr small ↦ record {
    lines = lines;
    fragments = [];
    after = f;
    returned = e ∙ rw (small, append-nil);
    whole = h;
    oversized = tt;
    at_most_one = omega arith;
    kept = rw (k, small) n;
  }
]

-- A non-empty chunk fed to a valid splitter gives lines that end at their only newline, then at
-- most one fragment, which is longer than the limit and holds no newline; what is kept holds none.
pub feed-Emits :
    (s : IncrementalLineSplitter) (b : ℕ) (bs : Bytes) → IsValid s → Emits s (feed s (b ∷ bs))
feed-Emits s b bs v =
    let f = feed-Feeds s (b ∷ bs) v in
    let text = pending s ++ b ∷ bs in
    emitted s (split_lines text).0 (split_lines text).1 f.after (feed s (b ∷ bs))
      (split_lines-IsLine text) (split_lines-HasNoNewline text) f.returned f.kept

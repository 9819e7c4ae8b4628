-- ===== src/LineSplitter/Reference.antt =====
-- What the incremental splitter of src/flnr/mu.py promises, with no buffer and no read position:
-- the bytes not yet emitted, and the lines of a text.
use flnr.Base.{
  ℕ, zero, suc, ◌+◌, ◌<◌, ◌≡◌, refl, ap, ◌∙◌, none, some, List, [], ◌∷◌, ◌++◌, ◌==◌, ltb,
  if◌then◌else◌, arith, length, take, drop, nonempty, concat, Bool-cases, inl, inr,
}
use native.Mathlib.Numerals.{add-one}
use flnr.LineSplitter.{Bytes, newline, find_newline}

-- A byte put in front of a text that is split already.
abbrev pub prepend : ℕ → List Bytes × Bytes → List Bytes × Bytes
prepend b ([], rest) = ([], b ∷ rest)
prepend b (line ∷ lines, rest) = ((b ∷ line) ∷ lines, rest)

-- The newline-terminated lines of a text, and what stands behind the last newline.
abbrev pub split_lines : Bytes → List Bytes × Bytes
split_lines [] = ([], [])
split_lines (b ∷ bs) =
    let (lines, rest) = split_lines bs in
    if b == newline then ((b ∷ []) ∷ lines, rest) else prepend b (lines, rest)

-- The abstract feed: the emitted lines and the bytes kept.
abbrev pub emit : ℕ → List Bytes × Bytes → List Bytes × Bytes
emit limit (lines, rest) =
    if ltb limit (length rest) then (lines ++ rest ∷ [], []) else (lines, rest)

abbrev pub reference_feed : ℕ → Bytes → Bytes → List Bytes × Bytes
reference_feed limit pending [] = (if nonempty pending then pending ∷ [] else [], [])
reference_feed limit pending (b ∷ bs) = emit limit (split_lines (pending ++ b ∷ bs))

-- Each line holds one newline, at its end.
abbrev pub IsLine : Bytes → Type 0
IsLine [] = ⊥
IsLine (b ∷ []) = b ≡ newline
IsLine (b ∷ bs) = ¬ (b ≡ newline) × IsLine bs

abbrev pub HasNoNewline : Bytes → Type 0
HasNoNewline [] = Unit
HasNoNewline (b ∷ bs) = ¬ (b ≡ newline) × HasNoNewline bs

concat-prepend :
    (b : ℕ) (s : List Bytes × Bytes)
    → concat (prepend b s).0 ++ (prepend b s).1 ≡ b ∷ (concat s.0 ++ s.1)
concat-prepend b ([], rest) = refl
concat-prepend b (line ∷ lines, rest) = refl

pub concat-split_lines : (bs : Bytes) → concat (split_lines bs).0 ++ (split_lines bs).1 ≡ bs
concat-split_lines [] = refl
concat-split_lines (b ∷ bs) = elim (Bool-cases (b == newline)) [
  | inl e ↦ rw e (ap (λ t. b ∷ t) (concat-split_lines bs))
  | inr e ↦ rw e (concat-prepend b (split_lines bs) ∙ ap (λ t. b ∷ t) (concat-split_lines bs))
]

split_lines-find :
    (bs : Bytes) (i : ℕ)
    → find_newline bs ≡ some i
    → split_lines bs
      ≡ (take (suc i) bs ∷ (split_lines (drop (suc i) bs)).0, (split_lines (drop (suc i) bs)).1)
unfolding find_newline
split_lines-find [] i h = cc
split_lines-find (b ∷ bs) zero h = ground arith
split_lines-find (b ∷ bs) (suc i) h = ground (arith, split_lines-find bs i)

-- The first newline found is where the first line ends.
pub split_lines-found :
    (bs : Bytes) (i : ℕ)
    → find_newline bs ≡ some i
    → split_lines bs
      ≡ (take (i + 1) bs ∷ (split_lines (drop (i + 1) bs)).0, (split_lines (drop (i + 1) bs)).1)
split_lines-found bs i h = rw add-one (split_lines-find bs i h)

pub split_lines-none : (bs : Bytes) → find_newline bs ≡ none → split_lines bs ≡ ([], bs)
unfolding find_newline
split_lines-none [] h = refl
split_lines-none (b ∷ bs) h = ground (arith, split_lines-none bs)

pub find_newline-lt : (bs : Bytes) (i : ℕ) → find_newline bs ≡ some i → i < length bs
unfolding find_newline
find_newline-lt [] i h = cc
find_newline-lt (b ∷ bs) zero h = omega arith
find_newline-lt (b ∷ bs) (suc i) h = ground (arith, find_newline-lt bs i)

-- ===== src/Tracing/Posix/Quoting.antt =====
-- `shlex.quote`, as src/flnr/command_tracing/platform/_posix.py uses it, gives back its argument as
-- one word of the shell.
use flnr.Base.{
  ℕ, ◌≡◌, refl, ◌∙◌, Bool, true, false, some, List, [], ◌∷◌, ◌++◌, ◌==◌, ==_iff, arith, all,
  append-nil, append_assoc, Bool-cases, inl, inr,
}
use flnr.Base.Text.{Text, codes}
use flnr.Tracing.Posix.{single_quote, is_safe, escape, quote}
use flnr.Tracing.Posix.Shell.{Mode, unquoted, in_single, Reader, step, read}

-- The reader inside or outside quotes, at a word.
abbrev at : Mode → Text → List Text → Reader
at mode word words = record { mode = mode; word = word; started = true; words = words }

read-step :
    (r : Reader) (c : ℕ) (cs : Text) {r' : Reader}
    → step r c ≡ some r'
    → read r (c ∷ cs) ≡ read r' cs
unfolding read
read-step r c cs e = ground arith

module _ (words : List Text) where
  step-safe :
      (word : Text) (c : ℕ)
      → is_safe c ≡ true
      → step (at unquoted word words) c ≡ some (at unquoted (word ++ c ∷ []) words)
  step-safe word c h = ground arith

  step-quoted :
      (word : Text) (c : ℕ)
      → (c == single_quote) ≡ false
      → step (at in_single word words) c ≡ some (at in_single (word ++ c ∷ []) words)
  step-quoted word c h = rw h

  read-safe :
      (word s rest : Text)
      → all is_safe s ≡ true
      → read (at unquoted word words) (s ++ rest) ≡ read (at unquoted (word ++ s) words) rest
  read-safe word [] rest h = rw append-nil
  read-safe word (c ∷ s) rest h =
      let safe : is_safe c ≡ true = ground arith in
      let others : all is_safe s ≡ true = ground arith in
      read-step (at unquoted word words) c (s ++ rest) (step-safe word c safe)
      ∙ read-safe (word ++ c ∷ []) s rest others
      ∙ rw append_assoc

  read-escaped_quote :
      (word rest : Text)
      → read (at in_single word words) (codes "'\"'\"'" ++ rest)
        ≡ read (at in_single (word ++ 39 ∷ []) words) rest
  unfolding read
  read-escaped_quote word rest = refl

  -- Inside single quotes an escaped text is read as itself.
  read-escape :
      (word s rest : Text)
      → read (at in_single word words) (escape s ++ rest)
        ≡ read (at in_single (word ++ s) words) rest
  unfolding escape
  read-escape word [] rest = rw append-nil
  read-escape word (c ∷ s) rest = elim (Bool-cases (c == single_quote)) [
    | inl e ↦
        let quote_char : c ≡ 39 = (==_iff c 39).0 e in
        rw quote_char (
          read-escaped_quote word (escape s ++ rest)
          ∙ read-escape (word ++ 39 ∷ []) s rest
          ∙ rw append_assoc)
    | inr e ↦ rw e (
        read-step (at in_single word words) c (escape s ++ rest) (step-quoted word c e)
        ∙ read-escape (word ++ c ∷ []) s rest
        ∙ rw append_assoc)
  ]

-- A reader between words, or in one.
abbrev pub outside : Bool → Text → List Text → Reader
outside started word words = record {
  mode = unquoted;
  word = word;
  started = started;
  words = words;
}

begin-safe :
    (words : List Text) (started : Bool) (word : Text) (c : ℕ)
    → is_safe c ≡ true
    → step (outside started word words) c ≡ some (at unquoted (word ++ c ∷ []) words)
begin-safe words started word c h = ground arith

-- A quoted text, wherever a word may go on, adds the text to that word.
pub read-quote :
    (words : List Text) (started : Bool) (word s rest : Text)
    → read (outside started word words) (quote s ++ rest)
      ≡ read (outside true (word ++ s) words) rest
unfolding quote
read-quote words started word [] rest = unfold read in rw append-nil
read-quote words started word (c ∷ s) rest = elim (Bool-cases (all is_safe (c ∷ s))) [
  | inl plain ↦
      let safe : is_safe c ≡ true = ground arith in
      let others : all is_safe s ≡ true = ground arith in
      rw plain (
        read-step (outside started word words) c (s ++ rest) (begin-safe words started word c safe)
        ∙ read-safe words (word ++ c ∷ []) s rest others
        ∙ rw append_assoc)
  | inr special ↦ rw special (
      read-step (outside started word words) single_quote
        ((escape (c ∷ s) ++ single_quote ∷ []) ++ rest) refl
      ∙ rw append_assoc (read-escape words word (c ∷ s) (single_quote ∷ rest))
      ∙ read-step (at in_single (word ++ c ∷ s) words) single_quote rest refl)
]

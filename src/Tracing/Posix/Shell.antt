-- ===== src/Tracing/Posix/Shell.antt =====
-- How a POSIX shell takes a line apart into words, as far as the recipes of
-- src/flnr/command_tracing/platform/_posix.py need it: blanks, single and double quotes, and
-- characters that stand for themselves. A character with another meaning to the shell is refused.
use flnr.Base.{
  ℕ, Bool, true, false, ◌||◌, Option, none, some, List, [], ◌∷◌, ◌++◌, ◌==◌, if◌then◌else◌,
}
use flnr.Base.Text.{Text}
use flnr.Tracing.Posix.{single_quote, double_quote, is_safe}

pub data Mode : Type 0 where
  unquoted in_single in_double : Mode

pub record Reader : Type 0 where
  pub mode : Mode
  pub word : Text
  -- a word has begun, be it empty so far
  pub started : Bool
  pub words : List Text

abbrev pub space : ℕ
space = 32

-- `$`, backquote, backslash and `!` keep a meaning inside double quotes.
abbrev pub is_active : ℕ → Bool
is_active c = c == 36 || c == 96 || c == 92 || c == 33

abbrev pub take_char : Reader → ℕ → Reader
take_char r c = record r { word = r.word ++ c ∷ []; started = true }

abbrev pub end_word : Reader → Reader
end_word r =
    if r.started then record r { word = []; started = false; words = r.words ++ r.word ∷ [] } else r

abbrev pub enter : Mode → Reader → Reader
enter mode r = record r { mode = mode; started = true }

abbrev pub step_in : Mode → Reader → ℕ → Option Reader
step_in unquoted r c =
    if c == space
    then some (end_word r)
    else if c == single_quote
    then some (enter in_single r)
    else if c == double_quote
    then some (enter in_double r)
    else if is_safe c
    then some (take_char r c)
    else none
step_in in_single r c = if c == single_quote then some (enter unquoted r) else some (take_char r c)
step_in in_double r c =
    if c == double_quote
    then some (enter unquoted r)
    else if is_active c
    then none
    else some (take_char r c)

abbrev pub step : Reader → ℕ → Option Reader
step r c = step_in r.mode r c

unfoldable pub read : Reader → Text → Option Reader
read r [] = some r
read r (c ∷ cs) = elim (step r c) [ none ↦ none | some r' ↦ read r' cs ]

abbrev pub close : Option Reader → Option (List Text)
close none = none
close (some r) = elim r.mode [ unquoted ↦ some (end_word r).words | _ ↦ none ]

-- The words of a line; `none` where a quote is left open or a character is refused.
unfoldable pub shell_words : Text → Option (List Text)
unfolding read
shell_words line =
    close (read (record { mode = unquoted; word = []; started = false; words = [] }) line)

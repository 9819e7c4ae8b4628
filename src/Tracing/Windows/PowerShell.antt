-- ===== src/Tracing/Windows/PowerShell.antt =====
-- How PowerShell reads the lines of src/flnr/command_tracing/platform/_windows.py: literals in single
-- quotes, the words of a command, and the statements that fill in a ProcessStartInfo.
use flnr.Base.{
  ℕ, Bool, true, false, ◌&&◌, ◌||◌, Option, none, some, List, [], ◌∷◌, ◌++◌, ◌==◌, leb,
  if◌then◌else◌,
}
use mathlib.Core.Option
use flnr.Base.Text.{Text, codes, text_eq}
use flnr.Tracing.Posix.{single_quote}

-- The typographic quotes U+2018 to U+201B are single quotes too.
abbrev pub is_typographic : ℕ → Bool
is_typographic c = leb 8216 c && leb c 8219

abbrev pub is_quote : ℕ → Bool
is_quote c = c == single_quote || is_typographic c

abbrev pub push : ℕ → Option (Text × Text) → Option (Text × Text)
push c none = none
push c (some (word, rest)) = some (c ∷ word, rest)

-- A literal after its opening quote, and what follows it; two quotes stand for the second. The first
-- argument says that a quote was read which may be the last.
unfoldable pub literal : Bool → Text → Option (Text × Text)
literal false [] = none
literal true [] = some ([], [])
literal false (c ∷ s) =
    let rest = literal false s in
    let end = literal true s in if is_quote c then end else push c rest
literal true (c ∷ s) =
    let rest = literal false s in if is_quote c then push c rest else some ([], c ∷ s)

-- `text` without the prefix
abbrev pub strip : Text → Text → Option Text
strip [] text = some text
strip (p ∷ prefix) [] = none
strip (p ∷ prefix) (c ∷ text) = if p == c then strip prefix text else none

abbrev pub chain {ℓ κ} : {A : Type ℓ} {B : Type κ} → Option A → (A → Option B) → Option B
chain none f = none
chain (some a) f = f a

-- A literal with its opening quote.
abbrev pub quoted : Text → Option (Text × Text)
quoted [] = none
quoted (c ∷ s) = if is_quote c then literal false s else none

-- The right-hand side of an assignment: a literal, `$env:name`, or a literal, a semicolon and that.
pub data Value : Type 0 where
  as_is : Text → Value
  inherited : Text → Value
  prepended : Text → Text → Value

pub data Statement : Type 0 where
  file_name : Text → Statement
  no_shell_execute : Statement
  same_directory : Statement
  directory : Text → Statement
  clear_environment : Statement
  remove_variable : Text → Statement
  set_variable : Text → Value → Statement
  arguments : Text → Statement

-- The literal is all there is, or all but `end`.
abbrev pub up_to : Text → (Text → Statement) → Text → Option Statement
up_to end make text =
    chain (quoted text) (λ (word, rest). if text_eq rest end then some (make word) else none)

abbrev pub value_after : Text → Text → Option Value
value_after word [] = some (as_is word)
value_after word (c ∷ rest) =
    chain (strip (codes " + ';' + $env:") (c ∷ rest)) (λ name. some (prepended word name))

abbrev pub value : Text → Option Value
value text = elim (strip (codes "$env:") text) [
  | some name ↦ some (inherited name)
  | none ↦ chain (quoted text) (λ (word, rest). value_after word rest)
]

abbrev pub assignment : Text → Option Statement
assignment text = chain (quoted text) (λ (name, rest).
    chain (strip (codes "] = ") rest)
      (λ right. chain (value right) (λ v. some (set_variable name v))))

abbrev pub otherwise : Option Statement → Option Statement → Option Statement
otherwise (some s) other = some s
otherwise none other = other

abbrev pub directory_of : Text → Option Statement
directory_of text =
    if text_eq text (codes "(Get-Location).Path")
    then some same_directory
    else up_to [] directory text

-- A line of the script, as far as its form is one of those above.
unfoldable pub statement : Text → Option Statement
unfolding literal
statement line = otherwise (chain (strip (codes "$psi.FileName = ") line) (up_to [] file_name)) (
    otherwise
      (chain (strip (codes "$psi.UseShellExecute = $false") line)
        (λ rest. if text_eq rest [] then some no_shell_execute else none))
      (otherwise (chain (strip (codes "$psi.WorkingDirectory = ") line) directory_of) (
        otherwise
          (chain (strip (codes "$psi.Environment.Clear()") line)
            (λ rest. if text_eq rest [] then some clear_environment else none))
          (otherwise
            (chain (strip (codes "[void]$psi.Environment.Remove(") line)
              (up_to (codes ")") remove_variable))
            (otherwise (chain (strip (codes "$psi.Environment[") line) assignment)
              (chain (strip (codes "$psi.Arguments = ") line) (up_to [] arguments)))))))

-- The words of a command `& 'word' 'word'`.
pub data Mode : Type 0 where
  between opening inside closing : Mode

unfoldable pub words : Mode → Text → Text → Option (List Text)
words between word [] = some []
words opening word [] = none
words inside word [] = none
words closing word [] = some (word ∷ [])
words between word (c ∷ s) = let rest = words opening [] s in if c == 32 then rest else none
words opening word (c ∷ s) = let rest = words inside [] s in if is_quote c then rest else none
words inside word (c ∷ s) =
    let end = words closing word s in
    let rest = words inside (word ++ c ∷ []) s in if is_quote c then end else rest
words closing word (c ∷ s) =
    let next = words opening [] s in
    let rest = words inside (word ++ c ∷ []) s in
    if is_quote c then rest else if c == 32 then Option.map (λ ws. word ∷ ws) next else none

unfoldable pub command_words : Text → Option (List Text)
unfolding words
command_words [] = none
command_words (c ∷ s) = let rest = words between [] s in if c == 38 then rest else none

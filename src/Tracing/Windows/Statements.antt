-- ===== src/Tracing/Windows/Statements.antt =====
-- The statements that the lines of src/flnr/command_tracing/platform/_windows.py are read as, and
-- what they do to the process that is to be started.
use flnr.Base.{
  ℕ, zero, suc, ◌-◌, ◌≡◌, refl, sym, ap, ◌∙◌, Bool, true, false, Option, none, some, List, [], ◌∷◌,
  ◌++◌, arith, append_assoc, append-nil, length, take, drop, take-append-drop,
}
use flnr.Base.Text.{Text, codes, text_eq, text_eq→eq}
use flnr.Tracing.Posix.{ends_with, without_suffix}
use flnr.Tracing.Windows.{ps_quote, target_of, remove_line}
use flnr.Tracing.Windows.PowerShell.{
  quoted, Value, as_is, inherited, prepended, Statement, file_name, no_shell_execute,
  same_directory, directory, clear_environment, remove_variable, set_variable, arguments, otherwise,
  value, assignment, statement, chain,
}
use flnr.Tracing.Windows.Quoting.{IsPlain, quoted-ps_quote}

-- What becomes of the environment of the process to be started.
pub data Change : Type 0 where
  cleared : Change
  removed : Text → Change
  given : Text → Text → Change

pub record ProcessStart : Type 0 where
  pub program : Text
  pub argument_text : Text
  -- none is the directory of the shell
  pub working : Option Text
  pub uses_shell : Bool
  pub changes : List Change

-- `$env:name` in the shell of the reader
module _ (env_drive : Text → Option Text) where
  abbrev pub evaluate : Value → Option Text
  evaluate (as_is text) = some text
  evaluate (inherited name) = env_drive name
  evaluate (prepended text name) =
      chain (env_drive name) (λ host. some (text ++ (codes ";" ++ host)))

  abbrev pub perform : Statement → ProcessStart → Option ProcessStart
  perform (file_name text) p = some (record p { program = text })
  perform no_shell_execute p = some (record p { uses_shell = false })
  perform same_directory p = some (record p { working = none })
  perform (directory text) p = some (record p { working = some text })
  perform clear_environment p = some (record p { changes = p.changes ++ cleared ∷ [] })
  perform (remove_variable name) p = some (record p { changes = p.changes ++ removed name ∷ [] })
  perform (set_variable name v) p =
      chain (evaluate v) (λ text. some (record p { changes = p.changes ++ given name text ∷ [] }))
  perform (arguments text) p = some (record p { argument_text = text })

  -- The statements of a script, one after another; none where one is not understood.
  unfoldable pub run_script : List Text → ProcessStart → Option ProcessStart
  run_script [] p = some p
  run_script (line ∷ lines) p =
      chain (statement line) (λ s. chain (perform s p) (λ p'. run_script lines p'))

-- `quoted` up to the end of a line
whole : (v : Text) → IsPlain v → quoted (ps_quote v) ≡ some (v, [])
whole v p = ap quoted (sym (append-nil (ps_quote v))) ∙ quoted-ps_quote v [] p tt

pub statement-file_name :
    (v : Text) → IsPlain v → statement (codes "$psi.FileName = " ++ ps_quote v) ≡ some (file_name v)
unfolding statement text_eq
statement-file_name v p = rw (whole v p) refl

pub statement-directory :
    (v : Text)
    → IsPlain v
    → statement (codes "$psi.WorkingDirectory = " ++ ps_quote v) ≡ some (directory v)
unfolding statement text_eq ps_quote
statement-directory v p = rw (whole v p) refl

pub statement-remove : (v : Text) → IsPlain v → statement (remove_line v) ≡ some (remove_variable v)
unfolding statement text_eq
statement-remove v p = rw (quoted-ps_quote v (codes ")") p refl) refl

pub statement-arguments :
    (v : Text)
    → IsPlain v
    → statement (codes "$psi.Arguments = " ++ ps_quote v) ≡ some (arguments v)
unfolding statement text_eq
statement-arguments v p = rw (whole v p) refl

pub statement-set :
    (key rhs : Text)
    → IsPlain key
    → statement (target_of key ++ (codes " = " ++ rhs))
      ≡ chain (value rhs) (λ v. some (set_variable key v))
unfolding statement
statement-set key rhs p =
    ap (λ t. otherwise (assignment t) none)
      (append_assoc (ps_quote key) (codes "]") (codes " = " ++ rhs))
    ∙ rw (quoted-ps_quote key (codes "] = " ++ rhs) p refl)
        (otherwise_none (chain (value rhs) (λ v. some (set_variable key v))))
  where
    otherwise_none : (o : Option Statement) → otherwise o none ≡ o
    otherwise_none none = refl
    otherwise_none (some s) = refl

-- What the right-hand side of an assignment is, by the form that the renderer chose.
pub value-literal : (v : Text) → IsPlain v → value (ps_quote v) ≡ some (as_is v)
unfolding ps_quote
value-literal v p = rw (whole v p) refl

pub value-inherited : (name : Text) → value (codes "$env:" ++ name) ≡ some (inherited name)
value-inherited name = refl

pub value-prepended :
    (v name : Text)
    → IsPlain v
    → value (ps_quote v ++ (codes " + ';' + $env:" ++ name)) ≡ some (prepended v name)
unfolding ps_quote
value-prepended v name p = rw (quoted-ps_quote v (codes " + ';' + $env:" ++ name) p refl) refl

-- A value with a suffix is what is in front of it, and the suffix.
pub ends_with-whole :
    (v suffix : Text) → ends_with v suffix ≡ true → without_suffix v suffix ++ suffix ≡ v
ends_with-whole v suffix h =
    ap (λ t. without_suffix v suffix ++ t)
      (sym (text_eq→eq (drop (length v - length suffix) v) suffix (ground arith)))
    ∙ take-append-drop (length v - length suffix) v

pub IsPlain-take : (n : ℕ) (v : Text) → IsPlain v → IsPlain (take n v)
IsPlain-take zero v p = tt
IsPlain-take (suc n) [] p = tt
IsPlain-take (suc n) (c ∷ v) (p, ps) = (p, IsPlain-take n v ps)

pub statement-no_shell_execute :
    statement (codes "$psi.UseShellExecute = $false") ≡ some no_shell_execute
unfolding statement text_eq
statement-no_shell_execute = refl

pub statement-same_directory :
    statement (codes "$psi.WorkingDirectory = (Get-Location).Path") ≡ some same_directory
unfolding statement text_eq
statement-same_directory = refl

pub statement-clear_environment :
    statement (codes "$psi.Environment.Clear()") ≡ some clear_environment
unfolding statement text_eq
statement-clear_environment = refl

pub run_script_line :
    (env_drive : Text → Option Text) (line : Text) (lines : List Text) (p p' : ProcessStart)
    → {s : Statement} → statement line ≡ some s
    → perform env_drive s p ≡ some p'
    → run_script env_drive (line ∷ lines) p ≡ run_script env_drive lines p'
unfolding run_script
run_script_line env_drive line lines p p' e k = rw (e, k) refl

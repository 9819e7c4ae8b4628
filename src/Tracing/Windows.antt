-- ===== src/Tracing/Windows.antt =====
-- src/flnr/command_tracing/platform/_windows.py: a command as one for PowerShell.
-- `subprocess.list2cmdline` is that of the standard library; what `str.upper` does to a name is a
-- parameter.
pub mod PowerShell
pub mod Quoting
pub mod Arguments
pub mod Statements
pub mod Starting
mod Tests
use flnr.Base.{
  ℕ, Bool, true, false, not, ◌&&◌, ◌||◌, Option, none, some, List, [], ◌∷◌, ◌++◌, ◌==◌,
  if◌then◌else◌, map, nonempty,
}
use flnr.Base.Text.{Text, codes, text_eq, join}
use flnr.Tracing.EnvListing.{Env, EnvListing, get}
use flnr.Tracing.Posix.{
  single_quote, double_quote, nonempty_value, ends_with, without_suffix, lists_something,
}

-- `str(value).replace("'", "''")`
unfoldable pub double_quotes : Text → Text
double_quotes [] = []
double_quotes (c ∷ s) = (if c == single_quote then c ∷ c ∷ [] else c ∷ []) ++ double_quotes s

-- `_quote`
unfoldable pub ps_quote : Text → Text
unfolding double_quotes
ps_quote value = single_quote ∷ (double_quotes value ++ single_quote ∷ [])

abbrev pub backslash : ℕ
backslash = 92

-- The loop of `list2cmdline` over an argument: `bs_buf` is what was held back, and the text that
-- closes an argument in quotes repeats it.
unfoldable pub write_arg : Bool → Text → Text → Text
write_arg in_quotes bs_buf [] = bs_buf ++ (if in_quotes then bs_buf ++ double_quote ∷ [] else [])
write_arg in_quotes bs_buf (c ∷ arg) =
    let held = write_arg in_quotes (bs_buf ++ backslash ∷ []) arg in
    let rest = write_arg in_quotes [] arg in
    if c == backslash
    then held
    else if c == double_quote
    then bs_buf ++ (bs_buf ++ backslash ∷ double_quote ∷ rest)
    else bs_buf ++ c ∷ rest

abbrev pub has_blank : Text → Bool
has_blank [] = false
has_blank (c ∷ arg) = c == 32 || c == 9 || has_blank arg

abbrev pub needs_quotes : Text → Bool
needs_quotes arg = has_blank arg || not (nonempty arg)

abbrev pub cmdline_arg : Text → Text
cmdline_arg arg =
    if needs_quotes arg then double_quote ∷ write_arg true [] arg else write_arg false [] arg

-- `_render_arguments`
unfoldable pub render_arguments : List Text → Text
unfolding write_arg
render_arguments args = join (codes " ") (map cmdline_arg args)

-- `a or b`
abbrev pub or_else : Option Text → Option Text → Option Text
or_else none b = b
or_else (some a) b = some a

-- the `host_path` of `_render_path_assignment`, where there is one that is not empty
unfoldable pub find_host_path : Text → Env → Option Text
find_host_path key host_env = or_else (nonempty_value (get key host_env)) (
    or_else (nonempty_value (get (codes "PATH") host_env))
      (nonempty_value (get (codes "Path") host_env)))

abbrev pub target_of : Text → Text
target_of key = codes "$psi.Environment[" ++ (ps_quote key ++ codes "]")

abbrev pub working_directory : Option Text → Text
working_directory none = codes "$psi.WorkingDirectory = (Get-Location).Path"
working_directory (some cwd) = codes "$psi.WorkingDirectory = " ++ ps_quote cwd

abbrev pub remove_line : Text → Text
remove_line variable = codes "[void]$psi.Environment.Remove(" ++ (ps_quote variable ++ codes ")")

abbrev pub command_line : List Text → Text
command_line cmd = join (codes " ") (codes "&" ∷ map ps_quote cmd)

-- The end of `_render_path_assignment`: the value has the host's after a semicolon, or not.
abbrev pub render_suffix : Text → Text → Text → Bool → Option Text
render_suffix key value host_path has_suffix =
    if has_suffix
    then some (
        target_of key
        ++ (codes " = "
            ++ (ps_quote (without_suffix value (codes ";" ++ host_path))
                ++ (codes " + ';' + $env:" ++ key))))
    else none

-- `_render_path_assignment` from the test of `host_path` on
abbrev pub render_against_host : Text → Text → Option Text → Option Text
render_against_host key value none = none
render_against_host key value (some host_path) =
    if text_eq value host_path
    then some (target_of key ++ (codes " = $env:" ++ key))
    else render_suffix key value host_path (ends_with value (codes ";" ++ host_path))

module _ (upper : Text → Text) where
  -- `_render_path_assignment`
  unfoldable pub render_path_line : Text → Text → Env → Option Text
  unfolding find_host_path
  render_path_line key value host_env =
      if text_eq (upper key) (codes "PATH")
      then render_against_host key value (find_host_path key host_env)
      else none

  -- `_render_assignment`
  unfoldable pub render_env_line : Env → Text × Text → Text
  unfolding render_path_line
  render_env_line host_env (key, value) = elim (render_path_line key value host_env) [
    | none ↦ target_of key ++ (codes " = " ++ ps_quote value)
    | some path_assignment ↦ path_assignment
  ]

  -- the lines of the recipe that fill in `$psi`, from the program's name on
  unfoldable pub psi_lines : Text → List Text → Option Text → EnvListing → Env → List Text
  unfolding render_env_line render_arguments
  psi_lines program args cwd listing host_env =
      (codes "$psi.FileName = " ++ ps_quote program)
      ∷ codes "$psi.UseShellExecute = $false"
      ∷ working_directory cwd
      ∷ ((if listing.clear_environment
            then codes "$psi.Environment.Clear()" ∷ []
            else map remove_line listing.removed_variables)
          ++ (map (render_env_line host_env) listing.variables
              ++ (if nonempty args
                  then (codes "$psi.Arguments = " ++ ps_quote (render_arguments args)) ∷ []
                  else [])))

  -- `render_recipe`; `cmd` is a program and its arguments, which `run_ex` has checked.
  unfoldable pub render_windows_recipe : Text → List Text → Option Text → EnvListing → Env → Text
  unfolding psi_lines
  render_windows_recipe program args cwd listing host_env =
      let command = command_line (program ∷ args) in
      let lines =
        codes ">"
        ∷ codes "$psi = [System.Diagnostics.ProcessStartInfo]::new()"
        ∷ (psi_lines program args cwd listing host_env
            ++ codes "$p = [System.Diagnostics.Process]::Start($psi)"
              ∷ codes "$p.WaitForExit()"
              ∷ codes "$p.ExitCode"
              ∷ []) in
      let recipe = join (codes "\n  ") lines in
      elim cwd [ some dir ↦ recipe | none ↦ if lists_something listing then recipe else command ]

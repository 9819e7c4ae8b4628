-- ===== src/Tracing/Windows/Tests.antt =====
-- Runs and instances for the recipes of src/flnr/command_tracing/platform/_windows.py.
use flnr.Base.{
  ◌≢◌, sym, ap, ◌∙◌, subst, Bool-cases, inl, inr, nonempty, true, false, Option, none, some, ◌≡◌,
  refl, List, [], ◌∷◌, if◌then◌else◌,
}
use flnr.Base.Text.{text_eq→eq, Text, codes, text_eq}
use flnr.Tracing.EnvListing.{Env, EnvListing, get}
use flnr.Tracing.Windows.{
  command_line, psi_lines, render_arguments, write_arg, double_quotes, ps_quote,
}
use flnr.Tracing.Windows.PowerShell.{command_words, words}
use flnr.Tracing.Windows.Arguments.{read_arguments, read_arguments-render_arguments}
use flnr.Tracing.Windows.Quoting.{command_words-command_line}
use flnr.Tracing.Windows.Statements.{run_script}
use flnr.Tracing.Windows.Starting.{listed_changes, fresh, psi_lines-starts}

abbrev args : List Text
args = codes "say" ∷ codes "it's" ∷ codes "" ∷ []

command_words-command_line_example :
    command_words (command_line (codes "echo" ∷ args)) ≡ some (codes "echo" ∷ args)
command_words-command_line_example = command_words-command_line (codes "echo") args (
  (refl, (refl, (refl, (refl, tt)))),
  ((refl, (refl, (refl, tt))), ((refl, (refl, (refl, (refl, tt)))), (tt, tt))),
)

-- A backslash is doubled only in front of a quote.
arguments_text :
    render_arguments (codes "a b\\" ∷ codes "c\\d" ∷ codes "" ∷ []) ≡ codes "\"a b\\\\\" c\\d \"\""
unfolding render_arguments write_arg
arguments_text = refl

read_arguments-render_arguments_example :
    read_arguments false 0 none (render_arguments (codes "a b\\" ∷ codes "c\\d" ∷ codes "" ∷ []))
    ≡ codes "a b\\" ∷ codes "c\\d" ∷ codes "" ∷ []
read_arguments-render_arguments_example =
    read_arguments-render_arguments (codes "a b\\" ∷ codes "c\\d" ∷ codes "" ∷ [])

-- A typographic apostrophe, U+2019, ends the literal for PowerShell.
typographic_apostrophe : command_words (command_line ((97 ∷ 8217 ∷ 98 ∷ []) ∷ [])) ≡ none
unfolding command_words words ps_quote double_quotes
typographic_apostrophe = refl

-- The variable Path of the host, with a directory in front.
abbrev host_env : Env
host_env = (codes "Path", codes "C:/bin") ∷ []

abbrev to_upper : Text → Text
to_upper name = if text_eq name (codes "Path") then codes "PATH" else name

abbrev listing : EnvListing
listing = record {
  variables = (codes "Path", codes "D:/x;C:/bin") ∷ (codes "A", codes "1") ∷ [];
  clear_environment = false;
  removed_variables = codes "B" ∷ [];
  missing_variables = [];
}

-- `$env:Path` of the shell is the host's.
abbrev env_drive : Text → Option Text
env_drive key = if text_eq (to_upper key) (codes "PATH") then some (codes "C:/bin") else none

path_drive :
    (key name v : Text)
    → to_upper key ≡ to_upper name
    → get name host_env ≡ some v
    → nonempty v ≡ true
    → env_drive key ≡ some v
unfolding get text_eq
path_drive key name v same found n = elim (Bool-cases (text_eq name (codes "Path"))) [
  | inl e ↦
      let is_path = text_eq→eq name (codes "Path") e in
      let value = subst (λ m. get m host_env ≡ some v) is_path found in
      let up = same ∙ ap to_upper is_path in
      subst (λ u. (if text_eq u (codes "PATH") then some (codes "C:/bin") else none) ≡ some v)
        (sym up) value
  | inr e ↦ absurd (none_ne_some (sym (not_there e) ∙ found))
]
  where
    none_ne_some : ◌≢◌ {A = Option Text} none (some v)
    none_ne_some q = cc

    not_there : text_eq name (codes "Path") ≡ false → get name host_env ≡ none
    not_there e = rw (e, get) refl

psi_lines-starts_example :
    run_script env_drive
      (psi_lines to_upper (codes "make") (codes "all" ∷ []) none listing host_env)
      fresh
    ≡ some (record {
      program = codes "make";
      argument_text = render_arguments (codes "all" ∷ []);
      working = none;
      uses_shell = false;
      changes = listed_changes listing;
    })
unfolding render_arguments write_arg text_eq
psi_lines-starts_example =
    psi_lines-starts to_upper host_env env_drive refl refl path_drive (codes "make")
      (codes "all" ∷ []) none listing
      (record {
        program_plain = (refl, (refl, (refl, (refl, tt))));
        arguments_plain = (refl, (refl, (refl, tt)));
        cwd_plain = λ dir e. cc;
        removed_plain = ((refl, tt), tt);
        variables_plain = (
          (
            (refl, (refl, (refl, (refl, tt)))),
            (
              refl,
              (refl, (refl, (refl, (refl, (refl, (refl, (refl, (refl, (refl, (refl, tt)))))))))),
            ),
          ),
          (((refl, tt), (refl, tt)), tt),
        );
      })

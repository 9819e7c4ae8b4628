-- ===== src/Tracing/Posix/Tests.antt =====
-- Recipes of src/flnr/command_tracing/platform/_posix.py on small commands.
use flnr.Base.{◌≡◌, refl, false, none, some, [], ◌∷◌, ◌++◌}
use flnr.Base.Text.{Text, codes, text_eq}
use flnr.Outcome.{ok}
use flnr.Tracing.EnvListing.{Env, EnvListing, get}
use flnr.Tracing.Posix.{
  quote, escape, render_path_assignment, render_against, render_assignment, render_multiline_recipe,
  render_compact_recipe, render_env_parts, render_recipe,
}
use flnr.Tracing.Posix.Shell.{shell_words}
use flnr.Tracing.Posix.Recipes.{AreLiteral, env_words, render_recipe-shell_words}

abbrev host : Env
host = (codes "PATH", codes "/bin") ∷ []

abbrev listing : EnvListing
listing = record {
  variables = (codes "X", codes "it's") ∷ [];
  clear_environment = false;
  removed_variables = codes "OLD" ∷ [];
  missing_variables = [];
}

recipe-quoted :
    render_recipe none (codes "ls" ∷ codes "a b" ∷ []) listing host
    ≡ ok (codes "env -u OLD X='it'\"'\"'s' ls 'a b'")
unfolding render_recipe render_env_parts render_compact_recipe render_assignment
    render_path_assignment quote escape text_eq get
recipe-quoted = refl

recipe-path : render_assignment host (codes "PATH", codes "/opt/x:/bin") ≡ codes "PATH=/opt/x:$PATH"
unfolding render_assignment render_path_assignment render_against quote text_eq get
recipe-path = refl

recipe-multiline :
    render_recipe (some (codes "multiline")) (codes "ls" ∷ codes "-l" ∷ []) listing host
    ≡ ok (codes ">\n  env \\\n    -u OLD \\\n    X='it'\"'\"'s' \\\n  ls \\\n    -l")
unfolding render_recipe render_env_parts render_multiline_recipe render_assignment
    render_path_assignment quote escape text_eq get
recipe-multiline = refl

literal : AreLiteral listing.variables host
unfolding render_path_assignment text_eq
literal = (refl, tt)

render_recipe-shell_words_example :
    (line : Text) × (render_recipe none (codes "ls" ∷ codes "a b" ∷ []) listing host ≡ ok line)
    × (shell_words line ≡ some (env_words listing ++ codes "ls" ∷ codes "a b" ∷ []))
render_recipe-shell_words_example =
    render_recipe-shell_words (codes "ls") (codes "a b" ∷ []) listing host literal

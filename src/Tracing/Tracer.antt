-- ===== src/Tracing/Tracer.antt =====
-- `CommandTracer` of src/flnr/command_tracing/tracer.py, with the choice of the renderer in
-- src/flnr/command_tracing/_render.py. The logger is which levels it takes and the list of its
-- records; the style and `str.upper` are parameters, as in the renderers.
pub mod Records
mod Tests
use flnr.Base.{
  ℕ, Bool, true, false, Option, none, some, List, [], ◌∷◌, ◌++◌, ◌==◌, if◌then◌else◌, nonempty,
}
use flnr.Base.Text.{Text, codes, join}
use flnr.Outcome.{Result, ok, err, ◌>>=◌}
use flnr.Tracing.EnvListing.{
  Env, EnvListing, Names, list_no_environment, list_changed_environment, list_selected_environment,
  list_recreated_environment,
}
use flnr.Tracing.Posix.{render_recipe}
use flnr.Tracing.Windows.{render_windows_recipe}

-- `text.startswith(prefix)`
abbrev pub starts_with : Text → Text → Bool
starts_with [] text = true
starts_with (p ∷ prefix) [] = false
starts_with (p ∷ prefix) (c ∷ text) = if p == c then starts_with prefix text else false

-- What a trace is made of; the command is a program and its arguments.
pub record Command : Type 0 where
  pub program : Text
  pub args : List Text
  pub cwd : Option Text
  pub env : Env
  pub host_env : Env

-- `logging.INFO`
abbrev pub info : ℕ
info = 20

-- A listing callback of the caller may raise.
abbrev pub EnvListingCallable : Type 0
EnvListingCallable = Env → Env → Result EnvListing

pub record CommandTracer : Type 0 where
  pub env_listing : EnvListingCallable
  pub level : ℕ
  pub platform : Text

-- `__init__` and the three class methods; `sys.platform` is the last argument.
pub command_tracer : Option EnvListingCallable → ℕ → Text → CommandTracer
command_tracer none level platform = record {
  env_listing = λ env host_env. ok (list_no_environment env host_env);
  level = level;
  platform = platform;
}
command_tracer (some env_listing) level platform = record {
  env_listing = env_listing;
  level = level;
  platform = platform;
}

pub with_changed_environment : ℕ → Text → CommandTracer
unfolding command_tracer
with_changed_environment level platform =
    command_tracer (some (λ env host_env. ok (list_changed_environment env host_env))) level
      platform

pub with_recreated_environment : ℕ → Text → CommandTracer
unfolding command_tracer
with_recreated_environment level platform =
    command_tracer (some (λ env host_env. ok (list_recreated_environment env host_env))) level
      platform

unfoldable pub with_selected_environment : Names → ℕ → Text → Result CommandTracer
unfolding command_tracer
with_selected_environment variables level platform = do
  listing ← list_selected_environment variables
  ok (command_tracer (some (λ env host_env. ok (listing env host_env))) level platform)

module _ (upper : Text → Text) (style : Option Text) where
  -- `_render_command_recipe`
  pub render_command_recipe : Text → Command → EnvListing → Result Text
  render_command_recipe platform c listing =
      if starts_with (codes "win") platform
      then ok (render_windows_recipe upper c.program c.args c.cwd listing c.host_env)
      else render_recipe style (c.program ∷ c.args) listing c.host_env

  abbrev pub cwd_line : Option Text → List Text
  cwd_line none = []
  cwd_line (some dir) = (codes "@ cwd: " ++ dir) ∷ []

  abbrev pub missing_line : List Text → List Text
  missing_line [] = []
  missing_line (name ∷ names) = (codes "@ missing env: " ++ join (codes ", ") (name ∷ names)) ∷ []

  pub trace_message : Text → Option Text → EnvListing → Text
  trace_message command cwd listing =
      join (codes "\n") (command ∷ (cwd_line cwd ++ missing_line listing.missing_variables))

  -- `trace_command`: the records that the logger gets
  pub trace_command : (ℕ → Bool) → CommandTracer → Command → Result (List (ℕ × Text))
  unfolding render_command_recipe trace_message
  trace_command is_enabled_for t c =
      if is_enabled_for t.level
      then (do
        listing ← t.env_listing c.env c.host_env
        command ← render_command_recipe t.platform c listing
        ok ((t.level, trace_message command c.cwd listing) ∷ []))
      else ok []

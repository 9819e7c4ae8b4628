-- ===== src/Tracing/Tracer/Tests.antt =====
-- Runs and instances for `CommandTracer` of src/flnr/command_tracing/tracer.py.
use flnr.Base.{ℕ, ◌≡◌, refl, Bool, none, some, [], ◌∷◌, leb}
use flnr.Base.Text.{Text, codes, text_eq}
use flnr.Outcome.{ok}
use flnr.Tracing.EnvListing.{
  Env, Names, sequence, a_string, get, freeze_variables, check_names, from_keys,
  list_selected_environment, list_selected_env,
}
use flnr.Tracing.Tracer.{
  Command, CommandTracer, command_tracer, info, with_selected_environment, trace_command,
}
use flnr.Tracing.Tracer.Records.{elsewhere, selected-trace_command}

abbrev secret : Env
secret = (codes "TOKEN", codes "hunter2") ∷ (codes "LANG", codes "C") ∷ []

abbrev other : Env
other = (codes "TOKEN", codes "swordfish") ∷ (codes "LANG", codes "C") ∷ []

abbrev compile : Command
compile = record {
  program = codes "cc";
  args = codes "a.c" ∷ [];
  cwd = some (codes "/src");
  env = secret;
  host_env = [];
}

abbrev at_info : ℕ → Bool
at_info level = leb info level

abbrev same_text : Text → Text
same_text s = s

abbrev language : Names
language = sequence (a_string (codes "LANG") ∷ [])

abbrev selecting : CommandTracer
selecting =
    command_tracer (some (λ env host_env. ok (list_selected_env (codes "LANG" ∷ []) env host_env)))
      info (codes "linux")

selected-trace_command_example :
    trace_command same_text none at_info selecting compile
    ≡ trace_command same_text none at_info selecting (elsewhere compile other [])
unfolding freeze_variables check_names from_keys with_selected_environment list_selected_environment
    get text_eq
selected-trace_command_example =
    selected-trace_command same_text none at_info info (codes "linux") language (codes "LANG" ∷ [])
      selecting refl refl compile other (refl, tt)

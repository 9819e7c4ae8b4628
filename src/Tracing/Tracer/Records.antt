-- ===== src/Tracing/Tracer/Records.antt =====
-- What the records of `CommandTracer` (src/flnr/command_tracing/tracer.py) tell of the environment.
use flnr.Base.{
  ℕ, ◌≡◌, refl, sym, ap₂, ◌∙◌, subst, Bool, false, Option, none, some, List, [], ◌∷◌, All,
  if◌then◌else◌, is_some, Option-cases, inl, inr,
}
use flnr.Base.Text.{Text}
use flnr.Outcome.{ok, ok_inj}
use flnr.Tracing.EnvListing.{
  Env, Names, get, selected, missing, freeze_variables, list_selected_env,
  list_selected_environment,
}
use flnr.Tracing.Tracer.{
  Command, CommandTracer, command_tracer, with_selected_environment, trace_command,
  render_command_recipe,
}

-- The same command with another environment of the child and of the host.
abbrev pub elsewhere : Command → Env → Env → Command
elsewhere c env host_env = record c { env = env; host_env = host_env }

abbrev with_value : Text → Option Text → List (Text × Text) → List (Text × Text)
with_value name none rest = rest
with_value name (some value) rest = (name, value) ∷ rest

selected-same :
    (env env' : Env) (names : List Text)
    → All (λ name. get name env ≡ get name env') names
    → (selected env names ≡ selected env' names) × (missing env names ≡ missing env' names)
unfolding selected missing
selected-same env env' [] h = (refl, refl)
selected-same env env' (name ∷ names) (h, hs) =
    let (a, b) = selected-same env env' names hs in
    (
      selected_step env name names
          ∙ ap₂ (with_value name) h a
          ∙ sym (selected_step env' name names),
      ap₂ (λ (o : Option Text) (rest : List Text). if is_some o then rest else name ∷ rest) h b,
    )
  where
    selected_step :
        (e : Env) (n : Text) (ns : List Text)
        → selected e (n ∷ ns) ≡ with_value n (get n e) (selected e ns)
    selected_step e n ns = elim (Option-cases (get n e)) [
      | inl k ↦ rw (k, selected) refl
      | inr (v, k) ↦ rw (k, selected) refl
    ]

module _ (upper : Text → Text) (style : Option Text) (is_enabled_for : ℕ → Bool) (level : ℕ)
    (platform : Text) where
  same_listing :
      (t : CommandTracer) (c : Command) (env : Env)
      → t.env_listing c.env c.host_env ≡ t.env_listing env c.host_env
      → trace_command upper style is_enabled_for t c
        ≡ trace_command upper style is_enabled_for t (elsewhere c env c.host_env)
  unfolding trace_command render_command_recipe
  same_listing t c env e = rw e refl

  -- A tracer of selected variables logs of the child's environment only what the requested names
  -- are: the records are the same for two environments in which each requested name has the same
  -- value or is missing from both.
  pub selected-trace_command :
      (variables : Names) (names : List Text) (t : CommandTracer)
      → freeze_variables variables ≡ ok names
      → with_selected_environment variables level platform ≡ ok t
      → (c : Command) (env : Env) → All (λ name. get name c.env ≡ get name env) names
      → trace_command upper style is_enabled_for t c
        ≡ trace_command upper style is_enabled_for t (elsewhere c env c.host_env)
  unfolding with_selected_environment list_selected_environment command_tracer list_selected_env
  selected-trace_command variables names t e k c env h =
      let (a, b) = selected-same c.env env names h in
      let same =
        ap₂
          (λ v m. ok (record {
            variables = v;
            clear_environment = false;
            removed_variables = [];
            missing_variables = m;
          }))
          a b in
      subst
        (λ x.
          trace_command upper style is_enabled_for x c
          ≡ trace_command upper style is_enabled_for x (elsewhere c env c.host_env))
        (ok_inj (sym made ∙ k)) (same_listing selecting c env same)
    where
      selecting : CommandTracer
      selecting =
          command_tracer (some (λ env host_env. ok (list_selected_env names env host_env))) level
            platform

      made : with_selected_environment variables level platform ≡ ok selecting
      made = rw (e, list_selected_environment, with_selected_environment) refl

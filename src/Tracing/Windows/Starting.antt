-- ===== src/Tracing/Windows/Starting.antt =====
-- The process that the script of src/flnr/command_tracing/platform/_windows.py starts.
use flnr.Base.{
  ◌-◌, ◌≡◌, ◌⊎◌, refl, sym, ap, ◌∙◌, Bool, true, false, Option, none, some, List, [], ◌∷◌, ◌++◌,
  if◌then◌else◌, map, append_assoc, append-nil, All, nonempty, length, subst, inl, inr,
}
use flnr.Base.Text.{Text, codes, text_eq, text_eq→eq}
use flnr.Tracing.EnvListing.{Env, EnvListing, get}
use flnr.Tracing.Posix.{nonempty_value, ends_with, without_suffix}
use flnr.Tracing.Windows.{
  or_else, ps_quote, render_arguments, find_host_path, target_of, render_path_line, render_suffix,
  render_against_host, render_env_line, working_directory, remove_line, psi_lines,
}
use flnr.Tracing.Windows.PowerShell.{
  Value, as_is, inherited, prepended, set_variable, statement, chain,
}
use flnr.Tracing.Windows.Quoting.{IsPlain}
use flnr.Tracing.Windows.Statements.{
  Change, cleared, removed, given, ProcessStart, evaluate, run_script, statement-file_name,
  statement-directory, statement-remove, statement-arguments, statement-set,
  statement-no_shell_execute, statement-same_directory, statement-clear_environment,
  run_script_line, value-literal, value-prepended, ends_with-whole, IsPlain-take,
}

abbrev pub base_changes : EnvListing → List Change
base_changes listing =
    if listing.clear_environment then cleared ∷ [] else map removed listing.removed_variables

-- The changes that the listing stands for, in order.
abbrev pub listed_changes : EnvListing → List Change
listed_changes listing = base_changes listing ++ map (λ (key, v). given key v) listing.variables

-- No text of the script has a typographic quote.
pub record ArePlain (program : Text) (args : List Text) (cwd : Option Text) (listing : EnvListing)
    : Type 0 where
  pub program_plain : IsPlain program
  pub arguments_plain : IsPlain (render_arguments args)
  pub cwd_plain : (dir : Text) → cwd ≡ some dir → IsPlain dir
  pub removed_plain : All IsPlain listing.removed_variables
  pub variables_plain : All (λ (key, v). IsPlain key × IsPlain v) listing.variables

abbrev pub fresh : ProcessStart
fresh = record { program = []; argument_text = []; working = none; uses_shell = true; changes = [] }

-- What is not empty, of what `or` takes.
nonempty_value-some :
    (o : Option Text) (host : Text)
    → nonempty_value o ≡ some host
    → (o ≡ some host) × (nonempty host ≡ true)
nonempty_value-some none host e = cc
nonempty_value-some (some []) host e = cc
nonempty_value-some (some (c ∷ v)) host e = (e, subst (λ o. nonempty_of o ≡ true) e refl)
  where
    nonempty_of : Option Text → Bool
    nonempty_of none = false
    nonempty_of (some t) = nonempty t

or_else-some :
    (a b : Option Text) (host : Text) → or_else a b ≡ some host → (a ≡ some host) ⊎ (b ≡ some host)
or_else-some none b host e = inr e
or_else-some (some x) b host e = inl e

-- `$env:name` of the shell has the host's value of a variable whose name is the same up to case.
module _ (upper : Text → Text) (host_env : Env) (env_drive : Text → Option Text)
    (upper_path : upper (codes "PATH") ≡ codes "PATH")
    (upper_mixed : upper (codes "Path") ≡ codes "PATH")
    (drive_lem : (key name v : Text)
      → upper key ≡ upper name
      → get name host_env ≡ some v
      → nonempty v ≡ true
      → env_drive key ≡ some v) where
  inherits :
      (key host : Text)
      → text_eq (upper key) (codes "PATH") ≡ true
      → find_host_path key host_env ≡ some host
      → env_drive key ≡ some host
  unfolding find_host_path
  inherits key host a e =
      let up = text_eq→eq (upper key) (codes "PATH") a in
      elim (or_else-some (nonempty_value (get key host_env)) _ host e) [
        | inl h ↦ by_name key refl (nonempty_value-some _ host h)
        | inr h ↦ elim (or_else-some (nonempty_value (get (codes "PATH") host_env)) _ host h) [
          | inl k ↦ by_name (codes "PATH") (up ∙ sym upper_path) (nonempty_value-some _ host k)
          | inr k ↦ by_name (codes "Path") (up ∙ sym upper_mixed) (nonempty_value-some _ host k)
        ]
      ]
    where
      by_name :
          (name : Text)
          → upper key ≡ upper name
          → (get name host_env ≡ some host) × (nonempty host ≡ true)
          → env_drive key ≡ some host
      by_name name same (found, n) = drive_lem key name host same found n

  -- How an assignment is read, and what it gives.
  abbrev Gives : Text → Text → Text → Type 0
  Gives key v line =
      (x : Value) × (statement line ≡ some (set_variable key x)) × (evaluate env_drive x ≡ some v)

  plain-Gives :
      (key v : Text)
      → IsPlain key
      → IsPlain v
      → Gives key v (target_of key ++ (codes " = " ++ ps_quote v))
  plain-Gives key v p q = (
    as_is v,
    statement-set key (ps_quote v) p
        ∙ ap (λ o. chain o (λ x. some (set_variable key x))) (value-literal v q),
    refl,
  )

  abbrev PathForm : Text → Text → Option Text → Type 0
  PathForm key v none = Unit
  PathForm key v (some line) = Gives key v line

  module _ (key v : Text) (p : IsPlain key) (q : IsPlain v) where
    suffix-PathForm :
        (host : Text)
        → env_drive key ≡ some host
        → (d : Bool) → ends_with v (codes ";" ++ host) ≡ d
        → PathForm key v (render_suffix key v host d)
    suffix-PathForm host known false e = tt
    suffix-PathForm host known true e =
        let front = without_suffix v (codes ";" ++ host) in
        (
          prepended front key,
          statement-set key (ps_quote front ++ (codes " + ';' + $env:" ++ key)) p
              ∙ ap (λ o. chain o (λ x. some (set_variable key x)))
                  (value-prepended front key
                    (IsPlain-take (length v - length (codes ";" ++ host)) v q)),
          rw known (ap (λ t. some t) (ends_with-whole v (codes ";" ++ host) e)),
        )

    same-PathForm :
        (host : Text)
        → env_drive key ≡ some host
        → (c : Bool) → text_eq v host ≡ c
        → PathForm key v (
            if c
            then some (target_of key ++ (codes " = $env:" ++ key))
            else render_suffix key v host (ends_with v (codes ";" ++ host)))
    same-PathForm host known true e = (
      inherited key,
      statement-set key (codes "$env:" ++ key) p,
      known ∙ ap (λ t. some t) (sym (text_eq→eq v host e)),
    )
    same-PathForm host known false e =
        suffix-PathForm host known (ends_with v (codes ";" ++ host)) refl

    host-PathForm :
        text_eq (upper key) (codes "PATH") ≡ true
        → (o : Option Text) → find_host_path key host_env ≡ o
        → PathForm key v (render_against_host key v o)
    host-PathForm a none e = tt
    host-PathForm a (some host) e = same-PathForm host (inherits key host a e) (text_eq v host) refl

    key-PathForm :
        (a : Bool)
        → text_eq (upper key) (codes "PATH") ≡ a
        → PathForm key v
            (if a then render_against_host key v (find_host_path key host_env) else none)
    key-PathForm false e = tt
    key-PathForm true e = host-PathForm e (find_host_path key host_env) refl

    render_path_line-PathForm : PathForm key v (render_path_line upper key v host_env)
    unfolding render_path_line
    render_path_line-PathForm = key-PathForm (text_eq (upper key) (codes "PATH")) refl

    render_env_line-Gives : Gives key v (render_env_line upper host_env (key, v))
    unfolding render_env_line
    render_env_line-Gives =
        by_form (render_path_line upper key v host_env) render_path_line-PathForm
      where
        by_form :
            (o : Option Text)
            → PathForm key v o
            → Gives key v
                (elim o [ none ↦ target_of key ++ (codes " = " ++ ps_quote v) | some line ↦ line ])
        by_form none h = plain-Gives key v p q
        by_form (some line) h = h

  -- One assignment after another.
  run_variables :
      (variables : List (Text × Text)) (lines : List Text) (p : ProcessStart)
      → All (λ (key, v). IsPlain key × IsPlain v) variables
      → run_script env_drive (map (render_env_line upper host_env) variables ++ lines) p
        ≡ run_script env_drive lines
            (record p { changes = p.changes ++ map (λ (key, v). given key v) variables })
  unfolding run_script
  run_variables [] lines p h =
      ap (λ c. run_script env_drive lines (record p { changes = c })) (sym (append-nil p.changes))
  run_variables ((key, v) ∷ variables) lines p ((hk, hv), hs) =
      let (x, e, k) = render_env_line-Gives key v hk hv in
      rw (e, k)
        (run_variables variables lines (record p { changes = p.changes ++ given key v ∷ [] }) hs
          ∙ ap (λ c. run_script env_drive lines (record p { changes = c }))
              (append_assoc p.changes (given key v ∷ []) (map (λ (key, v). given key v) variables)))

  run_removals :
      (names : List Text) (lines : List Text) (p : ProcessStart)
      → All IsPlain names
      → run_script env_drive (map remove_line names ++ lines) p
        ≡ run_script env_drive lines (record p { changes = p.changes ++ map removed names })
  unfolding run_script
  run_removals [] lines p h =
      ap (λ c. run_script env_drive lines (record p { changes = c })) (sym (append-nil p.changes))
  run_removals (name ∷ names) lines p (hn, hs) = rw (statement-remove name hn) (
      run_removals names lines (record p { changes = p.changes ++ removed name ∷ [] }) hs
      ∙ ap (λ c. run_script env_drive lines (record p { changes = c }))
          (append_assoc p.changes (removed name ∷ []) (map removed names)))

  run_arguments :
      (args : List Text) (p : ProcessStart)
      → p.argument_text ≡ []
      → IsPlain (render_arguments args)
      → run_script env_drive
          (if nonempty args
            then (codes "$psi.Arguments = " ++ ps_quote (render_arguments args)) ∷ []
            else [])
          p
        ≡ some (record p { argument_text = render_arguments args })
  unfolding run_script render_arguments
  run_arguments [] p e h = ap (λ t. some (record p { argument_text = t })) e
  run_arguments (a ∷ args) p e h = rw (statement-arguments (render_arguments (a ∷ args)) h) refl

  run_base :
      (listing : EnvListing) (lines : List Text) (p : ProcessStart)
      → All IsPlain listing.removed_variables
      → run_script env_drive
          ((if listing.clear_environment
              then codes "$psi.Environment.Clear()" ∷ []
              else map remove_line listing.removed_variables)
            ++ lines)
          p
        ≡ run_script env_drive lines (record p { changes = p.changes ++ base_changes listing })
  run_base listing lines p h = by_flag listing.clear_environment
    where
      by_flag :
          (b : Bool)
          → run_script env_drive
              ((if b
                  then codes "$psi.Environment.Clear()" ∷ []
                  else map remove_line listing.removed_variables)
                ++ lines)
              p
            ≡ run_script env_drive lines (record p {
              changes =
                  p.changes ++ (if b then cleared ∷ [] else map removed listing.removed_variables);
            })
      by_flag true =
          run_script_line env_drive (codes "$psi.Environment.Clear()") lines p
            (record p { changes = p.changes ++ cleared ∷ [] }) statement-clear_environment refl
      by_flag false = run_removals listing.removed_variables lines p h

  run_directory :
      (cwd : Option Text) (lines : List Text) (p : ProcessStart)
      → p.working ≡ none
      → ((dir : Text) → cwd ≡ some dir → IsPlain dir)
      → run_script env_drive (working_directory cwd ∷ lines) p
        ≡ run_script env_drive lines (record p { working = cwd })
  unfolding run_script
  run_directory none lines p e h =
      run_script_line env_drive (working_directory none) lines p (record p { working = none })
        statement-same_directory refl
  run_directory (some dir) lines p e h =
      run_script_line env_drive (working_directory (some dir)) lines p
        (record p { working = some dir }) (statement-directory dir (h dir refl)) refl

  -- The lines between the first and the last ones of the script start the program with the
  -- arguments as the C runtime is given them, in the directory of the run, with the changes of the
  -- listing in order: each variable has the listed value, also where a PATH is written with
  -- `$env:`, provided that `$env:name` is the host's value of a variable whose name is the same up to
  -- case. No text may have a typographic quote.
  pub psi_lines-starts :
      (program : Text) (args : List Text) (cwd : Option Text) (listing : EnvListing)
      → ArePlain program args cwd listing
      → run_script env_drive (psi_lines upper program args cwd listing host_env) fresh
        ≡ some (record {
          program = program;
          argument_text = render_arguments args;
          working = cwd;
          uses_shell = false;
          changes = listed_changes listing;
        })
  unfolding psi_lines
  psi_lines-starts program args cwd listing h =
      let p₁ = record fresh { program = program } in
      let p₂ = record p₁ { uses_shell = false } in
      let p₃ = record p₂ { working = cwd } in
      let p₄ = record p₃ { changes = base_changes listing } in
      let p₅ = record p₄ { changes = listed_changes listing } in
      run_script_line env_drive (codes "$psi.FileName = " ++ ps_quote program) _ fresh p₁
        (statement-file_name program h.program_plain) refl
      ∙ run_script_line env_drive (codes "$psi.UseShellExecute = $false") _ p₁ p₂
          statement-no_shell_execute refl
      ∙ run_directory cwd _ p₂ refl h.cwd_plain
      ∙ run_base listing _ p₃ h.removed_plain
      ∙ run_variables listing.variables _ p₄ h.variables_plain
      ∙ run_arguments args p₅ refl h.arguments_plain

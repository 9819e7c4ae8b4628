-- ===== src/Runner/Prepare/Accepted.antt =====
-- What `_prepare_runner_args` of src/flnr/flnr.py lets pass.
use text.Mathlib.Text.{◌==◌ as string_eq}
use flnr.Base.{◌≡◌, ◌↔◌, refl, true, false, not, ◌&&◌, [], ◌∷◌, arith}
use flnr.Outcome.{ok, passed_check, passed_test}
use flnr.Routing.{resolve_output_stream_route, resolve_output_stream_targets}
use flnr.Runner.Prepare.{
  Surroundings, Command, string_like, arguments, HostTermination, disabled, host_signals, request,
  Stdin, devnull, inherit_stdin, Arguments, RunnerArgs, is_empty, is_string_like, is_host_signals,
  freeze_environment_monitors, validate_host_termination_support, or_default, check_arguments,
  check_stdin, check_host_termination,
}

-- A sequence of arguments that is not empty.
abbrev pub IsRunnable : Command → Type 0
IsRunnable (string_like s) = ⊥
IsRunnable (arguments []) = ⊥
IsRunnable (arguments (arg ∷ args)) = Unit

abbrev pub IsSupported : Surroundings → HostTermination → Type 0
IsSupported around disabled = Unit
IsSupported around (request id) = Unit
IsSupported around host_signals =
    (string_eq around.platform "win32" ≡ false) × (around.in_main_thread ≡ true)
IsSupported around (HostTermination.unexpected printed) = ⊥

abbrev pub IsStdin : Stdin → Type 0
IsStdin Stdin.unexpected = ⊥
IsStdin devnull = Unit
IsStdin inherit_stdin = Unit

IsRunnable-iff : (c : Command) → ((is_empty c ≡ false) × (is_string_like c ≡ false)) ↔ IsRunnable c
IsRunnable-iff (string_like s) = (λ (a, b). cc, λ h. absurd h)
IsRunnable-iff (arguments []) = (λ (a, b). cc, λ h. absurd h)
IsRunnable-iff (arguments (arg ∷ args)) = (λ h. tt, λ h. (refl, refl))

-- The two checks of the host termination, in one.
abbrev Passes : Surroundings → HostTermination → Type 0
Passes around h =
    (check_host_termination h ≡ ok tt)
    × ((string_eq around.platform "win32" && is_host_signals h) ≡ false)
    × ((is_host_signals h && not around.in_main_thread) ≡ false)

IsSupported-iff :
    (around : Surroundings) (h : HostTermination) → Passes around h ↔ IsSupported around h
IsSupported-iff around disabled = ground arith
IsSupported-iff around host_signals = ground arith
IsSupported-iff around (request id) = ground arith
IsSupported-iff around (HostTermination.unexpected printed) = (λ (a, b, c). cc, λ h. absurd h)

IsStdin-iff : (s : Stdin) → (check_stdin s ≡ ok tt) ↔ IsStdin s
IsStdin-iff Stdin.unexpected = (λ e. cc, λ h. absurd h)
IsStdin-iff devnull = (λ e. tt, λ h. refl)
IsStdin-iff inherit_stdin = (λ e. tt, λ h. refl)

module _ (around : Surroundings) (a : Arguments) where
  -- The checks pass exactly when the command is a sequence that is not empty, the host termination
  -- is of a known type (and the signals only off Windows and on the main thread), and stdin is
  -- the null device or inherited.
  pub check_arguments_iff :
      (check_arguments around a ≡ ok tt)
      ↔ (IsRunnable a.cmd × IsSupported around a.host_termination × IsStdin a.stdin)
  unfolding check_arguments validate_host_termination_support
  check_arguments_iff =
      let chain = passed_test _ _ _ (
        passed_test _ _ _
          (passed_check _ _ (passed_test _ _ _ (passed_test _ _ _ (IsStdin-iff a.stdin))))) in
      let h = a.host_termination in
      (
        λ e.
            let (nonempty_cmd, (items_cmd, (known, (supported, (main, stdin))))) = chain.0 e in
            (
              (IsRunnable-iff a.cmd).0 (nonempty_cmd, items_cmd),
              (IsSupported-iff around h).0 (known, supported, main),
              stdin,
            ),
        λ (cmd, termination, stdin).
            let (nonempty_cmd, items_cmd) = (IsRunnable-iff a.cmd).1 cmd in
            let (known, supported, main) = (IsSupported-iff around h).1 termination in
            chain.1 (nonempty_cmd, (items_cmd, (known, (supported, (main, stdin))))),
      )

  -- What the prepared arguments are, once they are accepted.
  pub record IsPrepared (args : RunnerArgs) : Type 0 where
    pub command : a.cmd ≡ arguments args.cmd
    pub runnable : IsRunnable a.cmd
    pub termination : IsSupported around args.host_termination
    pub stdin : IsStdin args.stdin
    pub stdout : resolve_output_stream_route a.stdout_monitors ≡ ok args.stdout_route
    pub stderr : resolve_output_stream_route a.stderr_monitors ≡ ok args.stderr_route
    pub targets :
        resolve_output_stream_targets around.platform a.merge_std_streams args.stdout_route
          args.stderr_route
        ≡ ok args.output_stream_targets
    pub environment : args.env ≡ or_default a.env around.environ
    pub monitors : freeze_environment_monitors a.environment_monitors ≡ ok args.environment_monitors

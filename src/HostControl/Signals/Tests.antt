-- ===== src/HostControl/Signals/Tests.antt =====
-- Runs and instances for the handlers of src/flnr/_host_control/signals.py.
use flnr.Base.{◌≡◌, refl, true, false, some, [], ◌∷◌, ◌==◌, if◌then◌else◌}
use flnr.Outcome.{ok, type_error, assertion_error, err}
use flnr.HostControl.Signals.{
  default_action, interposer, foreign, callable, Handlers, Interposer, old_handler, activate,
  restore, deactivate, on_signal,
}
use flnr.HostControl.Signals.Restore.{AreDistinct, ArePython}

-- SIGINT has a handler of the application, SIGTERM its default action.
abbrev table : Handlers
table k = if k == 2 then callable 1 else default_action

-- SIGTERM has a handler that was not installed from Python.
abbrev embedded : Handlers
embedded k = if k == 15 then foreign else default_action

-- What an activation of an interposer has kept.
abbrev active : Interposer
active = record {
  handled_signals = 2 ∷ 15 ∷ [];
  old_handlers = some ((15, foreign) ∷ (2, default_action) ∷ []);
  has_loop = true;
}

-- Python refuses to install None again: the deactivation raises, and the interposer keeps SIGTERM.
embedded-refused :
    (deactivate true active (λ k. interposer)).1
    ≡ some
        (type_error "signal handler must be signal.SIG_IGN, signal.SIG_DFL, or a callable object")
unfolding deactivate restore old_handler
embedded-refused = refl

embedded-kept : (deactivate true active (λ k. interposer)).0 15 ≡ interposer
unfolding deactivate restore old_handler
embedded-kept = refl

second_activation : activate true active table ≡ err assertion_error
unfolding activate
second_activation = refl

closed_loop : on_signal active true ≡ ok false
unfolding on_signal
closed_loop = refl

signals-AreDistinct : AreDistinct (2 ∷ 15 ∷ [])
signals-AreDistinct = (refl, (refl, tt))

table-ArePython : ArePython (2 ∷ 15 ∷ []) table
table-ArePython = ((λ e. cc), ((λ e. cc), tt))

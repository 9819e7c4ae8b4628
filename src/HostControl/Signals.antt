-- ===== src/HostControl/Signals.antt =====
-- `_ExternalTerminationInterposer` of src/flnr/_host_control/signals.py: the handlers of the process
-- while a run owns them. The table of handlers is that of the process, by signal number.
pub mod Restore
mod Tests
use flnr.Base.{
  ℕ, Bool, true, false, not, ◌&&◌, Option, none, some, List, [], ◌∷◌, ◌==◌, if◌then◌else◌, is_some,
}
use flnr.Outcome.{PyError, Result, ok, err, type_error, assertion_error, key_error}

-- What `signal.signal` returns and takes. `foreign` is None: a handler that was not installed from
-- Python, which it returns but refuses to install.
pub data Handler : Type 0 where
  default_action ignored interposer foreign : Handler
  callable : ℕ → Handler

abbrev pub Handlers : Type 0
Handlers = ℕ → Handler

pub record Interposer : Type 0 where
  pub handled_signals : List ℕ
  pub old_handlers : Option (List (ℕ × Handler))
  pub has_loop : Bool

-- `__init__`
pub interposer_for : List ℕ → Interposer
interposer_for signo_set = record {
  handled_signals = signo_set;
  old_handlers = none;
  has_loop = false;
}

abbrev pub installed : Handlers → ℕ → Handler → Handlers
installed table signo h k = if k == signo then h else table k

-- `old_handlers[signo]`; the newest entry of a number counts
pub old_handler : ℕ → List (ℕ × Handler) → Option Handler
old_handler signo [] = none
old_handler signo ((k, h) ∷ old) = if signo == k then some h else old_handler signo old

-- the loop of `activate`
pub install : List ℕ → Handlers → List (ℕ × Handler) → Handlers × List (ℕ × Handler)
install [] table old = (table, old)
install (signo ∷ signals) table old =
    install signals (installed table signo interposer) ((signo, table signo) ∷ old)

-- `activate`, on the main thread or not; what it raises leaves the table alone.
pub activate : Bool → Interposer → Handlers → Result (Interposer × Handlers)
unfolding install
activate in_main_thread i table =
    if in_main_thread && not i.has_loop && not (is_some i.old_handlers)
    then (let (table', old) = install i.handled_signals table [] in
        ok (record i { old_handlers = some old; has_loop = true }, table'))
    else err assertion_error

-- the loop of `deactivate`; the table is also what an exception leaves behind
pub restore : List (ℕ × Handler) → List ℕ → Handlers → Handlers × Option PyError
unfolding old_handler
restore old [] table = (table, none)
restore old (signo ∷ signals) table = elim (old_handler signo old) [
  | none ↦ (table, some key_error)
  | some foreign ↦ (
    table,
    some (type_error "signal handler must be signal.SIG_IGN, signal.SIG_DFL, or a callable object"),
  )
  | some h ↦ restore old signals (installed table signo h)
]

-- `deactivate`; the state stays as it is, so an interposer serves one run.
pub deactivate : Bool → Interposer → Handlers → Handlers × Option PyError
unfolding restore
deactivate in_main_thread i table = elim i.old_handlers [
  | none ↦ (table, some assertion_error)
  | some old ↦
      if in_main_thread && i.has_loop
      then restore old i.handled_signals table
      else (table, some assertion_error)
]

-- `__call__`: whether the event of the run will be set; a closed loop takes no more callbacks.
pub on_signal : Interposer → Bool → Result Bool
on_signal i loop_closed = if i.has_loop then ok (not loop_closed) else err assertion_error

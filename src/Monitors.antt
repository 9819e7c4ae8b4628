-- ===== src/Monitors.antt =====
-- The monitor interfaces and their failures: src/flnr/monitors.py and src/flnr/monitor_failure.py.
-- A monitor is the caller's own object; here it is its type's name, and what its callbacks do is a
-- parameter of the modules that call them.
use flnr.Base.{ℕ, String, Option}

-- `OutputMonitorDisableReason`
pub data DisableReason : Type 0 where
  eof error drain_timeout : DisableReason

pub data MonitorHook : Type 0 where
  process on_disable on_start observe on_end : MonitorHook

pub data OutputStream : Type 0 where
  stdout stderr : OutputStream

-- A caught `Exception`: its class, `str`, `repr` and formatted traceback.
pub record PyException : Type 0 where
  pub type_name : String
  pub text : String
  pub representation : String
  pub backtrace : String

pub record Monitor : Type 0 where
  pub type_name : String

pub record MonitorFailure : Type 0 where
  pub monitor : Monitor
  pub hook : MonitorHook
  pub exception : PyException
  pub monitor_index : ℕ
  pub stream : Option OutputStream

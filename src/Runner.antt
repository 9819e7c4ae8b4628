-- ===== src/Runner.antt =====
-- `run_ex` of src/flnr/flnr.py and the errors of src/flnr/exceptions.py.
pub mod Report
pub mod Prepare
pub mod Scope
pub mod Supervision

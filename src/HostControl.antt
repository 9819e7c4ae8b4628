-- ===== src/HostControl.antt =====
-- How a host asks for the end of a run: src/flnr/_host_control.
pub mod Signals
pub mod Waker
pub mod Request

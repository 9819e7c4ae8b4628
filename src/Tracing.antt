-- ===== src/Tracing.antt =====
-- The command tracer: src/flnr/command_tracing.
pub mod EnvListing
pub mod Posix
pub mod Windows
pub mod Tracer

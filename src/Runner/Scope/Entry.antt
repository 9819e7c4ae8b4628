-- ===== src/Runner/Scope/Entry.antt =====
-- What `run_ex` of src/flnr/flnr.py has checked when it runs, and when it returns a fate.
use flnr.Base.{none, some}
use flnr.Runner.Scope.{Scope, Tracer, no_tracer, other_object, tracing}

-- A tracer that is absent, or has traced the command.
abbrev pub HasTraced : Tracer → Type 0
HasTraced no_tracer = Unit
HasTraced other_object = ⊥
HasTraced (tracing none) = Unit
HasTraced (tracing (some e)) = ⊥

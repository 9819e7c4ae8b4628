-- ===== src/EnvMonitor/Tests.antt =====
-- Runs and instances for the environment monitors of src/flnr/_observatory.py.
use flnr.Base.{◌≡◌, refl, none, some, [], ◌∷◌}
use flnr.Base.Int.{pos}
use flnr.Base.Text.{codes}
use flnr.Fate.{ProcessFate, no_intervention, method_none}
use flnr.Monitors.{Monitor}
use flnr.EnvMonitor.{
  start_call, observe_call, end_call, resolved, EnvWorld, Behaviour, start_env, call,
  after_start_allowed, after_watch, after_observe_allowed, after_end_allowed,
}

abbrev quiet : Behaviour
quiet log = none

abbrev sampler : Monitor
sampler = record { type_name = "Sampler" }

abbrev exited : ProcessFate
exited = record {
  termination_decision = no_intervention;
  termination_method = method_none;
  returncode = some (pos 0);
}

abbrev first_world : EnvWorld
first_world = start_env 7 (codes "make" ∷ []) sampler 0 []

abbrev after_on_start : EnvWorld
after_on_start = after_start_allowed quiet first_world

abbrev after_period : EnvWorld
after_period = after_watch quiet after_on_start

abbrev after_observe : EnvWorld
after_observe = after_observe_allowed quiet after_period

abbrev with_fate : EnvWorld
with_fate = record after_observe { fate_task = resolved exited }

abbrev after_fate : EnvWorld
after_fate = after_watch quiet with_fate

abbrev at_end : EnvWorld
at_end = after_end_allowed quiet exited after_fate

at_end-calls :
    at_end.calls ≡ start_call 7 (codes "make" ∷ []) ∷ observe_call 7 ∷ end_call exited ∷ []
unfolding start_env call after_start_allowed after_watch after_observe_allowed after_end_allowed
at_end-calls = refl

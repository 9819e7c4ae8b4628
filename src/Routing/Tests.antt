-- ===== src/Routing/Tests.antt =====
-- Runs and instances for src/flnr/_stream_routing.py.
use flnr.Base.{◌≡◌, refl, true, false, none, some, [], ◌∷◌}
use flnr.Base.Int.{pos}
use flnr.Outcome.{ok, err, type_error}
use flnr.PyValues.{instance_of, other, freeze}
use flnr.Monitors.{Monitor}
use flnr.Routing.{
  monitored, OutputRoute, resolve_output_stream_route, pipe, OutputStreamTargets,
  resolve_output_stream_targets,
}

abbrev tee : Monitor
tee = record { type_name = "Tee" }

abbrev tied : OutputRoute Monitor
tied = record { monitors = []; tie_to_parent = true }

abbrev with_tee : OutputRoute Monitor
with_tee = record { monitors = tee ∷ []; tie_to_parent = false }

abbrev silent : OutputRoute Monitor
silent = record { monitors = []; tie_to_parent = false }

route-other :
    resolve_output_stream_route (monitored (instance_of tee ∷ other "int" ∷ []))
    ≡ err (type_error "output monitor sequence must contain only OutputMonitor instances, got int")
unfolding resolve_output_stream_route freeze
route-other = refl

-- On Windows a merged stderr of a tied stdout names the parent's descriptor.
abbrev windows_targets : OutputStreamTargets
windows_targets = record { stdout = none; stderr = some (pos 1) }

posix_split :
    resolve_output_stream_targets "linux" (some false) tied with_tee
    ≡ ok (record { stdout = none; stderr = some pipe })
unfolding resolve_output_stream_targets
posix_split = refl

-- ===== src/Routing/Destinations.antt =====
-- Where what the child writes ends up, by the targets of src/flnr/_stream_routing.py.
use flnr.Base.{
  zero, suc, String, ◌≡◌, ◌↔◌, Bool, true, false, Option, none, some, if◌then◌else◌, nonempty,
  arith,
}
use flnr.Base.Int.{ℤ, pos, negsuc}
use flnr.Outcome.{ok, err, value_error}
use flnr.Routing.{
  OutputRoute, has_monitors, active, pipe, OutputStreamTargets, resolve_output_stream_targets,
}

-- What a descriptor of the child leads to.
pub data Destination : Type 0 where
  parent_stdout parent_stderr stdout_pipe stderr_pipe discarded elsewhere : Destination

-- How a target is read: `pipe`, `devnull` and None for stdout; for stderr also the descriptor that
-- stdout has, and the parent's descriptor 1.
abbrev pub stdout_leads_to : Option ℤ → Destination
stdout_leads_to none = parent_stdout
stdout_leads_to (some (negsuc zero)) = stdout_pipe
stdout_leads_to (some (negsuc (suc (suc zero)))) = discarded
stdout_leads_to (some _) = elsewhere

abbrev pub stderr_leads_to : OutputStreamTargets → Destination
stderr_leads_to t = by_target t.stderr
  where
    by_target : Option ℤ → Destination
    by_target none = parent_stderr
    by_target (some (negsuc zero)) = stderr_pipe
    by_target (some (negsuc (suc zero))) = stdout_leads_to t.stdout
    by_target (some (negsuc (suc (suc zero)))) = discarded
    by_target (some (pos (suc zero))) = parent_stdout
    by_target (some _) = elsewhere

-- The caller's view of a stream: passed through, monitored, or dropped.
abbrev pub wanted : {M : Type 0} → Destination → Destination → OutputRoute M → Destination
wanted parent piped route =
    if route.tie_to_parent then parent else if nonempty route.monitors then piped else discarded

module _ {M : Type 0} (platform : String) (merge : Option Bool) (so se : OutputRoute M) where
  -- The targets are refused exactly when a merge was asked for and stderr has handling of its own.
  pub resolve_output_stream_targets-refused :
      (resolve_output_stream_targets platform merge so se
        ≡ err (value_error "stderr_monitors must be None when merge_std_streams=True"))
      ↔ ((merge ≡ some true) × (active se ≡ true))
  unfolding resolve_output_stream_targets
  resolve_output_stream_targets-refused = ground arith

  -- No monitor of stderr goes unheard: where stderr has monitors and is not tied to the parent, it
  -- gets a pipe of its own, whatever was asked for the merge.
  pub stderr_monitors_heard :
      {t : OutputStreamTargets}
      → resolve_output_stream_targets platform merge so se ≡ ok t
      → se.tie_to_parent ≡ false
      → has_monitors se ≡ true
      → t.stderr ≡ some pipe
  unfolding resolve_output_stream_targets
  stderr_monitors_heard h a b = ground arith

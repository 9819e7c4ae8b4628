-- ===== src/Routing.antt =====
-- src/flnr/_stream_routing.py and the markers of src/flnr/stdio.py: where the two output streams of
-- the child go. `M` is the type of output monitors, `sys.platform` an argument.
pub mod Destinations
mod Tests
use Prim.Native.String
use text.Mathlib.Text.{starts_with}
use flnr.Base.{
  String, Bool, true, false, not, ◌&&◌, ◌||◌, Option, none, some, List, [], ◌∷◌, if◌then◌else◌,
  nonempty,
}
use flnr.Base.Int.{ℤ, pos, negsuc}
use flnr.Outcome.{Result, ok, err, value_error, ◌>>=◌}
use flnr.PyValues.{Item, freeze}

-- `Sequence[OutputMonitor] | BindToParent | None`
pub data StreamHandling (M : Type 0) : Type 0 where
  unhandled bind_to_parent : StreamHandling M
  monitored : List (Item M) → StreamHandling M

pub record OutputRoute (M : Type 0) : Type 0 where
  pub monitors : List M
  pub tie_to_parent : Bool

module _ {M : Type 0} where
  unfoldable pub has_monitors : OutputRoute M → Bool
  has_monitors route = nonempty route.monitors

  unfoldable pub active : OutputRoute M → Bool
  unfolding has_monitors
  active route = route.tie_to_parent || has_monitors route

  -- `_freeze_output_monitors`
  pub freeze_output_monitors : List (Item M) → Result (List M)
  freeze_output_monitors =
      freeze "output monitor sequence must contain only OutputMonitor instances, got "

  -- `_resolve_output_stream_route`
  unfoldable pub resolve_output_stream_route : StreamHandling M → Result (OutputRoute M)
  unfolding freeze_output_monitors
  resolve_output_stream_route unhandled = ok (record { monitors = []; tie_to_parent = false })
  resolve_output_stream_route bind_to_parent = ok (record { monitors = []; tie_to_parent = true })
  resolve_output_stream_route (monitored values) = do
    frozen ← freeze_output_monitors values
    ok (record { monitors = frozen; tie_to_parent = false })

-- The constants of `asyncio.subprocess`; `None` leaves the parent's descriptor in place.
abbrev pub pipe : ℤ
pipe = negsuc 0

abbrev pub stdout_fd : ℤ
stdout_fd = negsuc 1

abbrev pub devnull : ℤ
devnull = negsuc 2

pub record OutputStreamTargets : Type 0 where
  pub stdout : Option ℤ
  pub stderr : Option ℤ

-- `_target_for`
unfoldable pub target_for : {M : Type 0} → OutputRoute M → Option ℤ
unfolding has_monitors
target_for route =
    if route.tie_to_parent then none else if has_monitors route then some pipe else some devnull

-- `_target_for_merged_stderr`
unfoldable pub target_for_merged_stderr : String → Option ℤ → ℤ
target_for_merged_stderr platform none = if starts_with platform "win" then pos 1 else stdout_fd
target_for_merged_stderr platform (some _) = stdout_fd

-- `should_merge`
unfoldable pub should_merge : {M : Type 0} → Option Bool → OutputRoute M → OutputRoute M → Bool
unfolding active
should_merge (some merge) stdout_route stderr_route = merge
should_merge none stdout_route stderr_route = active stdout_route && not (active stderr_route)

abbrev is_true : Option Bool → Bool
is_true none = false
is_true (some b) = b

-- `_resolve_output_stream_targets`
unfoldable pub resolve_output_stream_targets :
    {M : Type 0} → String → Option Bool → OutputRoute M → OutputRoute M → Result OutputStreamTargets
unfolding active target_for target_for_merged_stderr should_merge
resolve_output_stream_targets platform merge stdout_route stderr_route =
    if is_true merge && active stderr_route
    then err (value_error "stderr_monitors must be None when merge_std_streams=True")
    else let stdout = target_for stdout_route in
      ok (record {
        stdout = stdout;
        stderr =
            if should_merge merge stdout_route stderr_route
            then some (target_for_merged_stderr platform stdout)
            else target_for stderr_route;
      })

-- ===== src/Runner/Supervision/Parts.antt =====
-- What holds of each part of a run (src/flnr/flnr.py), before and after the shared values move on.
use flnr.Base.{
  ◌≡◌, ◌⊎◌, refl, sym, ap, ◌∙◌, true, false, not, ◌&&◌, List, ◌++◌, map, inl, inr, All, All-map,
}
use flnr.Monitors.{MonitorFailure}
use flnr.Lifecycle.{World}
use flnr.Reader.Invariant.{IsSound}
use flnr.EnvMonitor.{running}
use flnr.EnvMonitor.Protocol.{InStep}
use flnr.Runner.Supervision.{Run, StreamTask, EnvTask, share_stream, share_env, fate_task_of}
use flnr.Runner.Supervision.Shared.{share_stream-IsSound, share_env-InStep}
use flnr.Runner.Supervision.Lifecycle.{still_told}

-- A reader in its own invariant, with the shared values; the fate coroutine has heard of its
-- failure.
pub record StreamKept (l : World) (fs : List MonitorFailure) (t : StreamTask) : Type 0 where
  pub sound : IsSound t.reader
  pub same_failures : t.reader.monitoring.monitor_failures ≡ fs
  pub same_allowed : t.reader.monitor_callbacks_allowed ≡ l.monitor_callbacks_allowed
  pub heard : (t.reader.fatal_reader_error && not l.fatal_reader_error) ≡ false

pub record EnvKept (l : World) (fs : List MonitorFailure) (t : EnvTask) : Type 0 where
  pub in_step : InStep t.world
  pub same_failures : t.world.monitor_failures ≡ fs
  pub same_allowed : t.world.monitor_callbacks_allowed ≡ l.monitor_callbacks_allowed
  pub same_fate : t.world.fate_task ≡ fate_task_of l.phase

-- What is ready to be shared again after a move to `l` and `fs`.
pub record StreamReady (l : World) (t : StreamTask) : Type 0 where
  pub sound : IsSound t.reader
  pub heard : (t.reader.fatal_reader_error && not l.fatal_reader_error) ≡ false

pub record EnvReady (l : World) (fs : List MonitorFailure) (t : EnvTask) : Type 0 where
  pub in_step : InStep t.world
  pub fate : (t.world.fate_task ≡ running) ⊎ (fate_task_of l.phase ≡ t.world.fate_task)
  pub grew : (new : List MonitorFailure) × (fs ≡ t.world.monitor_failures ++ new)

pub share-StreamKept :
    (w : Run)
    → All (StreamReady w.lifecycle) w.stream_tasks
    → All (StreamKept w.lifecycle w.monitor_failures) (map (share_stream w) w.stream_tasks)
unfolding share_stream
share-StreamKept w =
    All-map (StreamReady w.lifecycle) (StreamKept w.lifecycle w.monitor_failures) (share_stream w)
      (λ t r. record {
        sound = share_stream-IsSound w t r.sound;
        same_failures = refl;
        same_allowed = refl;
        heard = r.heard;
      })
      w.stream_tasks

pub share-EnvKept :
    (w : Run)
    → All (EnvReady w.lifecycle w.monitor_failures) w.env_tasks
    → All (EnvKept w.lifecycle w.monitor_failures) (map (share_env w) w.env_tasks)
unfolding share_env
share-EnvKept w =
    All-map (EnvReady w.lifecycle w.monitor_failures) (EnvKept w.lifecycle w.monitor_failures)
      (share_env w)
      (λ t r.
        let (new, e) = r.grew in
        record {
          in_step = share_env-InStep w t r.fate new e r.in_step;
          same_failures = refl;
          same_allowed = refl;
          same_fate = refl;
        })
      w.env_tasks

-- Nothing happened to a part, while the shared values moved on.
pub stream_waits :
    (l l' : World) (fs : List MonitorFailure)
    → (l'.fatal_reader_error ≡ l.fatal_reader_error) ⊎ (l'.fatal_reader_error ≡ true)
    → (t : StreamTask) → StreamKept l fs t
    → StreamReady l' t
stream_waits l l' fs k t s = record {
  sound = s.sound;
  heard = still_told t.reader.fatal_reader_error l l' k s.heard;
}

pub env_waits :
    (l l' : World) (fs new : List MonitorFailure)
    → (fate_task_of l.phase ≡ running) ⊎ (l'.phase ≡ l.phase)
    → (t : EnvTask) → EnvKept l fs t
    → EnvReady l' (fs ++ new) t
env_waits l l' fs new settled t s = record {
  in_step = s.in_step;
  fate = by_phase settled;
  grew = (new, ap (λ f. f ++ new) (sym s.same_failures));
}
  where
    by_phase :
        (fate_task_of l.phase ≡ running) ⊎ (l'.phase ≡ l.phase)
        → (t.world.fate_task ≡ running) ⊎ (fate_task_of l'.phase ≡ t.world.fate_task)
    by_phase (inl e) = inl (s.same_fate ∙ e)
    by_phase (inr e) = inr (ap fate_task_of e ∙ sym s.same_fate)

-- ===== src/Reader/Drain.antt =====
-- The end of a reader (src/flnr/_observatory.py): the drain controller stops a relay that its stream
-- keeps waiting, and a relay fails only with its stream.
use flnr.Base.{◌≡◌, true, List}
use flnr.Sink.{Bytes}
use flnr.Sink.Loop.{Tracked}
use flnr.Sink.Lifetime.{IsClosed}
use flnr.Reader.{drained, Reader, is_ended}

-- Every monitor has been told, once, that it is disabled, and was given a part of what was sent.
abbrev pub AllTold : Reader → Type 0
AllTold w = (sent : List Bytes) × Tracked (IsClosed sent) 0 w.handles w.monitoring.calls

-- A reader that is finished, with no more of its stream than before.
pub record IsDrained (first w : Reader) : Type 0 where
  pub over : is_ended w.relay ≡ true
  pub finished : w.drain ≡ drained
  pub told : AllTold w
  pub nothing_read : w.chunks_read ≡ first.chunks_read

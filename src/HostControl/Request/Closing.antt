-- ===== src/HostControl/Request/Closing.antt =====
-- The life of a `HostTerminationRequest` (src/flnr/host_control.py): its sockets under any sequence
-- of its methods, and what they do once it is closed.
use flnr.Base.{ℕ, ◌≡◌, refl, sym, subst, List, [], ◌∷◌, map}
use flnr.HostControl.Waker.{
  Host, WakeupSource, Behaviour, trigger, close_source, attach_socket_waker, dup_reader,
}
use flnr.HostControl.Waker.Source.{neither, Holds, trigger-Holds, close_source-Holds, attach-Holds}
use flnr.HostControl.Request.{
  RequestOp, trigger_op, close_op, attach_op, OpResult, done, failed, already_closed, use_of_closed,
  apply, apply_all, request_trigger, request_close, request_attach,
}

-- What the methods do on a closed request, and nothing else.
abbrev pub when_closed : RequestOp → OpResult
when_closed trigger_op = done
when_closed close_op = failed already_closed
when_closed attach_op = failed use_of_closed

module _ (raises : Behaviour) where
  apply-Holds :
      (r w : ℕ) (op : RequestOp) (s : WakeupSource) (h : Host)
      → Holds r w s h
      → let (s', h', result) = apply raises op s h in Holds r w s' h'
  unfolding apply request_trigger request_close request_attach
  apply-Holds r w trigger_op s h k = trigger-Holds raises r w s h k
  apply-Holds r w close_op s h k = (close_source-Holds raises r w s h k).0
  apply-Holds r w attach_op s h k = attach-Holds raises r w s h k

  -- Whatever the calls raise and in whatever order triggers, deactivate-Closes and attachments come, the two
  -- sockets of a request are open until its first close, each is closed once there, and neither is
  -- used after that.
  pub apply_all-Holds :
      (r w : ℕ) (ops : List RequestOp) (s : WakeupSource) (h : Host)
      → Holds r w s h
      → let (s', h', results) = apply_all raises ops s h in Holds r w s' h'
  unfolding apply_all
  apply_all-Holds r w [] s h k = k
  apply_all-Holds r w (op ∷ ops) s h k = apply_all-Holds r w ops _ _ (apply-Holds r w op s h k)

  apply-dead :
      (op : RequestOp) (h : Host) → apply raises op neither h ≡ (neither, h, when_closed op)
  unfolding apply request_trigger request_close request_attach trigger close_source
      attach_socket_waker dup_reader
  apply-dead trigger_op h = refl
  apply-dead close_op h = refl
  apply-dead attach_op h = refl

  apply_all-dead :
      (ops : List RequestOp) (h : Host)
      → apply_all raises ops neither h ≡ (neither, h, map when_closed ops)
  unfolding apply_all
  apply_all-dead [] h = refl
  apply_all-dead (op ∷ ops) h = rw (apply-dead op h, apply_all-dead ops h)

  -- After a request was closed, whatever the close raised, none of its methods makes a call: a
  -- trigger returns, a close and an attachment raise an OSError that says so.
  pub closed-dead :
      (r w : ℕ) (s : WakeupSource) (h : Host)
      → Holds r w s h
      → (ops : List RequestOp)
      → let (s', h', result) = apply raises close_op s h in
        apply_all raises ops s' h' ≡ (s', h', map when_closed ops)
  unfolding apply request_close
  closed-dead r w s h k ops =
      subst
        (λ s'.
          apply_all raises ops s' (apply raises close_op s h).1
          ≡ (s', (apply raises close_op s h).1, map when_closed ops))
        (sym (close_source-Holds raises r w s h k).1)
        (apply_all-dead ops (apply raises close_op s h).1)

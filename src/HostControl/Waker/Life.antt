-- ===== src/HostControl/Waker/Life.antt =====
-- The life of one attachment of src/flnr/_host_control/waker.py: the event loop, the owner of the
-- request and the run that deactivates it move in any order.
use flnr.Base.{
  ℕ, ◌≡◌, ◌≢◌, ◌⊎◌, inl, inr, refl, sym, ap, ◌∙◌, subst, Bool, true, false, ◌||◌, Option, none,
  some, arith,
}
use flnr.HostControl.Waker.{
  OsCall, close_call, cancel_call, select_call, remove_reader_call, Host, log_call, Behaviour,
  PollTask, polling, sleeping, poll_ended, Attachment, loop_reader, poller, readable, detach,
  stop_polling, deactivate, poll, close_socket, value,
}
use flnr.HostControl.Waker.Attached.{HasSocket}
use flnr.HostControl.Waker.Status.{
  SocketStatus, opened, closed, status, status-named, status-others, named, names, after_call,
}

pub record Life : Type 0 where
  pub host : Host
  pub attachment : Attachment
  -- `ext_termination_request` of the run
  pub event_set : Bool
  pub deactivated : Bool

abbrev pub attached_life : Attachment → Host → Life
attached_life a h = record { host = h; attachment = a; event_set = false; deactivated = false }

module _ (raises : Behaviour) (d : ℕ) where
  -- `_AsyncLoopReaderAttachment._notify`
  unfoldable pub notify : Option ℕ → Life → Life
  notify a w = record w {
    host = (detach raises a w.host).0;
    attachment = loop_reader none;
    event_set = true;
  }

  unfoldable pub poll_once : ℕ → Life → Life
  poll_once r w =
      let (t, is_set, h') = poll raises r w.host in
      record w { host = h'; attachment = poller r t; event_set = w.event_set || is_set }

  -- A move; `d` is the socket of the attachment.
  pub data LifeStep : Life → Life → Type 0 where
    -- the other runs and the owner of the request have other sockets
    call_elsewhere :
        (w : Life) (c : OsCall)
        → names d c ≡ false
        → LifeStep w (record w { host = log_call c w.host })
    triggered : (w : Life) → LifeStep w (record w { host = record (w.host) { signalled = true } })
    closed_source : (w : Life) → LifeStep w (record w { host = record (w.host) { hung_up = true } })
    loop_notifies :
        (w : Life) (a : Option ℕ)
        → w.attachment ≡ loop_reader a
        → readable w.host ≡ true
        → LifeStep w (notify a w)
    polls : (w : Life) (r : ℕ) → w.attachment ≡ poller r polling → LifeStep w (poll_once r w)
    slept :
        (w : Life) (r : ℕ)
        → w.attachment ≡ poller r sleeping
        → LifeStep w (record w { attachment = poller r polling })
    -- `_acleanup` of the run
    deactivates :
        (w : Life)
        → w.deactivated ≡ false
        → LifeStep w (
            let (a, h, e) = deactivate raises w.attachment w.host in
            record w { host = h; attachment = a; deactivated = true })

  pub data LifeReach (first : Life) : Life → Type 0 where
    begun : LifeReach first first
    moved : {w v : Life} → LifeReach first w → LifeStep w v → LifeReach first v

  -- The socket is open until the attachment lets go of it, and closed from then on.
  abbrev pub SocketFits : Attachment → Bool → SocketStatus → Type 0
  SocketFits (loop_reader none) b s = s ≡ closed
  SocketFits (loop_reader (some r)) b s = (r ≡ d) × (b ≡ false) × (s ≡ opened)
  SocketFits (poller r t) false s = (r ≡ d) × (s ≡ opened)
  SocketFits (poller r t) true s = (r ≡ d) × (s ≡ closed) × (t ≡ poll_ended)

  -- A loop reader lets go when it has told the run, or is deactivated.
  abbrev pub LetsGo : Attachment → Bool → Bool → Type 0
  LetsGo (loop_reader none) is_set b = (is_set ≡ true) ⊎ (b ≡ true)
  LetsGo _ is_set b = Unit

  pub record IsSound (w : Life) : Type 0 where
    pub fits : SocketFits w.attachment w.deactivated (status d w.host.calls)
    pub heard : w.event_set ≡ true → readable w.host ≡ true
    pub lets_go : LetsGo w.attachment w.event_set w.deactivated

  let_go :
      (c : OsCall) (h : Host)
      → named c ≡ some d
      → after_call opened c ≡ opened
      → status d h.calls ≡ opened
      → status d (log_call (close_call d) (log_call c h)).calls ≡ closed
  let_go c h n k o =
      status-named d (log_call c h).calls (close_call d) opened refl
        (status-named d h.calls c opened n o ∙ k)

  detach-closed :
      (a : Option ℕ) (b : Bool) (h : Host)
      → SocketFits (loop_reader a) b (status d h.calls)
      → status d (detach raises a h).0.calls ≡ closed
  unfolding detach close_socket
  detach-closed none b h k = k
  detach-closed (some r) b h (e, q, o) =
      subst
        (λ r. status d (log_call (close_call r) (log_call (remove_reader_call r) h)).calls ≡ closed)
        (sym e) (let_go (remove_reader_call d) h refl refl o)

  detach-readable : (a : Option ℕ) (h : Host) → readable (detach raises a h).0 ≡ readable h
  unfolding detach close_socket
  detach-readable none h = refl
  detach-readable (some r) h = refl

  deactivated-Sound :
      (a : Attachment) (is_set : Bool) (h : Host)
      → SocketFits a false (status d h.calls)
      → let (a', h', e) = deactivate raises a h in
        SocketFits a' true (status d h'.calls) × (readable h' ≡ readable h) × LetsGo a' is_set true
  unfolding deactivate stop_polling close_socket
  deactivated-Sound (loop_reader a) is_set h k =
      (detach-closed a false h k, detach-readable a h, inr refl)
  deactivated-Sound (poller r t) is_set h (e, o) = (
    (
      e,
      subst (λ r. status d (log_call (close_call r) (log_call (cancel_call r) h)).calls ≡ closed)
          (sym e) (let_go (cancel_call d) h refl refl o),
      refl,
    ),
    refl,
    tt,
  )

  -- What a poll sets is what it saw.
  poll-readable : (r : ℕ) (h : Host) → (poll raises r h).1 ≡ true → readable h ≡ true
  unfolding poll
  poll-readable r h e = ground arith

  -- A task that is not over belongs to an attachment that is not deactivated.
  live :
      (r : ℕ) (t : PollTask) (b : Bool) (s : SocketStatus)
      → t ≢ poll_ended
      → SocketFits (poller r t) b s
      → (b ≡ false) × (r ≡ d) × (s ≡ opened)
  live r t false s n (e, o) = (refl, e, o)
  live r t true s n (e, o, q) = absurd (n q)

  poll_once-IsSound :
      (w : Life) (r : ℕ) → w.attachment ≡ poller r polling → IsSound w → IsSound (poll_once r w)
  unfolding poll_once poll
  poll_once-IsSound w r e s =
      let (off, same, o) =
        live r polling w.deactivated (status d w.host.calls) (λ q. cc)
          (subst (λ a. SocketFits a w.deactivated (status d w.host.calls)) e s.fits) in
      record {
        fits =
            subst
              (λ b.
                SocketFits (poller r (poll raises r w.host).0) b
                  (status d (log_call (select_call r) w.host).calls))
              (sym off)
              (same, status-named d w.host.calls (select_call r) opened (ap (λ x. some x) same) o);
        heard = λ q. seen w.event_set (poll raises r w.host).1 q s.heard (poll-readable r w.host);
        lets_go = tt;
      }
    where
      seen : {P : Type 0} (a b : Bool) → (a || b) ≡ true → (a ≡ true → P) → (b ≡ true → P) → P
      seen true b q f g = f refl
      seen false b q f g = g q

  notify-IsSound :
      (w : Life) (a : Option ℕ)
      → w.attachment ≡ loop_reader a
      → readable w.host ≡ true
      → IsSound w
      → IsSound (notify a w)
  unfolding notify
  notify-IsSound w a e r s = record {
    fits =
        detach-closed a w.deactivated w.host
          (subst (λ x. SocketFits x w.deactivated (status d w.host.calls)) e s.fits);
    heard = λ q. detach-readable a w.host ∙ r;
    lets_go = inl refl;
  }

  pub LifeStep-IsSound : {w v : Life} → LifeStep w v → IsSound w → IsSound v
  LifeStep-IsSound (call_elsewhere w c n) s = record {
    fits =
        subst (SocketFits w.attachment w.deactivated) (sym (status-others d w.host.calls c n))
          s.fits;
    heard = s.heard;
    lets_go = s.lets_go;
  }
  LifeStep-IsSound (triggered w) s = record {
    fits = s.fits;
    heard = λ e. refl;
    lets_go = s.lets_go;
  }
  LifeStep-IsSound (closed_source w) s = record {
    fits = s.fits;
    heard = λ e. ground arith;
    lets_go = s.lets_go;
  }
  LifeStep-IsSound (loop_notifies w a e r) s = notify-IsSound w a e r s
  LifeStep-IsSound (polls w r e) s = poll_once-IsSound w r e s
  LifeStep-IsSound (slept w r e) s =
      let (off, same, o) =
        live r sleeping w.deactivated (status d w.host.calls) (λ q. cc)
          (subst (λ a. SocketFits a w.deactivated (status d w.host.calls)) e s.fits) in
      record {
        fits =
            subst (λ b. SocketFits (poller r polling) b (status d w.host.calls)) (sym off)
              (same, o);
        heard = s.heard;
        lets_go = tt;
      }
  LifeStep-IsSound (deactivates w e) s =
      let (f, r, g) =
        deactivated-Sound w.attachment w.event_set w.host
          (subst (λ b. SocketFits w.attachment b (status d w.host.calls)) e s.fits) in
      record { fits = f; heard = λ q. r ∙ s.heard q; lets_go = g }

  first-IsSound :
      (a : Attachment) (h : Host) → HasSocket d h (value a) → IsSound (attached_life a h)
  first-IsSound (loop_reader none) h k = absurd k
  first-IsSound (loop_reader (some r)) h (e, o) = record {
    fits = (e, refl, o);
    heard = λ q. cc;
    lets_go = tt;
  }
  first-IsSound (poller r t) h (e, q, o) = record { fits = (e, o); heard = λ q. cc; lets_go = tt }

  -- From the attachment of a run on, in whatever order the event loop, the run and the owner of the
  -- request move and whatever the calls raise: the duplicated socket is open until the attachment
  -- lets go of it, when the loop tells it or when it is deactivated, it is closed once then and not
  -- used after that; and the run's event is set only after a trigger or the close of the request.
  pub LifeReach-IsSound :
      (a : Attachment) (h : Host)
      → HasSocket d h (value a)
      → {w : Life} → LifeReach (attached_life a h) w
      → IsSound w
  LifeReach-IsSound a h k begun = first-IsSound a h k
  LifeReach-IsSound a h k (moved r step) = LifeStep-IsSound step (LifeReach-IsSound a h k r)

  -- It still waits for the request.
  abbrev pub Waits : Attachment → Type 0
  Waits (loop_reader (some r)) = Unit
  Waits (poller r polling) = Unit
  Waits (poller r sleeping) = Unit
  Waits _ = ⊥

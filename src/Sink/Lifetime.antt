-- ===== src/Sink/Lifetime.antt =====
-- The life of the monitors of one stream (src/flnr/_monitor_handles.py, src/flnr/_observatory.py):
-- no assertion fails, whatever the callbacks raise.
use flnr.Base.{
  ℕ, suc, ◌≡◌, refl, sym, subst, subst₂, ◌∙◌, ap, Bool, true, false, none, some, List, [], ◌∷◌,
  ◌++◌, arith, append_assoc, append-nil, Option-cases, Bool-cases, inl, inr,
}
use flnr.Outcome.{ok, ◌>>=◌}
use flnr.Floats.{PyFloat}
use flnr.Monitors.{DisableReason, error, Monitor, OutputStream, PyException}
use flnr.Sink.{
  Bytes, Call, process_call, disable_call, Handle, Monitoring, Behaviour, disable, process_failed,
  for_each, deliver, on_data, disable_one, disable_all, handles_from,
}
use flnr.Sink.Calls.{
  Status, listening, closed, View, view, status, received, after_process, after_disable,
  view-process_self, view-disable_self, view-process_ne, view-disable_ne,
}
use flnr.Sink.Loop.{Tracked, Round, Loop, for_each-Loop}

abbrev pub expected : Bool → Status
expected true = listening
expected false = closed

-- A listening monitor was given all that was sent; a closed one what was sent up to some chunk.
abbrev pub Got : List Bytes → Bool → List Bytes → Type 0
Got sent true got = got ≡ sent
Got sent false got = (rest : List Bytes) × (got ++ rest ≡ sent)

-- A handle in step with what was sent on its stream.
abbrev pub InStep : List Bytes → Handle → View → Type 0
InStep sent h v = (v.0 ≡ expected h.is_active) × Got sent h.is_active v.1

abbrev pub IsClosed : List Bytes → Handle → View → Type 0
IsClosed sent h v = (h.is_active ≡ false) × InStep sent h v

module _ (raises : Behaviour) (h : Handle) (ts : PyFloat) (m : Monitoring) where
  -- Whether or not `on_disable` raises, it is called once and the handle is inactive.
  disable_lem :
      (reason : DisableReason)
      → let (h', m') = disable raises h reason ts m in
        (h'.is_active ≡ false)
        × (h'.monitor_index ≡ h.monitor_index)
        × (m'.calls ≡ m.calls ++ disable_call h.monitor_index reason ts ∷ [])
  unfolding disable
  disable_lem reason = ground arith

  process_failed_lem :
      (exc : PyException)
      → let (h', m') = process_failed raises h ts exc m in
        (h'.is_active ≡ false)
        × (h'.monitor_index ≡ h.monitor_index)
        × (m'.calls ≡ m.calls ++ disable_call h.monitor_index error ts ∷ [])
  unfolding process_failed
  process_failed_lem exc = ground arith

Got-skip :
    (sent : List Bytes) (chunk : Bytes) (got : List Bytes)
    → Got sent false got
    → Got (sent ++ chunk ∷ []) false got
Got-skip sent chunk got (rest, e) =
    (rest ++ chunk ∷ [], sym (append_assoc got rest (chunk ∷ [])) ∙ ap (λ t. t ++ chunk ∷ []) e)

module _ (raises : Behaviour) (chunk : Bytes) (ts : PyFloat) (h : Handle) (m : Monitoring) where
  abbrev logged : Monitoring
  logged = record m { calls = m.calls ++ process_call h.monitor_index chunk ts ∷ [] }

  deliver_inactive : h.is_active ≡ false → deliver raises chunk ts h m ≡ ok (h, m)
  unfolding deliver
  deliver_inactive e = rw e

  deliver_returns :
      h.is_active ≡ true → raises logged.calls ≡ none → deliver raises chunk ts h m ≡ ok (h, logged)
  unfolding deliver
  deliver_returns e q = ground arith

  deliver-raises :
      {exc : PyException}
      → h.is_active ≡ true
      → raises logged.calls ≡ some exc
      → deliver raises chunk ts h m ≡ ok (process_failed raises h ts exc logged)
  unfolding deliver
  deliver-raises e q = ground arith

-- `InStep` and its consequences, over whether the handle is active.
abbrev Fits : List Bytes → Bool → View → Type 0
Fits sent b v = (v.0 ≡ expected b) × Got sent b v.1

Fits-skipped :
    (sent : List Bytes) (chunk : Bytes) (b : Bool) (v : View)
    → b ≡ false
    → Fits sent b v
    → Fits (sent ++ chunk ∷ []) b v
Fits-skipped sent chunk true v e f = cc
Fits-skipped sent chunk false v e (s, g) = (s, Got-skip sent chunk v.1 g)

Fits-given :
    (sent : List Bytes) (chunk : Bytes) (b : Bool) (v : View)
    → b ≡ true
    → Fits sent b v
    → Fits (sent ++ chunk ∷ []) b (after_process v.0, v.1 ++ chunk ∷ [])
Fits-given sent chunk true v e (s, g) = (ap after_process s, ap (λ t. t ++ chunk ∷ []) g)
Fits-given sent chunk false v e f = cc

Fits-failed :
    (sent : List Bytes) (chunk : Bytes) (b : Bool) (v : View)
    → b ≡ true
    → Fits sent b v
    → Fits (sent ++ chunk ∷ []) false (after_disable (after_process v.0), v.1 ++ chunk ∷ [])
Fits-failed sent chunk true v e (s, g) =
    (ap (λ t. after_disable (after_process t)) s, ([], append-nil _ ∙ ap (λ t. t ++ chunk ∷ []) g))
Fits-failed sent chunk false v e f = cc

Fits-closed :
    (sent : List Bytes) (b : Bool) (v : View)
    → b ≡ true
    → Fits sent b v
    → Fits sent false (after_disable v.0, v.1)
Fits-closed sent true v e (s, g) = (ap after_disable s, ([], append-nil _ ∙ g))
Fits-closed sent false v e f = cc

module _ (raises : Behaviour) (chunk : Bytes) (ts : PyFloat) (sent : List Bytes) (h : Handle)
    (m : Monitoring) (p : InStep sent h (view h.monitor_index m.calls)) where
  abbrev given : Monitoring
  given = record m { calls = m.calls ++ process_call h.monitor_index chunk ts ∷ [] }

  view-given : view h.monitor_index given.calls ≡ (
    after_process (status h.monitor_index m.calls),
    received h.monitor_index m.calls ++ chunk ∷ [],
  )
  view-given = view-process_self h.monitor_index m.calls ts chunk

  returned-Round :
      h.is_active ≡ true
      → raises given.calls ≡ none
      → Round (InStep (sent ++ chunk ∷ [])) h m (deliver raises chunk ts h m)
  returned-Round on quiet = record {
    after = h;
    monitoring = given;
    returned = deliver_returns raises chunk ts h m on quiet;
    same_index = refl;
    kept =
        subst (InStep (sent ++ chunk ∷ []) h) (sym view-given)
          (Fits-given sent chunk h.is_active (view h.monitor_index m.calls) on p);
    others = λ j ne. view-process_ne h.monitor_index m.calls ts j chunk ne;
  }

  raised-Round :
      (exc : PyException)
      → h.is_active ≡ true
      → raises given.calls ≡ some exc
      → Round (InStep (sent ++ chunk ∷ [])) h m (deliver raises chunk ts h m)
  raised-Round exc on loud =
      let (off, index, log) = process_failed_lem raises h ts given exc in
      let i = h.monitor_index in
      let shown =
        ap (view i) log
        ∙ view-disable_self i given.calls ts error
        ∙ ap (λ (v : View). (after_disable v.0, v.1)) view-given in
      record {
        after = (process_failed raises h ts exc given).0;
        monitoring = (process_failed raises h ts exc given).1;
        returned = deliver-raises raises chunk ts h m on loud;
        same_index = index;
        kept =
            subst₂ (Fits (sent ++ chunk ∷ [])) (sym off) (sym shown)
              (Fits-failed sent chunk h.is_active (view i m.calls) on p);
        others = λ j ne.
            ap (view j) log
            ∙ view-disable_ne i given.calls ts j error ne
            ∙ view-process_ne i m.calls ts j chunk ne;
      }

  deliver-Round : Round (InStep (sent ++ chunk ∷ [])) h m (deliver raises chunk ts h m)
  deliver-Round = elim (Bool-cases h.is_active) [
    | inl on ↦ elim (Option-cases (raises given.calls)) [
      | inl quiet ↦ returned-Round on quiet
      | inr (exc, loud) ↦ raised-Round exc on loud
    ]
    | inr off ↦ record {
      after = h;
      monitoring = m;
      returned = deliver_inactive raises chunk ts h m off;
      same_index = refl;
      kept = Fits-skipped sent chunk h.is_active (view h.monitor_index m.calls) off p;
      others = λ j ne. refl;
    }
  ]

disable_one_inactive :
    (raises : Behaviour) (reason : DisableReason) (ts : PyFloat) (h : Handle) (m : Monitoring)
    → h.is_active ≡ false
    → disable_one raises reason ts h m ≡ ok (h, m)
unfolding disable_one
disable_one_inactive raises reason ts h m off = rw off

module _ (raises : Behaviour) (reason : DisableReason) (ts : PyFloat) (sent : List Bytes)
    (h : Handle) (m : Monitoring) (p : InStep sent h (view h.monitor_index m.calls)) where
  disable_one_active :
      h.is_active ≡ true
      → (disable raises h reason ts m).0.is_active ≡ false
      → disable_one raises reason ts h m ≡ ok (disable raises h reason ts m)
  unfolding disable_one
  disable_one_active on off = ground arith

  IsClosed-Round : h.is_active ≡ true → Round (IsClosed sent) h m (disable_one raises reason ts h m)
  IsClosed-Round on =
      let (off, index, log) = disable_lem raises h ts m reason in
      let i = h.monitor_index in
      let shown = ap (view i) log ∙ view-disable_self i m.calls ts reason in
      record {
        after = (disable raises h reason ts m).0;
        monitoring = (disable raises h reason ts m).1;
        returned = disable_one_active on off;
        same_index = index;
        kept = (
          off,
          subst₂ (Fits sent) (sym off) (sym shown)
              (Fits-closed sent h.is_active (view i m.calls) on p),
        );
        others = λ j ne. ap (view j) log ∙ view-disable_ne i m.calls ts j reason ne;
      }

  disable_one-Round : Round (IsClosed sent) h m (disable_one raises reason ts h m)
  disable_one-Round = elim (Bool-cases h.is_active) [
    | inl on ↦ IsClosed-Round on
    | inr off ↦ record {
      after = h;
      monitoring = m;
      returned = disable_one_inactive raises reason ts h m off;
      same_index = refl;
      kept = (off, p);
      others = λ j ne. refl;
    }
  ]

pub on_data-InStep :
    (raises : Behaviour) (sent : List Bytes) (chunk : Bytes) (ts : PyFloat) (hs : List Handle)
    (m : Monitoring)
    → Tracked (InStep sent) 0 hs m.calls
    → Loop (InStep (sent ++ chunk ∷ [])) 0 m (on_data raises hs chunk ts m)
unfolding on_data
on_data-InStep raises sent chunk ts hs m =
    for_each-Loop (InStep sent) (InStep (sent ++ chunk ∷ [])) (deliver raises chunk ts)
      (deliver-Round raises chunk ts sent) 0 hs m

-- Disabling monitors that are in step leaves every one of them inactive and in step, whatever the
-- callbacks raise: each active monitor's `on_disable` is called once, the others are not called.
pub disable_all-IsClosed :
    (raises : Behaviour) (sent : List Bytes) (reason : DisableReason) (ts : PyFloat)
    (hs : List Handle) (m : Monitoring)
    → Tracked (InStep sent) 0 hs m.calls
    → Loop (IsClosed sent) 0 m (disable_all raises hs reason ts m)
unfolding disable_all
disable_all-IsClosed raises sent reason ts hs m =
    for_each-Loop (InStep sent) (IsClosed sent) (disable_one raises reason ts)
      (disable_one-Round raises reason ts sent) 0 hs m

-- The handles of a new sink have been given nothing.
pub handles_from-Tracked :
    (k : ℕ) (monitors : List Monitor) (stream : OutputStream)
    → Tracked (InStep []) k (handles_from k monitors stream) []
unfolding handles_from
handles_from-Tracked k [] stream = tt
handles_from-Tracked k (monitor ∷ monitors) stream =
    (refl, (refl, refl), handles_from-Tracked (suc k) monitors stream)

disabled_again :
    (raises : Behaviour) (sent : List Bytes) (reason : DisableReason) (ts : PyFloat) (k : ℕ)
    (hs : List Handle) (m : Monitoring) (log : List Call)
    → Tracked (IsClosed sent) k hs log
    → disable_all raises hs reason ts m ≡ ok (hs, m)
unfolding disable_all for_each
disabled_again raises sent reason ts k [] m log t = refl
disabled_again raises sent reason ts k (h ∷ hs) m log (_, (off, _), t) = rw (
  disable_one_inactive raises reason ts h m off,
  disabled_again raises sent reason ts (suc k) hs m log t,
)

-- Disabling twice is disabling once: on monitors that are all inactive, whatever the reason, no
-- callback is made, nothing is recorded, and nothing changes.
pub disable_all-disable_all :
    (raises : Behaviour) (sent : List Bytes) (reason again : DisableReason) (ts later : PyFloat)
    (hs : List Handle) (m : Monitoring)
    → Tracked (InStep sent) 0 hs m.calls
    → (disable_all raises hs reason ts m >>= λ (hs', m'). disable_all raises hs' again later m')
      ≡ disable_all raises hs reason ts m
disable_all-disable_all raises sent reason again ts later hs m t =
    let l = disable_all-IsClosed raises sent reason ts hs m t in
    rw l.returned
      (disabled_again raises sent again later 0 l.after l.monitoring l.monitoring.calls l.tracked)

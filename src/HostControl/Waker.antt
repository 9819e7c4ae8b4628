-- ===== src/HostControl/Waker.antt =====
-- The wake-up socket of a termination request and the attachments of runs to it:
-- src/flnr/_host_control/waker.py, with `_cancel_tasks` of src/flnr/_async_utils.py as one call. The
-- calls of the operating system and of the event loop are a log; what each raises is a function of
-- the calls so far.
pub mod Status
pub mod Source
pub mod Attached
pub mod Life
mod Tests
use flnr.Base.{
  ℕ, suc, ◌≡◌, Bool, true, false, ◌||◌, Option, none, some, List, [], ◌∷◌, ◌++◌, if◌then◌else◌,
}

-- What is raised, by the class that the code asks for. BlockingIOError is an OSError; `another` is
-- an exception of no class that is caught by its name, KeyboardInterrupt for one.
pub data WakerError : Type 0 where
  blocking_io_error os_error not_implemented_error runtime_error : WakerError
  closed_wakeup_source_error another : WakerError

-- The calls, with the numbers of their sockets; `made` is a socket that the call before returned.
pub data OsCall : Type 0 where
  pair_call : OsCall
  made setblocking_call send_call dup_call close_call : ℕ → OsCall
  add_reader_call remove_reader_call create_task_call cancel_call select_call : ℕ → OsCall

pub record Host : Type 0 where
  -- the number of the next socket
  pub next : ℕ
  -- a byte is in the stream of the pair, for good: nothing takes one out
  pub signalled : Bool
  -- the writing end is closed, which makes the reading ends readable too
  pub hung_up : Bool
  pub calls : List OsCall

abbrev pub readable : Host → Bool
readable h = h.signalled || h.hung_up

pub record WakeupSource : Type 0 where
  pub reader : Option ℕ
  pub writer : Option ℕ

pub data Returned {ℓ} (V : Type ℓ) : Type ℓ where
  value : V → Returned V
  raised : WakerError → Returned V

abbrev pub Behaviour : Type 0
Behaviour = List OsCall → Option WakerError

-- The task of a polling attachment: before its select, in its sleep, or over.
pub data PollTask : Type 0 where
  polling sleeping poll_ended : PollTask

-- `_AsyncLoopReaderAttachment`, with its `_attachment`, or `_PollingWakeupAttachment`.
pub data Attachment : Type 0 where
  loop_reader : Option ℕ → Attachment
  poller : ℕ → PollTask → Attachment

-- `except (NotImplementedError, RuntimeError, OSError)`
abbrev pub is_fallback : WakerError → Bool
is_fallback not_implemented_error = true
is_fallback runtime_error = true
is_fallback os_error = true
is_fallback blocking_io_error = true
is_fallback closed_wakeup_source_error = false
is_fallback another = false

abbrev pub is_os_error : WakerError → Bool
is_os_error os_error = true
is_os_error blocking_io_error = true
is_os_error _ = false

-- A call is logged, whether it returns or raises.
abbrev pub log_call : OsCall → Host → Host
log_call c h = record h { calls = h.calls ++ c ∷ [] }

abbrev pub make_socket : Host → Host
make_socket h = log_call (made h.next) (record h { next = suc h.next })

module _ (raises : Behaviour) where
  -- A socket that is asked to close is closed, also if the call raises.
  unfoldable pub close_socket : ℕ → Host → Host × Option WakerError
  close_socket i h = let h' = log_call (close_call i) h in (h', raises h'.calls)

  -- the `except` of `_SocketWakeupSource.__init__`, once there are two sockets
  unfoldable pub give_up : ℕ → ℕ → WakerError → Host → Host × Returned WakeupSource
  unfolding close_socket
  give_up r w e h =
      let (h₁, failed₁) = close_socket r h in
      elim failed₁ [
        | some e₁ ↦ (h₁, raised e₁)
        | none ↦
            let (h₂, failed₂) = close_socket w h₁ in
            elim failed₂ [ some e₂ ↦ (h₂, raised e₂) | none ↦ (h₂, raised e) ]
      ]

  -- `_SocketWakeupSource.__init__`
  unfoldable pub new_source : Host → Host × Returned WakeupSource
  unfolding give_up
  new_source h =
      let r = h.next in
      let w = suc h.next in
      let h₁ = log_call pair_call h in
      elim (raises h₁.calls) [
        | some e ↦ (h₁, raised e)
        | none ↦
            let h₂ = log_call (setblocking_call w) (make_socket (make_socket h₁)) in
            elim (raises h₂.calls) [
              | some e ↦ give_up r w e h₂
              | none ↦ (h₂, value (record { reader = some r; writer = some w }))
            ]
      ]

  unfoldable pub trigger : WakeupSource → Host → Host × Option WakerError
  trigger s h = elim s.writer [
    | none ↦ (h, none)
    | some w ↦
        let h₁ = log_call (send_call w) h in
        elim (raises h₁.calls) [
          | none ↦ (record h₁ { signalled = true }, none)
          | some e ↦ (h₁, if is_os_error e then none else some e)
        ]
  ]

  unfoldable pub dup_reader : WakeupSource → Host → Host × Returned ℕ
  dup_reader s h = elim s.reader [
    | none ↦ (h, raised closed_wakeup_source_error)
    | some r ↦
        let h₁ = log_call (dup_call r) h in
        elim (raises h₁.calls) [ some e ↦ (h₁, raised e) | none ↦ (make_socket h₁, value h₁.next) ]
  ]

  -- of the two exceptions, that of the `finally` leaves
  abbrev pub last_raised : Option WakerError → Option WakerError → Option WakerError
  last_raised first none = first
  last_raised first (some e) = some e

  -- `_SocketWakeupSource.close`
  unfoldable pub close_source : WakeupSource → Host → WakeupSource × Host × Option WakerError
  unfolding close_socket
  close_source s h = elim s.reader [
    | none ↦ (s, h, some closed_wakeup_source_error)
    | some r ↦ elim s.writer [
      | none ↦ (s, h, some closed_wakeup_source_error)
      | some w ↦
          let (h₁, first) = close_socket r h in
          let (h₂, second) = close_socket w h₁ in
          (
            record { reader = none; writer = none },
            record h₂ { hung_up = true },
            last_raised first second,
          )
    ]
  ]

  -- `_AsyncLoopReaderAttachment._detach`
  unfoldable pub detach : Option ℕ → Host → Host × Option WakerError
  unfolding close_socket
  detach none h = (h, none)
  detach (some r) h =
      let h₁ = log_call (remove_reader_call r) h in
      let (h₂, second) = close_socket r h₁ in (h₂, last_raised (raises h₁.calls) second)

  -- `_PollingWakeupAttachment.deactivate`
  unfoldable pub stop_polling : ℕ → Host → Host × Option WakerError
  unfolding close_socket
  stop_polling r h =
      let h₁ = log_call (cancel_call r) h in
      let (h₂, second) = close_socket r h₁ in (h₂, last_raised (raises h₁.calls) second)

  unfoldable pub deactivate : Attachment → Host → Attachment × Host × Option WakerError
  unfolding detach stop_polling
  deactivate (loop_reader a) h = let (h', e) = detach a h in (loop_reader none, h', e)
  deactivate (poller r t) h = let (h', e) = stop_polling r h in (poller r poll_ended, h', e)

  -- `select` raised, or returned whether the socket is readable
  abbrev pub after_select : Option WakerError → Bool → PollTask × Bool
  after_select (some e) ready = (poll_ended, false)
  after_select none ready = if ready then (poll_ended, true) else (sleeping, false)

  -- A round of `_poll`: what is left of the task, and whether the event is set.
  unfoldable pub poll : ℕ → Host → PollTask × Bool × Host
  poll r h =
      let h₁ = log_call (select_call r) h in
      let (t, is_set) = after_select (raises h₁.calls) (readable h) in (t, is_set, h₁)

  -- the second half of `_attach_socket_waker`
  unfoldable pub attach_poller : ℕ → Host → Host × Returned Attachment
  unfolding close_socket
  attach_poller r h =
      let h₁ = log_call (create_task_call r) h in
      elim (raises h₁.calls) [
        | none ↦ (h₁, value (poller r polling))
        | some e ↦
            let (h₂, failed₂) = close_socket r h₁ in
            elim failed₂ [ some e₂ ↦ (h₂, raised e₂) | none ↦ (h₂, raised e) ]
      ]

  unfoldable pub attach_reader : ℕ → Host → Host × Returned Attachment
  unfolding attach_poller
  attach_reader r h =
      let h₁ = log_call (add_reader_call r) h in
      elim (raises h₁.calls) [
        | none ↦ (h₁, value (loop_reader (some r)))
        | some e ↦ if is_fallback e then attach_poller r h₁ else (h₁, raised e)
      ]

  -- `_attach_socket_waker`
  unfoldable pub attach_socket_waker : WakeupSource → Host → Host × Returned Attachment
  unfolding dup_reader attach_reader
  attach_socket_waker s h =
      let (h₁, duplicate) = dup_reader s h in
      elim duplicate [ raised e ↦ (h₁, raised e) | value r ↦ attach_reader r h₁ ]

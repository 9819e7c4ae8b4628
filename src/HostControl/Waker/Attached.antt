-- ===== src/HostControl/Waker/Attached.antt =====
-- What `_attach_socket_waker` of src/flnr/_host_control/waker.py leaves of the socket that it
-- duplicated, for an attachment or for an exception.
use flnr.Base.{
  ℕ, suc, ◌<◌, ◌≤◌, ◌≡◌, ◌⊎◌, inl, inr, refl, sym, ◌∙◌, subst, true, false, none, some, ◌==◌, arith,
  Option-cases, Bool-cases,
}
use flnr.HostControl.Waker.{
  WakerError, made, dup_call, close_call, add_reader_call, create_task_call, Host, log_call,
  make_socket, WakeupSource, Returned, value, raised, Behaviour, polling, Attachment, loop_reader,
  poller, is_fallback, close_socket, attach_poller, attach_reader, attach_socket_waker, dup_reader,
}
use flnr.HostControl.Waker.Status.{
  unmade, opened, closed, status, status-named, status-others, AllUnmade, Within, Within-log,
  Within-trans, AllUnmade-Within, AllUnmade-make, AllUnmade-log, made_opened,
}

-- The attachment has the socket, which is open; an exception has left none open, unless it came
-- from `add_reader` and is of no class that the code expects there.
abbrev pub HasSocket : ℕ → Host → Returned Attachment → Type 0
HasSocket d h (value (loop_reader none)) = ⊥
HasSocket d h (value (loop_reader (some i))) = (i ≡ d) × (status d h.calls ≡ opened)
HasSocket d h (value (poller i t)) = (i ≡ d) × (t ≡ polling) × (status d h.calls ≡ opened)
HasSocket d h (raised e) =
    (status d h.calls ≡ closed) ⊎ (status d h.calls ≡ unmade) ⊎ (is_fallback e ≡ false)

abbrev Attaches : ℕ → Host → Host × Returned Attachment → Type 0
Attaches d h (h', r) = Within d h h' × HasSocket d h' r

module _ (raises : Behaviour) (d : ℕ) (h : Host) (o : status d h.calls ≡ opened) where
  attach_poller-Attaches : Attaches d h (attach_poller raises d h)
  unfolding attach_poller close_socket
  attach_poller-Attaches = elim (Option-cases (raises (log_call (create_task_call d) h).calls)) [
    | inl k ↦ subst (Attaches d h) (sym (returns k)) (first, (refl, refl, o₁))
    | inr (e, k) ↦ let (e', q) = gives_up e k in subst (Attaches d h) (sym q) (both, inl c)
  ]
    where
      h₁ : Host
      h₁ = log_call (create_task_call d) h

      h₂ : Host
      h₂ = log_call (close_call d) h₁

      first : Within d h h₁
      first = Within-log d (create_task_call d) h refl

      both : Within d h h₂
      both = Within-trans d first (Within-log d (close_call d) h₁ refl)

      o₁ : status d h₁.calls ≡ opened
      o₁ = status-named d h.calls (create_task_call d) opened refl o

      c : status d h₂.calls ≡ closed
      c = status-named d h₁.calls (close_call d) opened refl o₁

      returns : raises h₁.calls ≡ none → attach_poller raises d h ≡ (h₁, value (poller d polling))
      returns k = ground arith

      gives_up :
          (e : WakerError)
          → raises h₁.calls ≡ some e
          → (e' : WakerError) × (attach_poller raises d h ≡ (h₂, raised e'))
      gives_up e k = elim (Option-cases (raises h₂.calls)) [
        | inl l ↦ (e, ground arith)
        | inr (e₂, l) ↦ (e₂, ground arith)
      ]

module _ (raises : Behaviour) where
  attach_reader-Attaches :
      (d : ℕ) (h : Host) → status d h.calls ≡ opened → Attaches d h (attach_reader raises d h)
  unfolding attach_reader
  attach_reader-Attaches d h o = elim (Option-cases (raises h₁.calls)) [
    | inl k ↦ subst (Attaches d h) (sym (returns k)) (first, (refl, o₁))
    | inr (e, k) ↦ elim (Bool-cases (is_fallback e)) [
      | inr l ↦ subst (Attaches d h) (sym (leaves e k l)) (first, inr (inr l))
      | inl l ↦
          let (w, s) = attach_poller-Attaches raises d h₁ o₁ in
          subst (Attaches d h) (sym (falls_back e k l)) (Within-trans d first w, s)
    ]
  ]
    where
      h₁ : Host
      h₁ = log_call (add_reader_call d) h

      first : Within d h h₁
      first = Within-log d (add_reader_call d) h refl

      o₁ : status d h₁.calls ≡ opened
      o₁ = status-named d h.calls (add_reader_call d) opened refl o

      returns :
          raises h₁.calls ≡ none → attach_reader raises d h ≡ (h₁, value (loop_reader (some d)))
      returns k = ground arith

      leaves :
          (e : WakerError)
          → raises h₁.calls ≡ some e
          → is_fallback e ≡ false
          → attach_reader raises d h ≡ (h₁, raised e)
      leaves e k l = ground arith

      falls_back :
          (e : WakerError)
          → raises h₁.calls ≡ some e
          → is_fallback e ≡ true
          → attach_reader raises d h ≡ attach_poller raises d h₁
      falls_back e k l = ground arith

  -- After the reading end `r` of the source was asked for a duplicate.
  abbrev duplicated : ℕ → Host → Host
  duplicated r h = make_socket (log_call (dup_call r) h)

  -- What is left of a source's attachment: the source's sockets are as they were, no socket is
  -- left open but that of the attachment.
  pub record AttachedTo (r : ℕ) (h : Host) (h' : Host) (a : Returned Attachment) : Type 0 where
    pub kept : (i : ℕ) → i < h.next → (i == r) ≡ false → status i h'.calls ≡ status i h.calls
    pub source_open : status r h'.calls ≡ opened
    pub all_unmade : AllUnmade h'
    pub grew : h.next ≤ h'.next
    pub one_more : h'.next ≤ suc h.next
    pub same_signal : h'.signalled ≡ h.signalled
    pub same_end : h'.hung_up ≡ h.hung_up
    pub socket : HasSocket h.next h' a

  pub attach_open :
      (s : WakeupSource) (r : ℕ) (h : Host)
      → s.reader ≡ some r
      → status r h.calls ≡ opened
      → r < h.next
      → AllUnmade h
      → let (h', a) = attach_socket_waker raises s h in AttachedTo r h h' a
  unfolding attach_socket_waker dup_reader
  attach_open s r h e o lt u = elim (Option-cases (raises h₁.calls)) [
    | inr (exc, k) ↦
        subst (λ (h', a). AttachedTo r h h' a) (sym (refused exc k))
          (record {
            kept = λ i l n. status-others i h.calls (dup_call r) n;
            source_open = o₁;
            all_unmade = u₁;
            grew = omega arith;
            one_more = omega arith;
            same_signal = refl;
            same_end = refl;
            socket = inr (inl (u₁ h.next (omega arith)));
          })
    | inl k ↦
        let (w, made_socket) = attach_reader-Attaches h.next h₂ (made_opened h₁ u₁) in
        subst (λ (h', a). AttachedTo r h h' a) (sym (goes_on k))
          (record {
            kept = λ i l n.
                w.others i (ground arith) ∙ earlier i l ∙ status-others i h.calls (dup_call r) n;
            source_open = w.others r (ground arith) ∙ earlier r lt ∙ o₁;
            all_unmade = AllUnmade-Within h.next h₂ _ (AllUnmade-make h₁ u₁) (omega arith) w;
            grew = subst (λ n. h.next ≤ n) (sym w.same_next) (omega arith);
            one_more = subst (λ n. n ≤ suc h.next) (sym w.same_next) (omega arith);
            same_signal = w.same_signal;
            same_end = w.same_end;
            socket = made_socket;
          })
  ]
    where
      h₁ : Host
      h₁ = log_call (dup_call r) h

      h₂ : Host
      h₂ = make_socket h₁

      o₁ : status r h₁.calls ≡ opened
      o₁ = status-named r h.calls (dup_call r) opened refl o

      u₁ : AllUnmade h₁
      u₁ = AllUnmade-log h u r (dup_call r) refl lt

      earlier : (i : ℕ) → i < h.next → status i h₂.calls ≡ status i h₁.calls
      earlier i l = status-others i h₁.calls (made h.next) (ground arith)

      refused :
          (exc : WakerError)
          → raises h₁.calls ≡ some exc
          → attach_socket_waker raises s h ≡ (h₁, raised exc)
      refused exc k = ground arith

      goes_on :
          raises h₁.calls ≡ none → attach_socket_waker raises s h ≡ attach_reader raises h.next h₂
      goes_on k = ground arith

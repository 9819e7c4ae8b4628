-- ===== src/HostControl/Waker/Source.antt =====
-- What becomes of the two sockets of a wake-up source (`_SocketWakeupSource` of
-- src/flnr/_host_control/waker.py).
use flnr.Base.{
  ℕ, suc, ◌≤◌, ◌<◌, ◌≡◌, ◌≢◌, ◌⊎◌, inl, inr, refl, sym, ap, ◌∙◌, subst, none, some, List, [], ◌∷◌,
  ◌++◌, arith, Option-cases,
}
use flnr.HostControl.Waker.{
  WakerError, OsCall, pair_call, made, setblocking_call, send_call, close_call, Host, log_call,
  make_socket, WakeupSource, Returned, value, raised, Behaviour, close_socket, give_up, new_source,
  trigger, dup_reader, close_source, attach_socket_waker,
}
use flnr.HostControl.Waker.Attached.{attach_open}
use flnr.HostControl.Waker.Status.{
  unmade, opened, closed, status, status-named, status-others, AllUnmade, is_closed, is_unmade,
  made_opened, AllUnmade-make, AllUnmade-pair, AllUnmade-log,
}

abbrev pub both : ℕ → ℕ → WakeupSource
both r w = record { reader = some r; writer = some w }

abbrev pub neither : WakeupSource
neither = record { reader = none; writer = none }

-- The source has both its sockets, which are open; or it was closed, and both are.
abbrev pub AreKept : ℕ → ℕ → WakeupSource → Host → Type 0
AreKept r w s h =
    ((s ≡ both r w) × (status r h.calls ≡ opened) × (status w h.calls ≡ opened))
    ⊎ ((s ≡ neither) × (status r h.calls ≡ closed) × (status w h.calls ≡ closed))

pub record Holds (r w : ℕ) (s : WakeupSource) (h : Host) : Type 0 where
  pub reader_made : r < h.next
  pub writer_made : w < h.next
  pub distinct : r ≢ w
  pub all_unmade : AllUnmade h
  pub kept : AreKept r w s h

module _ (raises : Behaviour) where
  -- What a new source is, or what is left of its sockets: the reading end is never left open, the
  -- writing end only where the close of the reading end raised.
  abbrev pub IsMade : Host → Host × Returned WakeupSource → Type 0
  IsMade h (h', value s) = Holds h.next (suc h.next) s h' × (s ≡ both h.next (suc h.next))
  IsMade h (h', raised e) =
      (status h.next h'.calls ≢ opened)
      × ((status (suc h.next) h'.calls ≢ opened)
          ⊎ ((log : List OsCall) × (is_closing : raises (log ++ close_call h.next ∷ []) ≡ some e)
              × Unit {0}))

  -- After a pair was made and a call named the writing end.
  abbrev with_pair : Host → Host
  with_pair h =
      log_call (setblocking_call (suc h.next)) (make_socket (make_socket (log_call pair_call h)))

  with_pair-opened :
      (h : Host)
      → AllUnmade h
      → (status h.next (with_pair h).calls ≡ opened)
        × (status (suc h.next) (with_pair h).calls ≡ opened)
        × AllUnmade (with_pair h)
  with_pair-opened h u =
      let h₁ = log_call pair_call h in
      let u₁ = AllUnmade-pair h u in
      let h₂ = make_socket h₁ in
      let u₂ = AllUnmade-make h₁ u₁ in
      let h₃ = make_socket h₂ in
      let u₃ = AllUnmade-make h₂ u₂ in
      let w = suc h.next in
      (
        status-others h.next h₃.calls (setblocking_call w) (ground arith)
            ∙ status-others h.next h₂.calls (made w) (ground arith)
            ∙ made_opened h₁ u₁,
        status-named w h₃.calls (setblocking_call w) opened refl (made_opened h₂ u₂),
        AllUnmade-log h₃ u₃ w (setblocking_call w) refl (omega arith),
      )

  give_up_whole :
      (r w : ℕ) (e : WakerError) (h : Host)
      → raises (log_call (close_call r) h).calls ≡ none
      → (e' : WakerError) × (give_up raises r w e h
          ≡ (log_call (close_call w) (log_call (close_call r) h), raised e'))
  unfolding give_up close_socket
  give_up_whole r w e h k =
      elim (Option-cases (raises (log_call (close_call w) (log_call (close_call r) h)).calls)) [
        | inl l ↦ (e, ground arith)
        | inr (e₂, l) ↦ (e₂, ground arith)
      ]

  give_up_half :
      (r w : ℕ) (e e₁ : WakerError) (h : Host)
      → raises (log_call (close_call r) h).calls ≡ some e₁
      → give_up raises r w e h ≡ (log_call (close_call r) h, raised e₁)
  unfolding give_up close_socket
  give_up_half r w e e₁ h k = ground arith

  give_up-IsMade :
      (h h₃ : Host) (e : WakerError)
      → status h.next h₃.calls ≡ opened
      → status (suc h.next) h₃.calls ≡ opened
      → IsMade h (give_up raises h.next (suc h.next) e h₃)
  give_up-IsMade h h₃ e a b =
      let r = h.next in
      let w = suc h.next in
      let h₄ = log_call (close_call r) h₃ in
      let r_closed = status-named r h₃.calls (close_call r) opened refl a in
      let w_open = status-others w h₃.calls (close_call r) (ground arith) ∙ b in
      let w_closed = status-named w h₄.calls (close_call w) opened refl w_open in
      let r_still = status-others r h₄.calls (close_call w) (ground arith) ∙ r_closed in
      elim (Option-cases (raises h₄.calls)) [
        | inr (e₁, k) ↦
            subst (IsMade h) (sym (give_up_half r w e e₁ h₃ k))
              (is_closed r_closed, inr (h₃.calls, k, tt))
        | inl k ↦
            let (e', q) = give_up_whole r w e h₃ k in
            subst (IsMade h) (sym q) (is_closed r_still, inl (is_closed w_closed))
      ]

  pub new_source-IsMade : (h : Host) → AllUnmade h → IsMade h (new_source raises h)
  unfolding new_source
  new_source-IsMade h u =
      let h₁ = log_call pair_call h in
      let (a, b, u₃) = with_pair-opened h u in
      elim (Option-cases (raises h₁.calls)) [
        | inl k ↦ elim (Option-cases (raises (with_pair h).calls)) [
          | inl l ↦
              rw (k, l, new_source)
                (
                  record {
                    reader_made = omega arith;
                    writer_made = omega arith;
                    distinct = λ q. absurd (no_loop q);
                    all_unmade = u₃;
                    kept = inl (refl, a, b);
                  },
                  refl,
                )
          | inr (e, l) ↦ rw (k, l, new_source) (give_up-IsMade h (with_pair h) e a b)
        ]
        | inr (e, k) ↦
            rw (k, new_source)
              (
                unmade_pair h.next (u h.next (omega arith)),
                inl (unmade_pair (suc h.next) (u (suc h.next) (omega arith))),
              )
      ]
    where
      no_loop : {n : ℕ} → n ≢ suc n
      no_loop q = omega arith

      unmade_pair :
          (i : ℕ) → status i h.calls ≡ unmade → status i (log_call pair_call h).calls ≢ opened
      unmade_pair i k = is_unmade (status-others i h.calls pair_call refl ∙ k)

  module _ (r w : ℕ) where
    -- Only the calls and the next number matter.
    Holds-same :
        (s : WakeupSource) (h h' : Host)
        → h'.calls ≡ h.calls
        → h'.next ≡ h.next
        → Holds r w s h
        → Holds r w s h'
    Holds-same s h h' e n k = record {
      reader_made = subst (λ m. r < m) (sym n) k.reader_made;
      writer_made = subst (λ m. w < m) (sym n) k.writer_made;
      distinct = k.distinct;
      all_unmade = λ i le.
          subst (λ log. status i log ≡ unmade) (sym e) (k.all_unmade i (subst (λ m. m ≤ i) n le));
      kept = subst (λ log. AreKept r w s (record h { calls = log })) (sym e) k.kept;
    }

    triggered :
        (h : Host) → Holds r w (both r w) h → Holds r w (both r w) (log_call (send_call w) h)
    triggered h k = elim k.kept [
      | inl (e, a, b) ↦ record {
        reader_made = k.reader_made;
        writer_made = k.writer_made;
        distinct = k.distinct;
        all_unmade = AllUnmade-log h k.all_unmade w (send_call w) refl k.writer_made;
        kept = inl (
          refl,
          status-others r h.calls (send_call w) (ground (arith, k.distinct)) ∙ a,
          status-named w h.calls (send_call w) opened refl b,
        );
      }
      | inr (e, a, b) ↦ cc
    ]

    trigger_open :
        (h : Host)
        → ((trigger raises (both r w) h).0.calls ≡ (log_call (send_call w) h).calls)
          × ((trigger raises (both r w) h).0.next ≡ h.next)
    unfolding trigger
    trigger_open h = ground arith

    -- `trigger` and the other methods keep what is known of the two sockets.
    pub trigger-Holds :
        (s : WakeupSource) (h : Host) → Holds r w s h → Holds r w s (trigger raises s h).0
    unfolding trigger
    trigger-Holds s h k = elim k.kept [
      | inl (e, a, b) ↦
          let k' = subst (λ s. Holds r w s h) e k in
          let (c, n) = trigger_open h in
          subst (λ s. Holds r w s (trigger raises s h).0) (sym e)
            (Holds-same (both r w) (log_call (send_call w) h) (trigger raises (both r w) h).0 c n
              (triggered h k'))
      | inr (e, a, b) ↦
          subst (λ s. Holds r w s (trigger raises s h).0) (sym e) (subst (λ s. Holds r w s h) e k)
    ]

    pub close_source-Holds :
        (s : WakeupSource) (h : Host)
        → Holds r w s h
        → let (s', h', e) = close_source raises s h in Holds r w s' h' × (s' ≡ neither)
    unfolding close_source close_socket
    close_source-Holds s h k = elim k.kept [
      | inl (e, a, b) ↦
          subst (λ s. let (s', h', e) = close_source raises s h in Holds r w s' h' × (s' ≡ neither))
            (sym e)
            (
              record {
                reader_made = k.reader_made;
                writer_made = k.writer_made;
                distinct = k.distinct;
                all_unmade = AllUnmade-log h₁ u₁ w (close_call w) refl k.writer_made;
                kept = inr (
                  refl,
                  status-others r h₁.calls (close_call w) (ground (arith, k.distinct))
                      ∙ status-named r h.calls (close_call r) opened refl a,
                  status-named w h₁.calls (close_call w) opened refl
                      (status-others w h.calls (close_call r) (ground (arith, k.distinct)) ∙ b),
                );
              },
              refl,
            )
      | inr (e, a, b) ↦
          subst (λ s. let (s', h', e) = close_source raises s h in Holds r w s' h' × (s' ≡ neither))
            (sym e) (subst (λ s. Holds r w s h) e k, refl)
    ]
      where
        h₁ : Host
        h₁ = log_call (close_call r) h

        u₁ : AllUnmade h₁
        u₁ = AllUnmade-log h k.all_unmade r (close_call r) refl k.reader_made

    pub attach-Holds :
        (s : WakeupSource) (h : Host)
        → Holds r w s h
        → Holds r w s (attach_socket_waker raises s h).0
    unfolding attach_socket_waker dup_reader
    attach-Holds s h k = elim k.kept [
      | inl (e, a, b) ↦
          let t = attach_open raises s r h (ap (λ s. s.reader) e) a k.reader_made k.all_unmade in
          record {
            reader_made = omega (arith, k.reader_made, t.grew);
            writer_made = omega (arith, k.writer_made, t.grew);
            distinct = k.distinct;
            all_unmade = t.all_unmade;
            kept = inl (e, t.source_open, t.kept w k.writer_made (ground (arith, k.distinct)) ∙ b);
          }
      | inr (e, a, b) ↦
          subst (λ s. Holds r w s (attach_socket_waker raises s h).0) (sym e)
            (subst (λ s. Holds r w s h) e k)
    ]

-- ===== src/Sink/Failures.antt =====
-- The list of failures that the handles of all streams share (src/flnr/_monitor_handles.py): a sink
-- only ever appends to it.
use flnr.Base.{
  ◌≡◌, refl, sym, ◌∙◌, ap, Option, none, some, Bool, true, false, List, [], ◌∷◌, ◌++◌, append-nil,
  append_assoc, if◌then◌else◌,
}
use flnr.Outcome.{Result, ok, err, assertion_error, ◌>>=◌, chain_returned, ok_inj}
use flnr.Floats.{PyFloat}
use flnr.Monitors.{DisableReason, error, process, on_disable, MonitorFailure, PyException}
use flnr.Sink.{
  Bytes, process_call, disable_call, Handle, Monitoring, Behaviour, log_call, record_failure,
  disable, process_failed, handle_process, handle_on_disable, for_each, deliver, on_data,
  disable_one, disable_all,
}

abbrev pub Grew : Monitoring → Monitoring → Type 0
Grew m m' = (new : List MonitorFailure) × (m'.monitor_failures ≡ m.monitor_failures ++ new)

pub Grew-refl : (m : Monitoring) → Grew m m
Grew-refl m = ([], sym (append-nil m.monitor_failures))

pub Grew-trans : (a b c : Monitoring) → Grew a b → Grew b c → Grew a c
Grew-trans a b c (new, e) (more, k) =
    (new ++ more, k ∙ ap (λ l. l ++ more) e ∙ append_assoc a.monitor_failures new more)

-- A round that returns has appended to the list.
abbrev Appends : (Handle → Monitoring → Result (Handle × Monitoring)) → Type 0
Appends f =
    (h : Handle) (m : Monitoring) (h' : Handle) (m' : Monitoring) → f h m ≡ ok (h', m') → Grew m m'

for_each-Grew :
    (f : Handle → Monitoring → Result (Handle × Monitoring))
    → Appends f
    → (hs : List Handle) (m : Monitoring) (hs' : List Handle) (m' : Monitoring)
    → for_each f hs m ≡ ok (hs', m')
    → Grew m m'
unfolding for_each
for_each-Grew f k [] m hs' m' e =
    ([], ap (λ (a, b). b.monitor_failures) (sym (ok_inj e)) ∙ sym (append-nil m.monitor_failures))
for_each-Grew f k (h ∷ hs) m hs' m' e =
    let ((h₁, m₁), first, e₁) = chain_returned (f h m) e in
    let ((hs₂, m₂), others, e₂) = chain_returned (for_each f hs m₁) e₁ in
    let (new, same) =
      Grew-trans m m₁ m₂ (k h m h₁ m₁ first) (for_each-Grew f k hs m₁ hs₂ m₂ others) in
    (new, ap (λ (a, b). b.monitor_failures) (sym (ok_inj e₂)) ∙ same)

module _ (raises : Behaviour) (ts : PyFloat) where
  disable-Grew :
      (reason : DisableReason) (h : Handle) (m : Monitoring)
      → Grew m (disable raises h reason ts m).1
  unfolding disable record_failure log_call
  disable-Grew reason h m =
      by_outcome (raises (m.calls ++ disable_call h.monitor_index reason ts ∷ []))
    where
      by_outcome :
          (o : Option PyException)
          → Grew m
              (elim o as (λ x. Handle × Monitoring) [
                | none ↦ (
                  record h { is_active = false },
                  log_call (disable_call h.monitor_index reason ts) m,
                )
                | some exc ↦
                    record_failure
                      (record h { is_active = false })
                      on_disable
                      exc
                      (log_call (disable_call h.monitor_index reason ts) m)
              ]).1
      by_outcome none = Grew-refl m
      by_outcome (some exc) = (_, refl)

  process_failed-Grew :
      (h : Handle) (exc : PyException) (m : Monitoring)
      → Grew m (process_failed raises h ts exc m).1
  unfolding process_failed record_failure
  process_failed-Grew h exc m =
      let (h', m') = record_failure h process exc m in
      Grew-trans m m' (disable raises h' error ts m').1 (_, refl) (disable-Grew error h' m')

  handle_process-Grew : (chunk : Bytes) → Appends (λ h m. handle_process raises h chunk ts m)
  unfolding handle_process log_call
  handle_process-Grew chunk h m h' m' e = by_test h.is_active e
    where
      by_outcome :
          (o : Option PyException)
          → (elim o as (λ x. Result (Handle × Monitoring)) [
            | none ↦ ok (h, log_call (process_call h.monitor_index chunk ts) m)
            | some exc ↦ ok (
                process_failed raises h ts exc (log_call (process_call h.monitor_index chunk ts) m))
          ])
            ≡ ok (h', m')
          → Grew m m'
      by_outcome none k = (
        [],
        ap (λ (a, b). b.monitor_failures) (sym (ok_inj k)) ∙ sym (append-nil m.monitor_failures),
      )
      by_outcome (some exc) k =
          let logged = log_call (process_call h.monitor_index chunk ts) m in
          let (new, same) = process_failed-Grew h exc logged in
          (new, ap (λ (a, b). b.monitor_failures) (sym (ok_inj k)) ∙ same)

      by_test :
          (b : Bool)
          → (if b
              then (elim (raises (m.calls ++ process_call h.monitor_index chunk ts ∷ []))
                  as (λ x. Result (Handle × Monitoring)) [
                    | none ↦ ok (h, log_call (process_call h.monitor_index chunk ts) m)
                    | some exc ↦ ok (
                        process_failed raises h ts exc
                          (log_call (process_call h.monitor_index chunk ts) m))
                  ])
              else err assertion_error)
            ≡ ok (h', m')
          → Grew m m'
      by_test true k = by_outcome (raises (m.calls ++ process_call h.monitor_index chunk ts ∷ [])) k
      by_test false k = cc

  unchanged :
      (h : Handle) (m : Monitoring) (h' : Handle) (m' : Monitoring)
      → ◌≡◌ {A = Result (Handle × Monitoring)} (ok (h, m)) (ok (h', m'))
      → Grew m m'
  unchanged h m h' m' e =
      ([], ap (λ (a, b). b.monitor_failures) (sym (ok_inj e)) ∙ sym (append-nil m.monitor_failures))

  deliver-Appends : (chunk : Bytes) → Appends (deliver raises chunk ts)
  unfolding deliver
  deliver-Appends chunk h m h' m' e = by_test h.is_active e
    where
      by_test :
          (b : Bool)
          → (if b then handle_process raises h chunk ts m else ok (h, m)) ≡ ok (h', m')
          → Grew m m'
      by_test true k = handle_process-Grew chunk h m h' m' k
      by_test false k = unchanged h m h' m' k

  handle_on_disable-Grew :
      (reason : DisableReason) (h : Handle) (m : Monitoring) (h' : Handle) (m' : Monitoring)
      → handle_on_disable raises h reason ts m ≡ ok (h', m')
      → Grew m m'
  unfolding handle_on_disable
  handle_on_disable-Grew reason h m h' m' e = by_test h.is_active e
    where
      by_test :
          (b : Bool)
          → (if b then ok (disable raises h reason ts m) else err assertion_error) ≡ ok (h', m')
          → Grew m m'
      by_test true k =
          let (new, same) = disable-Grew reason h m in
          (new, ap (λ (a, b). b.monitor_failures) (sym (ok_inj k)) ∙ same)
      by_test false k = cc

  -- the assertion of the sink
  asserted :
      (b : Bool) (m : Monitoring) (h₁ : Handle) (m₁ : Monitoring) (h' : Handle) (m' : Monitoring)
      → ◌≡◌ {A = Result (Handle × Monitoring)}
          (if b then err assertion_error else ok (h₁, m₁))
          (ok (h', m'))
      → Grew m m₁
      → Grew m m'
  asserted true m h₁ m₁ h' m' e g = cc
  asserted false m h₁ m₁ h' m' e (new, same) =
      (new, ap (λ (a, b). b.monitor_failures) (sym (ok_inj e)) ∙ same)

  disable_one-Appends : (reason : DisableReason) → Appends (disable_one raises reason ts)
  unfolding disable_one
  disable_one-Appends reason h m h' m' e = by_test h.is_active e
    where
      by_test :
          (b : Bool)
          → (if b
              then ◌>>=◌ {W = Handle × Monitoring}
                  (handle_on_disable raises h reason ts m)
                  (λ (h₁, m₁). if h₁.is_active then err assertion_error else ok (h₁, m₁))
              else ok (h, m))
            ≡ ok (h', m')
          → Grew m m'
      by_test true k =
          let ((h₁, m₁), called, k₁) = chain_returned (handle_on_disable raises h reason ts m) k in
          asserted h₁.is_active m h₁ m₁ h' m' k₁ (handle_on_disable-Grew reason h m h₁ m₁ called)
      by_test false k = unchanged h m h' m' k

  pub on_data-Grew :
      (chunk : Bytes) (hs : List Handle) (m : Monitoring) (hs' : List Handle) (m' : Monitoring)
      → on_data raises hs chunk ts m ≡ ok (hs', m')
      → Grew m m'
  unfolding on_data
  on_data-Grew chunk hs m hs' m' e =
      for_each-Grew (deliver raises chunk ts) (deliver-Appends chunk) hs m hs' m' e

  pub disable_all-Grew :
      (reason : DisableReason) (hs : List Handle) (m : Monitoring) (hs' : List Handle)
      (m' : Monitoring)
      → disable_all raises hs reason ts m ≡ ok (hs', m')
      → Grew m m'
  unfolding disable_all
  disable_all-Grew reason hs m hs' m' e =
      for_each-Grew (disable_one raises reason ts) (disable_one-Appends reason) hs m hs' m' e

-- ===== src/Sessiond/Waits.antt =====
-- The states that reaping and the escalation of a shutdown can leave: elimination rules.
use nndsk_ro_launcher.Base.{
  Bool, true, false, ◌&&◌, List, [], ◌∷◌, inl, inr, ◌≡◌, ◌⊎◌, arith, if◌then◌else◌, Bool-cases,
  is_some,
}
use nndsk_ro_launcher.Sessiond.Supervisor.{
  SessionPhase, ready, stopping, stopped, Supervisor, Reaped, WaitEnd, none_exited, no_child, reap,
  drain_reap_events, AdvanceReply, finish_shutdown, send_term, send_kill, escalate,
  advance_shutdown,
}

-- What has to be shown of each small step.
pub record WaitCases {ℓ} (P : Supervisor → Type ℓ) : Type ℓ where
  pub reaped : (s : Supervisor) (r : Reaped) → P s → P (reap s r).0
  pub waited : (s : Supervisor) (b : Bool) → P s → P (record s { last_wait_echild = b })

pub record AdvanceCases {ℓ} (P : Supervisor → Type ℓ) : Type ℓ where
  pub waits : WaitCases P
  pub open waits use *
  pub finished : (s : Supervisor) → P s → P (finish_shutdown s).0
  pub termed : (reply : AdvanceReply) (s : Supervisor) → P s → P (send_term reply s).0
  pub killed : (reply : AdvanceReply) (s : Supervisor) → P s → P (send_kill reply s).0

pub Phase-cases : (p : SessionPhase) → (p ≡ stopped) ⊎ ((p ≡ ready) ⊎ (p ≡ stopping))
Phase-cases p = ground arith

pub drain_ind {ℓ} :
    (P : Supervisor → Type ℓ)
    → WaitCases P
    → (s : Supervisor) (rs : List Reaped) (end : WaitEnd) → P s
    → P (drain_reap_events s rs end).0
unfolding drain_reap_events
drain_ind P cases s [] none_exited h = cases.waited s false h
drain_ind P cases s [] no_child h = cases.waited s true h
drain_ind P cases s (r ∷ rs) end h = drain_ind P cases (reap s r).0 rs end (cases.reaped s r h)

module _ {ℓ} (P : Supervisor → Type ℓ) (cases : AdvanceCases P) (reply : AdvanceReply) where
  escalate_ind : (s : Supervisor) → P s → P (escalate reply s).0
  unfolding escalate
  escalate_ind s h =
      let a = (send_term reply s).0 in
      let b = (send_kill reply a).0 in
      let c = (drain_reap_events b reply.second reply.second_end).0 in
      let held : P c =
        drain_ind P cases.waits b reply.second reply.second_end
          (cases.killed reply a (cases.termed reply s h)) in
      elim (Bool-cases (is_some c.term_sent_at && c.last_wait_echild)) [
        | inl e ↦ rw (e, if◌then◌else◌) (cases.finished c held)
        | inr e ↦ rw (e, if◌then◌else◌) held
      ]

  pub advance_ind : (s : Supervisor) → P s → P (advance_shutdown reply s).0
  unfolding advance_shutdown
  advance_ind s h = elim (Phase-cases s.phase) [
    | inl e ↦ rw (e, advance_shutdown) h
    | inr k ↦ elim k [
      | inl e ↦ rw (e, advance_shutdown) h
      | inr e ↦
          let a = (drain_reap_events s reply.first reply.first_end).0 in
          let held : P a = drain_ind P cases.waits s reply.first reply.first_end h in
          rw (e, advance_shutdown)
            (elim (Bool-cases a.last_wait_echild) [
              | inl none_left ↦ rw (none_left, if◌then◌else◌) (cases.finished a held)
              | inr left ↦ rw (left, if◌then◌else◌) (escalate_ind a held)
            ])
    ]
  ]

-- ===== src/Sessiond/Silence.antt =====
-- Outputs that reaping and the escalation of a shutdown never have: they write that controllers
-- exited, send signals and join streams, and do nothing else.
use nndsk_ro_launcher.Base.{
  ℕ, ◌-◌, ◌||◌, ◌&&◌, leb, is_some, ◌≡◌, refl, Bool, false, Option, List, [], ◌∷◌, ◌++◌, arith,
  Text, any, inl, inr, if_cases, option_cases,
}
use nndsk_ro_launcher.Base.Dict.{nat_eq, Text-eq, lookup}
use nndsk_ro_launcher.Protocol.{SessionEvent}
use nndsk_ro_launcher.Sessiond.Supervisor.{
  Supervisor, Signal, sigterm, sigkill, is_shutdown, or_else, Output, emit, signal_descendants,
  join_streams, reap, reap_request, Reaped, WaitEnd, none_exited, no_child, drain_reap_events,
  finish_shutdown, send_term, send_kill, escalate, AdvanceReply, advance_shutdown,
}
use nndsk_ro_launcher.Sessiond.Waits.{Phase-cases}

pub any-append :
    {A : Type 0} (p : A → Bool) (xs ys : List A)
    → any p xs ≡ false
    → any p ys ≡ false
    → any p (xs ++ ys) ≡ false
any-append p [] ys h k = k
any-append p (x ∷ xs) ys h k = ground (arith, any-append p xs ys)

module _ (p : Output → Bool)
    (exits : (r : Text) (pid : ℕ) (code signal : Option ℕ)
      → p (emit (SessionEvent.controller_exited r pid code signal)) ≡ false)
    (joins : (handles : List ℕ) → p (join_streams handles) ≡ false)
    (signals : (s : Signal) → p (signal_descendants s) ≡ false) where
  abbrev Never : Supervisor × List Output → Type 0
  Never (_, out) = any p out ≡ false

  one : (o : Output) → p o ≡ false → any p (o ∷ []) ≡ false
  one o h = rw h refl

  reap-Never : (s : Supervisor) (r : Reaped) → Never (reap s r)
  unfolding reap reap_request
  reap-Never s r =
      option_cases Never (lookup r.pid s.pid_to_request) (λ _. refl)
        (λ request_id _.
          if_cases (λ out. any p out ≡ false) (is_shutdown (lookup request_id s.controllers))
            (λ _. refl) (λ _. one _ (exits request_id r.pid r.exit_code r.signal)))

  pub drain-Never :
      (s : Supervisor) (rs : List Reaped) (end : WaitEnd) → Never (drain_reap_events s rs end)
  unfolding drain_reap_events
  drain-Never s [] none_exited = refl
  drain-Never s [] no_child = refl
  drain-Never s (r ∷ rs) end =
      any-append p (reap s r).1 _ (reap-Never s r) (drain-Never (reap s r).0 rs end)

  send_term-Never : (reply : AdvanceReply) (s : Supervisor) → Never (send_term reply s)
  unfolding send_term
  send_term-Never reply s =
      let deadline = or_else s.shutdown_deadline reply.clock_default in
      if_cases Never (s.forced_shutdown || leb deadline reply.clock) (λ _. one _ (signals sigterm))
        (λ _. refl)

  send_kill-Never : (reply : AdvanceReply) (s : Supervisor) → Never (send_kill reply s)
  unfolding send_kill
  send_kill-Never reply s =
      option_cases Never s.term_sent_at (λ _. refl)
        (λ at_time _.
          if_cases Never (leb 2000 (reply.clock_elapsed - at_time)) (λ _. one _ (signals sigkill))
            (λ _. refl))

  escalate-Never : (reply : AdvanceReply) (s : Supervisor) → Never (escalate reply s)
  unfolding escalate finish_shutdown
  escalate-Never reply s =
      let a = (send_term reply s).0 in
      let b = (send_kill reply a).0 in
      let c = (drain_reap_events b reply.second reply.second_end).0 in
      any-append p (send_term reply s).1 _ (send_term-Never reply s) (
        any-append p (send_kill reply a).1 _ (send_kill-Never reply a) (
          any-append p (drain_reap_events b reply.second reply.second_end).1 _
            (drain-Never b reply.second reply.second_end)
            (if_cases Never (is_some c.term_sent_at && c.last_wait_echild)
              (λ _. one _ (joins c.pending_streams)) (λ _. refl))))

  pub advance-Never : (reply : AdvanceReply) (s : Supervisor) → Never (advance_shutdown reply s)
  unfolding advance_shutdown finish_shutdown
  advance-Never reply s = elim (Phase-cases s.phase) [
    | inl e ↦ rw (e, advance_shutdown) refl
    | inr k ↦ elim k [
      | inl e ↦ rw (e, advance_shutdown) refl
      | inr e ↦
          let a = (drain_reap_events s reply.first reply.first_end).0 in
          rw (e, advance_shutdown)
            (any-append p (drain_reap_events s reply.first reply.first_end).1 _
              (drain-Never s reply.first reply.first_end)
              (if_cases Never a.last_wait_echild (λ _. one _ (joins a.pending_streams))
                (λ _. escalate-Never reply a)))
    ]
  ]

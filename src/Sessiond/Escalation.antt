-- ===== src/Sessiond/Escalation.antt =====
-- How a shutdown ends: grace, SIGTERM, SIGKILL, and the proof that no child is left.
use nndsk_ro_launcher.Base.{
  ℕ, ◌-◌, ◌≡◌, refl, ap, ◌∙◌, Bool, true, false, ◌||◌, ◌&&◌, Option, none, some, List, [], ◌∷◌,
  ◌++◌, arith, any, leb, is_some, if◌then◌else◌,
}
use nndsk_ro_launcher.Sessiond.Supervisor.{
  stopping, stopped, Supervisor, Output, signal_descendants, Signal, sigterm, sigkill, reap,
  reap_request, Reaped, WaitEnd, none_exited, no_child, drain_reap_events, finish_shutdown,
  send_term, send_kill, escalate, AdvanceReply, advance_shutdown, or_else,
}

or_false : (b : Bool) → (b || false) ≡ b
or_false b = ground arith

abbrev pub is_no_child : WaitEnd → Bool
is_no_child none_exited = false
is_no_child no_child = true

-- The fields by which a shutdown escalates.
abbrev SameShutdown : Supervisor → Supervisor → Type 0
SameShutdown s t =
    (t.phase ≡ s.phase)
    × (t.forced_shutdown ≡ s.forced_shutdown)
    × (t.shutdown_deadline ≡ s.shutdown_deadline)
    × (t.term_sent_at ≡ s.term_sent_at)

reap-SameShutdown : (s : Supervisor) (r : Reaped) → SameShutdown s (reap s r).0
unfolding reap reap_request
reap-SameShutdown s r = ground arith

-- A round of waiting leaves the escalation alone, and notes whether a child is left.
drain-SameShutdown :
    (s : Supervisor) (rs : List Reaped) (end : WaitEnd)
    → SameShutdown s (drain_reap_events s rs end).0
      × ((drain_reap_events s rs end).0.last_wait_echild ≡ is_no_child end)
unfolding drain_reap_events
drain-SameShutdown s [] none_exited = ((refl, refl, refl, refl), refl)
drain-SameShutdown s [] no_child = ((refl, refl, refl, refl), refl)
drain-SameShutdown s (r ∷ rs) end =
    ground (arith, reap-SameShutdown s r, drain-SameShutdown (reap s r).0 rs end)

-- Whether this round sends SIGTERM.
abbrev pub is_due : AdvanceReply → Supervisor → Bool
is_due reply s =
    s.forced_shutdown || leb (or_else s.shutdown_deadline reply.clock_default) reply.clock

send_term_lem :
    (reply : AdvanceReply) (s : Supervisor)
    → ((send_term reply s).0.phase ≡ s.phase)
      × (is_some (send_term reply s).0.term_sent_at ≡ (is_due reply s || is_some s.term_sent_at))
unfolding send_term
send_term_lem reply s = ground arith

send_kill_lem :
    (reply : AdvanceReply) (s : Supervisor)
    → ((send_kill reply s).0.phase ≡ s.phase)
      × ((send_kill reply s).0.term_sent_at ≡ s.term_sent_at)
unfolding send_kill
send_kill_lem reply s = ground arith

escalate-phase :
    (reply : AdvanceReply) (s : Supervisor)
    → (escalate reply s).0.phase ≡ (
        if (is_due reply s || is_some s.term_sent_at) && is_no_child reply.second_end
        then stopped
        else s.phase)
unfolding escalate finish_shutdown
escalate-phase reply s =
    let a = (send_term reply s).0 in
    let b = (send_kill reply a).0 in
    ground (
      arith,
      send_term_lem reply s,
      send_kill_lem reply a,
      drain-SameShutdown b reply.second reply.second_end,
    )

-- A round of a stopping session ends it exactly if no child is left: at once when the first wait
-- says so; after the second wait only if SIGTERM is due in this round or was sent before.
pub advance_shutdown-phase :
    (reply : AdvanceReply) (s : Supervisor)
    → s.phase ≡ stopping
    → (advance_shutdown reply s).0.phase ≡ (
        if is_no_child reply.first_end
          || ((is_due reply s || is_some s.term_sent_at) && is_no_child reply.second_end)
        then stopped
        else stopping)
unfolding advance_shutdown finish_shutdown
advance_shutdown-phase reply s h =
    let a = (drain_reap_events s reply.first reply.first_end).0 in
    rw (h, advance_shutdown)
      (ground (arith, drain-SameShutdown s reply.first reply.first_end, escalate-phase reply a))

abbrev is_signal : Signal → Output → Bool
is_signal sigterm (signal_descendants sigterm) = true
is_signal sigkill (signal_descendants sigkill) = true
is_signal _ _ = false

-- The outputs hold the signal.
abbrev pub has_signal : Signal → List Output → Bool
has_signal g out = any (is_signal g) out

has_signal-append :
    (g : Signal) (xs ys : List Output)
    → has_signal g (xs ++ ys) ≡ (has_signal g xs || has_signal g ys)
has_signal-append g [] ys = refl
has_signal-append g (x ∷ xs) ys = ground (arith, has_signal-append g xs ys)

drain-has_signal :
    (g : Signal) (s : Supervisor) (rs : List Reaped) (end : WaitEnd)
    → has_signal g (drain_reap_events s rs end).1 ≡ false
unfolding drain_reap_events reap reap_request
drain-has_signal g s [] none_exited = refl
drain-has_signal g s [] no_child = refl
drain-has_signal sigterm s (r ∷ rs) end =
    has_signal-append sigterm (reap s r).1 _
    ∙ ground (arith, drain-has_signal sigterm (reap s r).0 rs end)
drain-has_signal sigkill s (r ∷ rs) end =
    has_signal-append sigkill (reap s r).1 _
    ∙ ground (arith, drain-has_signal sigkill (reap s r).0 rs end)

-- When SIGTERM was sent first, as of this round.
abbrev pub term_time : AdvanceReply → Supervisor → Option ℕ
term_time reply s =
    if is_due reply s then some (or_else s.term_sent_at reply.clock) else s.term_sent_at

-- SIGTERM is two seconds old.
abbrev pub kill_due : AdvanceReply → Option ℕ → Bool
kill_due reply none = false
kill_due reply (some at_time) = leb 2000 (reply.clock_elapsed - at_time)

escalate-signals :
    (g : Signal) (reply : AdvanceReply) (s : Supervisor)
    → has_signal g (escalate reply s).1 ≡ (
        has_signal g (send_term reply s).1
        || has_signal g (send_kill reply (send_term reply s).0).1)
unfolding escalate finish_shutdown
escalate-signals sigterm reply s = simp (has_signal-append, drain-has_signal) (ground arith)
escalate-signals sigkill reply s = simp (has_signal-append, drain-has_signal) (ground arith)

send_term-signals :
    (reply : AdvanceReply) (s : Supervisor)
    → (has_signal sigterm (send_term reply s).1 ≡ is_due reply s)
      × (has_signal sigkill (send_term reply s).1 ≡ false)
      × ((send_term reply s).0.term_sent_at ≡ term_time reply s)
unfolding send_term
send_term-signals reply s = ground arith

send_kill-signals :
    (reply : AdvanceReply) (s : Supervisor)
    → (has_signal sigterm (send_kill reply s).1 ≡ false)
      × (has_signal sigkill (send_kill reply s).1 ≡ kill_due reply s.term_sent_at)
unfolding send_kill
send_kill-signals reply s = ground arith

SameShutdown-due :
    (reply : AdvanceReply) (s t : Supervisor)
    → SameShutdown s t
    → (is_due reply t ≡ is_due reply s) × (term_time reply t ≡ term_time reply s)
SameShutdown-due reply s t h = ground arith

advance-outputs :
    (reply : AdvanceReply) (s : Supervisor)
    → s.phase ≡ stopping
    → (drain_reap_events s reply.first reply.first_end).0.last_wait_echild ≡ false
    → (advance_shutdown reply s).1
      ≡ (drain_reap_events s reply.first reply.first_end).1
        ++ (escalate reply (drain_reap_events s reply.first reply.first_end).0).1
unfolding advance_shutdown
advance-outputs reply s h left = ground arith

advance-escalates :
    (g : Signal) (reply : AdvanceReply) (s : Supervisor)
    → s.phase ≡ stopping
    → reply.first_end ≡ none_exited
    → has_signal g (advance_shutdown reply s).1
      ≡ has_signal g (escalate reply (drain_reap_events s reply.first reply.first_end).0).1
advance-escalates g reply s h e =
    let left = (drain-SameShutdown s reply.first reply.first_end).1 ∙ ap is_no_child e in
    ap (has_signal g) (advance-outputs reply s h left)
    ∙ simp (has_signal-append, drain-has_signal) refl

-- A round of a stopping session in which a child is left sends SIGTERM exactly if the shutdown was
-- forced or its deadline has passed, and SIGKILL exactly if SIGTERM was sent two seconds ago.
pub advance_shutdown-signals :
    (reply : AdvanceReply) (s : Supervisor)
    → s.phase ≡ stopping
    → reply.first_end ≡ none_exited
    → (has_signal sigterm (advance_shutdown reply s).1 ≡ is_due reply s)
      × (has_signal sigkill (advance_shutdown reply s).1 ≡ kill_due reply (term_time reply s))
advance_shutdown-signals reply s h e =
    let a = (drain_reap_events s reply.first reply.first_end).0 in
    let t = (send_term reply a).0 in
    let same = SameShutdown-due reply s a (drain-SameShutdown s reply.first reply.first_end).0 in
    let terms = send_term-signals reply a in
    let kills = send_kill-signals reply t in
    (
      advance-escalates sigterm reply s h e
          ∙ escalate-signals sigterm reply a
          ∙ rw (terms.0, kills.0, same.0) (or_false (is_due reply s)),
      advance-escalates sigkill reply s h e
          ∙ escalate-signals sigkill reply a
          ∙ rw (terms.1, kills.1, terms.2, same.1) refl,
    )

-- ===== src/Sessiond/Ending.antt =====
-- What ends a session from outside: the parent process goes, SIGTERM comes, or stdin ends.
use nndsk_ro_launcher.Base.{
  ℕ, ◌≡◌, ◌≢◌, ◌⊎◌, inl, inr, sym, subst, Bool, true, false, List, [], ◌∷◌, arith, if_cases,
}
use nndsk_ro_launcher.Sessiond.Supervisor.{
  ready, Supervisor, Output, AdvanceReply, begin_forced_shutdown, drain_reap_events,
  advance_shutdown,
}
use nndsk_ro_launcher.Sessiond.Commands.{drain, advance, apply}
use nndsk_ro_launcher.Sessiond.Phases.{AtLeast, begin_forced-AtLeast, line-AtLeast, apply-AtLeast}
use nndsk_ro_launcher.Sessiond.MainLoop.{
  Input, nothing, line, eof, unreadable, LoopReply, LoopOutput, Session, check_end, read_input,
  advance_stopping, check_idle, check_stopped, turn, run_session,
}
use nndsk_ro_launcher.Sessiond.Turns.{bool_ind, phase_ind, read_unless_eof, check_idle-sup}

-- The parent process is gone, SIGTERM came, or stdin, which was open, has ended.
abbrev pub IsEnding : LoopReply → Session → Type 0
IsEnding reply s =
    (reply.parent_alive ≡ false)
    ⊎ (reply.sigterm ≡ true)
    ⊎ ((s.stdin_eof ≡ false) × ((clock : ℕ) × (reply.input ≡ eof clock)))

forced_leaves : (clock : ℕ) (s : Supervisor) → AtLeast 1 (begin_forced_shutdown clock s)
unfolding begin_forced_shutdown
forced_leaves clock s = ground arith

check_end-AtLeast :
    (n : ℕ) (reply : LoopReply) (s : Supervisor) → AtLeast n s → AtLeast n (check_end reply s)
unfolding check_end
check_end-AtLeast n reply s h =
    let first =
      if_cases (AtLeast n) reply.parent_alive (λ _. h)
        (λ _. begin_forced-AtLeast n reply.parent_clock s h) in
    if_cases (AtLeast n) reply.sigterm (λ _. begin_forced-AtLeast n reply.sigterm_clock _ first)
      (λ _. first)

read_input-AtLeast :
    (n : ℕ) (i : Input) (s : Session) → AtLeast n s.sup → AtLeast n (read_input i s).0.sup
unfolding read_input
read_input-AtLeast n nothing s h = h
read_input-AtLeast n (line reply parsed) s h = omega (arith, h, line-AtLeast reply s.sup parsed)
read_input-AtLeast n (eof clock) s h = begin_forced-AtLeast n clock s.sup h
read_input-AtLeast n (unreadable reason) s h = h

abbrev Reads : ℕ → Session × List LoopOutput → Type 0
Reads n (s, _) = AtLeast n s.sup

read-AtLeast :
    (n : ℕ) (i : Input) (s : Session) → AtLeast n s.sup → AtLeast n (read_unless_eof i s).0.sup
read-AtLeast n i s h = if_cases (Reads n) s.stdin_eof (λ _. h) (λ _. read_input-AtLeast n i s h)

-- The session after the input of a turn has been read.
abbrev after_input : LoopReply → Session → Session
after_input reply s = (read_unless_eof reply.input (record s { sup = check_end reply s.sup })).0

advance_stopping-AtLeast :
    (n : ℕ) (reply : AdvanceReply) (s : Supervisor)
    → AtLeast n s
    → AtLeast n (advance_stopping reply s).0
unfolding apply
advance_stopping-AtLeast n reply s h =
    phase_ind (λ (p : Supervisor × List Output). AtLeast n p.0) s.phase (s, [])
      (advance_shutdown reply s) (s, []) h (omega (arith, h, apply-AtLeast s (advance reply))) h

check_stopped-AtLeast : (n : ℕ) (s : Session) → AtLeast n s.sup → AtLeast n (check_stopped s).1.sup
unfolding check_stopped
check_stopped-AtLeast n s h =
    phase_ind (λ (p : Bool × Session × List LoopOutput). AtLeast n p.1.sup) s.sup.phase
      (false, s, []) (false, s, []) _ h h h

turn-AtLeast :
    (n : ℕ) (reply : LoopReply) (s : Session)
    → AtLeast n (after_input reply s).sup
    → AtLeast n (turn reply s).1.sup
unfolding turn apply
turn-AtLeast n reply s h =
    let b : Session = after_input reply s in
    let drained : Supervisor = (drain_reap_events b.sup reply.reaped reply.reaped_end).0 in
    let joined : Supervisor = record drained { pending_streams = reply.unfinished } in
    let advanced : Supervisor = (advance_stopping reply.advance joined).0 in
    let before : Session = record b { sup = advanced } in
    let first : AtLeast n drained =
      omega (arith, h, apply-AtLeast b.sup (drain reply.reaped reply.reaped_end)) in
    check_stopped-AtLeast n (check_idle before).0 (
      subst (AtLeast n) (sym (check_idle-sup before))
        (advance_stopping-AtLeast n reply.advance joined first))

run_session-AtLeast :
    (n : ℕ) (replies : List LoopReply) (s : Session)
    → AtLeast n s.sup
    → AtLeast n (run_session replies s).1.sup
unfolding run_session
run_session-AtLeast n [] s h = h
run_session-AtLeast n (reply ∷ replies) s h =
    let next =
      turn-AtLeast n reply s (read-AtLeast n reply.input _ (check_end-AtLeast n reply s.sup h)) in
    bool_ind (λ (p : Bool × Session × List LoopOutput). AtLeast n p.1.sup) (turn reply s).0 _ _ next
      (run_session-AtLeast n replies (turn reply s).1 next)

check_end_leaves :
    (reply : LoopReply) (s : Supervisor)
    → (reply.parent_alive ≡ false) ⊎ (reply.sigterm ≡ true)
    → AtLeast 1 (check_end reply s)
unfolding check_end
check_end_leaves reply s (inl gone) =
    let first =
      if_cases (AtLeast 1) reply.parent_alive {x = s} (λ e. cc (e, gone))
        (λ _. forced_leaves reply.parent_clock s) in
    if_cases (AtLeast 1) reply.sigterm (λ _. forced_leaves reply.sigterm_clock _) (λ _. first)
check_end_leaves reply s (inr came) =
    if_cases (AtLeast 1) reply.sigterm (λ _. forced_leaves reply.sigterm_clock _)
      (λ e. cc (e, came))

read_leaves :
    (reply : LoopReply) (s : Session) → IsEnding reply s → AtLeast 1 (after_input reply s).sup
unfolding read_input
read_leaves reply s (inl gone) =
    read-AtLeast 1 reply.input _ (check_end_leaves reply s.sup (inl gone))
read_leaves reply s (inr (inl came)) =
    read-AtLeast 1 reply.input _ (check_end_leaves reply s.sup (inr came))
read_leaves reply s (inr (inr (unread, (clock, e)))) =
    if_cases (Reads 1) s.stdin_eof (λ f. cc (f, unread))
      (λ _.
        subst (λ i. Reads 1 (read_input i (record s { sup = check_end reply s.sup }))) (sym e)
          (forced_leaves clock (check_end reply s.sup)))

-- A turn in which the parent process is gone, SIGTERM came, or stdin has ended takes the session out
-- of its phase `ready`, and no later turn brings it back.
pub run_session-leaves_ready :
    (reply : LoopReply) (replies : List LoopReply) (s : Session)
    → IsEnding reply s
    → (run_session (reply ∷ replies) s).1.sup.phase ≢ ready
unfolding run_session
run_session-leaves_ready reply replies s ending e =
    let next = turn-AtLeast 1 reply s (read_leaves reply s ending) in
    let last : AtLeast 1 (run_session (reply ∷ replies) s).1.sup =
      bool_ind (λ (p : Bool × Session × List LoopOutput). AtLeast 1 p.1.sup) (turn reply s).0 _ _
        next (run_session-AtLeast 1 replies (turn reply s).1 next) in
    ground arith

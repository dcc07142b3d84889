-- ===== src/Sessiond/Turns.antt =====
-- What the main loop of crates/ro-sessiond/src/main.rs keeps over all its turns.
use nndsk_ro_launcher.Base.{
  ℕ, suc, ◌+◌, ◌%◌, ◌^◌, ◌≡◌, refl, sym, subst, Bool, true, false, not, ◌&&◌, List, [], ◌∷◌, ◌++◌,
  map, any, arith, Text, leb, if◌then◌else◌, Result, ok, err,
}
use nndsk_ro_launcher.Sessiond.Launch.{Environ}
use nndsk_ro_launcher.Sessiond.Supervisor.{
  SessionPhase, ready, stopping, stopped, Supervisor, Output, HandleError, AdvanceReply,
  begin_forced_shutdown, handle_line, drain_reap_events, advance_shutdown,
}
use nndsk_ro_launcher.Sessiond.Soundness.{IsSound, new-IsSound}
use nndsk_ro_launcher.Sessiond.Soundness.Requests.{
  begin_forced_shutdown-IsSound, handle_line-IsSound,
}
use nndsk_ro_launcher.Sessiond.Soundness.Reaping.{drain-IsSound, advance-IsSound}
use nndsk_ro_launcher.Sessiond.Stopped.{is_last, handle_line-silent, drain-silent, advance-silent}
use nndsk_ro_launcher.Sessiond.MainLoop.{
  Input, nothing, line, eof, unreadable, LoopReply, LoopOutput, supervisor, request_error,
  protocol_error, idle_event, stopped_event, Session, start, check_end, report, read_input,
  advance_stopping, check_idle, check_stopped, turn, run_session,
}

-- To prove something of both branches of a test, and of all cases of a phase.
if_ind : {A : Type 0} (P : A → Type 0) (b : Bool) (x y : A) → P x → P y → P (if b then x else y)
if_ind P true x y h k = h
if_ind P false x y h k = k

pub bool_ind :
    {A : Type 0} (P : A → Type 0) (b : Bool) (x y : A)
    → P x
    → P y
    → P (elim b [ true ↦ x | false ↦ y ])
bool_ind P true x y h k = h
bool_ind P false x y h k = k

bool_cases :
    {A : Type 0} (P : A → Type 0) (b : Bool) (x y : A)
    → (b ≡ true → P x)
    → (b ≡ false → P y)
    → P (elim b [ true ↦ x | false ↦ y ])
bool_cases P true x y h k = h refl
bool_cases P false x y h k = k refl

pub phase_ind :
    {A : Type 0} (P : A → Type 0) (p : SessionPhase) (x y z : A)
    → P x
    → P y
    → P z
    → P (elim p [ ready ↦ x | stopping ↦ y | stopped ↦ z ])
phase_ind P ready x y z h k l = h
phase_ind P stopping x y z h k l = k
phase_ind P stopped x y z h k l = l

phase_cases :
    {A : Type 0} (P : A → Type 0) (p : SessionPhase) (x y z : A)
    → (p ≡ ready → P x)
    → (p ≡ stopping → P y)
    → (p ≡ stopped → P z)
    → P (elim p [ ready ↦ x | stopping ↦ y | stopped ↦ z ])
phase_cases P ready x y z h k l = h refl
phase_cases P stopping x y z h k l = k refl
phase_cases P stopped x y z h k l = l refl

join-IsSound :
    (s : Supervisor) (left : List ℕ) → IsSound s → IsSound (record s { pending_streams = left })
join-IsSound s left h = record {
  tables = h.tables;
  launches_counted = h.launches_counted;
  launches_bounded = h.launches_bounded;
}

check_end-IsSound : (reply : LoopReply) (s : Supervisor) → IsSound s → IsSound (check_end reply s)
unfolding check_end
check_end-IsSound reply s h =
    let parent : Supervisor =
      if reply.parent_alive then s else begin_forced_shutdown reply.parent_clock s in
    let sound : IsSound parent =
      if_ind IsSound reply.parent_alive s (begin_forced_shutdown reply.parent_clock s) h
        (begin_forced_shutdown-IsSound reply.parent_clock s h) in
    if_ind IsSound reply.sigterm (begin_forced_shutdown reply.sigterm_clock parent) parent
      (begin_forced_shutdown-IsSound reply.sigterm_clock parent sound) sound

read_input-IsSound : (i : Input) (s : Session) → IsSound s.sup → IsSound (read_input i s).0.sup
unfolding read_input
read_input-IsSound nothing s h = h
read_input-IsSound (line reply parsed) s h = handle_line-IsSound reply s.sup parsed h
read_input-IsSound (eof clock) s h = begin_forced_shutdown-IsSound clock s.sup h
read_input-IsSound (unreadable reason) s h = h

-- The input, read unless it has ended.
abbrev pub read_unless_eof : Input → Session → Session × List LoopOutput
read_unless_eof i a = if a.stdin_eof then (a, []) else read_input i a

read_unless_eof-IsSound :
    (i : Input) (s : Session) → IsSound s.sup → IsSound (read_unless_eof i s).0.sup
read_unless_eof-IsSound i s h =
    if_ind (λ (p : Session × List LoopOutput). IsSound p.0.sup) s.stdin_eof (s, []) (read_input i s)
      h (read_input-IsSound i s h)

advance_stopping-IsSound :
    (reply : AdvanceReply) (s : Supervisor) → IsSound s → IsSound (advance_stopping reply s).0
advance_stopping-IsSound reply s h =
    phase_ind (λ (p : Supervisor × List Output). IsSound p.0) s.phase (s, [])
      (advance_shutdown reply s) (s, []) h (advance-IsSound reply s h) h

pub check_idle-sup : (s : Session) → (check_idle s).0.sup ≡ s.sup
unfolding check_idle
check_idle-sup s =
    let P : Session × List LoopOutput → Type 0 = λ p. p.0.sup ≡ s.sup in
    phase_ind P s.sup.phase _ (s, []) (s, [])
      (if_ind P s.sup.last_wait_echild _ _ (if_ind P _ _ _ refl refl) refl) refl refl

check_stopped-IsSound : (s : Session) → IsSound s.sup → IsSound (check_stopped s).1.sup
unfolding check_stopped
check_stopped-IsSound s h =
    phase_ind (λ (p : Bool × Session × List LoopOutput). IsSound p.1.sup) s.sup.phase (false, s, [])
      (false, s, []) _ h h (join-IsSound s.sup [] h)

-- A turn keeps the supervisor sound.
turn-IsSound : (reply : LoopReply) (s : Session) → IsSound s.sup → IsSound (turn reply s).1.sup
unfolding turn
turn-IsSound reply s h =
    let a : Session = record s { sup = check_end reply s.sup } in
    let b : Session = (read_unless_eof reply.input a).0 in
    let drained : Supervisor = (drain_reap_events b.sup reply.reaped reply.reaped_end).0 in
    let joined : Supervisor = record drained { pending_streams = reply.unfinished } in
    let advanced : Supervisor = (advance_stopping reply.advance joined).0 in
    let before : Session = record b { sup = advanced } in
    let read = read_unless_eof-IsSound reply.input a (check_end-IsSound reply s.sup h) in
    let stepped : IsSound advanced = advance_stopping-IsSound reply.advance joined (
      join-IsSound drained reply.unfinished
        (drain-IsSound b.sup reply.reaped reply.reaped_end read)) in
    check_stopped-IsSound (check_idle before).0
      (subst IsSound (sym (check_idle-sup before)) stepped)

run_session-IsSound :
    (replies : List LoopReply) (s : Session) → IsSound s.sup → IsSound (run_session replies s).1.sup
unfolding run_session
run_session-IsSound [] s h = h
run_session-IsSound (reply ∷ replies) s h =
    bool_ind (λ (p : Bool × Session × List LoopOutput). IsSound p.1.sup) (turn reply s).0 _ _
      (turn-IsSound reply s h)
      (run_session-IsSound replies (turn reply s).1 (turn-IsSound reply s h))

-- Over all turns of the main loop, whatever the system answers, the supervisor of a new session
-- stays sound.
run_session-start-IsSound :
    (owned_prefix : Text) (env : Environ) (replies : List LoopReply)
    → IsSound (run_session replies (start owned_prefix env)).1.sup
unfolding start
run_session-start-IsSound owned_prefix env replies =
    run_session-IsSound replies (start owned_prefix env) (new-IsSound owned_prefix env)

-- How often the event `stopped` has been written, by the loop or by the supervisor.
pub count_stopped : List LoopOutput → ℕ
count_stopped [] = 0
count_stopped (stopped_event ∷ out) = suc (count_stopped out)
count_stopped (supervisor o ∷ out) =
    let rest = count_stopped out in if is_last o then suc rest else rest
count_stopped (request_error _ ∷ out) = count_stopped out
count_stopped (protocol_error _ ∷ out) = count_stopped out
count_stopped (idle_event ∷ out) = count_stopped out

count_stopped-append :
    (xs ys : List LoopOutput) → count_stopped (xs ++ ys) ≡ count_stopped xs + count_stopped ys
unfolding count_stopped
count_stopped-append [] ys = omega arith
count_stopped-append (stopped_event ∷ xs) ys = omega (arith, count_stopped-append xs ys)
count_stopped-append (supervisor o ∷ xs) ys = ground (arith, count_stopped-append xs ys)
count_stopped-append (request_error _ ∷ xs) ys = count_stopped-append xs ys
count_stopped-append (protocol_error _ ∷ xs) ys = count_stopped-append xs ys
count_stopped-append (idle_event ∷ xs) ys = count_stopped-append xs ys

count_stopped-map :
    (xs : List Output) → any is_last xs ≡ false → count_stopped (map supervisor xs) ≡ 0
unfolding count_stopped
count_stopped-map [] h = refl
count_stopped-map (x ∷ xs) h = ground (arith, count_stopped-map xs)

count_stopped-report : (r : Result HandleError (Unit {0})) → count_stopped (report r) ≡ 0
unfolding count_stopped
count_stopped-report (ok _) = refl
count_stopped-report (err e) = refl

read_input-stopped : (i : Input) (s : Session) → count_stopped (read_input i s).1 ≡ 0
unfolding read_input count_stopped
read_input-stopped nothing s = refl
read_input-stopped (line reply parsed) s =
    let (sup, out, result) = handle_line reply s.sup parsed in
    omega (
      arith,
      count_stopped-append (map supervisor out) (report result),
      count_stopped-map out (handle_line-silent reply s.sup parsed),
      count_stopped-report result,
    )
read_input-stopped (eof clock) s = refl
read_input-stopped (unreadable reason) s = refl

read_unless_eof-stopped : (i : Input) (s : Session) → count_stopped (read_unless_eof i s).1 ≡ 0
unfolding count_stopped
read_unless_eof-stopped i s =
    if_ind (λ (p : Session × List LoopOutput). count_stopped p.1 ≡ 0) s.stdin_eof (s, [])
      (read_input i s) refl (read_input-stopped i s)

check_idle-stopped : (s : Session) → count_stopped (check_idle s).1 ≡ 0
unfolding check_idle count_stopped
check_idle-stopped s =
    let P : Session × List LoopOutput → Type 0 = λ p. count_stopped p.1 ≡ 0 in
    let streak : ℕ = (s.idle_streak + 1) % 2 ^ 32 in
    let reported : Session × List LoopOutput =
      (record s { idle_streak = streak; idle_emitted = true }, idle_event ∷ []) in
    let counted : Session × List LoopOutput = (record s { idle_streak = streak }, []) in
    phase_ind P s.sup.phase _ (s, []) (s, [])
      (if_ind P s.sup.last_wait_echild _ (record s { idle_streak = 0; idle_emitted = false }, [])
        (if_ind P (leb 2 streak && not s.idle_emitted) reported counted refl refl) refl)
      refl refl

advance_stopping-silent :
    (reply : AdvanceReply) (s : Supervisor) → any is_last (advance_stopping reply s).1 ≡ false
advance_stopping-silent reply s =
    phase_ind (λ (p : Supervisor × List Output). any is_last p.1 ≡ false) s.phase (s, [])
      (advance_shutdown reply s) (s, []) refl (advance-silent reply s) refl

-- The last event is written exactly by a result that ends the loop, and the session is stopped then.
abbrev pub Ends : Bool × Session × List LoopOutput → Type 0
Ends (done, s, out) =
    (count_stopped out ≡ (if done then 1 else 0)) × (done ≡ true → s.sup.phase ≡ stopped)

check_stopped-count :
    (s : Session) → count_stopped (check_stopped s).2 ≡ (if (check_stopped s).0 then 1 else 0)
unfolding check_stopped count_stopped
check_stopped-count s =
    phase_ind (λ (p : Bool × Session × List LoopOutput). count_stopped p.2 ≡ (if p.0 then 1 else 0))
      s.sup.phase (false, s, []) (false, s, []) _ refl refl refl

check_stopped-phase :
    (s : Session) → (check_stopped s).0 ≡ true → (check_stopped s).1.sup.phase ≡ stopped
unfolding check_stopped
check_stopped-phase s =
    phase_cases (λ (p : Bool × Session × List LoopOutput). p.0 ≡ true → p.1.sup.phase ≡ stopped)
      s.sup.phase (false, s, []) (false, s, []) _ (λ e h. cc h) (λ e h. cc h) (λ e h. e)

turn-Ends : (reply : LoopReply) (s : Session) → Ends (turn reply s)
unfolding turn
turn-Ends reply s =
    let a : Session = record s { sup = check_end reply s.sup } in
    let read : Session × List LoopOutput = read_unless_eof reply.input a in
    let reaped : Supervisor × List Output =
      drain_reap_events read.0.sup reply.reaped reply.reaped_end in
    let drained : Supervisor = reaped.0 in
    let joined : Supervisor = record drained { pending_streams = reply.unfinished } in
    let advanced : Supervisor × List Output = advance_stopping reply.advance joined in
    let b : Session = read.0 in
    let before : Session = record b { sup = advanced.0 } in
    let idle : Session × List LoopOutput = check_idle before in
    let last : Bool × Session × List LoopOutput = check_stopped idle.0 in
    let written = check_stopped-count idle.0 in
    (
      omega (
        arith,
        written,
        count_stopped-append read.1
            (map supervisor reaped.1 ++ (map supervisor advanced.1 ++ (idle.1 ++ last.2))),
        count_stopped-append (map supervisor reaped.1)
            (map supervisor advanced.1 ++ (idle.1 ++ last.2)),
        count_stopped-append (map supervisor advanced.1) (idle.1 ++ last.2),
        count_stopped-append idle.1 last.2,
        read_unless_eof-stopped reply.input a,
        count_stopped-map reaped.1 (drain-silent read.0.sup reply.reaped reply.reaped_end),
        count_stopped-map advanced.1 (advance_stopping-silent reply.advance joined),
        check_idle-stopped before,
      ),
      check_stopped-phase idle.0,
    )

-- Over all turns from any session, the event `stopped` is written once if the loop ends and never if
-- it goes on, by the loop and the supervisor together; and the loop ends only with a supervisor that
-- is stopped.
pub run_session-Ends : (replies : List LoopReply) (s : Session) → Ends (run_session replies s)
unfolding run_session count_stopped
run_session-Ends [] s = (refl, λ h. cc h)
run_session-Ends (reply ∷ replies) s =
    let now = turn-Ends reply s in
    let later = run_session-Ends replies (turn reply s).1 in
    let out = (turn reply s).2 in
    let more = (run_session replies (turn reply s).1).2 in
    bool_cases Ends (turn reply s).0 _ _ (λ e. (rw e at now.0, λ _. now.1 e))
      (λ e. (omega (arith, count_stopped-append out more, rw e at now.0, later.0), later.1))

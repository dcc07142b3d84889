-- ===== src/Sessiond/Supervisor/Shutdown.antt =====
-- Reaping of exited children, and the escalation of a shutdown.
use nndsk_ro_launcher.Base.{
  ℕ, ◌-◌, Bool, true, false, ◌&&◌, ◌||◌, Option, none, some, List, [], ◌∷◌, ◌++◌, Text, leb,
  if◌then◌else◌, is_some,
}
use nndsk_ro_launcher.Base.Dict.{nat_eq, Text-eq, lookup, remove}
use nndsk_ro_launcher.Protocol.{SessionEvent}
use nndsk_ro_launcher.Sessiond.Supervisor.State.{
  stopping, stopped, ControllerRecord, Supervisor, Output, emit, sigterm, sigkill,
  signal_descendants, join_streams,
}

-- One answer of `waitpid(-1, WNOHANG)` about an exited child.
pub record Reaped : Type 0 where
  pub pid : ℕ
  pub exit_code : Option ℕ
  pub signal : Option ℕ

-- The answer that ends the loop: children are left and none has exited, or there is no child.
pub data WaitEnd : Type 0 where
  none_exited no_child : WaitEnd

abbrev pub is_shutdown : Option ControllerRecord → Bool
is_shutdown none = false
is_shutdown (some c) = c.is_shutdown_controller

abbrev pub stream_handles : Option ControllerRecord → List ℕ
stream_handles none = []
stream_handles (some c) = elim c.streams [ none ↦ [] | some outcome ↦ outcome.stream_threads ]

-- A reaped pid that belongs to a request.
unfoldable pub reap_request : Supervisor → Reaped → Text → Supervisor × List Output
reap_request s r request_id =
    let known = lookup request_id s.controllers in
    (
      record s {
        last_wait_echild = false;
        pid_to_request = remove r.pid s.pid_to_request;
        in_flight = if is_shutdown known then s.in_flight else s.in_flight - 1;
        pending_streams = s.pending_streams ++ stream_handles known;
        controllers = remove request_id s.controllers;
      },
      if is_shutdown known
          then []
          else emit (SessionEvent.controller_exited request_id r.pid r.exit_code r.signal) ∷ [],
    )

-- The body of the loop in `drain_reap_events`.
unfoldable pub reap : Supervisor → Reaped → Supervisor × List Output
reap s r = elim (lookup r.pid s.pid_to_request) [
  | none ↦ (record s { last_wait_echild = false }, [])
  | some request_id ↦ reap_request s r request_id
]

-- The loop reads one answer for each child that has exited, then the one that ends it.
unfoldable pub drain_reap_events : Supervisor → List Reaped → WaitEnd → Supervisor × List Output
drain_reap_events s [] none_exited = (record s { last_wait_echild = false }, [])
drain_reap_events s [] no_child = (record s { last_wait_echild = true }, [])
drain_reap_events s (r ∷ rs) end =
    let (s', out) = reap s r in let (t, more) = drain_reap_events s' rs end in (t, out ++ more)

-- The answers of one `advance_shutdown`: two rounds of waiting, and the clock, which is read when
-- there is no deadline, then once, then for `term_at.elapsed()`.
pub record AdvanceReply : Type 0 where
  pub first : List Reaped
  pub first_end : WaitEnd
  pub clock_default : ℕ
  pub clock : ℕ
  pub clock_elapsed : ℕ
  pub second : List Reaped
  pub second_end : WaitEnd

unfoldable pub finish_shutdown : Supervisor → Supervisor × List Output
finish_shutdown s =
    (record s { phase = stopped; pending_streams = [] }, join_streams s.pending_streams ∷ [])

abbrev pub or_else : Option ℕ → ℕ → ℕ
or_else none d = d
or_else (some a) _ = a

unfoldable pub send_term : AdvanceReply → Supervisor → Supervisor × List Output
send_term reply s =
    let deadline = or_else s.shutdown_deadline reply.clock_default in
    if s.forced_shutdown || leb deadline reply.clock
    then (
      record s { term_sent_at = some (or_else s.term_sent_at reply.clock) },
      signal_descendants sigterm ∷ [],
    )
    else (s, [])

unfoldable pub send_kill : AdvanceReply → Supervisor → Supervisor × List Output
send_kill reply s = elim s.term_sent_at [
  | none ↦ (s, [])
  | some at_time ↦
      if leb 2000 (reply.clock_elapsed - at_time)
      then (record s { kill_sent = true }, signal_descendants sigkill ∷ [])
      else (s, [])
]

-- What follows the first round of waiting, when children are left.
unfoldable pub escalate : AdvanceReply → Supervisor → Supervisor × List Output
escalate reply s =
    let (a, out_a) = send_term reply s in
    let (b, out_b) = send_kill reply a in
    let (c, out_c) = drain_reap_events b reply.second reply.second_end in
    let (d, out_d) =
      if is_some c.term_sent_at && c.last_wait_echild then finish_shutdown c else (c, []) in
    (d, out_a ++ (out_b ++ (out_c ++ out_d)))

unfoldable pub advance_shutdown : AdvanceReply → Supervisor → Supervisor × List Output
advance_shutdown reply s = elim s.phase [
  | stopping ↦
      let (a, out_a) = drain_reap_events s reply.first reply.first_end in
      let (b, out_b) = if a.last_wait_echild then finish_shutdown a else escalate reply a in
      (b, out_a ++ out_b)
  | _ ↦ (s, [])
]

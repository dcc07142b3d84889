-- ===== src/Sessiond/MainLoop.antt =====
-- The loop of `run_session` in crates/ro-sessiond/src/main.rs, from the handshake on: what one turn
-- asks of the system is a reply, and the loop runs over the replies of its turns.
use nndsk_ro_launcher.Base.{
  ℕ, ◌+◌, ◌%◌, ◌^◌, Bool, true, false, not, ◌&&◌, List, [], ◌∷◌, ◌++◌, map, Text, leb,
  if◌then◌else◌, Result, ok, err,
}
use nndsk_ro_launcher.Protocol.{SessionRequest}
use nndsk_ro_launcher.Sessiond.Launch.{Environ}
use nndsk_ro_launcher.Sessiond.Supervisor.{
  ready, stopping, stopped, Supervisor, Output, HandleError, LineReply, Reaped, WaitEnd,
  AdvanceReply, new, begin_forced_shutdown, handle_line, drain_reap_events, advance_shutdown,
  join_streams,
}

-- What stdin has: nothing yet (also an incomplete line), a line, its end, or an error.
pub data Input : Type 0 where
  nothing : Input
  line : LineReply → Result Text SessionRequest → Input
  eof : (clock : ℕ) → Input
  unreadable : (reason : Text) → Input

-- The answers of the system in one turn; `unfinished` are the stream threads that still run.
pub record LoopReply : Type 0 where
  pub parent_alive : Bool
  pub parent_clock : ℕ
  pub sigterm : Bool
  pub sigterm_clock : ℕ
  pub input : Input
  pub reaped : List Reaped
  pub reaped_end : WaitEnd
  pub unfinished : List ℕ
  pub advance : AdvanceReply

-- What the loop does to the outside: what the supervisor does, and the events that it writes itself.
pub data LoopOutput : Type 0 where
  supervisor : Output → LoopOutput
  request_error : HandleError → LoopOutput
  protocol_error : (reason : Text) → LoopOutput
  idle_event stopped_event : LoopOutput

pub record Session : Type 0 where
  pub sup : Supervisor
  pub stdin_eof : Bool
  pub idle_streak : ℕ
  pub idle_emitted : Bool

unfoldable pub start : Text → Environ → Session
start owned_prefix base_env = record {
  sup = new owned_prefix base_env;
  stdin_eof = false;
  idle_streak = 0;
  idle_emitted = false;
}

-- The parent is gone, or SIGTERM came.
unfoldable pub check_end : LoopReply → Supervisor → Supervisor
check_end reply s =
    let a : Supervisor =
      if reply.parent_alive then s else begin_forced_shutdown reply.parent_clock s in
    if reply.sigterm then begin_forced_shutdown reply.sigterm_clock a else a

abbrev pub report : Result HandleError (Unit {0}) → List LoopOutput
report (ok _) = []
report (err e) = request_error e ∷ []

unfoldable pub read_input : Input → Session → Session × List LoopOutput
read_input nothing s = (s, [])
read_input (line reply parsed) s =
    let (sup, out, result) = handle_line reply s.sup parsed in
    (record s { sup = sup }, map supervisor out ++ report result)
read_input (eof clock) s =
    (record s { stdin_eof = true; sup = begin_forced_shutdown clock s.sup }, [])
read_input (unreadable reason) s = (s, protocol_error reason ∷ [])

abbrev pub advance_stopping : AdvanceReply → Supervisor → Supervisor × List Output
advance_stopping reply s = elim s.phase [ stopping ↦ advance_shutdown reply s | _ ↦ (s, []) ]

-- Two turns in a row without children, while the session is ready, are reported once.
unfoldable pub check_idle : Session → Session × List LoopOutput
check_idle s = elim s.sup.phase [
  | ready ↦
      if s.sup.last_wait_echild
      then (let streak = (s.idle_streak + 1) % 2 ^ 32 in
          if leb 2 streak && not s.idle_emitted
          then (record s { idle_streak = streak; idle_emitted = true }, idle_event ∷ [])
          else (record s { idle_streak = streak }, []))
      else (record s { idle_streak = 0; idle_emitted = false }, [])
  | _ ↦ (s, [])
]

-- Whether the loop ends, with the last join and event.
unfoldable pub check_stopped : Session → Bool × Session × List LoopOutput
check_stopped s = elim s.sup.phase [
  | stopped ↦
      let sup : Supervisor = s.sup in
      (
        true,
        record s { sup = record sup { pending_streams = [] } },
        supervisor (join_streams sup.pending_streams) ∷ stopped_event ∷ [],
      )
  | _ ↦ (false, s, [])
]

unfoldable pub turn : LoopReply → Session → Bool × Session × List LoopOutput
turn reply s =
    let a : Session = record s { sup = check_end reply s.sup } in
    let (b, out_b) = if a.stdin_eof then (a, []) else read_input reply.input a in
    let (drained, out_c) = drain_reap_events b.sup reply.reaped reply.reaped_end in
    let joined : Supervisor = record drained { pending_streams = reply.unfinished } in
    let (advanced, out_d) = advance_stopping reply.advance joined in
    let (e, out_e) = check_idle (record b { sup = advanced }) in
    let (done, f, out_f) = check_stopped e in
    (done, f, out_b ++ (map supervisor out_c ++ (map supervisor out_d ++ (out_e ++ out_f))))

-- The turns until the loop ends, or the replies do.
unfoldable pub run_session : List LoopReply → Session → Bool × Session × List LoopOutput
run_session [] s = (false, s, [])
run_session (reply ∷ replies) s =
    let (done, t, out) = turn reply s in
    elim done [
      | true ↦ (true, t, out)
      | false ↦ let (ended, u, more) = run_session replies t in (ended, u, out ++ more)
    ]

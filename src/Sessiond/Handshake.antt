-- ===== src/Sessiond/Handshake.antt =====
-- crates/ro-sessiond/src/main.rs: the handshake, which waits for the first line of the app.
pub mod Tests
pub mod Settled
use nndsk_ro_launcher.Base.{
  ℕ, ◌+◌, ◌<◌, ◌≤◌, ◌≡◌, refl, Bool, true, false, not, Option, none, some, List, [], ◌∷◌, Text,
  ◌==◌, leb, Result, ok, err, if◌then◌else◌, if_cases, arith,
}
use nndsk_ro_launcher.Protocol.{
  protocol_version, SessionRequest, hello, launch, shutdown, Stage, handshake, protocol,
  ErrorMessage, hello_timeout, hello_eof, hello_unreadable, hello_not_json, unsupported_version,
  first_not_hello, SessionEvent, ready, error,
}

-- What the reader gives: the end of the input, an error, a line that is no request, or a request.
pub data Heard : Type 0 where
  closed : Heard
  unreadable : (reason : Text) → Heard
  not_json : (reason : Text) → Heard
  request : SessionRequest → Heard

-- The answers of the system in one round; `is_written` tells whether the writer takes an event. The
-- clock counts milliseconds. stdin still blocks here: a read that waits is a round that does not end.
pub record Moment : Type 0 where
  pub now : ℕ
  pub has_input : Bool
  pub heard : Heard
  pub is_written : Bool

-- The result, where the error is an exit code, and the events that were given to the writer.
abbrev pub Greeting : Type 0
Greeting = Result ℕ (Unit {0}) × List SessionEvent

unfoldable pub emit_error : Stage → ErrorMessage → Greeting
emit_error stage message = (err 1, error none stage none message ∷ [])

module _ (supervisor_pid : ℕ) (prefix : Text) where
  unfoldable pub emit_ready : Bool → Greeting
  emit_ready is_written =
      (if is_written then ok tt else err 1, ready protocol_version supervisor_pid prefix true ∷ [])

  unfoldable pub answer_request : Bool → SessionRequest → Greeting
  unfolding emit_ready emit_error
  answer_request is_written (hello version) =
      if not (version == protocol_version)
      then emit_error handshake (unsupported_version version)
      else emit_ready is_written
  answer_request is_written (launch _ _) = emit_error handshake first_not_hello
  answer_request is_written (shutdown _ _ _) = emit_error handshake first_not_hello

  unfoldable pub answer_line : Bool → Heard → Greeting
  unfolding emit_error answer_request
  answer_line is_written closed = emit_error handshake hello_eof
  answer_line is_written (unreadable reason) = emit_error protocol (hello_unreadable reason)
  answer_line is_written (not_json reason) = emit_error handshake (hello_not_json reason)
  answer_line is_written (request r) = answer_request is_written r

  -- The loop of `handshake`, which started five seconds before the deadline; none when it goes on.
  unfoldable pub greet : ℕ → List Moment → Option Greeting
  unfolding emit_error answer_line
  greet deadline [] = none
  greet deadline (m ∷ later) =
      let rest = greet deadline later in
      if leb deadline m.now
      then some (emit_error handshake hello_timeout)
      else if not m.has_input
      then rest
      else some (answer_line m.is_written m.heard)

  -- `handshake`, started at a time.
  unfoldable pub run_handshake : ℕ → List Moment → Option Greeting
  unfolding greet
  run_handshake started moments = greet (started + 5000) moments

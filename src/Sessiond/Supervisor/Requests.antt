-- ===== src/Sessiond/Supervisor/Requests.antt =====
-- `handle_line`: launches and the request to shut down.
use nndsk_ro_launcher.Base.{
  ℕ, ◌+◌, Bool, true, false, Option, none, some, [], ◌∷◌, Text, contains, leb, if◌then◌else◌,
  Result, ok, err,
}
use nndsk_ro_launcher.Base.Dict.{nat_eq, Text-eq, insert}
use nndsk_ro_launcher.Protocol.{
  ProcessSpec, SessionRequest, SessionEvent, Stage, ErrorMessage, second_hello_rejected,
  launch_not_ready, duplicate_request_id, too_many_in_flight, second_shutdown_rejected,
  shutdown_rejected, refused, controller_failed, max_in_flight_launches, clamp_grace_ms,
}
use nndsk_ro_launcher.Sessiond.Launch.{FileSystem, Environ, validate_spec_for_launch}
use nndsk_ro_launcher.Sessiond.Supervisor.State.{
  SessionPhase, ready, stopping, LaunchOutcome, LaunchControllerError, Supervisor, Output, emit,
  spawn, HandleError, refused_again, no_identity, not_written, Outcome, begin_forced_shutdown,
}

-- The answers that `handle_launch` may ask for.
pub record LaunchReply : Type 0 where
  pub fs : FileSystem
  pub launch_controller : ProcessSpec → Environ → Result LaunchControllerError LaunchOutcome
  pub start_time : Option ℕ
  pub written : Bool

-- The answers that `handle_shutdown` may ask for; the specification is validated twice.
pub record ShutdownReply : Type 0 where
  pub fs : FileSystem
  pub fs_again : FileSystem
  pub launch_controller : ProcessSpec → Environ → Result LaunchControllerError LaunchOutcome
  pub clock : ℕ
  pub written : Bool

abbrev pub is_ready : SessionPhase → Bool
is_ready ready = true
is_ready _ = false

abbrev pub is_stopping : SessionPhase → Bool
is_stopping stopping = true
is_stopping _ = false

abbrev pub validation_error : Option Text → ErrorMessage → Output
validation_error request_id m = emit (SessionEvent.error request_id Stage.validation none m)

-- A refusal on validation: the event is written, and the caller sees no error.
abbrev pub reject : Supervisor → Text → ErrorMessage → Outcome
reject s request_id m = (s, validation_error (some request_id) m ∷ [], ok tt)

unfoldable pub register_launch : Supervisor → Text → LaunchOutcome → Supervisor
register_launch s request_id outcome = record s {
  pid_to_request = insert outcome.controller_pid request_id s.pid_to_request;
  in_flight = s.in_flight + 1;
  controllers =
      insert request_id
        (record {
          request_id = request_id;
          controller_pid = outcome.controller_pid;
          is_shutdown_controller = false;
          streams = some outcome;
        })
        s.controllers;
}

-- The end of `handle_launch`: the controller runs; its identity is read and the launch reported.
unfoldable pub report_launch :
    LaunchReply → Supervisor → Text → ProcessSpec → Environ → LaunchOutcome → Outcome
report_launch reply s request_id spec env outcome =
    let pid = outcome.controller_pid in
    let s' = register_launch s request_id outcome in
    elim reply.start_time [
      | none ↦ (s', spawn spec env pid ∷ [], err no_identity)
      | some time ↦ (
        s',
        spawn spec env pid ∷ emit (SessionEvent.launch_accepted request_id pid time) ∷ [],
        if reply.written then ok tt else err not_written,
      )
    ]

-- From the validation of the specification on.
unfoldable pub launch_spec : LaunchReply → Supervisor → Text → ProcessSpec → Outcome
launch_spec reply s request_id spec =
    elim (validate_spec_for_launch reply.fs spec s.owned_prefix s.base_env) [
      | err refusal ↦ reject s request_id (refused refusal)
      | ok env ↦ elim (reply.launch_controller spec env) [
        | ok outcome ↦ report_launch reply s request_id spec env outcome
        | err e ↦ (
          s,
          emit (
                SessionEvent.error (some request_id) Stage.launch e.errno
                  (controller_failed e.message))
              ∷ [],
          ok tt,
        )
      ]
    ]

abbrev pub remember : Supervisor → Text → Supervisor
remember s request_id = record s { request_ids = request_id ∷ s.request_ids }

unfoldable pub handle_launch : LaunchReply → Supervisor → Text → ProcessSpec → Outcome
handle_launch reply s request_id spec =
    if is_ready s.phase
    then (if contains s.request_ids request_id
        then reject s request_id duplicate_request_id
        else if leb max_in_flight_launches s.in_flight
        then reject (remember s request_id) request_id too_many_in_flight
        else launch_spec reply (remember s request_id) request_id spec)
    else reject s request_id launch_not_ready

unfoldable pub register_shutdown : Supervisor → Text → LaunchOutcome → ℕ → Supervisor
register_shutdown s request_id outcome clock = record s {
  pid_to_request = insert outcome.controller_pid request_id s.pid_to_request;
  controllers =
      insert request_id
        (record {
          request_id = request_id;
          controller_pid = outcome.controller_pid;
          is_shutdown_controller = true;
          streams = some outcome;
        })
        s.controllers;
  shutdown_deadline = some (clock + s.shutdown_grace_ms);
}

abbrev pub shutdown_error : Text → Option ℕ → ErrorMessage → Output
shutdown_error request_id errno m =
    emit (SessionEvent.error (some request_id) Stage.shutdown errno m)

-- From the first validation of the shutdown specification on.
unfoldable pub shutdown_spec : ShutdownReply → Supervisor → Text → ProcessSpec → Outcome
shutdown_spec reply s request_id spec =
    elim (validate_spec_for_launch reply.fs spec s.owned_prefix s.base_env) [
      | err refusal ↦ (
        begin_forced_shutdown reply.clock s,
        shutdown_error request_id none (refused refusal) ∷ [],
        ok tt,
      )
      | ok _ ↦ elim (validate_spec_for_launch reply.fs_again spec s.owned_prefix s.base_env) [
        | err refusal ↦ (s, [], err (refused_again refusal))
        | ok env ↦ elim (reply.launch_controller spec env) [
          | ok outcome ↦ (
            register_shutdown s request_id outcome reply.clock,
            spawn spec env outcome.controller_pid
                ∷ emit (SessionEvent.shutdown_accepted request_id)
                ∷ [],
            if reply.written then ok tt else err not_written,
          )
          | err e ↦ (
            begin_forced_shutdown reply.clock s,
            shutdown_error request_id e.errno (controller_failed e.message) ∷ [],
            ok tt,
          )
        ]
      ]
    ]

abbrev pub enter_stopping : Supervisor → Text → ℕ → Supervisor
enter_stopping s request_id grace_ms = record s {
  phase = stopping;
  request_ids = request_id ∷ s.request_ids;
  shutdown_request_id = some request_id;
  shutdown_grace_ms = clamp_grace_ms grace_ms;
}

unfoldable pub handle_shutdown : ShutdownReply → Supervisor → Text → ProcessSpec → ℕ → Outcome
handle_shutdown reply s request_id spec grace_ms =
    if is_stopping s.phase
    then reject s request_id second_shutdown_rejected
    else if is_ready s.phase
    then (if contains s.request_ids request_id
        then reject s request_id duplicate_request_id
        else shutdown_spec reply (enter_stopping s request_id grace_ms) request_id spec)
    else reject s request_id shutdown_rejected

-- The answers for one line, whatever it asks for.
pub record LineReply : Type 0 where
  pub launching : LaunchReply
  pub stopping : ShutdownReply

unfoldable pub handle_request : LineReply → Supervisor → SessionRequest → Outcome
handle_request reply s (SessionRequest.hello _) = (
  begin_forced_shutdown reply.stopping.clock s,
  validation_error none second_hello_rejected ∷ [],
  ok tt,
)
handle_request reply s (SessionRequest.launch request_id spec) =
    handle_launch reply.launching s request_id spec
handle_request reply s (SessionRequest.shutdown request_id spec grace_ms) =
    handle_shutdown reply.stopping s request_id spec grace_ms

-- The line as `serde_json` reads it.
unfoldable pub handle_line : LineReply → Supervisor → Result Text SessionRequest → Outcome
handle_line reply s (err reason) = (s, [], err (HandleError.invalid_json reason))
handle_line reply s (ok request) = handle_request reply s request

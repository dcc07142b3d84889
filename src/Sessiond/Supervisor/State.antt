-- ===== src/Sessiond/Supervisor/State.antt =====
-- The fields of `Supervisor`, its initial state, and what handlers do to the outside.
use nndsk_ro_launcher.Base.{ℕ, ◌+◌, Bool, true, false, Option, none, some, List, [], Text, Result}
use nndsk_ro_launcher.Protocol.{SessionEvent, Refusal, ProcessSpec}
use nndsk_ro_launcher.Sessiond.Launch.{Environ}

pub data SessionPhase : Type 0 where
  ready stopping stopped : SessionPhase

-- `LaunchOutcome`: a stream thread is known by a number.
pub record LaunchOutcome : Type 0 where
  pub controller_pid : ℕ
  pub stream_threads : List ℕ

pub record LaunchControllerError : Type 0 where
  pub message : Text
  pub errno : Option ℕ

pub record ControllerRecord : Type 0 where
  pub request_id : Text
  pub controller_pid : ℕ
  pub is_shutdown_controller : Bool
  pub streams : Option LaunchOutcome

-- Instants and durations are in milliseconds.
pub record Supervisor : Type 0 where
  pub phase : SessionPhase
  pub owned_prefix : Text
  pub base_env : Environ
  pub request_ids : List Text
  pub in_flight : ℕ
  pub pid_to_request : List (ℕ × Text)
  pub controllers : List (Text × ControllerRecord)
  pub shutdown_request_id : Option Text
  pub shutdown_deadline : Option ℕ
  pub shutdown_grace_ms : ℕ
  pub forced_shutdown : Bool
  pub term_sent_at : Option ℕ
  pub kill_sent : Bool
  pub last_wait_echild : Bool
  pub pending_streams : List ℕ

unfoldable pub new : Text → Environ → Supervisor
new owned_prefix base_env = record {
  phase = ready;
  owned_prefix = owned_prefix;
  base_env = base_env;
  request_ids = [];
  in_flight = 0;
  pid_to_request = [];
  controllers = [];
  shutdown_request_id = none;
  shutdown_deadline = none;
  shutdown_grace_ms = 2000;
  forced_shutdown = false;
  term_sent_at = none;
  kill_sent = false;
  last_wait_echild = false;
  pending_streams = [];
}

pub data Signal : Type 0 where
  sigterm sigkill : Signal

-- What a handler does: a write of an event (which may fail), a fork, a signal to every descendant,
-- or a join of stream threads.
pub data Output : Type 0 where
  emit : SessionEvent → Output
  spawn : ProcessSpec → Environ → ℕ → Output
  signal_descendants : Signal → Output
  join_streams : List ℕ → Output

-- The error that a handler returns to the main loop.
pub data HandleError : Type 0 where
  invalid_json : Text → HandleError
  refused_again : Refusal → HandleError
  no_identity not_written : HandleError

abbrev pub Outcome : Type 0
Outcome = Supervisor × List Output × Result HandleError (Unit {0})

unfoldable pub begin_forced_shutdown : (clock : ℕ) → Supervisor → Supervisor
begin_forced_shutdown clock s = elim s.phase [
  | stopped ↦ s
  | _ ↦ record s {
    forced_shutdown = true;
    phase = stopping;
    shutdown_deadline = elim s.shutdown_deadline [ none ↦ some (clock + 2000) | some d ↦ some d ];
  }
]

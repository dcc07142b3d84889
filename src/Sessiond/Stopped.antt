-- ===== src/Sessiond/Stopped.antt =====
-- The supervisor itself never writes the event `stopped`: the main loop does.
use nndsk_ro_launcher.Base.{
  ℕ, ◌≡◌, refl, Bool, true, false, List, Text, any, contains, leb, if_cases, option_cases,
  result_cases, Result, ok, err,
}
use nndsk_ro_launcher.Base.Dict.{Text-eq}
use nndsk_ro_launcher.Protocol.{
  ProcessSpec, SessionRequest, SessionEvent, stopped, max_in_flight_launches,
}
use nndsk_ro_launcher.Sessiond.Launch.{validate_spec_for_launch}
use nndsk_ro_launcher.Sessiond.Supervisor.{
  Supervisor, Output, emit, Outcome, LaunchReply, ShutdownReply, LineReply, is_ready, is_stopping,
  remember, enter_stopping, report_launch, launch_spec, handle_launch, shutdown_spec,
  handle_shutdown, handle_request, handle_line, Reaped, WaitEnd, drain_reap_events, AdvanceReply,
  advance_shutdown,
}
use nndsk_ro_launcher.Sessiond.Silence.{drain-Never, advance-Never}

abbrev pub is_last_event : SessionEvent → Bool
is_last_event stopped = true
is_last_event _ = false

abbrev pub is_last : Output → Bool
is_last (emit e) = is_last_event e
is_last _ = false

abbrev Silent : Outcome → Type 0
Silent (_, out, _) = any is_last out ≡ false

launch_spec-Silent :
    (reply : LaunchReply) (s : Supervisor) (request_id : Text) (spec : ProcessSpec)
    → Silent (launch_spec reply s request_id spec)
unfolding launch_spec report_launch
launch_spec-Silent reply s request_id spec =
    result_cases Silent (validate_spec_for_launch reply.fs spec s.owned_prefix s.base_env)
      (λ env _.
        result_cases Silent (reply.launch_controller spec env)
          (λ _ _. option_cases Silent reply.start_time (λ _. refl) (λ _ _. refl)) (λ _ _. refl))
      (λ _ _. refl)

shutdown_spec-Silent :
    (reply : ShutdownReply) (s : Supervisor) (request_id : Text) (spec : ProcessSpec)
    → Silent (shutdown_spec reply s request_id spec)
unfolding shutdown_spec
shutdown_spec-Silent reply s request_id spec =
    result_cases Silent (validate_spec_for_launch reply.fs spec s.owned_prefix s.base_env)
      (λ _ _.
        result_cases Silent (validate_spec_for_launch reply.fs_again spec s.owned_prefix s.base_env)
          (λ env _.
            result_cases Silent (reply.launch_controller spec env) (λ _ _. refl) (λ _ _. refl))
          (λ _ _. refl))
      (λ _ _. refl)

handle_launch-Silent :
    (reply : LaunchReply) (s : Supervisor) (request_id : Text) (spec : ProcessSpec)
    → Silent (handle_launch reply s request_id spec)
unfolding handle_launch
handle_launch-Silent reply s request_id spec =
    if_cases Silent (is_ready s.phase)
      (λ _.
        if_cases Silent (contains s.request_ids request_id) (λ _. refl)
          (λ _.
            if_cases Silent (leb max_in_flight_launches s.in_flight) (λ _. refl)
              (λ _. launch_spec-Silent reply (remember s request_id) request_id spec)))
      (λ _. refl)

handle_shutdown-Silent :
    (reply : ShutdownReply) (s : Supervisor) (request_id : Text) (spec : ProcessSpec) (grace_ms : ℕ)
    → Silent (handle_shutdown reply s request_id spec grace_ms)
unfolding handle_shutdown
handle_shutdown-Silent reply s request_id spec grace_ms =
    if_cases Silent (is_stopping s.phase) (λ _. refl)
      (λ _.
        if_cases Silent (is_ready s.phase)
          (λ _.
            if_cases Silent (contains s.request_ids request_id) (λ _. refl)
              (λ _.
                shutdown_spec-Silent reply (enter_stopping s request_id grace_ms) request_id spec))
          (λ _. refl))

pub handle_line-silent :
    (reply : LineReply) (s : Supervisor) (parsed : Result Text SessionRequest)
    → any is_last (handle_line reply s parsed).1 ≡ false
unfolding handle_line handle_request
handle_line-silent reply s (err reason) = refl
handle_line-silent reply s (ok (SessionRequest.hello v)) = refl
handle_line-silent reply s (ok (SessionRequest.launch r spec)) =
    handle_launch-Silent reply.launching s r spec
handle_line-silent reply s (ok (SessionRequest.shutdown r spec g)) =
    handle_shutdown-Silent reply.stopping s r spec g

pub drain-silent :
    (s : Supervisor) (rs : List Reaped) (end : WaitEnd)
    → any is_last (drain_reap_events s rs end).1 ≡ false
drain-silent = drain-Never is_last (λ r pid c g. refl) (λ l. refl) (λ g. refl)

pub advance-silent :
    (reply : AdvanceReply) (s : Supervisor) → any is_last (advance_shutdown reply s).1 ≡ false
advance-silent = advance-Never is_last (λ r pid c g. refl) (λ l. refl) (λ g. refl)

-- ===== src/Sessiond/Branches.antt =====
-- The states that the handlers of requests can leave: an elimination rule for each handler.
use nndsk_ro_launcher.Base.{
  ℕ, ◌<◌, ◌≡◌, inl, inr, true, arith, Text, contains, contains-false, leb, if◌then◌else◌,
  Bool-cases, Result-cases, Option-cases, In, Result, ok, err,
}
use nndsk_ro_launcher.Protocol.{ProcessSpec, SessionRequest, max_in_flight_launches}
use nndsk_ro_launcher.Sessiond.Launch.{validate_spec_for_launch}
use nndsk_ro_launcher.Sessiond.Supervisor.{
  SessionPhase, ready, LaunchOutcome, Supervisor, LaunchReply, ShutdownReply, LineReply, remember,
  enter_stopping, register_launch, register_shutdown, report_launch, launch_spec, handle_launch,
  shutdown_spec, handle_shutdown, begin_forced_shutdown, handle_request, handle_line, is_ready,
  is_stopping,
}

-- After the checks of `handle_launch`, the state is that before or the one with a new launch.
launch_spec_ind {ℓ} :
    (P : Supervisor → Type ℓ) (reply : LaunchReply) (s : Supervisor) (request_id : Text)
    (spec : ProcessSpec)
    → P s
    → ((outcome : LaunchOutcome) → P (register_launch s request_id outcome))
    → P (launch_spec reply s request_id spec).0
unfolding launch_spec report_launch
launch_spec_ind P reply s request_id spec same launched =
    elim (Result-cases (validate_spec_for_launch reply.fs spec s.owned_prefix s.base_env)) [
      | inr (e, f) ↦ rw (f, launch_spec) same
      | inl (env, f) ↦ elim (Result-cases (reply.launch_controller spec env)) [
        | inr (e, g) ↦ rw (f, launch_spec) (rw (g, launch_spec) same)
        | inl (outcome, g) ↦ elim (Option-cases reply.start_time) [
          | inl h ↦
              rw (f, launch_spec) (rw (g, launch_spec) (rw (h, report_launch) (launched outcome)))
          | inr (t, h) ↦
              rw (f, launch_spec) (rw (g, launch_spec) (rw (h, report_launch) (launched outcome)))
        ]
      ]
    ]

-- After the checks of `handle_shutdown`, the state is that before, that of a forced shutdown, or
-- the one with the shutdown controller.
shutdown_spec_ind {ℓ} :
    (P : Supervisor → Type ℓ) (reply : ShutdownReply) (s : Supervisor) (request_id : Text)
    (spec : ProcessSpec)
    → P s
    → P (begin_forced_shutdown reply.clock s)
    → ((outcome : LaunchOutcome) → P (register_shutdown s request_id outcome reply.clock))
    → P (shutdown_spec reply s request_id spec).0
unfolding shutdown_spec
shutdown_spec_ind P reply s request_id spec same forced launched =
    elim (Result-cases (validate_spec_for_launch reply.fs spec s.owned_prefix s.base_env)) [
      | inr (e, f) ↦ rw (f, shutdown_spec) forced
      | inl (env, f) ↦
          elim (Result-cases
            (validate_spec_for_launch reply.fs_again spec s.owned_prefix s.base_env)) [
              | inr (e, g) ↦ rw (f, shutdown_spec) (rw (g, shutdown_spec) same)
              | inl (env', g) ↦ elim (Result-cases (reply.launch_controller spec env')) [
                | inr (e, h) ↦
                    rw (f, shutdown_spec) (rw (g, shutdown_spec) (rw (h, shutdown_spec) forced))
                | inl (outcome, h) ↦
                    rw (f, shutdown_spec)
                      (rw (g, shutdown_spec) (rw (h, shutdown_spec) (launched outcome)))
              ]
            ]
    ]

-- What has to be shown of the states that one line can lead to.
pub record LineCases {ℓ} (P : Supervisor → Type ℓ) (s : Supervisor) : Type ℓ where
  pub unchanged : P s
  pub forced : (clock : ℕ) → P (begin_forced_shutdown clock s)
  pub seen :
      (request_id : Text)
      → s.phase ≡ ready
      → ¬ In request_id s.request_ids
      → P (remember s request_id)
  pub launched :
      (request_id : Text) (outcome : LaunchOutcome)
      → s.phase ≡ ready
      → ¬ In request_id s.request_ids
      → s.in_flight < max_in_flight_launches
      → P (register_launch (remember s request_id) request_id outcome)
  pub asked :
      (request_id : Text) (grace_ms : ℕ)
      → s.phase ≡ ready
      → ¬ In request_id s.request_ids
      → P (enter_stopping s request_id grace_ms)
  pub ask_failed :
      (request_id : Text) (grace_ms clock : ℕ)
      → s.phase ≡ ready
      → ¬ In request_id s.request_ids
      → P (begin_forced_shutdown clock (enter_stopping s request_id grace_ms))
  pub closing :
      (request_id : Text) (grace_ms clock : ℕ) (outcome : LaunchOutcome)
      → s.phase ≡ ready
      → ¬ In request_id s.request_ids
      → P (register_shutdown (enter_stopping s request_id grace_ms) request_id outcome clock)

ready_of : (p : SessionPhase) → is_ready p ≡ true → p ≡ ready
ready_of p h = ground arith

module _ {ℓ} (P : Supervisor → Type ℓ) (s : Supervisor) (cases : LineCases P s) where
  handle_launch_ind :
      (reply : LaunchReply) (request_id : Text) (spec : ProcessSpec)
      → P (handle_launch reply s request_id spec).0
  unfolding handle_launch
  handle_launch_ind reply request_id spec = elim (Bool-cases (is_ready s.phase)) [
    | inr not_ready ↦ rw (not_ready, if◌then◌else◌) cases.unchanged
    | inl is_now ↦
        rw (is_now, if◌then◌else◌)
          (elim (Bool-cases (contains s.request_ids request_id)) [
            | inl dup ↦ rw (dup, if◌then◌else◌) cases.unchanged
            | inr new ↦
                let at_start = ready_of s.phase is_now in
                let fresh = contains-false s.request_ids request_id new in
                rw (new, if◌then◌else◌)
                  (elim (Bool-cases (leb max_in_flight_launches s.in_flight)) [
                    | inl full ↦ rw (full, if◌then◌else◌) (cases.seen request_id at_start fresh)
                    | inr room ↦
                        rw (room, if◌then◌else◌)
                          (launch_spec_ind P reply (remember s request_id) request_id spec
                            (cases.seen request_id at_start fresh)
                            (λ o. cases.launched request_id o at_start fresh (ground arith)))
                  ])
          ])
  ]

  handle_shutdown_ind :
      (reply : ShutdownReply) (request_id : Text) (spec : ProcessSpec) (grace_ms : ℕ)
      → P (handle_shutdown reply s request_id spec grace_ms).0
  unfolding handle_shutdown
  handle_shutdown_ind reply request_id spec grace_ms = elim (Bool-cases (is_stopping s.phase)) [
    | inl late ↦ rw (late, if◌then◌else◌) cases.unchanged
    | inr early ↦
        rw (early, if◌then◌else◌)
          (elim (Bool-cases (is_ready s.phase)) [
            | inr not_ready ↦ rw (not_ready, if◌then◌else◌) cases.unchanged
            | inl is_now ↦
                rw (is_now, if◌then◌else◌)
                  (elim (Bool-cases (contains s.request_ids request_id)) [
                    | inl dup ↦ rw (dup, if◌then◌else◌) cases.unchanged
                    | inr new ↦
                        let at_start = ready_of s.phase is_now in
                        let fresh = contains-false s.request_ids request_id new in
                        rw (new, if◌then◌else◌)
                          (shutdown_spec_ind P reply (enter_stopping s request_id grace_ms)
                            request_id spec (cases.asked request_id grace_ms at_start fresh)
                            (cases.ask_failed request_id grace_ms reply.clock at_start fresh)
                            (λ o. cases.closing request_id grace_ms reply.clock o at_start fresh))
                  ])
          ])
  ]

  handle_request_ind :
      (reply : LineReply) (request : SessionRequest) → P (handle_request reply s request).0
  unfolding handle_request
  handle_request_ind reply (SessionRequest.hello _) = cases.forced reply.stopping.clock
  handle_request_ind reply (SessionRequest.launch request_id spec) =
      handle_launch_ind reply.launching request_id spec
  handle_request_ind reply (SessionRequest.shutdown request_id spec grace_ms) =
      handle_shutdown_ind reply.stopping request_id spec grace_ms

  -- A property that holds in all these cases holds after a line.
  pub handle_line_ind :
      (reply : LineReply) (parsed : Result Text SessionRequest) → P (handle_line reply s parsed).0
  unfolding handle_line
  handle_line_ind reply (err reason) = cases.unchanged
  handle_line_ind reply (ok request) = handle_request_ind reply request

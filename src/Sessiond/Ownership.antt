-- ===== src/Sessiond/Ownership.antt =====
-- Every program that a supervisor starts runs in its prefix.
use nndsk_ro_launcher.Base.{
  ℕ, ◌≡◌, refl, false, List, [], ◌∷◌, arith, Text, All, Result, ok, err, inl, inr, Result-cases,
  Option-cases,
}
use nndsk_ro_launcher.Protocol.{SessionRequest, ProcessSpec}
use nndsk_ro_launcher.Sessiond.Launch.{FileSystem, Environ, validate_spec_for_launch}
use nndsk_ro_launcher.Sessiond.Launch.Environment.{
  IsOwnedEnviron, validate_spec_for_launch-IsOwnedEnviron,
}
use nndsk_ro_launcher.Sessiond.Supervisor.{
  Supervisor, new, Output, spawn, LaunchReply, ShutdownReply, LineReply, remember, enter_stopping,
  report_launch, launch_spec, shutdown_spec, handle_launch, handle_shutdown, handle_request,
  handle_line, begin_forced_shutdown, register_launch, register_shutdown, reap, reap_request,
  finish_shutdown, send_term, send_kill,
}
use nndsk_ro_launcher.Sessiond.Commands.{Command, line, force, drain, advance, apply, run}
use nndsk_ro_launcher.Sessiond.Branches.{handle_line_ind}
use nndsk_ro_launcher.Sessiond.Waits.{AdvanceCases, drain_ind, advance_ind}
use nndsk_ro_launcher.Sessiond.Phases.{has_spawn, drain-no_spawn, advance-no_spawn}

module _ (owned_prefix : Text) (base_env : Environ) where
  -- A started program has an environment that belongs to the prefix in this file system.
  abbrev pub IsOwnedOutput : FileSystem → Output → Type 0
  IsOwnedOutput fs (spawn spec env pid) = IsOwnedEnviron fs spec owned_prefix base_env env
  IsOwnedOutput fs _ = Unit

  abbrev pub AreOwned : FileSystem → List Output → Type 0
  AreOwned fs out = All (IsOwnedOutput fs) out

  -- The programs that a command starts, by the file system that the command finds: a shutdown finds
  -- it once more when it launches. Only these two requests start programs.
  abbrev pub AreOwnedBy : Command → List Output → Type 0
  AreOwnedBy (line reply (ok (SessionRequest.launch _ _))) out = AreOwned reply.launching.fs out
  AreOwnedBy (line reply (ok (SessionRequest.shutdown _ _ _))) out =
      AreOwned reply.stopping.fs_again out
  AreOwnedBy (line reply (ok (SessionRequest.hello _))) out = has_spawn out ≡ false
  AreOwnedBy (line reply (err _)) out = has_spawn out ≡ false
  AreOwnedBy (force clock) out = has_spawn out ≡ false
  AreOwnedBy (drain rs end) out = has_spawn out ≡ false
  AreOwnedBy (advance reply) out = has_spawn out ≡ false

  -- The supervisor still has the prefix and the environment that it was made with.
  abbrev Keeps : Supervisor → Type 0
  Keeps s = (s.owned_prefix ≡ owned_prefix) × (s.base_env ≡ base_env)

  launch_spec-AreOwned :
      (reply : LaunchReply) (s : Supervisor) (request_id : Text) (spec : ProcessSpec)
      → Keeps s
      → AreOwned reply.fs (launch_spec reply s request_id spec).1
  unfolding launch_spec report_launch
  launch_spec-AreOwned reply s request_id spec (p, b) =
      elim (Result-cases (validate_spec_for_launch reply.fs spec s.owned_prefix s.base_env)) [
        | inr (e, f) ↦ rw (f, launch_spec) (tt, tt)
        | inl (env, f) ↦
            let owned : IsOwnedOutput reply.fs (spawn spec env 0) =
              validate_spec_for_launch-IsOwnedEnviron reply.fs spec owned_prefix base_env env
                (rw (p, b) at f) in
            elim (Result-cases (reply.launch_controller spec env)) [
              | inr (e, g) ↦ rw (f, launch_spec) (rw (g, launch_spec) (tt, tt))
              | inl (o, g) ↦
                  rw (f, launch_spec)
                    (rw (g, launch_spec)
                      (elim (Option-cases reply.start_time) [
                        | inl h ↦ rw (h, report_launch) (owned, tt)
                        | inr (t, h) ↦ rw (h, report_launch) (owned, (tt, tt))
                      ]))
            ]
      ]

  shutdown_spec-AreOwned :
      (reply : ShutdownReply) (s : Supervisor) (request_id : Text) (spec : ProcessSpec)
      → Keeps s
      → AreOwned reply.fs_again (shutdown_spec reply s request_id spec).1
  unfolding shutdown_spec
  shutdown_spec-AreOwned reply s request_id spec (p, b) =
      elim (Result-cases (validate_spec_for_launch reply.fs spec s.owned_prefix s.base_env)) [
        | inr (e, f) ↦ rw (f, shutdown_spec) (tt, tt)
        | inl (first, f) ↦
            elim (Result-cases
              (validate_spec_for_launch reply.fs_again spec s.owned_prefix s.base_env)) [
                | inr (e, g) ↦ rw (f, shutdown_spec) (rw (g, shutdown_spec) tt)
                | inl (env, g) ↦
                    let owned : IsOwnedOutput reply.fs_again (spawn spec env 0) =
                      validate_spec_for_launch-IsOwnedEnviron reply.fs_again spec owned_prefix
                        base_env env (rw (p, b) at g) in
                    elim (Result-cases (reply.launch_controller spec env)) [
                      | inr (e, h) ↦
                          rw (f, shutdown_spec)
                            (rw (g, shutdown_spec) (rw (h, shutdown_spec) (tt, tt)))
                      | inl (o, h) ↦
                          rw (f, shutdown_spec)
                            (rw (g, shutdown_spec) (rw (h, shutdown_spec) (owned, (tt, tt))))
                    ]
              ]
      ]

  handle_launch-AreOwned :
      (reply : LaunchReply) (s : Supervisor) (request_id : Text) (spec : ProcessSpec)
      → Keeps s
      → AreOwned reply.fs (handle_launch reply s request_id spec).1
  unfolding handle_launch
  handle_launch-AreOwned reply s request_id spec k =
      ground (arith, launch_spec-AreOwned reply (remember s request_id) request_id spec k)

  handle_shutdown-AreOwned :
      (reply : ShutdownReply) (s : Supervisor) (request_id : Text) (spec : ProcessSpec)
      (grace_ms : ℕ)
      → Keeps s
      → AreOwned reply.fs_again (handle_shutdown reply s request_id spec grace_ms).1
  unfolding handle_shutdown
  handle_shutdown-AreOwned reply s request_id spec grace_ms k =
      ground (
        arith,
        shutdown_spec-AreOwned reply (enter_stopping s request_id grace_ms) request_id spec k,
      )

  begin_forced-Keeps :
      (clock : ℕ) (s : Supervisor) → Keeps s → Keeps (begin_forced_shutdown clock s)
  unfolding begin_forced_shutdown
  begin_forced-Keeps clock s k = ground arith

  line-Keeps :
      (reply : LineReply) (s : Supervisor) (parsed : Result Text SessionRequest)
      → Keeps s
      → Keeps (handle_line reply s parsed).0
  unfolding register_launch register_shutdown
  line-Keeps reply s parsed k =
      handle_line_ind Keeps s
        (record {
          unchanged = k;
          forced = λ clock. begin_forced-Keeps clock s k;
          seen = λ r e f. k;
          launched = λ r o e f room. k;
          asked = λ r g e f. k;
          ask_failed = λ r g clock e f. begin_forced-Keeps clock _ k;
          closing = λ r g clock o e f. k;
        })
        reply parsed

  advancing-Keeps : AdvanceCases Keeps
  unfolding reap reap_request finish_shutdown send_term send_kill
  advancing-Keeps = record {
    waits = record { reaped = λ s r h. ground arith; waited = λ s b h. h };
    finished = λ s h. ground arith;
    termed = λ reply s h. ground arith;
    killed = λ reply s h. ground arith;
  }

  apply-Keeps : (s : Supervisor) (c : Command) → Keeps s → Keeps (apply s c).0
  unfolding apply
  apply-Keeps s (line reply parsed) k = line-Keeps reply s parsed k
  apply-Keeps s (force clock) k = begin_forced-Keeps clock s k
  apply-Keeps s (drain rs end) k = drain_ind Keeps advancing-Keeps.waits s rs end k
  apply-Keeps s (advance reply) k = advance_ind Keeps advancing-Keeps reply s k

  apply-AreOwnedBy : (s : Supervisor) (c : Command) → Keeps s → AreOwnedBy c (apply s c).1
  unfolding apply handle_line handle_request
  apply-AreOwnedBy s (line reply (err reason)) k = refl
  apply-AreOwnedBy s (line reply (ok (SessionRequest.hello v))) k = refl
  apply-AreOwnedBy s (line reply (ok (SessionRequest.launch r spec))) k =
      handle_launch-AreOwned reply.launching s r spec k
  apply-AreOwnedBy s (line reply (ok (SessionRequest.shutdown r spec g))) k =
      handle_shutdown-AreOwned reply.stopping s r spec g k
  apply-AreOwnedBy s (force clock) k = refl
  apply-AreOwnedBy s (drain rs end) k = drain-no_spawn s rs end
  apply-AreOwnedBy s (advance reply) k = advance-no_spawn reply s

  run-Keeps : (s : Supervisor) (cs : List Command) → Keeps s → Keeps (run s cs).0
  unfolding run
  run-Keeps s [] k = k
  run-Keeps s (c ∷ cs) k = run-Keeps (apply s c).0 cs (apply-Keeps s c k)

  -- After any commands, a new supervisor that takes one more starts a program only from a well-formed
  -- specification and with an environment that belongs to its own prefix, in the file system that
  -- this command finds; and only the requests of a launch and of a shutdown start programs.
  pub run-new-AreOwned :
      (cs : List Command) (c : Command)
      → AreOwnedBy c (apply (run (new owned_prefix base_env) cs).0 c).1
  unfolding new
  run-new-AreOwned cs c =
      let s = new owned_prefix base_env in
      apply-AreOwnedBy (run s cs).0 c (run-Keeps s cs (refl, refl))

-- ===== src/App/GameProcess/Run.antt =====
-- Any sequence of calls of the registry's methods, by any threads.
use nndsk_ro_launcher.Base.{ℕ, Option, List, [], ◌∷◌, Text}
use nndsk_ro_launcher.App.GameProcess.{
  ProcessIdentity, MemoryAccess, ProfileMemory, ClientRuntimeGuard, Registry,
}
use nndsk_ro_launcher.App.GameProcess.Launching.{
  begin_launch, mark_running, mark_controller, cancel_launch, close_admission_if_idle,
  reopen_admission,
}
use nndsk_ro_launcher.App.GameProcess.Stopping.{request_stop, request_stop_all, finish}
use nndsk_ro_launcher.App.GameProcess.Handoff.{replace_running}

-- The calls that may change the registry, with their arguments.
pub data Call : Type 0 where
  begin_launch_call : Text → Text → Text → Call
  mark_running_call : ℕ → ProcessIdentity → ClientRuntimeGuard → Text → Option Text → Call
  mark_controller_call : ℕ → ProcessIdentity → Call
  cancel_launch_call : ℕ → Call
  close_admission_call : Call
  reopen_admission_call : Call
  request_stop_call : Text → Call
  request_stop_all_call : Call
  replace_running_call :
      ℕ → ProcessIdentity → ProcessIdentity → ℕ → MemoryAccess → ProfileMemory → Call
  finish_call : ℕ → Call

unfoldable pub call : Call → Registry → Registry
call (begin_launch_call c i n) s = (begin_launch c i n s).1
call (mark_running_call g i r p o) s = (mark_running g i r p o s).1
call (mark_controller_call g i) s = (mark_controller g i s).1
call (cancel_launch_call g) s = cancel_launch g s
call close_admission_call s = (close_admission_if_idle s).1
call reopen_admission_call s = reopen_admission s
call (request_stop_call c) s = (request_stop c s).1
call request_stop_all_call s = (request_stop_all s).1
call (replace_running_call g e r l a p) s = (replace_running g e r l a p s).1
call (finish_call g) s = (finish g s).1

unfoldable pub run : List Call → Registry → Registry
unfolding call
run [] s = s
run (c ∷ calls) s = run calls (call c s)

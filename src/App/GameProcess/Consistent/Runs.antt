-- ===== src/App/GameProcess/Consistent/Runs.antt =====
-- What the registry of clients keeps over any sequence of calls.
use nndsk_ro_launcher.Base.{refl, List, [], ◌∷◌}
use nndsk_ro_launcher.Base.Dict.{nat_eq, lookup}
use nndsk_ro_launcher.App.GameProcess.{Registry, new_registry}
use nndsk_ro_launcher.App.GameProcess.Run.{
  Call, begin_launch_call, mark_running_call, mark_controller_call, cancel_launch_call,
  close_admission_call, reopen_admission_call, request_stop_call, request_stop_all_call,
  replace_running_call, finish_call, call, run,
}
use nndsk_ro_launcher.App.GameProcess.Consistent.{IsConsistent}
use nndsk_ro_launcher.App.GameProcess.Consistent.Launches.{
  mark_running-IsConsistent, mark_controller-IsConsistent, cancel_launch-IsConsistent,
  close-IsConsistent, reopen-IsConsistent, begin_launch-IsConsistent,
}
use nndsk_ro_launcher.App.GameProcess.Consistent.Stops.{
  replace_running-IsConsistent, finish-IsConsistent, request_stop-IsConsistent,
  request_stop_all-IsConsistent,
}

pub call-IsConsistent : (c : Call) (s : Registry) → IsConsistent s → IsConsistent (call c s)
unfolding call
call-IsConsistent (begin_launch_call c i n) s h = begin_launch-IsConsistent c i n s h
call-IsConsistent (mark_running_call g i r p o) s h = mark_running-IsConsistent g i r p o s h
call-IsConsistent (mark_controller_call g i) s h = mark_controller-IsConsistent g i s h
call-IsConsistent (cancel_launch_call g) s h = cancel_launch-IsConsistent g s h
call-IsConsistent close_admission_call s h = close-IsConsistent s h
call-IsConsistent reopen_admission_call s h = reopen-IsConsistent s h
call-IsConsistent (request_stop_call c) s h = request_stop-IsConsistent c s h
call-IsConsistent request_stop_all_call s h = request_stop_all-IsConsistent s h
call-IsConsistent (replace_running_call g x r l a p) s h =
    replace_running-IsConsistent g x r l a p s h
call-IsConsistent (finish_call g) s h = finish-IsConsistent g s h

pub run-IsConsistent :
    (calls : List Call) (s : Registry) → IsConsistent s → IsConsistent (run calls s)
unfolding run
run-IsConsistent [] s h = h
run-IsConsistent (c ∷ calls) s h = run-IsConsistent calls (call c s) (call-IsConsistent c s h)

pub new_registry-IsConsistent : IsConsistent new_registry
unfolding new_registry lookup
new_registry-IsConsistent = record {
  keyed = tt;
  spread = λ i j a b d e. cc e;
  closed_idle = λ e. refl;
}

-- Over any sequence of calls on a new registry, at most one client is being launched, no two
-- clients have the same client id or the same process, each generation has one client, and there
-- is no client while admission is closed for a restart.
pub run-new_registry-IsConsistent : (calls : List Call) → IsConsistent (run calls new_registry)
run-new_registry-IsConsistent calls = run-IsConsistent calls new_registry new_registry-IsConsistent

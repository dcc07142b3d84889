-- ===== src/App/GameProcess/Tests.antt =====
-- Runs of the registry of clients at concrete inputs.
use nndsk_ro_launcher.Base.{◌≡◌, refl, none, some, List, [], ◌∷◌, codes, ok, arith}
use nndsk_ro_launcher.App.GameProcess.{ProcessIdentity, ClientRuntimeGuard, new_registry}
use nndsk_ro_launcher.Base.Dict.{lookup, insert}
use nndsk_ro_launcher.Base.{text_eq}
use nndsk_ro_launcher.App.GameProcess.Launching.{begin_launch, mark_running, run_client}
use nndsk_ro_launcher.App.GameProcess.Stopping.{request_stop}
use nndsk_ro_launcher.App.GameProcess.Queries.{sole_running_pid_for_server}
use nndsk_ro_launcher.App.GameProcess.Run.{
  Call, begin_launch_call, mark_running_call, mark_controller_call, request_stop_call, finish_call,
  call, run,
}
use nndsk_ro_launcher.App.GameProcess.Consistent.{IsConsistent}
use nndsk_ro_launcher.App.GameProcess.Consistent.Runs.{run-new_registry-IsConsistent}
use nndsk_ro_launcher.App.GameProcess.Life.{Moves, life}
use nndsk_ro_launcher.App.GameProcess.Life.Calls.{
  Halts, run-new_registry-Moves, run-new_registry-Halts,
}

abbrev game : ProcessIdentity
game = record { pid = 4242; start_time = 99 }

abbrev patcher : ProcessIdentity
patcher = record { pid = 4000; start_time = 90 }

abbrev guard : ClientRuntimeGuard
guard = record { session = 1; memory = none; memory_access = none; profile_memory = none }

abbrev begin : Call
begin = begin_launch_call (codes "c1") (codes "s1") (codes "Midgard")

abbrev mark : Call
mark = mark_running_call 1 game guard (codes "plan") none

-- A client runs, and a second one is being launched.
abbrev two_clients : List Call
two_clients =
    begin
    ∷ mark_controller_call 1 patcher
    ∷ mark
    ∷ begin_launch_call (codes "c2") (codes "s1") (codes "Midgard")
    ∷ []

-- A launch is asked to stop before its process is found.
abbrev stopped_launch : List Call
stopped_launch = begin ∷ request_stop_call (codes "c1") ∷ []

sole_running_pid :
    sole_running_pid_for_server (some (codes "s1")) (run (begin ∷ mark ∷ []) new_registry) ≡ ok 4242
unfolding sole_running_pid_for_server run new_registry mark_running begin_launch insert lookup
    run_client text_eq
sole_running_pid = refl

run-new_registry-IsConsistent_example : IsConsistent (run two_clients new_registry)
run-new_registry-IsConsistent_example = run-new_registry-IsConsistent two_clients

run-new_registry-Moves_example :
    Moves
      (life 1 (run two_clients new_registry))
      (life 1 (call (finish_call 1) (run two_clients new_registry)))
run-new_registry-Moves_example = run-new_registry-Moves two_clients (finish_call 1) 1 (omega arith)

run-new_registry-Halts_example : Halts (life 1 (run (mark ∷ []) (run stopped_launch new_registry)))
unfolding run new_registry life lookup request_stop begin_launch insert text_eq
run-new_registry-Halts_example =
    run-new_registry-Halts stopped_launch (mark ∷ []) 1 (omega arith) refl

-- ===== src/Sessiond/LoopTests.antt =====
-- A run of the main loop at a concrete input.
use nndsk_ro_launcher.Base.{◌≡◌, ◌≢◌, inl, inr, refl, true, [], ◌∷◌, codes}
use nndsk_ro_launcher.Sessiond.Supervisor.{
  ready, no_child, begin_forced_shutdown, drain_reap_events, finish_shutdown, advance_shutdown, new,
}
use nndsk_ro_launcher.Sessiond.MainLoop.{
  eof, LoopReply, start, check_end, read_input, check_idle, check_stopped, turn, run_session,
}
use nndsk_ro_launcher.Sessiond.Ending.{run_session-leaves_ready}
use nndsk_ro_launcher.Sessiond.Turns.{Ends, run_session-Ends}

-- stdin ends, and no child is left.
abbrev last_turn : LoopReply
last_turn = record {
  parent_alive = true;
  parent_clock = 0;
  sigterm = true;
  sigterm_clock = 0;
  input = eof 0;
  reaped = [];
  reaped_end = no_child;
  unfinished = [];
  advance = record {
    first = [];
    first_end = no_child;
    clock_default = 0;
    clock = 0;
    clock_elapsed = 0;
    second = [];
    second_end = no_child;
  };
}

loop_ends : (run_session (last_turn ∷ []) (start (codes "/p") [])).0 ≡ true
unfolding run_session start turn check_end read_input check_idle check_stopped begin_forced_shutdown
    drain_reap_events finish_shutdown advance_shutdown new
loop_ends = refl

run_session-Ends_example : Ends (run_session (last_turn ∷ []) (start (codes "/p") []))
run_session-Ends_example = run_session-Ends (last_turn ∷ []) (start (codes "/p") [])

run_session-leaves_ready_example :
    (run_session (last_turn ∷ []) (start (codes "/p") [])).1.sup.phase ≢ ready
run_session-leaves_ready_example =
    run_session-leaves_ready last_turn [] (start (codes "/p") []) (inr (inl refl))

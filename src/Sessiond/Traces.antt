-- ===== src/Sessiond/Traces.antt =====
-- Whatever commands a supervisor gets, its tables and counters stay sound.
use nndsk_ro_launcher.Base.{List, [], ◌∷◌, Text}
use nndsk_ro_launcher.Sessiond.Launch.{Environ}
use nndsk_ro_launcher.Sessiond.Supervisor.{Supervisor, new}
use nndsk_ro_launcher.Sessiond.Commands.{Command, line, force, drain, advance, apply, run}
use nndsk_ro_launcher.Sessiond.Soundness.{IsSound, new-IsSound}
use nndsk_ro_launcher.Sessiond.Soundness.Requests.{
  begin_forced_shutdown-IsSound, handle_line-IsSound,
}
use nndsk_ro_launcher.Sessiond.Soundness.Reaping.{drain-IsSound, advance-IsSound}

-- Every command keeps a sound supervisor sound.
pub apply-IsSound : (s : Supervisor) (c : Command) → IsSound s → IsSound (apply s c).0
unfolding apply
apply-IsSound s (line reply parsed) h = handle_line-IsSound reply s parsed h
apply-IsSound s (force clock) h = begin_forced_shutdown-IsSound clock s h
apply-IsSound s (drain reaped end) h = drain-IsSound s reaped end h
apply-IsSound s (advance reply) h = advance-IsSound reply s h

run-IsSound : (s : Supervisor) (cs : List Command) → IsSound s → IsSound (run s cs).0
unfolding run
run-IsSound s [] h = h
run-IsSound s (c ∷ cs) h = run-IsSound (apply s c).0 cs (apply-IsSound s c h)

-- A new supervisor stays sound under all commands: there is one controller record for each
-- request, every pid that is waited for leads to the record that holds it, and the number of
-- launches in flight is that of the records of launches, and at most 32.
pub run-new-IsSound :
    (owned_prefix : Text) (env : Environ) (cs : List Command)
    → IsSound (run (new owned_prefix env) cs).0
run-new-IsSound owned_prefix env cs =
    run-IsSound (new owned_prefix env) cs (new-IsSound owned_prefix env)

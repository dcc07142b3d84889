-- ===== src/Sessiond/Commands.antt =====
-- What happens to a supervisor between its start and its end, as a sequence of commands with the
-- answers of the system. Each command is one call that the main loop makes.
use nndsk_ro_launcher.Base.{ℕ, List, [], ◌∷◌, ◌++◌, Text, Result}
use nndsk_ro_launcher.Base.Dict.{nat_eq}
use nndsk_ro_launcher.Protocol.{SessionRequest}
use nndsk_ro_launcher.Sessiond.Supervisor.{
  Supervisor, Output, LineReply, Reaped, WaitEnd, AdvanceReply, begin_forced_shutdown, handle_line,
  drain_reap_events, advance_shutdown,
}

pub data Command : Type 0 where
  line : LineReply → Result Text SessionRequest → Command
  force : (clock : ℕ) → Command
  drain : List Reaped → WaitEnd → Command
  advance : AdvanceReply → Command

unfoldable pub apply : Supervisor → Command → Supervisor × List Output
apply s (line reply parsed) = let (s', out, _) = handle_line reply s parsed in (s', out)
apply s (force clock) = (begin_forced_shutdown clock s, [])
apply s (drain reaped end) = drain_reap_events s reaped end
apply s (advance reply) = advance_shutdown reply s

unfoldable pub run : Supervisor → List Command → Supervisor × List Output
run s [] = (s, [])
run s (c ∷ cs) = let (s', out) = apply s c in let (t, more) = run s' cs in (t, out ++ more)

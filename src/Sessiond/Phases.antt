-- ===== src/Sessiond/Phases.antt =====
-- The phases of a session, and what they forbid.
use nndsk_ro_launcher.Base.{
  ℕ, ◌≤◌, ◌<◌, ◌≡◌, ◌≢◌, refl, Bool, true, false, List, [], ◌∷◌, arith, Text, any, Result, ok, err,
}
use nndsk_ro_launcher.Protocol.{SessionRequest}
use nndsk_ro_launcher.Sessiond.Supervisor.{
  SessionPhase, ready, stopping, stopped, Supervisor, Output, spawn, LineReply,
  begin_forced_shutdown, register_launch, register_shutdown, handle_launch, handle_shutdown,
  handle_request, handle_line, reap, reap_request, Reaped, WaitEnd, drain_reap_events,
  finish_shutdown, send_term, send_kill, AdvanceReply, advance_shutdown,
}
use nndsk_ro_launcher.Sessiond.Commands.{Command, line, force, drain, advance, apply, run}
use nndsk_ro_launcher.Sessiond.Branches.{handle_line_ind}
use nndsk_ro_launcher.Sessiond.Silence.{any-append, drain-Never, advance-Never}
use nndsk_ro_launcher.Sessiond.Waits.{AdvanceCases, drain_ind, advance_ind}

-- The order in which a session goes through its phases.
abbrev pub rank : SessionPhase → ℕ
rank ready = 0
rank stopping = 1
rank stopped = 2

-- The phase is not before `n`.
abbrev pub AtLeast : ℕ → Supervisor → Type 0
AtLeast n s = n ≤ rank s.phase

pub begin_forced-AtLeast :
    (n clock : ℕ) (s : Supervisor) → AtLeast n s → AtLeast n (begin_forced_shutdown clock s)
unfolding begin_forced_shutdown
begin_forced-AtLeast n clock s h = ground arith

pub line-AtLeast :
    (reply : LineReply) (s : Supervisor) (parsed : Result Text SessionRequest)
    → AtLeast (rank s.phase) (handle_line reply s parsed).0
unfolding register_launch register_shutdown
line-AtLeast reply s parsed =
    handle_line_ind (AtLeast (rank s.phase)) s
      (record {
        unchanged = omega arith;
        forced = λ clock. begin_forced-AtLeast (rank s.phase) clock s (omega arith);
        seen = λ r e f. omega arith;
        launched = λ r o e f room. omega arith;
        asked = λ r g e f. ground arith;
        ask_failed = λ r g clock e f. begin_forced-AtLeast (rank s.phase) clock _ (ground arith);
        closing = λ r g clock o e f. ground arith;
      })
      reply parsed

advancing-AtLeast : (n : ℕ) → AdvanceCases (AtLeast n)
unfolding reap reap_request finish_shutdown send_term send_kill
advancing-AtLeast n = record {
  waits = record { reaped = λ s r h. ground arith; waited = λ s b h. h };
  finished = λ s h. ground arith;
  termed = λ reply s h. ground arith;
  killed = λ reply s h. ground arith;
}

pub apply-AtLeast : (s : Supervisor) (c : Command) → AtLeast (rank s.phase) (apply s c).0
unfolding apply
apply-AtLeast s (line reply parsed) = line-AtLeast reply s parsed
apply-AtLeast s (force clock) = begin_forced-AtLeast (rank s.phase) clock s (omega arith)
apply-AtLeast s (drain rs end) =
    drain_ind (AtLeast (rank s.phase)) (advancing-AtLeast (rank s.phase)).waits s rs end
      (omega arith)
apply-AtLeast s (advance reply) =
    advance_ind (AtLeast (rank s.phase)) (advancing-AtLeast (rank s.phase)) reply s (omega arith)

-- A session never goes back to an earlier phase, over all commands: ready, then stopping, then
-- stopped.
pub run-rank_mono : (s : Supervisor) (cs : List Command) → rank s.phase ≤ rank (run s cs).0.phase
unfolding run
run-rank_mono s [] = omega arith
run-rank_mono s (c ∷ cs) = omega (arith, apply-AtLeast s c, run-rank_mono (apply s c).0 cs)

-- The outputs start a program.
abbrev is_spawn : Output → Bool
is_spawn (spawn _ _ _) = true
is_spawn _ = false

abbrev pub has_spawn : List Output → Bool
has_spawn out = any is_spawn out

line-no_spawn :
    (reply : LineReply) (s : Supervisor) (parsed : Result Text SessionRequest)
    → 0 < rank s.phase
    → has_spawn (handle_line reply s parsed).1 ≡ false
unfolding handle_line handle_request handle_launch handle_shutdown
line-no_spawn reply s (err reason) h = refl
line-no_spawn reply s (ok (SessionRequest.hello v)) h = refl
line-no_spawn reply s (ok (SessionRequest.launch r spec)) h = ground arith
line-no_spawn reply s (ok (SessionRequest.shutdown r spec g)) h = ground arith

pub drain-no_spawn :
    (s : Supervisor) (rs : List Reaped) (end : WaitEnd)
    → has_spawn (drain_reap_events s rs end).1 ≡ false
drain-no_spawn = drain-Never is_spawn (λ r pid c g. refl) (λ l. refl) (λ g. refl)

pub advance-no_spawn :
    (reply : AdvanceReply) (s : Supervisor) → has_spawn (advance_shutdown reply s).1 ≡ false
advance-no_spawn = advance-Never is_spawn (λ r pid c g. refl) (λ l. refl) (λ g. refl)

apply-no_spawn : (s : Supervisor) (c : Command) → 0 < rank s.phase → has_spawn (apply s c).1 ≡ false
unfolding apply
apply-no_spawn s (line reply parsed) h = line-no_spawn reply s parsed h
apply-no_spawn s (force clock) h = refl
apply-no_spawn s (drain rs end) h = drain-no_spawn s rs end
apply-no_spawn s (advance reply) h = advance-no_spawn reply s

-- Once a session is stopping or stopped, no command starts another program.
pub run-no_spawn :
    (s : Supervisor) (cs : List Command) → s.phase ≢ ready → has_spawn (run s cs).1 ≡ false
unfolding run
run-no_spawn s [] h = refl
run-no_spawn s (c ∷ cs) h =
    let left : 0 < rank s.phase = ground arith in
    let still : (apply s c).0.phase ≢ ready = λ e. ground (arith, apply-AtLeast s c) in
    any-append is_spawn (apply s c).1 _ (apply-no_spawn s c left)
      (run-no_spawn (apply s c).0 cs still)

-- ===== src/Sessiond/Tests.antt =====
-- Runs of ro-sessiond at concrete inputs.
use nndsk_ro_launcher.Base.{
  ℕ, ◌≤◌, ◌≡◌, refl, ◌≢◌, ◌↔◌, ◌||◌, ◌&&◌, true, false, none, some, List, [], ◌∷◌, Text, codes,
  text_eq, contains, contains_char, starts_with, strip_prefix, if◌then◌else◌, In, ok, err, clamp,
}
use nndsk_ro_launcher.Base.Dict.{lookup, insert, remove}
use nndsk_ro_launcher.Protocol.{
  ProcessSpec, SessionRequest, wineprefix, wineprefix_missing, validate_env_key, value_contains_nul,
  count_wineprefix, validate_change, validate_changes, validate_process_spec_structure,
  clamp_grace_ms,
}
use nndsk_ro_launcher.Protocol.WellFormed.{IsWellFormed, validate_process_spec_structure_iff}
use nndsk_ro_launcher.Sessiond.Launch.{
  FileSystem, Environ, is_absolute, is_executable, check_cwd, apply_change, apply_changes,
  merge_env, check_owned, check_wineprefix, check_steam, check_structure, check_program,
  validate_spec_for_launch,
}
use nndsk_ro_launcher.Sessiond.Launch.Environment.{
  IsOwnedEnviron, validate_spec_for_launch-IsOwnedEnviron, wineprefix_missing-unreachable,
}
use nndsk_ro_launcher.Sessiond.Supervisor.{
  stopping, stopped, Supervisor, new, LaunchReply, ShutdownReply, LineReply, none_exited, no_child,
  Reaped, AdvanceReply, sigterm, sigkill, register_launch, register_shutdown, report_launch,
  launch_spec, handle_launch, shutdown_spec, handle_shutdown, begin_forced_shutdown, handle_request,
  handle_line, reap_request, reap, drain_reap_events, finish_shutdown, send_term, send_kill,
  escalate, advance_shutdown,
}
use nndsk_ro_launcher.Sessiond.Commands.{Command, line, advance, apply, run}
use nndsk_ro_launcher.Sessiond.Soundness.{IsSound}
use nndsk_ro_launcher.Sessiond.Traces.{run-new-IsSound}
use nndsk_ro_launcher.Sessiond.Phases.{rank, has_spawn, run-rank_mono, run-no_spawn}
use nndsk_ro_launcher.Sessiond.Ownership.{AreOwnedBy, run-new-AreOwned}
use nndsk_ro_launcher.Sessiond.Acceptance.{accepted, AreDistinct, run-accepted_distinct}
use nndsk_ro_launcher.Sessiond.Escalation.{
  is_no_child, is_due, has_signal, term_time, kill_due, advance_shutdown-phase,
  advance_shutdown-signals,
}

-- What the program's functions call, for the tests that compute.
program : Unit {0}
unfolding text_eq contains contains_char starts_with strip_prefix clamp lookup insert remove
    validate_env_key value_contains_nul count_wineprefix validate_change validate_changes
    validate_process_spec_structure clamp_grace_ms is_absolute is_executable check_cwd apply_change
    apply_changes merge_env check_owned check_wineprefix check_steam check_structure check_program
    validate_spec_for_launch new register_launch register_shutdown report_launch launch_spec
    handle_launch shutdown_spec handle_shutdown begin_forced_shutdown handle_request handle_line
    reap_request reap drain_reap_events finish_shutdown send_term send_kill escalate
    advance_shutdown apply run
program = tt

abbrev wine : Text
wine = codes "/usr/bin/wine"

abbrev prefix : Text
prefix = codes "/p"

abbrev sample : ProcessSpec
sample = record {
  program = wine;
  args = codes "a.exe" ∷ [];
  cwd = codes "/game";
  env = (record { key = wineprefix; value = some prefix }) ∷ [];
}

-- Every path but that of wine is a directory, and is canonical.
abbrev files : FileSystem
files = record {
  metadata = λ path. ok (record { is_file = text_eq path wine; is_dir = true; mode = 0o755 });
  canonicalize = λ path. some path;
}

-- The launcher's own environment names another prefix.
abbrev inherited : Environ
inherited = (wineprefix, codes "/steam") ∷ (codes "HOME", codes "/home") ∷ []

abbrev merged : Environ
merged = (codes "HOME", codes "/home") ∷ (wineprefix, prefix) ∷ []

sample_accepted : validate_spec_for_launch files sample prefix inherited ≡ ok merged
unfolding program
sample_accepted = refl

sample_structure : validate_process_spec_structure sample ≡ ok tt
unfolding program
sample_structure = refl

validate_process_spec_structure_iff_example :
    (validate_process_spec_structure sample ≡ ok tt) ↔ IsWellFormed sample
validate_process_spec_structure_iff_example = validate_process_spec_structure_iff sample

validate_spec_for_launch-IsOwnedEnviron_example :
    IsOwnedEnviron files sample prefix inherited merged
validate_spec_for_launch-IsOwnedEnviron_example =
    validate_spec_for_launch-IsOwnedEnviron files sample prefix inherited merged sample_accepted

wineprefix_missing-unreachable_example :
    validate_spec_for_launch files sample prefix inherited ≢ err wineprefix_missing
wineprefix_missing-unreachable_example =
    wineprefix_missing-unreachable files sample prefix inherited

abbrev launching : LaunchReply
launching = record {
  fs = files;
  launch_controller = λ spec env. ok (record { controller_pid = 70; stream_threads = 1 ∷ 2 ∷ [] });
  start_time = some 5;
  written = true;
}

abbrev closing : ShutdownReply
closing = record {
  fs = files;
  fs_again = files;
  launch_controller = λ spec env. ok (record { controller_pid = 71; stream_threads = 3 ∷ 4 ∷ [] });
  clock = 1000;
  written = true;
}

abbrev answers : LineReply
answers = record { launching = launching; stopping = closing }

-- Children are left at both waits of a round.
abbrev waiting : (clock : ℕ) → AdvanceReply
waiting clock = record {
  first = [];
  first_end = none_exited;
  clock_default = clock;
  clock = clock;
  clock_elapsed = clock;
  second = [];
  second_end = none_exited;
}

abbrev exits : List Reaped
exits =
    record { pid = 70; exit_code = some 0; signal = none }
    ∷ record { pid = 71; exit_code = some 0; signal = none }
    ∷ []

abbrev ended : AdvanceReply
ended = record (waiting 9000) { second = exits; second_end = no_child }

abbrev story : List Command
story =
    line answers (ok (SessionRequest.launch (codes "a") sample))
    ∷ line answers (ok (SessionRequest.launch (codes "a") sample))
    ∷ line answers (ok (SessionRequest.shutdown (codes "b") sample 3000))
    ∷ advance (waiting 2000)
    ∷ advance (waiting 5000)
    ∷ advance ended
    ∷ []

abbrev start : Supervisor
start = new prefix inherited

-- The launch and the shutdown are accepted, the second launch is not, and the session ends.
story_runs :
    ((run start story).0.phase ≡ stopped)
    × (accepted (run start story).1 ≡ codes "a" ∷ codes "b" ∷ [])
    × ((run start story).0.in_flight ≡ 0)
unfolding program
story_runs = (refl, refl, refl)

run-new-IsSound_example : IsSound (run (new prefix inherited) story).0
run-new-IsSound_example = run-new-IsSound prefix inherited story

run-rank_mono_example : rank start.phase ≤ rank (run start story).0.phase
run-rank_mono_example = run-rank_mono start story

abbrev closed : Supervisor
closed = record (new prefix inherited) { phase = stopping }

run-no_spawn_example : has_spawn (run closed story).1 ≡ false
run-no_spawn_example = run-no_spawn closed story (λ e. cc)

abbrev asks : Command
asks = line answers (ok (SessionRequest.launch (codes "r9") sample))

run-new-AreOwned_example :
    AreOwnedBy prefix inherited asks (apply (run (new prefix inherited) []).0 asks).1
run-new-AreOwned_example = run-new-AreOwned prefix inherited [] asks

run-accepted_distinct_example :
    AreDistinct (accepted (run start story).1)
    × ((r : Text) → In r (accepted (run start story).1) → ¬ In r start.request_ids)
run-accepted_distinct_example = run-accepted_distinct start story

advance_shutdown-phase_example : (advance_shutdown ended closed).0.phase ≡ (
    if is_no_child ended.first_end
      || ((is_due ended closed || false) && is_no_child ended.second_end)
    then stopped
    else stopping)
unfolding new
advance_shutdown-phase_example = advance_shutdown-phase ended closed refl

advance_shutdown-signals_example :
    (has_signal sigterm (advance_shutdown (waiting 5000) closed).1 ≡ is_due (waiting 5000) closed)
    × (has_signal sigkill (advance_shutdown (waiting 5000) closed).1
        ≡ kill_due (waiting 5000) (term_time (waiting 5000) closed))
advance_shutdown-signals_example = advance_shutdown-signals (waiting 5000) closed refl refl

-- ===== src/Sessiond/Soundness/Requests.antt =====
-- Requests keep a supervisor sound.
use nndsk_ro_launcher.Base.{ℕ, ◌<◌, inl, inr, true, false, some, arith, Text, In, Result}
use nndsk_ro_launcher.Base.Dict.{nat_eq, Text-eq, weigh-insert}
use nndsk_ro_launcher.Protocol.{max_in_flight_launches, SessionRequest}
use nndsk_ro_launcher.Sessiond.Supervisor.{
  LaunchOutcome, Supervisor, LineReply, remember, enter_stopping, register_launch,
  register_shutdown, begin_forced_shutdown, handle_line,
}
use nndsk_ro_launcher.Sessiond.Branches.{handle_line_ind}
use nndsk_ro_launcher.Sessiond.Waits.{Phase-cases}
use nndsk_ro_launcher.Sessiond.Soundness.{
  IsSound, launch_weight, fresh_lookup, tables-insert, tables-remember,
}

pub begin_forced_shutdown-IsSound :
    (clock : ℕ) (s : Supervisor) → IsSound s → IsSound (begin_forced_shutdown clock s)
unfolding begin_forced_shutdown
begin_forced_shutdown-IsSound clock s h = elim (Phase-cases s.phase) [
  | inl e ↦ rw (e, begin_forced_shutdown) h
  | inr e ↦ elim e [
    | inl f ↦
        rw (f, begin_forced_shutdown)
          (record {
            tables = h.tables;
            launches_counted = h.launches_counted;
            launches_bounded = h.launches_bounded;
          })
    | inr f ↦
        rw (f, begin_forced_shutdown)
          (record {
            tables = h.tables;
            launches_counted = h.launches_counted;
            launches_bounded = h.launches_bounded;
          })
  ]
]

module _ (s : Supervisor) (request_id : Text) (sound : IsSound s)
    (fresh : ¬ In request_id s.request_ids) where
  remember-IsSound : IsSound (remember s request_id)
  remember-IsSound = record {
    tables = tables-remember sound.tables request_id;
    launches_counted = sound.launches_counted;
    launches_bounded = sound.launches_bounded;
  }

  enter_stopping-IsSound : (grace_ms : ℕ) → IsSound (enter_stopping s request_id grace_ms)
  enter_stopping-IsSound grace_ms = record {
    tables = tables-remember sound.tables request_id;
    launches_counted = sound.launches_counted;
    launches_bounded = sound.launches_bounded;
  }

  register_launch-IsSound :
      (outcome : LaunchOutcome)
      → s.in_flight < max_in_flight_launches
      → IsSound (register_launch (remember s request_id) request_id outcome)
  unfolding register_launch
  register_launch-IsSound outcome room = record {
    tables = tables-insert sound.tables _ request_id fresh;
    launches_counted = ground (
      arith,
      sound.launches_counted,
      weigh-insert launch_weight request_id
          (record {
            request_id = request_id;
            controller_pid = outcome.controller_pid;
            is_shutdown_controller = false;
            streams = some outcome;
          })
          s.controllers (fresh_lookup sound.tables request_id fresh),
    );
    launches_bounded = omega arith;
  }

  register_shutdown-IsSound :
      (grace_ms clock : ℕ) (outcome : LaunchOutcome)
      → IsSound (register_shutdown (enter_stopping s request_id grace_ms) request_id outcome clock)
  unfolding register_shutdown
  register_shutdown-IsSound grace_ms clock outcome = record {
    tables = tables-insert sound.tables _ request_id fresh;
    launches_counted = ground (
      arith,
      sound.launches_counted,
      weigh-insert launch_weight request_id
          (record {
            request_id = request_id;
            controller_pid = outcome.controller_pid;
            is_shutdown_controller = true;
            streams = some outcome;
          })
          s.controllers (fresh_lookup sound.tables request_id fresh),
    );
    launches_bounded = sound.launches_bounded;
  }

-- A line, whatever it asks for and however the system answers, keeps a supervisor sound.
pub handle_line-IsSound :
    (reply : LineReply) (s : Supervisor) (parsed : Result Text SessionRequest)
    → IsSound s
    → IsSound (handle_line reply s parsed).0
handle_line-IsSound reply s parsed sound =
    handle_line_ind IsSound s
      (record {
        unchanged = sound;
        forced = λ clock. begin_forced_shutdown-IsSound clock s sound;
        seen = λ r _ fresh. remember-IsSound s r sound fresh;
        launched = λ r o _ fresh room. register_launch-IsSound s r sound fresh o room;
        asked = λ r g _ fresh. enter_stopping-IsSound s r sound fresh g;
        ask_failed = λ r g clock _ fresh.
            begin_forced_shutdown-IsSound clock (enter_stopping s r g)
              (enter_stopping-IsSound s r sound fresh g);
        closing = λ r g clock o _ fresh. register_shutdown-IsSound s r sound fresh g clock o;
      })
      reply parsed

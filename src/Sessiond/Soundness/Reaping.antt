-- ===== src/Sessiond/Soundness/Reaping.antt =====
-- Reaping and the escalation of a shutdown keep a supervisor sound.
use nndsk_ro_launcher.Base.{◌≡◌, refl, inl, inr, List, arith, Option-cases}
use nndsk_ro_launcher.Base.Dict.{nat_eq, Text-eq, lookup, weigh-remove}
use nndsk_ro_launcher.Sessiond.Supervisor.{
  Supervisor, Reaped, WaitEnd, reap_request, reap, drain_reap_events, AdvanceReply, finish_shutdown,
  send_term, send_kill, advance_shutdown,
}
use nndsk_ro_launcher.Sessiond.Waits.{AdvanceCases, drain_ind, advance_ind}
use nndsk_ro_launcher.Sessiond.Soundness.{IsSound, launch_weight, tables-remove}

-- `IsSound` reads only these fields.
IsSound-of :
    (s t : Supervisor)
    → t.request_ids ≡ s.request_ids
    → t.pid_to_request ≡ s.pid_to_request
    → t.controllers ≡ s.controllers
    → t.in_flight ≡ s.in_flight
    → IsSound s
    → IsSound t
IsSound-of s t a b c d h = record {
  tables = rw (a, b, c) h.tables;
  launches_counted = rw (c, d) h.launches_counted;
  launches_bounded = rw d h.launches_bounded;
}

pub reap-IsSound : (s : Supervisor) (r : Reaped) → IsSound s → IsSound (reap s r).0
unfolding reap reap_request
reap-IsSound s r h = elim (Option-cases (lookup r.pid s.pid_to_request)) [
  | inl e ↦ rw (e, reap) (IsSound-of s _ refl refl refl refl h)
  | inr (request_id, e) ↦
      let (c, known, _) = h.tables.pids_linked r.pid request_id e in
      let gone =
        weigh-remove launch_weight request_id c s.controllers h.tables.controllers_map known in
      rw (e, reap)
        (record {
          tables = tables-remove h.tables r.pid request_id e;
          launches_counted = ground (arith, h.launches_counted, gone);
          launches_bounded = ground (arith, h.launches_bounded);
        })
]

finish-IsSound : (s : Supervisor) → IsSound s → IsSound (finish_shutdown s).0
unfolding finish_shutdown
finish-IsSound s h = IsSound-of s _ refl refl refl refl h

send_term-IsSound :
    (reply : AdvanceReply) (s : Supervisor) → IsSound s → IsSound (send_term reply s).0
unfolding send_term
send_term-IsSound reply s h =
    IsSound-of s _ (ground arith) (ground arith) (ground arith) (ground arith) h

send_kill-IsSound :
    (reply : AdvanceReply) (s : Supervisor) → IsSound s → IsSound (send_kill reply s).0
unfolding send_kill
send_kill-IsSound reply s h =
    IsSound-of s _ (ground arith) (ground arith) (ground arith) (ground arith) h

soundly : AdvanceCases IsSound
soundly = record {
  waits = record { reaped = reap-IsSound; waited = λ s b h. IsSound-of s _ refl refl refl refl h };
  finished = finish-IsSound;
  termed = send_term-IsSound;
  killed = send_kill-IsSound;
}

pub drain-IsSound :
    (s : Supervisor) (rs : List Reaped) (end : WaitEnd)
    → IsSound s
    → IsSound (drain_reap_events s rs end).0
drain-IsSound = drain_ind IsSound soundly.waits

pub advance-IsSound :
    (reply : AdvanceReply) (s : Supervisor) → IsSound s → IsSound (advance_shutdown reply s).0
advance-IsSound = advance_ind IsSound soundly

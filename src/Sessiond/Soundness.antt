-- ===== src/Sessiond/Soundness.antt =====
-- The tables and counters of a supervisor agree with one another. The children prove that every
-- command keeps this.
pub mod Requests
pub mod Reaping
use nndsk_ro_launcher.Base.{
  ℕ, ◌+◌, ◌-◌, ◌≤◌, ◌<◌, ◌≡◌, refl, sym, ap, ◌∙◌, ◌≢◌, ◌⊎◌, inl, inr, Bool, true, false, Option,
  none, some, List, [], ◌∷◌, ◌++◌, arith, Text, text_eq, text_eq_iff, text_eq_refl, text_eq-false,
  contains, contains-false, ◌==◌, ==_iff, leb, if◌then◌else◌, Bool-cases, Option-cases,
  Result-cases, In, Result, ok, err,
}
use nndsk_ro_launcher.Base.Dict.{
  nat_eq, Text-eq, lookup, insert, remove, weigh, IsMap, lookup-insert, lookup-remove, insert-IsMap,
  remove-IsMap, weigh-insert, weigh-remove,
}
use nndsk_ro_launcher.Protocol.{ProcessSpec, max_in_flight_launches, clamp_grace_ms, SessionRequest}
use nndsk_ro_launcher.Sessiond.Launch.{Environ, validate_spec_for_launch}
use nndsk_ro_launcher.Sessiond.Supervisor.{
  ready, stopping, stopped, LaunchOutcome, ControllerRecord, Supervisor, new, LaunchReply,
  ShutdownReply, remember, enter_stopping, register_launch, register_shutdown, report_launch,
  launch_spec, handle_launch, shutdown_spec, handle_shutdown, begin_forced_shutdown, handle_request,
  handle_line, LineReply, Reaped, WaitEnd, none_exited, no_child, reap_request, reap,
  drain_reap_events, AdvanceReply, finish_shutdown, send_term, send_kill, escalate,
  advance_shutdown, is_ready, is_shutdown,
}
use nndsk_ro_launcher.Sessiond.Tables.{
  Pids, Controllers, AreLinked, insert-AreLinked, remove-AreLinked,
}

-- A launch counts, a shutdown controller does not.
abbrev pub launch_weight : ControllerRecord → ℕ
launch_weight c = if c.is_shutdown_controller then 0 else 1

-- Every controller belongs to a request that was seen.
abbrev pub AreKnown : List Text → Controllers → Type 0
AreKnown ids table =
    (request_id : Text) (c : ControllerRecord)
    → lookup request_id table ≡ some c
    → In request_id ids

-- The tables: one record for each request, known requests only, every pid leads to its record.
pub record AreSoundTables (ids : List Text) (pids : Pids) (table : Controllers) : Type 0 where
  pub controllers_map : IsMap table
  pub controllers_known : AreKnown ids table
  pub pids_linked : AreLinked pids table

pub record IsSound (s : Supervisor) : Type 0 where
  pub tables : AreSoundTables s.request_ids s.pid_to_request s.controllers
  pub launches_counted : s.in_flight ≡ weigh launch_weight s.controllers
  pub launches_bounded : s.in_flight ≤ max_in_flight_launches

pub new-IsSound : (owned_prefix : Text) (env : Environ) → IsSound (new owned_prefix env)
unfolding new lookup weigh
new-IsSound owned_prefix env = record {
  tables = record {
    controllers_map = tt;
    controllers_known = λ r c h. absurd (ground arith);
    pids_linked = λ p r h. absurd (ground arith);
  };
  launches_counted = refl;
  launches_bounded = omega arith;
}

module _ {ids : List Text} {pids : Pids} {table : Controllers}
    (sound : AreSoundTables ids pids table) where
  pub fresh_lookup : (request_id : Text) → ¬ In request_id ids → lookup request_id table ≡ none
  fresh_lookup request_id h = elim (Option-cases (lookup request_id table)) [
    | inl e ↦ e
    | inr (c, e) ↦ absurd (h (sound.controllers_known request_id c e))
  ]

  pub tables-insert :
      (c : ControllerRecord) (request_id : Text)
      → ¬ In request_id ids
      → AreSoundTables
          (request_id ∷ ids)
          (insert c.controller_pid request_id pids)
          (insert request_id c table)
  tables-insert c request_id h = record {
    controllers_map = insert-IsMap request_id c table sound.controllers_map;
    controllers_known = λ r d e. elim (Bool-cases (text_eq request_id r)) [
      | inl same ↦ inl (sym ((text_eq_iff request_id r).0 same))
      | inr other ↦
          inr (sound.controllers_known r d (ground (arith, lookup-insert request_id r c table)))
    ];
    pids_linked =
        insert-AreLinked pids table c request_id sound.pids_linked (fresh_lookup request_id h);
  }

  pub tables-remember : (request_id : Text) → AreSoundTables (request_id ∷ ids) pids table
  tables-remember request_id = record {
    controllers_map = sound.controllers_map;
    controllers_known = λ r d e. inr (sound.controllers_known r d e);
    pids_linked = sound.pids_linked;
  }

  pub tables-remove :
      (pid : ℕ) (request_id : Text)
      → lookup pid pids ≡ some request_id
      → AreSoundTables ids (remove pid pids) (remove request_id table)
  tables-remove pid request_id h = record {
    controllers_map = remove-IsMap request_id table sound.controllers_map;
    controllers_known =
        λ r d e. sound.controllers_known r d (ground (arith, lookup-remove request_id r table));
    pids_linked = remove-AreLinked pids table pid request_id sound.pids_linked h;
  }

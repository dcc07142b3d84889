-- ===== src/Sessiond/Acceptance.antt =====
-- A request id is accepted at most once.
use nndsk_ro_launcher.Base.{
  ℕ, ◌≡◌, refl, ◌⊎◌, inl, inr, ◌∙◌, sym, ap, false, List, [], ◌∷◌, ◌++◌, arith, Text, In, contains,
  contains-false, if◌then◌else◌, Result, ok, err, Bool-cases,
}
use mathlib.Core.List.{append_assoc}
use nndsk_ro_launcher.Protocol.{SessionRequest, ProcessSpec, SessionEvent}
use nndsk_ro_launcher.Sessiond.Supervisor.{
  Supervisor, Output, emit, LaunchReply, ShutdownReply, LineReply, report_launch, launch_spec,
  shutdown_spec, handle_launch, handle_shutdown, handle_request, handle_line, begin_forced_shutdown,
  register_launch, register_shutdown, remember, enter_stopping, reap, reap_request, Reaped, WaitEnd,
  none_exited, no_child, drain_reap_events, finish_shutdown, send_term, send_kill, escalate,
  AdvanceReply, advance_shutdown,
}
use nndsk_ro_launcher.Sessiond.Commands.{Command, line, force, drain, advance, apply, run}
use nndsk_ro_launcher.Sessiond.Waits.{AdvanceCases, drain_ind, advance_ind, Phase-cases}

-- The id that an output reports as accepted.
abbrev accepted_id : Output → List Text
accepted_id (emit (SessionEvent.launch_accepted r _ _)) = r ∷ []
accepted_id (emit (SessionEvent.shutdown_accepted r)) = r ∷ []
accepted_id _ = []

-- The ids of the requests that were reported as accepted, in order.
abbrev pub accepted : List Output → List Text
accepted [] = []
accepted (o ∷ out) = accepted_id o ++ accepted out

-- A step about the request `r`: it is not accepted, or it is new, and is remembered.
abbrev AddsOne : Text → Supervisor → List Output → Supervisor → Type 0
AddsOne r s out t =
    ((accepted out ≡ []) × ((t.request_ids ≡ s.request_ids) ⊎ (t.request_ids ≡ r ∷ s.request_ids)))
    ⊎ ((accepted out ≡ r ∷ [])
        × (contains s.request_ids r ≡ false)
        × (t.request_ids ≡ r ∷ s.request_ids))

abbrev Adds : Supervisor → List Output → Supervisor → Type 0
Adds s out t = (r : Text) × AddsOne r s out t

begin_forced-ids :
    (clock : ℕ) (s : Supervisor) → (begin_forced_shutdown clock s).request_ids ≡ s.request_ids
unfolding begin_forced_shutdown
begin_forced-ids clock s = ground arith

launch_spec-ids :
    (reply : LaunchReply) (s : Supervisor) (r : Text) (spec : ProcessSpec)
    → ((launch_spec reply s r spec).0.request_ids ≡ s.request_ids)
      × ((accepted (launch_spec reply s r spec).1 ≡ [])
          ⊎ (accepted (launch_spec reply s r spec).1 ≡ r ∷ []))
unfolding launch_spec report_launch register_launch
launch_spec-ids reply s r spec = ground arith

shutdown_spec-ids :
    (reply : ShutdownReply) (s : Supervisor) (r : Text) (spec : ProcessSpec)
    → ((shutdown_spec reply s r spec).0.request_ids ≡ s.request_ids)
      × ((accepted (shutdown_spec reply s r spec).1 ≡ [])
          ⊎ (accepted (shutdown_spec reply s r spec).1 ≡ r ∷ []))
unfolding shutdown_spec register_shutdown begin_forced_shutdown
shutdown_spec-ids reply s r spec = ground arith

handle_launch-AddsOne :
    (reply : LaunchReply) (s : Supervisor) (r : Text) (spec : ProcessSpec)
    → let (t, out, _) = handle_launch reply s r spec in AddsOne r s out t
unfolding handle_launch
handle_launch-AddsOne reply s r spec = ground (arith, launch_spec-ids reply (remember s r) r spec)

handle_shutdown-AddsOne :
    (reply : ShutdownReply) (s : Supervisor) (r : Text) (spec : ProcessSpec) (grace_ms : ℕ)
    → let (t, out, _) = handle_shutdown reply s r spec grace_ms in AddsOne r s out t
unfolding handle_shutdown
handle_shutdown-AddsOne reply s r spec grace_ms =
    ground (arith, shutdown_spec-ids reply (enter_stopping s r grace_ms) r spec)

handle_line-Adds :
    (reply : LineReply) (s : Supervisor) (parsed : Result Text SessionRequest)
    → let (t, out, _) = handle_line reply s parsed in Adds s out t
unfolding handle_line handle_request
handle_line-Adds reply s (err reason) = ([], inl (refl, inl refl))
handle_line-Adds reply s (ok (SessionRequest.hello v)) =
    ([], inl (refl, inl (begin_forced-ids reply.stopping.clock s)))
handle_line-Adds reply s (ok (SessionRequest.launch r spec)) =
    (r, handle_launch-AddsOne reply.launching s r spec)
handle_line-Adds reply s (ok (SessionRequest.shutdown r spec g)) =
    (r, handle_shutdown-AddsOne reply.stopping s r spec g)

accepted-append : (xs ys : List Output) → accepted (xs ++ ys) ≡ accepted xs ++ accepted ys
accepted-append [] ys = refl
accepted-append (x ∷ xs) ys =
    ap (λ l. accepted_id x ++ l) (accepted-append xs ys) ∙ sym (append_assoc (accepted_id x) _ _)

accepted-append_nil :
    (xs ys : List Output) → accepted xs ≡ [] → accepted ys ≡ [] → accepted (xs ++ ys) ≡ []
accepted-append_nil xs ys h k = accepted-append xs ys ∙ rw (h, k) refl

drain-accepted :
    (s : Supervisor) (rs : List Reaped) (end : WaitEnd)
    → accepted (drain_reap_events s rs end).1 ≡ []
unfolding drain_reap_events reap reap_request
drain-accepted s [] none_exited = refl
drain-accepted s [] no_child = refl
drain-accepted s (r ∷ rs) end =
    accepted-append_nil (reap s r).1 _ (ground arith) (drain-accepted (reap s r).0 rs end)

escalate-accepted : (reply : AdvanceReply) (s : Supervisor) → accepted (escalate reply s).1 ≡ []
unfolding escalate send_term send_kill finish_shutdown
escalate-accepted reply s =
    let a = (send_term reply s).0 in
    let b = (send_kill reply a).0 in
    accepted-append_nil (send_term reply s).1 _ (ground arith) (
      accepted-append_nil (send_kill reply a).1 _ (ground arith) (
        accepted-append_nil (drain_reap_events b reply.second reply.second_end).1 _
          (drain-accepted b reply.second reply.second_end) (ground arith)))

advance-accepted :
    (reply : AdvanceReply) (s : Supervisor) → accepted (advance_shutdown reply s).1 ≡ []
unfolding advance_shutdown finish_shutdown
advance-accepted reply s = elim (Phase-cases s.phase) [
  | inl e ↦ rw (e, advance_shutdown) refl
  | inr k ↦ elim k [
    | inl e ↦ rw (e, advance_shutdown) refl
    | inr e ↦
        let a = (drain_reap_events s reply.first reply.first_end).0 in
        rw (e, advance_shutdown)
          (accepted-append_nil (drain_reap_events s reply.first reply.first_end).1 _
            (drain-accepted s reply.first reply.first_end)
            (elim (Bool-cases a.last_wait_echild) [
              | inl h ↦ rw (h, if◌then◌else◌) refl
              | inr h ↦ rw (h, if◌then◌else◌) (escalate-accepted reply a)
            ]))
  ]
]

abbrev HasIds : List Text → Supervisor → Type 0
HasIds ids t = t.request_ids ≡ ids

advancing-HasIds : (ids : List Text) → AdvanceCases (HasIds ids)
unfolding reap reap_request finish_shutdown send_term send_kill
advancing-HasIds ids = record {
  waits = record { reaped = λ s r h. ground arith; waited = λ s b h. h };
  finished = λ s h. h;
  termed = λ reply s h. ground arith;
  killed = λ reply s h. ground arith;
}

apply-Adds : (s : Supervisor) (c : Command) → Adds s (apply s c).1 (apply s c).0
unfolding apply
apply-Adds s (line reply parsed) = handle_line-Adds reply s parsed
apply-Adds s (force clock) = ([], inl (refl, inl (begin_forced-ids clock s)))
apply-Adds s (drain rs end) =
    let ids =
      drain_ind (HasIds s.request_ids) (advancing-HasIds s.request_ids).waits s rs end refl in
    ([], inl (drain-accepted s rs end, inl ids))
apply-Adds s (advance reply) =
    let ids = advance_ind (HasIds s.request_ids) (advancing-HasIds s.request_ids) reply s refl in
    ([], inl (advance-accepted reply s, inl ids))

-- No id twice.
abbrev pub AreDistinct : List Text → Type 0
AreDistinct [] = Unit
AreDistinct (x ∷ xs) = ¬ In x xs × AreDistinct xs

-- Over all commands, the ids that are reported as accepted are pairwise distinct, and none is one
-- that the session had seen before.
pub run-accepted_distinct :
    (s : Supervisor) (cs : List Command)
    → AreDistinct (accepted (run s cs).1)
      × ((r : Text) → In r (accepted (run s cs).1) → ¬ In r s.request_ids)
unfolding run
run-accepted_distinct s [] = (tt, λ r h. absurd h)
run-accepted_distinct s (c ∷ cs) =
    let t = (apply s c).0 in
    let later = accepted (run t cs).1 in
    let (distinct, new) = run-accepted_distinct t cs in
    let (r, how) = apply-Adds s c in
    rw (accepted-append (apply s c).1 (run t cs).1) (elim how [
      | inl (none_now, ids) ↦
          rw none_now (
            distinct,
            λ x m seen. new x m (elim ids [ inl e ↦ rw e seen | inr e ↦ rw e (inr seen) ]),
          )
      | inr (now, unseen, ids) ↦ rw now (
        (λ m. new r m (rw ids (inl refl)), distinct),
        λ x m seen. elim m [
          | inl e ↦ contains-false s.request_ids r unseen (rw (← e) seen)
          | inr k ↦ new x k (rw ids (inr seen))
        ],
      )
    ])

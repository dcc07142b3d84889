-- ===== src/App/GameProcess/Consistent/Launches.antt =====
-- The methods that launch clients, and the closure of admission, keep the registry consistent.
use nndsk_ro_launcher.Base.{
  ℕ, ◌≡◌, ◌≢◌, refl, sym, true, false, not, Option, none, some, [], ◌∷◌, Text, text_eq, text_eq_iff,
  is_empty, ok, if_cases, option_cases, result_cases, arith,
}
use nndsk_ro_launcher.Base.Dict.{nat_eq, lookup, insert-IsMap}
use nndsk_ro_launcher.App.GameProcess.{
  ProcessIdentity, ClientRuntimeGuard, ClientMetadata, ProcessState, Registry, metadata, identity,
  is_launching,
}
use nndsk_ro_launcher.App.GameProcess.Launching.{
  any_client, begin_launch, run_client, is_taken, mark_running, control_client, mark_controller,
  cancel_launch, close_admission_if_idle, reopen_admission,
}
use nndsk_ro_launcher.App.GameProcess.Consistent.{
  Apart, Alike, Clients, insert-Spread, any-false-lookup, IsConsistent, has_identity-false,
  put-IsConsistent, put_kindred-IsConsistent, drop-IsConsistent, Leaves,
}

-- No client but that of a generation has an identity.
not_taken :
    (g : ℕ) (i : ProcessIdentity) (s : Registry)
    → is_taken g i s ≡ false
    → (j : ℕ) (b : ProcessState) → g ≢ j
    → lookup j s.clients ≡ some b
    → identity b ≢ some i
unfolding is_taken any_client
not_taken g i s h j b d k =
    let free = any-false-lookup _ s.clients j b h k in has_identity-false i b (ground arith)

run_client-Apart :
    (i : ProcessIdentity) (r : ClientRuntimeGuard) (p : Text) (o : Option Text)
    → (old c b : ProcessState) → run_client i r p o old ≡ ok c
    → Apart old b
    → identity b ≢ some i
    → Apart c b
unfolding run_client
run_client-Apart i r p o (ProcessState.launching m controller false) c b e h free =
    let made : ProcessState.running m i controller p o r false ≡ c = cc e in
    rw (sym made) (record {
      one_launching = refl;
      ids_differ = h.ids_differ;
      processes_differ = λ j k l. free (cc (k, l));
    })
run_client-Apart i r p o (ProcessState.launching m controller true) c b e h free = cc e
run_client-Apart i r p o (ProcessState.running _ _ _ _ _ _ _) c b e h free = cc e

control_client-Alike :
    (i : ProcessIdentity) (old c : ProcessState) → control_client i old ≡ ok c → Alike c old
unfolding control_client
control_client-Alike i (ProcessState.launching m controller false) c e =
    let made : ProcessState.launching m (some i) false ≡ c = cc e in
    rw (sym made) (refl, refl, refl)
control_client-Alike i (ProcessState.launching m controller true) c e = cc e
control_client-Alike i (ProcessState.running _ _ _ _ _ _ _) c e = cc e

pub mark_running-IsConsistent :
    (g : ℕ) (i : ProcessIdentity) (r : ClientRuntimeGuard) (p : Text) (o : Option Text)
    → (s : Registry) → IsConsistent s
    → Leaves (mark_running g i r p o s)
unfolding mark_running
mark_running-IsConsistent g i r p o s h =
    if_cases Leaves s.poisoned (λ _. h)
      (λ _.
        if_cases Leaves (is_taken g i s) (λ _. h)
          (λ t.
            option_cases Leaves (lookup g s.clients) (λ _. h)
              (λ old f.
                result_cases Leaves (run_client i r p o old)
                  (λ c k. put-IsConsistent s g old c h f (λ j b d l.
                    run_client-Apart i r p o old c b k (h.spread g j old b d f l)
                      (not_taken g i s t j b d l)))
                  (λ _ _. h))))

pub mark_controller-IsConsistent :
    (g : ℕ) (i : ProcessIdentity) (s : Registry) → IsConsistent s → Leaves (mark_controller g i s)
unfolding mark_controller
mark_controller-IsConsistent g i s h =
    if_cases Leaves s.poisoned (λ _. h)
      (λ _.
        option_cases Leaves (lookup g s.clients) (λ _. h)
          (λ old f.
            result_cases Leaves (control_client i old)
              (λ c k. put_kindred-IsConsistent s g old c h f (control_client-Alike i old c k))
              (λ _ _. h)))

pub cancel_launch-IsConsistent :
    (g : ℕ) (s : Registry) → IsConsistent s → IsConsistent (cancel_launch g s)
unfolding cancel_launch
cancel_launch-IsConsistent g s h =
    if_cases IsConsistent s.poisoned (λ _. h)
      (λ _.
        option_cases IsConsistent (lookup g s.clients) (λ _. h)
          (λ old _.
            if_cases IsConsistent (is_launching old) (λ _. drop-IsConsistent s g h) (λ _. h)))

is_empty-true : (m : Clients) → is_empty m ≡ true → m ≡ []
is_empty-true [] h = refl
is_empty-true (c ∷ m) h = cc

pub close-IsConsistent : (s : Registry) → IsConsistent s → Leaves (close_admission_if_idle s)
unfolding close_admission_if_idle
close-IsConsistent s h =
    if_cases Leaves s.poisoned (λ _. h)
      (λ _.
        if_cases Leaves (not (is_empty s.clients)) (λ _. h)
          (λ e.
            if_cases Leaves s.relaunch_admission_closed (λ _. h)
              (λ _. record {
                keyed = h.keyed;
                spread = h.spread;
                closed_idle = λ _. is_empty-true s.clients (ground arith);
              })))

pub reopen-IsConsistent : (s : Registry) → IsConsistent s → IsConsistent (reopen_admission s)
unfolding reopen_admission
reopen-IsConsistent s h =
    if_cases IsConsistent s.poisoned (λ _. h)
      (λ _. record { keyed = h.keyed; spread = h.spread; closed_idle = λ e. cc e })

-- A new client is apart from the others when none is being launched and none has its id.
launched-Apart :
    (m : ClientMetadata) (b : ProcessState)
    → is_launching b ≡ false
    → text_eq (metadata b).client_id m.client_id ≡ false
    → Apart (ProcessState.launching m none false) b
launched-Apart m b l t = record {
  one_launching = ground arith;
  ids_differ = λ e. cc (t, (text_eq_iff (metadata b).client_id m.client_id).1 (sym e));
  processes_differ = λ i e. cc;
}

pub begin_launch-IsConsistent :
    (c i n : Text) (s : Registry) → IsConsistent s → Leaves (begin_launch c i n s)
unfolding begin_launch any_client
begin_launch-IsConsistent c i n s h =
    let m : ClientMetadata = record { client_id = c; server_id = i; server_name = n } in
    if_cases Leaves s.poisoned (λ _. h)
      (λ _.
        if_cases Leaves s.relaunch_admission_closed (λ _. h)
          (λ is_open.
            if_cases Leaves (any_client (λ c. is_launching c.1) s) (λ _. h)
              (λ none_launching.
                if_cases Leaves (any_client (λ d. text_eq (metadata d.1).client_id c) s) (λ _. h)
                  (λ fresh. record {
                    keyed = insert-IsMap s.next_generation _ s.clients h.keyed;
                    spread = insert-Spread s.next_generation _ s.clients h.spread (λ j b d k.
                        launched-Apart m b (any-false-lookup _ s.clients j b none_launching k)
                          (any-false-lookup _ s.clients j b fresh k));
                    closed_idle = λ e. cc (is_open, e);
                  }))))

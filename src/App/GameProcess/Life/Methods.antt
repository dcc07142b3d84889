-- ===== src/App/GameProcess/Life/Methods.antt =====
-- Every method moves the life of each generation along the life cycle.
use mathlib.Core.Option
use nndsk_ro_launcher.Base.{
  ℕ, ◌+◌, ◌%◌, ◌^◌, ◌<◌, ◌≡◌, inl, inr, refl, sym, ◌∙◌, true, false, not, ◌&&◌, Option, none, some,
  [], Text, text_eq, is_empty, if_cases, option_cases, result_cases, if◌then◌else◌, arith, ok,
  Bool-cases,
}
use nndsk_ro_launcher.Base.Dict.{nat_eq, lookup, IsMap}
use nndsk_ro_launcher.App.GameProcess.{
  ProcessIdentity, same_identity, MemoryAccess, ProfileMemory, ClientRuntimeGuard, ProcessState,
  Registry, is_launching, metadata, FinishedClient,
}
use nndsk_ro_launcher.App.GameProcess.Launching.{
  any_client, begin_launch, run_client, is_taken, mark_running, control_client, mark_controller,
  cancel_launch, close_admission_if_idle, reopen_admission,
}
use nndsk_ro_launcher.App.GameProcess.Queries.{find_client}
use nndsk_ro_launcher.App.GameProcess.Stopping.{
  stop_client, request_stop, request_stop_all, finished_client, finish,
}
use nndsk_ro_launcher.App.GameProcess.Handoff.{is_contested, replace_client, replace_running}
use nndsk_ro_launcher.App.GameProcess.Consistent.Stops.{find_client-lookup, lookup-stop_all}
use nndsk_ro_launcher.App.GameProcess.Life.{
  gone, phase, life_at, life, Moves, stays, runs, stops_launch, stops_client, cancels, finishes,
  IsFresh, Follows, Follows-refl,
}
use nndsk_ro_launcher.App.GameProcess.Life.Changes.{
  put-Follows, drop-Follows, still-Follows, launch-Follows,
}

-- The change of the state in each method is a move of the life cycle.
run_client-Moves :
    (i : ProcessIdentity) (r : ClientRuntimeGuard) (p : Text) (o : Option Text)
    → (old c : ProcessState) → run_client i r p o old ≡ ok c
    → Moves (phase old) (phase c)
unfolding run_client phase
run_client-Moves i r p o (ProcessState.launching m controller false) c e =
    let made : ProcessState.running m i controller p o r false ≡ c = cc e in rw (sym made) runs
run_client-Moves i r p o (ProcessState.launching m controller true) c e = cc e
run_client-Moves i r p o (ProcessState.running _ _ _ _ _ _ _) c e = cc e

control_client-Moves :
    (i : ProcessIdentity) (old c : ProcessState)
    → control_client i old ≡ ok c
    → Moves (phase old) (phase c)
unfolding control_client phase
control_client-Moves i (ProcessState.launching m controller false) c e =
    let made : ProcessState.launching m (some i) false ≡ c = cc e in rw (sym made) stays
control_client-Moves i (ProcessState.launching m controller true) c e = cc e
control_client-Moves i (ProcessState.running _ _ _ _ _ _ _) c e = cc e

stop_client-Moves : (c : ProcessState) → Moves (phase c) (phase (stop_client c))
unfolding stop_client phase
stop_client-Moves (ProcessState.launching m controller stop) = stops_launch
stop_client-Moves (ProcessState.running m i c p o r stop) = stops_client

replace_client-Moves :
    (x i : ProcessIdentity) (l : ℕ) (a : MemoryAccess) (p : ProfileMemory) (old c : ProcessState)
    → replace_client x i l a p old ≡ some c
    → Moves (phase old) (phase c)
unfolding replace_client phase
replace_client-Moves x i l a p (ProcessState.launching _ _ _) c e = cc e
replace_client-Moves x i l a p (ProcessState.running m j ctl plan o r stop) c e =
    elim (Bool-cases (not stop && same_identity j x)) [
      | inl t ↦
          let kept : ClientRuntimeGuard = record r {
            memory = some l;
            memory_access = some a;
            profile_memory = some p;
          } in
          let made : ProcessState.running m i ctl plan o kept stop ≡ c =
            cc (rw (t, if◌then◌else◌) at e) in
          rw (sym made) stays
      | inr t ↦ cc (rw (t, if◌then◌else◌) at e)
    ]

cancel-Moves : (c : ProcessState) → is_launching c ≡ true → Moves (phase c) gone
unfolding phase
cancel-Moves (ProcessState.launching _ _ _) h = cancels
cancel-Moves (ProcessState.running _ _ _ _ _ _ _) h = cc h

finish-Moves :
    (n : ℕ) (c : ProcessState) (f : FinishedClient)
    → finished_client n c ≡ some f
    → Moves (phase c) gone
unfolding finished_client phase
finish-Moves n (ProcessState.launching _ _ _) f h = cc h
finish-Moves n (ProcessState.running _ _ _ _ _ _ _) f h = finishes

-- The registry that a method leaves beside its answer follows the one before.
abbrev pub To : {A : Type 0} → Registry → A × Registry → Type 0
To s r = Follows s r.1

pub begin_launch-Follows :
    (c i n : Text) (s : Registry)
    → IsFresh s
    → s.next_generation + 1 < 2 ^ 64
    → To s (begin_launch c i n s)
unfolding begin_launch phase
begin_launch-Follows c i n s h b =
    let same = Follows-refl s h in
    let next : (s.next_generation + 1) % 2 ^ 64 ≡ s.next_generation + 1 = omega arith in
    if_cases (To s) s.poisoned (λ _. same)
      (λ _.
        if_cases (To s) s.relaunch_admission_closed (λ _. same)
          (λ _.
            if_cases (To s) (any_client (λ d. is_launching d.1) s) (λ _. same)
              (λ _.
                if_cases (To s) (any_client (λ d. text_eq (metadata d.1).client_id c) s) (λ _. same)
                  (λ _. launch-Follows s _ _ h refl next refl))))

pub mark_running-Follows :
    (g : ℕ) (i : ProcessIdentity) (r : ClientRuntimeGuard) (p : Text) (o : Option Text)
    → (s : Registry) → IsFresh s
    → To s (mark_running g i r p o s)
unfolding mark_running
mark_running-Follows g i r p o s h =
    let same = Follows-refl s h in
    if_cases (To s) s.poisoned (λ _. same)
      (λ _.
        if_cases (To s) (is_taken g i s) (λ _. same)
          (λ _.
            option_cases (To s) (lookup g s.clients) (λ _. same)
              (λ old f.
                result_cases (To s) (run_client i r p o old)
                  (λ c k. put-Follows s g old c h f (run_client-Moves i r p o old c k))
                  (λ _ _. same))))

pub mark_controller-Follows :
    (g : ℕ) (i : ProcessIdentity) (s : Registry) → IsFresh s → To s (mark_controller g i s)
unfolding mark_controller
mark_controller-Follows g i s h =
    let same = Follows-refl s h in
    if_cases (To s) s.poisoned (λ _. same)
      (λ _.
        option_cases (To s) (lookup g s.clients) (λ _. same)
          (λ old f.
            result_cases (To s) (control_client i old)
              (λ c k. put-Follows s g old c h f (control_client-Moves i old c k)) (λ _ _. same)))

pub cancel_launch-Follows : (g : ℕ) (s : Registry) → IsFresh s → Follows s (cancel_launch g s)
unfolding cancel_launch
cancel_launch-Follows g s h =
    let same = Follows-refl s h in
    if_cases (Follows s) s.poisoned (λ _. same)
      (λ _.
        option_cases (Follows s) (lookup g s.clients) (λ _. same)
          (λ old f.
            if_cases (Follows s) (is_launching old)
              (λ k. drop-Follows s g old h f (cancel-Moves old k)) (λ _. same)))

pub finish-Follows : (g : ℕ) (s : Registry) → IsFresh s → To s (finish g s)
unfolding finish
finish-Follows g s h =
    let same = Follows-refl s h in
    if_cases (To s) s.poisoned (λ _. same)
      (λ _.
        option_cases (To s) (lookup g s.clients) (λ _. same)
          (λ old f.
            option_cases (To s) (finished_client _ old) (λ _. same)
              (λ told k. drop-Follows s g old h f (finish-Moves _ old told k))))

pub close-Follows : (s : Registry) → IsFresh s → To s (close_admission_if_idle s)
unfolding close_admission_if_idle
close-Follows s h =
    let same = Follows-refl s h in
    if_cases (To s) s.poisoned (λ _. same)
      (λ _.
        if_cases (To s) (not (is_empty s.clients)) (λ _. same)
          (λ _.
            if_cases (To s) s.relaunch_admission_closed (λ _. same)
              (λ _. still-Follows s _ h refl refl)))

pub reopen-Follows : (s : Registry) → IsFresh s → Follows s (reopen_admission s)
unfolding reopen_admission
reopen-Follows s h =
    if_cases (Follows s) s.poisoned (λ _. Follows-refl s h) (λ _. still-Follows s _ h refl refl)

pub replace_running-Follows :
    (g : ℕ) (x i : ProcessIdentity) (l : ℕ) (a : MemoryAccess) (p : ProfileMemory) (s : Registry)
    → IsFresh s
    → To s (replace_running g x i l a p s)
unfolding replace_running
replace_running-Follows g x i l a p s h =
    let same = Follows-refl s h in
    if_cases (To s) s.poisoned (λ _. same)
      (λ _.
        if_cases (To s) (is_contested g i s) (λ _. same)
          (λ _.
            option_cases (To s) (lookup g s.clients) (λ _. same)
              (λ old f.
                option_cases (To s) (replace_client x i l a p old) (λ _. same)
                  (λ c k. put-Follows s g old c h f (replace_client-Moves x i l a p old c k)))))

pub request_stop-Follows :
    (c : Text) (s : Registry) → IsMap s.clients → IsFresh s → To s (request_stop c s)
unfolding request_stop
request_stop-Follows c s u h =
    let same = Follows-refl s h in
    if_cases (To s) s.poisoned (λ _. same)
      (λ _.
        option_cases (To s) (find_client c s) (λ _. same)
          (λ (g, old) f.
            put-Follows s g old (stop_client old) h (find_client-lookup c s g old u f)
              (stop_client-Moves old)))

life_at-stopped :
    (o : Option ProcessState) (g n : ℕ)
    → Moves (life_at o g n) (life_at (Option.map stop_client o) g n)
unfolding life_at
life_at-stopped none g n = stays
life_at-stopped (some c) g n = stop_client-Moves c

pub request_stop_all-Follows : (s : Registry) → IsFresh s → To s (request_stop_all s)
unfolding request_stop_all life
request_stop_all-Follows s h =
    if_cases (To s) s.poisoned (λ _. Follows-refl s h)
      (λ _. record {
        fresh = λ j b. lookup-stop_all j s.clients [] ∙ rw (h j b) refl;
        counted = (omega arith, omega arith);
        moves = λ j.
            rw (lookup-stop_all j s.clients [])
              (life_at-stopped (lookup j s.clients) j s.next_generation);
      })

-- ===== src/App/GameProcess/Life/Calls.antt =====
-- What the life cycle of a client promises over any sequence of calls.
use nndsk_ro_launcher.Base.{
  ℕ, suc, ◌+◌, ◌^◌, ◌≤◌, ◌<◌, ◌≡◌, ◌⊎◌, inl, inr, refl, true, List, [], ◌∷◌, length, arith,
}
use nndsk_ro_launcher.Base.Dict.{nat_eq, lookup}
use nndsk_ro_launcher.App.GameProcess.{Registry, new_registry}
use nndsk_ro_launcher.App.GameProcess.Run.{
  Call, begin_launch_call, mark_running_call, mark_controller_call, cancel_launch_call,
  close_admission_call, reopen_admission_call, request_stop_call, request_stop_all_call,
  replace_running_call, finish_call, call, run,
}
use nndsk_ro_launcher.App.GameProcess.Consistent.{IsConsistent}
use nndsk_ro_launcher.App.GameProcess.Consistent.Runs.{call-IsConsistent, new_registry-IsConsistent}
use nndsk_ro_launcher.App.GameProcess.Life.{
  Life, starting, gone, life, Moves, stays, launches, runs, stops_launch, stops_client, cancels,
  finishes, IsFresh, Follows,
}
use nndsk_ro_launcher.App.GameProcess.Life.Methods.{
  begin_launch-Follows, mark_running-Follows, mark_controller-Follows, cancel_launch-Follows,
  finish-Follows, close-Follows, reopen-Follows, replace_running-Follows, request_stop-Follows,
  request_stop_all-Follows,
}

call-Follows :
    (c : Call) (s : Registry)
    → IsConsistent s
    → IsFresh s
    → s.next_generation + 1 < 2 ^ 64
    → Follows s (call c s)
unfolding call
call-Follows (begin_launch_call c i n) s u h b = begin_launch-Follows c i n s h b
call-Follows (mark_running_call g i r p o) s u h b = mark_running-Follows g i r p o s h
call-Follows (mark_controller_call g i) s u h b = mark_controller-Follows g i s h
call-Follows (cancel_launch_call g) s u h b = cancel_launch-Follows g s h
call-Follows close_admission_call s u h b = close-Follows s h
call-Follows reopen_admission_call s u h b = reopen-Follows s h
call-Follows (request_stop_call c) s u h b = request_stop-Follows c s u.keyed h
call-Follows request_stop_all_call s u h b = request_stop_all-Follows s h
call-Follows (replace_running_call g x r l a p) s u h b = replace_running-Follows g x r l a p s h
call-Follows (finish_call g) s u h b = finish-Follows g s h

-- A registry whose counter does not come to its end in so many calls.
record Lasts (n : ℕ) (s : Registry) : Type 0 where
  consistent : IsConsistent s
  fresh : IsFresh s
  room : s.next_generation + n < 2 ^ 64

fewer : (m n : ℕ) (s : Registry) → n ≤ m → Lasts m s → Lasts n s
fewer m n s b h =
    let room = h.room in record { consistent = h.consistent; fresh = h.fresh; room = omega arith }

call-Lasts : (n : ℕ) (c : Call) (s : Registry) → Lasts (suc n) s → Lasts n (call c s)
call-Lasts n c s h =
    let room = h.room in
    let step = call-Follows c s h.consistent h.fresh (omega arith) in
    let counted = step.counted.1 in
    record {
      consistent = call-IsConsistent c s h.consistent;
      fresh = step.fresh;
      room = omega arith;
    }

run-Lasts :
    (n : ℕ) (calls : List Call) (s : Registry) → Lasts (length calls + n) s → Lasts n (run calls s)
unfolding run
run-Lasts n [] s h = fewer (0 + n) n s (omega arith) h
run-Lasts n (c ∷ calls) s h = run-Lasts n calls (call c s) (
    call-Lasts (length calls + n) c s
      (fewer (suc (length calls) + n) (suc (length calls + n)) s (omega arith) h))

new_registry-Lasts : (n : ℕ) → 1 + n < 2 ^ 64 → Lasts n new_registry
unfolding new_registry lookup
new_registry-Lasts n b = record {
  consistent = new_registry-IsConsistent;
  fresh = λ g _. refl;
  room = b;
}

-- After any calls on a new registry, fewer than 2^64 - 2, one more call moves the life of every
-- generation along the life cycle of one client, or leaves it where it is: a generation given out
-- begins as a launch, only a launch that nobody asked to stop comes to run, a stop that is asked
-- for stays so, and a generation that is gone never comes back.
pub run-new_registry-Moves :
    (calls : List Call) (c : Call) (g : ℕ)
    → length calls + 2 < 2 ^ 64
    → Moves (life g (run calls new_registry)) (life g (call c (run calls new_registry)))
run-new_registry-Moves calls c g b =
    let s = run calls new_registry in
    let h = run-Lasts 1 calls new_registry (new_registry-Lasts (length calls + 1) (omega arith)) in
    let step = call-Follows c s h.consistent h.fresh h.room in step.moves g

-- What may become of a launch that is asked to stop.
abbrev pub Halts : Life → Type 0
Halts l = (l ≡ starting true) ⊎ (l ≡ gone)

Moves-Halts : (k l : Life) → Moves k l → Halts k → Halts l
Moves-Halts k l stays h = h
Moves-Halts k l launches h = elim h [ inl e ↦ cc e | inr e ↦ cc e ]
Moves-Halts k l runs h = elim h [ inl e ↦ cc e | inr e ↦ cc e ]
Moves-Halts k l stops_launch h = inl refl
Moves-Halts k l stops_client h = elim h [ inl e ↦ cc e | inr e ↦ cc e ]
Moves-Halts k l cancels h = inr refl
Moves-Halts k l finishes h = inr refl

run-Halts :
    (calls : List Call) (s : Registry) (g : ℕ)
    → Lasts (length calls) s
    → Halts (life g s)
    → Halts (life g (run calls s))
unfolding run
run-Halts [] s g h k = k
run-Halts (c ∷ calls) s g h k =
    let room = h.room in
    let step = call-Follows c s h.consistent h.fresh (omega arith) in
    run-Halts calls (call c s) g (call-Lasts (length calls) c s h)
      (Moves-Halts (life g s) (life g (call c s)) (step.moves g) k)

-- A launch that was asked to stop never comes to run: whatever calls follow, fewer than 2^64 - 1
-- in all, it waits for its cancellation or is gone.
pub run-new_registry-Halts :
    (calls later : List Call) (g : ℕ)
    → length calls + length later + 1 < 2 ^ 64
    → life g (run calls new_registry) ≡ starting true
    → Halts (life g (run later (run calls new_registry)))
run-new_registry-Halts calls later g b e =
    let n = length calls + length later in
    run-Halts later (run calls new_registry) g
      (run-Lasts (length later) calls new_registry (new_registry-Lasts n (omega arith))) (inl e)

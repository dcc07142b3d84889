-- ===== src/App/InputWorker/Tests.antt =====
-- The worker with a device some of whose events fail.
use nndsk_ro_launcher.Base.{
  ℕ, ◌≡◌, refl, inl, inr, ◌⊎◌, Bool-cases, not, Bool, true, false, some, List, [], ◌∷◌, codes,
  to_lower, text_eq, lower, Result, ok, err, if◌then◌else◌, arith,
}
use nndsk_ro_launcher.Tools.Ports.{ToolsError, other, literal}
use nndsk_ro_launcher.Tools.Spammer.Engine.{SpamModifier}
use nndsk_ro_launcher.App.InputWorker.{
  ℤ, level, is_zero, InputDevice, Checks, default_state, spam_cycle, release_cycle_inputs,
  release_spam_inputs, finish_release, release_mouse, release_key, release_modifier, or_first,
  reconcile_spam_modifier, hold_modifier, press_spam_key, abandon, click,
}
use nndsk_ro_launcher.App.InputWorker.Commands.{
  cycle, release_spam, WorkerCommand, execute, execute_command, is_cancelled, is_stale,
  execute_kind, cycle_outcome, outcome, cut_off,
}
use nndsk_ro_launcher.App.InputWorker.Held.{
  Input, key, shift, mouse, same_input, IsTried, FailsUp, InputLaws,
}
use nndsk_ro_launcher.App.InputWorker.Released.{execute-lifted}

-- Which of the next events fail, and what is down. An event that fails has been written; a press of
-- Shift that fails has not.
abbrev Keyboard : Type 0
Keyboard = List Bool × (Input → Bool)

abbrev set : Input → ℤ → (Input → Bool) → Input → Bool
set i value down j = if same_input i j then not (is_zero value) else down j

abbrev emit : Input → ℤ → Keyboard → Result ToolsError (Unit {0}) × Keyboard
emit i value ([], down) = (ok tt, ([], set i value down))
emit i value (false ∷ fails, down) = (ok tt, (fails, set i value down))
emit i value (true ∷ fails, down) =
    (err (other (literal [])), (fails, if same_input shift i then down else set i value down))

emit-ok :
    (i : Input) (pressed : Bool) (d : Keyboard)
    → (emit i (level pressed) d).0 ≡ ok tt
    → (j : Input) → (emit i (level pressed) d).1.1 j ≡ (if same_input i j then pressed else d.1 j)
emit-ok i true ([], down) e j = refl
emit-ok i false ([], down) e j = refl
emit-ok i true (false ∷ fails, down) e j = refl
emit-ok i false (false ∷ fails, down) e j = refl
emit-ok i pressed (true ∷ fails, down) e j = cc e

set-IsTried :
    (i : Input) (pressed : Bool) (down : Input → Bool) (j : Input)
    → set i (level pressed) down j ≡ true
    → (down j ≡ true) ⊎ IsTried i pressed j
set-IsTried i pressed down j h = elim (Bool-cases (same_input i j)) [
  | inr e ↦ inl (rw (e, if◌then◌else◌) at h)
  | inl e ↦ elim (Bool-cases pressed) [
    | inl p ↦ inr (p, e)
    | inr p ↦ cc (rw (e, p, if◌then◌else◌) at h)
  ]
]

emit-err :
    (i : Input) (pressed : Bool) (d : Keyboard) (x : ToolsError)
    → (emit i (level pressed) d).0 ≡ err x
    → (j : Input) → (emit i (level pressed) d).1.1 j ≡ true
    → (d.1 j ≡ true) ⊎ IsTried i pressed j
emit-err i pressed ([], down) x e j h = cc e
emit-err i pressed (false ∷ fails, down) x e j h = cc e
emit-err shift pressed (true ∷ fails, down) x e j h = inl h
emit-err (key k) pressed (true ∷ fails, down) x e j h = set-IsTried (key k) pressed down j h
emit-err mouse pressed (true ∷ fails, down) x e j h = set-IsTried mouse pressed down j h

abbrev keyboard : InputDevice Keyboard
keyboard = record {
  key_event = λ label value d. emit (key (to_lower label)) value d;
  modifier_event = λ _ value d. emit shift value d;
  mouse_left_event = λ value d. emit mouse value d;
  release = λ _ _ d. d;
}

abbrev keyboard_laws : InputLaws keyboard
keyboard_laws = record {
  down = λ d i. d.1 i;
  key_ok = λ label pressed d e i. emit-ok (key (to_lower label)) pressed d e i;
  modifier_ok = λ m pressed d e i. emit-ok shift pressed d e i;
  mouse_ok = λ pressed d e i. emit-ok mouse pressed d e i;
  key_err = λ label pressed d x e i h. emit-err (key (to_lower label)) pressed d x e i h;
  modifier_err = λ m pressed d x e i h. emit-err shift pressed d x e i h;
  mouse_err = λ pressed d x e i h. emit-err mouse pressed d x e i h;
  release_lifts = λ label button d i h. h;
}

keyboard-FailsUp : FailsUp keyboard keyboard_laws
keyboard-FailsUp m ([], down) x e h = cc e
keyboard-FailsUp m (false ∷ fails, down) x e h = cc e
keyboard-FailsUp m (true ∷ fails, down) x e h = h

abbrev calm : Checks
calm = record {
  at_start = false;
  before_modifier = false;
  before_key = false;
  before_click = false;
}

abbrev spam : ℕ → WorkerCommand
spam sequence = record {
  kind = cycle (codes "F1") (some SpamModifier.shift);
  sequence = sequence;
  is_late = false;
  checks = calm;
}

abbrev release : WorkerCommand
release = record { kind = release_spam; sequence = 3; is_late = false; checks = calm }

-- Of the events of the first cycle, that which presses the mouse button fails.
abbrev device : Keyboard
device = (false ∷ false ∷ true ∷ [], λ _. false)

execute-lifted_example :
    let t = execute keyboard (spam 1 ∷ []) default_state device in
    let r = execute_command keyboard release t.0 t.1 in
    (execute keyboard (spam 2 ∷ []) r.1 r.2).1.1 mouse ≡ false
unfolding execute execute_command is_cancelled is_stale default_state execute_kind cycle_outcome
    outcome cut_off spam_cycle release_cycle_inputs release_spam_inputs finish_release release_mouse
    release_key release_modifier or_first reconcile_spam_modifier hold_modifier press_spam_key
    abandon click to_lower text_eq lower
execute-lifted_example =
    execute-lifted keyboard keyboard_laws true (λ _. keyboard-FailsUp) (spam 1 ∷ []) (spam 2 ∷ [])
      release device (λ _. refl) (inl refl, tt) refl refl ((refl, omega arith), tt) mouse (λ e. cc)

-- ===== src/App/InputWorker.antt =====
-- src-tauri/src/tools/input/uinput_worker.rs: the worker that presses keys and the mouse for the
-- tools. Sleeps and metrics are left out; when a cancellation is asked for is an answer.
pub mod Commands
pub mod Held
pub mod Cycles
pub mod Released
pub mod Tests
use nndsk_ro_launcher.Base.{
  ℕ, Bool, true, false, ◌&&◌, Option, none, some, Text, codes, ◌==◌, is_some, text_eq, to_lower,
  Result, ok, err, if◌then◌else◌,
}
use nndsk_ro_launcher.Tools.Ports.{ToolsError, literal}
use nndsk_ro_launcher.Tools.Spammer.Engine.{SpamModifier}

-- The value of an event, an `i32`.
pub data ℤ : Type 0 where
  pos : ℕ → ℤ
  negsuc : ℕ → ℤ

-- Down is 1 and up is 0.
abbrev pub level : Bool → ℤ
level true = pos 1
level false = pos 0

abbrev pub is_zero : ℤ → Bool
is_zero (pos n) = n == 0
is_zero (negsuc n) = false

-- The trait of the device, over its state.
pub record InputDevice (Dev : Type 0) : Type 0 where
  pub key_event : Text → ℤ → Dev → Result ToolsError (Unit {0}) × Dev
  pub modifier_event : SpamModifier → ℤ → Dev → Result ToolsError (Unit {0}) × Dev
  pub mouse_left_event : ℤ → Dev → Result ToolsError (Unit {0}) × Dev
  pub release : Option Text → Bool → Dev → Dev

pub record SpamState : Type 0 where
  pub held_key : Option Text
  pub held_modifier : Option SpamModifier
  pub mouse_left_pressed : Bool
  pub cancelled_through : Option ℕ

unfoldable pub default_state : SpamState
default_state = record {
  held_key = none;
  held_modifier = none;
  mouse_left_pressed = false;
  cancelled_through = none;
}

-- Whether `SpamCancellation::requested` answers that the cycle is cancelled, at each place that asks.
pub record Checks : Type 0 where
  pub at_start : Bool
  pub before_modifier : Bool
  pub before_key : Bool
  pub before_click : Bool

unfoldable pub eq_ignore_ascii_case : Text → Text → Bool
unfolding text_eq to_lower
eq_ignore_ascii_case a b = text_eq (to_lower a) (to_lower b)

-- The spammer holds the key.
unfoldable pub is_held : Text → SpamState → Bool
unfolding eq_ignore_ascii_case
is_held key st = elim st.held_key [ none ↦ false | some held ↦ eq_ignore_ascii_case held key ]

-- `if first_error.is_none() { first_error = Some(error) }`.
unfoldable pub or_first : Option ToolsError → ToolsError → Option ToolsError
or_first none e = some e
or_first (some first) e = some first

abbrev pub same_modifier : Option SpamModifier → Option SpamModifier → Bool
same_modifier none none = true
same_modifier (some SpamModifier.shift) (some SpamModifier.shift) = true
same_modifier _ _ = false

-- The steps of a release, each with the first error so far, and what a method leaves.
abbrev pub Release : Type 0 → Type 0
Release Dev = Option ToolsError × SpamState × Dev

abbrev pub Done : Type 0 → Type 0 → Type 0
Done Dev A = Result ToolsError A × SpamState × Dev

module _ {Dev : Type 0} (device : InputDevice Dev) where
  unfoldable pub release_mouse : SpamState → Dev → Release Dev
  release_mouse st d =
      let (result, d') = device.mouse_left_event (pos 0) d in
      if st.mouse_left_pressed
      then (elim result [
        | ok _ ↦ (none, record st { mouse_left_pressed = false }, d')
        | err e ↦ (some e, st, d')
      ])
      else (none, st, d)

  unfoldable pub release_key : Release Dev → Release Dev
  unfolding or_first
  release_key (first, st, d) = elim st.held_key [
    | none ↦ (first, st, d)
    | some key ↦
        let (result, d') = device.key_event key (pos 0) d in
        elim result [
          | ok _ ↦ (first, record st { held_key = none }, d')
          | err e ↦ (or_first first e, st, d')
        ]
  ]

  unfoldable pub release_modifier : Release Dev → Release Dev
  unfolding or_first
  release_modifier (first, st, d) = elim st.held_modifier [
    | none ↦ (first, st, d)
    | some modifier ↦
        let (result, d') = device.modifier_event modifier (pos 0) d in
        elim result [
          | ok _ ↦ (first, record st { held_modifier = none }, d')
          | err e ↦ (or_first first e, st, d')
        ]
  ]

  unfoldable pub finish_release : {A : Type 0} → A → Release Dev → Done Dev A
  finish_release answer (none, st, d) = (ok answer, st, d)
  finish_release answer (some e, st, d) = (err e, st, device.release none true d)

  unfoldable pub release_cycle_inputs : SpamState → Dev → Done Dev Bool
  unfolding finish_release release_key release_mouse
  release_cycle_inputs st d =
      finish_release (is_some st.held_key) (release_key (release_mouse st d))

  unfoldable pub release_spam_inputs : SpamState → Dev → Done Dev (Unit {0})
  unfolding finish_release release_modifier release_key release_mouse
  release_spam_inputs st d = finish_release tt (release_modifier (release_key (release_mouse st d)))

  -- The end of `reconcile_spam_modifier`: the next modifier goes down.
  unfoldable pub hold_modifier : Option SpamModifier → SpamState → Dev → Done Dev (Unit {0})
  hold_modifier none st d = (ok tt, st, d)
  hold_modifier (some next) st d =
      let (result, d') = device.modifier_event next (pos 1) d in
      elim result [
        | ok _ ↦ (ok tt, record st { held_modifier = some next }, d')
        | err e ↦ (err e, st, device.release none true d')
      ]

  unfoldable pub reconcile_spam_modifier :
      Option SpamModifier → SpamState → Dev → Done Dev (Unit {0})
  unfolding hold_modifier
  reconcile_spam_modifier modifier st d =
      if same_modifier st.held_modifier modifier then (ok tt, st, d) else elim st.held_modifier [
        | none ↦ hold_modifier modifier st d
        | some held ↦
            let (result, d') = device.modifier_event held (pos 0) d in
            elim result [
              | ok _ ↦ hold_modifier modifier (record st { held_modifier = none }) d'
              | err e ↦ (err e, st, device.release none true d')
            ]
      ]

  -- `release_spam_inputs(..)?; return Ok(false)`.
  unfoldable pub abandon : SpamState → Dev → Done Dev Bool
  unfolding release_spam_inputs
  abandon st d =
      let (result, st', d') = release_spam_inputs st d in
      elim result [ ok _ ↦ (ok false, st', d') | err e ↦ (err e, st', d') ]

  -- The click of a cycle.
  unfoldable pub click : SpamState → Dev → Done Dev Bool
  click st d =
      let st' : SpamState = record st { mouse_left_pressed = true } in
      let (pressed, d') = device.mouse_left_event (pos 1) d in
      elim pressed [
        | err e ↦ (err e, st', device.release none true d')
        | ok _ ↦
            let (lifted, d'') = device.mouse_left_event (pos 0) d' in
            elim lifted [
              | err e ↦ (err e, st', device.release none true d'')
              | ok _ ↦ (ok true, record st' { mouse_left_pressed = false }, d'')
            ]
      ]

  -- From the press of the key on.
  unfoldable pub press_spam_key : Text → Checks → SpamState → Dev → Done Dev Bool
  unfolding abandon click
  press_spam_key key checks st d =
      let st' : SpamState = record st { held_key = some key } in
      let (result, d') = device.key_event key (pos 1) d in
      elim result [
        | err e ↦ (err e, st', device.release none true d')
        | ok _ ↦ if checks.before_click then abandon st' d' else click st' d'
      ]

  unfoldable pub spam_cycle : Text → Option SpamModifier → Checks → SpamState → Dev → Done Dev Bool
  unfolding release_cycle_inputs abandon reconcile_spam_modifier press_spam_key
  spam_cycle key modifier checks st d =
      let (released, st1, d1) = release_cycle_inputs st d in
      elim released [
        | err e ↦ (err e, st1, d1)
        | ok _ ↦
            if checks.before_modifier
            then abandon st1 d1
            else let (reconciled, st2, d2) = reconcile_spam_modifier modifier st1 d1 in
              elim reconciled [
                | err e ↦ (err e, st2, d2)
                | ok _ ↦
                    if checks.before_key then abandon st2 d2 else press_spam_key key checks st2 d2
              ]
      ]

  -- The error names the key and says that the spammer is using it.
  unfoldable pub press_key : Text → SpamState → Dev → Done Dev (Unit {0})
  unfolding is_held
  press_key key st d =
      if is_held key st
      then (
        err (ToolsError.input key (literal (codes "tecla ocupada por el spammer activo"))),
        st,
        d,
      )
      else let (pressed, d') = device.key_event key (pos 1) d in
        elim pressed [
          | err e ↦ (err e, st, device.release (some key) false d')
          | ok _ ↦
              let (lifted, d'') = device.key_event key (pos 0) d' in
              elim lifted [
                | err e ↦ (err e, st, device.release (some key) false d'')
                | ok _ ↦ (ok tt, st, d'')
              ]
        ]

  unfoldable pub key_event : Text → ℤ → SpamState → Dev → Done Dev (Unit {0})
  unfolding is_held
  key_event key value st d =
      let (result, d') = device.key_event key value d in
      elim result [
        | ok _ ↦ (
          ok tt,
          if is_zero value && is_held key st then record st { held_key = none } else st,
          d',
        )
        | err e ↦ (err e, st, device.release (some key) false d')
      ]

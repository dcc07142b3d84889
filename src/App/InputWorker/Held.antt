-- ===== src/App/InputWorker/Held.antt =====
-- Each key and the mouse button, when it is down, is recorded as held by the spammer, so that it will
-- be released; and so is Shift, where a press of it that fails leaves it up.
use nndsk_ro_launcher.Base.{
  ◌≡◌, ◌⊎◌, inl, inr, refl, sym, ◌∙◌, Bool, true, false, Option, none, some, Text, is_some, text_eq,
  to_lower, Bool-cases, ok, err, if◌then◌else◌,
}
use nndsk_ro_launcher.Tools.Ports.{ToolsError}
use nndsk_ro_launcher.Tools.Spammer.Engine.{SpamModifier}
use nndsk_ro_launcher.App.InputWorker.{pos, level, InputDevice, SpamState}

-- What may be down: keys by their label in lower case.
pub data Input : Type 0 where
  key : Text → Input
  shift : Input
  mouse : Input

abbrev pub same_input : Input → Input → Bool
same_input (key a) (key b) = text_eq a b
same_input shift shift = true
same_input mouse mouse = true
same_input _ _ = false

-- An input that an event was to put down.
abbrev pub IsTried : Input → Bool → Input → Type 0
IsTried own pressed i = (pressed ≡ true) × (same_input own i ≡ true)

-- What the worker relies on: an event that succeeds sets its input and no other; one that fails may
-- have been written or not, so a press that fails may leave its own input down, but no other; the
-- clean-up writes events of value 0 only, so it puts nothing down.
pub record InputLaws {Dev : Type 0} (device : InputDevice Dev) : Type 0 where
  pub down : Dev → Input → Bool
  pub key_ok :
      (label : Text) (pressed : Bool) (d : Dev)
      → (device.key_event label (level pressed) d).0 ≡ ok tt
      → (i : Input)
      → down (device.key_event label (level pressed) d).1 i
        ≡ (if same_input (key (to_lower label)) i then pressed else down d i)
  pub modifier_ok :
      (modifier : SpamModifier) (pressed : Bool) (d : Dev)
      → (device.modifier_event modifier (level pressed) d).0 ≡ ok tt
      → (i : Input)
      → down (device.modifier_event modifier (level pressed) d).1 i
        ≡ (if same_input shift i then pressed else down d i)
  pub mouse_ok :
      (pressed : Bool) (d : Dev)
      → (device.mouse_left_event (level pressed) d).0 ≡ ok tt
      → (i : Input)
      → down (device.mouse_left_event (level pressed) d).1 i
        ≡ (if same_input mouse i then pressed else down d i)
  pub key_err :
      (label : Text) (pressed : Bool) (d : Dev) (e : ToolsError)
      → (device.key_event label (level pressed) d).0 ≡ err e
      → (i : Input) → down (device.key_event label (level pressed) d).1 i ≡ true
      → (down d i ≡ true) ⊎ IsTried (key (to_lower label)) pressed i
  pub modifier_err :
      (modifier : SpamModifier) (pressed : Bool) (d : Dev) (e : ToolsError)
      → (device.modifier_event modifier (level pressed) d).0 ≡ err e
      → (i : Input) → down (device.modifier_event modifier (level pressed) d).1 i ≡ true
      → (down d i ≡ true) ⊎ IsTried shift pressed i
  pub mouse_err :
      (pressed : Bool) (d : Dev) (e : ToolsError)
      → (device.mouse_left_event (level pressed) d).0 ≡ err e
      → (i : Input) → down (device.mouse_left_event (level pressed) d).1 i ≡ true
      → (down d i ≡ true) ⊎ IsTried mouse pressed i
  pub release_lifts :
      (label : Option Text) (button : Bool) (d : Dev) (i : Input)
      → down (device.release label button d) i ≡ true
      → down d i ≡ true

-- The state of the spammer records the input.
unfoldable pub recorded : SpamState → Input → Bool
recorded st (key k) = elim st.held_key [ none ↦ false | some held ↦ text_eq (to_lower held) k ]
recorded st shift = is_some st.held_modifier
recorded st mouse = st.mouse_left_pressed

-- A press of Shift that fails does not put it down.
abbrev pub FailsUp : {Dev : Type 0} (device : InputDevice Dev) → InputLaws device → Type 0
FailsUp {Dev} device laws =
    (m : SpamModifier) (d : Dev) (x : ToolsError)
    → (device.modifier_event m (pos 1) d).0 ≡ err x
    → laws.down (device.modifier_event m (pos 1) d).1 shift ≡ true
    → laws.down d shift ≡ true

-- Shift is recorded only after a press that succeeded, so that it is followed only where that is sound.
abbrev pub IsFollowed : Bool → Input → Type 0
IsFollowed with_shift i = same_input shift i ≡ true → with_shift ≡ true

module _ {Dev : Type 0} (device : InputDevice Dev) (laws : InputLaws device) (with_shift : Bool)
    (steady : with_shift ≡ true → FailsUp device laws) where
  abbrev pub Covers : SpamState → Dev → Type 0
  Covers st d = (i : Input) → IsFollowed with_shift i → laws.down d i ≡ true → recorded st i ≡ true

  -- Fewer inputs down.
  pub shrink :
      (st : SpamState) (d d' : Dev)
      → Covers st d
      → ((i : Input) → laws.down d' i ≡ true → laws.down d i ≡ true)
      → Covers st d'
  shrink st d d' h less i n e = h i n (less i e)

  pub mouse_up :
      (st : SpamState) (d : Dev)
      → Covers st d
      → (device.mouse_left_event (pos 0) d).0 ≡ ok tt
      → Covers (record st { mouse_left_pressed = false }) (device.mouse_left_event (pos 0) d).1
  unfolding recorded
  mouse_up st d h r (key k) n e = h (key k) n (sym (laws.mouse_ok false d r (key k)) ∙ e)
  mouse_up st d h r shift n e = h shift n (sym (laws.mouse_ok false d r shift) ∙ e)
  mouse_up st d h r mouse n e = cc (sym (laws.mouse_ok false d r mouse) ∙ e)

  pub mouse_down :
      (st : SpamState) (d : Dev)
      → Covers st d
      → (device.mouse_left_event (pos 1) d).0 ≡ ok tt
      → Covers (record st { mouse_left_pressed = true }) (device.mouse_left_event (pos 1) d).1
  unfolding recorded
  mouse_down st d h r (key k) n e = h (key k) n (sym (laws.mouse_ok true d r (key k)) ∙ e)
  mouse_down st d h r shift n e = h shift n (sym (laws.mouse_ok true d r shift) ∙ e)
  mouse_down st d h r mouse n e = refl

  pub shift_up :
      (st : SpamState) (m : SpamModifier) (d : Dev)
      → Covers st d
      → (device.modifier_event m (pos 0) d).0 ≡ ok tt
      → Covers (record st { held_modifier = none }) (device.modifier_event m (pos 0) d).1
  unfolding recorded
  shift_up st m d h r (key k) n e = h (key k) n (sym (laws.modifier_ok m false d r (key k)) ∙ e)
  shift_up st m d h r shift n e = cc (sym (laws.modifier_ok m false d r shift) ∙ e)
  shift_up st m d h r mouse n e = h mouse n (sym (laws.modifier_ok m false d r mouse) ∙ e)

  pub shift_down :
      (st : SpamState) (m : SpamModifier) (d : Dev)
      → Covers st d
      → (device.modifier_event m (pos 1) d).0 ≡ ok tt
      → Covers (record st { held_modifier = some m }) (device.modifier_event m (pos 1) d).1
  unfolding recorded
  shift_down st m d h r (key k) n e = h (key k) n (sym (laws.modifier_ok m true d r (key k)) ∙ e)
  shift_down st m d h r shift n e = refl
  shift_down st m d h r mouse n e = h mouse n (sym (laws.modifier_ok m true d r mouse) ∙ e)

  pub key_up :
      (st : SpamState) (label : Text) (d : Dev)
      → Covers st d
      → st.held_key ≡ some label
      → (device.key_event label (pos 0) d).0 ≡ ok tt
      → Covers (record st { held_key = none }) (device.key_event label (pos 0) d).1
  unfolding recorded
  key_up st label d h f r (key k) n e =
      let law = sym (laws.key_ok label false d r (key k)) ∙ e in
      elim (Bool-cases (text_eq (to_lower label) k)) [
        | inl t ↦ cc (rw (t, if◌then◌else◌) at law)
        | inr t ↦ let was = rw f at (h (key k) n (rw (t, if◌then◌else◌) at law)) in cc (t, was)
      ]
  key_up st label d h f r shift n e = h shift n (sym (laws.key_ok label false d r shift) ∙ e)
  key_up st label d h f r mouse n e = h mouse n (sym (laws.key_ok label false d r mouse) ∙ e)

  pub key_down :
      (st : SpamState) (label : Text) (d : Dev)
      → Covers st d
      → st.held_key ≡ none
      → (device.key_event label (pos 1) d).0 ≡ ok tt
      → Covers (record st { held_key = some label }) (device.key_event label (pos 1) d).1
  unfolding recorded
  key_down st label d h f r (key k) n e =
      let law = sym (laws.key_ok label true d r (key k)) ∙ e in
      elim (Bool-cases (text_eq (to_lower label) k)) [
        | inl t ↦ t
        | inr t ↦ cc (rw f at (h (key k) n (rw (t, if◌then◌else◌) at law)))
      ]
  key_down st label d h f r shift n e = h shift n (sym (laws.key_ok label true d r shift) ∙ e)
  key_down st label d h f r mouse n e = h mouse n (sym (laws.key_ok label true d r mouse) ∙ e)

  -- An event of value 0 that fails puts nothing down.
  not_tried : {A : Type 0} (own i : Input) → A ⊎ IsTried own false i → A
  not_tried own i (inl a) = a
  not_tried own i (inr (t, _)) = cc t

  pub key_stays :
      (st : SpamState) (label : Text) (d : Dev) (x : ToolsError)
      → Covers st d
      → (device.key_event label (pos 0) d).0 ≡ err x
      → Covers st (device.key_event label (pos 0) d).1
  key_stays st label d x h r =
      shrink st d _ h λ i e. not_tried (key (to_lower label)) i (laws.key_err label false d x r i e)

  pub shift_stays :
      (st : SpamState) (m : SpamModifier) (d : Dev) (x : ToolsError)
      → Covers st d
      → (device.modifier_event m (pos 0) d).0 ≡ err x
      → Covers st (device.modifier_event m (pos 0) d).1
  shift_stays st m d x h r =
      shrink st d _ h λ i e. not_tried shift i (laws.modifier_err m false d x r i e)

  pub mouse_stays :
      (st : SpamState) (d : Dev) (x : ToolsError)
      → Covers st d
      → (device.mouse_left_event (pos 0) d).0 ≡ err x
      → Covers st (device.mouse_left_event (pos 0) d).1
  mouse_stays st d x h r = shrink st d _ h λ i e. not_tried mouse i (laws.mouse_err false d x r i e)

  -- A press that fails: the key and the mouse button are recorded before it.
  pub key_tried :
      (st : SpamState) (label : Text) (d : Dev) (x : ToolsError)
      → Covers st d
      → st.held_key ≡ none
      → (device.key_event label (pos 1) d).0 ≡ err x
      → Covers (record st { held_key = some label }) (device.key_event label (pos 1) d).1
  unfolding recorded
  key_tried st label d x h f r (key k) n e = elim (laws.key_err label true d x r (key k) e) [
    | inl was ↦ cc (rw f at (h (key k) n was))
    | inr (_, same) ↦ same
  ]
  key_tried st label d x h f r shift n e = elim (laws.key_err label true d x r shift e) [
    | inl was ↦ h shift n was
    | inr (_, same) ↦ cc same
  ]
  key_tried st label d x h f r mouse n e = elim (laws.key_err label true d x r mouse e) [
    | inl was ↦ h mouse n was
    | inr (_, same) ↦ cc same
  ]

  pub mouse_tried :
      (st : SpamState) (d : Dev) (x : ToolsError)
      → Covers st d
      → (device.mouse_left_event (pos 1) d).0 ≡ err x
      → Covers (record st { mouse_left_pressed = true }) (device.mouse_left_event (pos 1) d).1
  unfolding recorded
  mouse_tried st d x h r (key k) n e = elim (laws.mouse_err true d x r (key k) e) [
    | inl was ↦ h (key k) n was
    | inr (_, same) ↦ cc same
  ]
  mouse_tried st d x h r shift n e = elim (laws.mouse_err true d x r shift e) [
    | inl was ↦ h shift n was
    | inr (_, same) ↦ cc same
  ]
  mouse_tried st d x h r mouse n e = refl

  pub shift_tried :
      (st : SpamState) (m : SpamModifier) (d : Dev) (x : ToolsError)
      → Covers st d
      → (device.modifier_event m (pos 1) d).0 ≡ err x
      → Covers st (device.modifier_event m (pos 1) d).1
  shift_tried st m d x h r shift n e = h shift n (steady (n refl) m d x r e)
  shift_tried st m d x h r (key k) n e = elim (laws.modifier_err m true d x r (key k) e) [
    | inl was ↦ h (key k) n was
    | inr (_, same) ↦ cc same
  ]
  shift_tried st m d x h r mouse n e = elim (laws.modifier_err m true d x r mouse e) [
    | inl was ↦ h mouse n was
    | inr (_, same) ↦ cc same
  ]

  -- The clean-up.
  pub cleaned_up :
      (st : SpamState) (label : Option Text) (button : Bool) (d : Dev)
      → Covers st d
      → Covers st (device.release label button d)
  cleaned_up st label button d h = shrink st d _ h (laws.release_lifts label button d)

-- ===== src/App/InputWorker/Cycles.antt =====
-- Cycles and releases keep what is down recorded.
use nndsk_ro_launcher.Base.{
  ℕ, ◌≡◌, ◌≢◌, refl, Bool, true, false, Option, none, some, Text, if_cases, option_cases,
  result_cases, ok,
}
use nndsk_ro_launcher.Tools.Ports.{ToolsError}
use nndsk_ro_launcher.Tools.Spammer.Engine.{SpamModifier}
use nndsk_ro_launcher.App.InputWorker.{
  pos, InputDevice, SpamState, Checks, or_first, Release, release_mouse, release_key,
  release_modifier, Done, finish_release, release_cycle_inputs, release_spam_inputs, same_modifier,
  hold_modifier, reconcile_spam_modifier, abandon, click, press_spam_key, spam_cycle,
}
use nndsk_ro_launcher.App.InputWorker.Held.{
  FailsUp, InputLaws, Covers, mouse_up, mouse_down, shift_up, shift_down, key_up, key_down,
  key_stays, shift_stays, mouse_stays, key_tried, mouse_tried, shift_tried, cleaned_up,
}

or_first-some : (first : Option ToolsError) (e : ToolsError) → or_first first e ≢ none
unfolding or_first
or_first-some none e h = cc h
or_first-some (some first) e h = cc h

-- The spammer holds no key; it holds nothing.
abbrev NoKey : SpamState → Type 0
NoKey st = (st.mouse_left_pressed ≡ false) × (st.held_key ≡ none)

abbrev pub IsClear : SpamState → Type 0
IsClear st = (st.mouse_left_pressed ≡ false) × (st.held_key ≡ none) × (st.held_modifier ≡ none)

module _ {Dev : Type 0} (device : InputDevice Dev) (laws : InputLaws device) (with_shift : Bool)
    (steady : with_shift ≡ true → FailsUp device laws) where
  -- What a step of a release leaves, when it keeps the mark of older commands.
  abbrev Steps : Option ℕ → (SpamState → Type 0) → Release Dev → Type 0
  Steps mark P (first, st, d) =
      Covers device laws with_shift steady st d
      × (st.cancelled_through ≡ mark)
      × (first ≡ none → P st)

  release_mouse-Steps :
      (st : SpamState) (d : Dev)
      → Covers device laws with_shift steady st d
      → Steps st.cancelled_through (λ s. s.mouse_left_pressed ≡ false) (release_mouse device st d)
  unfolding release_mouse
  release_mouse-Steps st d h =
      let P = Steps st.cancelled_through (λ s. s.mouse_left_pressed ≡ false) in
      if_cases P st.mouse_left_pressed
        (λ _.
          result_cases P (device.mouse_left_event (pos 0) d).0
            (λ _ r. (mouse_up device laws with_shift steady st d h r, refl, λ _. refl))
            (λ x r. (mouse_stays device laws with_shift steady st d x h r, refl, λ n. cc n)))
        (λ up. (h, refl, λ _. up))

  release_key-Steps :
      (mark : Option ℕ) (t : Release Dev)
      → Steps mark (λ s. s.mouse_left_pressed ≡ false) t
      → Steps mark NoKey (release_key device t)
  unfolding release_key
  release_key-Steps mark (first, st, d) (h, c, k) =
      option_cases (Steps mark NoKey) st.held_key (λ f. (h, c, λ n. (k n, f)))
        (λ label f.
          result_cases (Steps mark NoKey) (device.key_event label (pos 0) d).0
            (λ _ r. (key_up device laws with_shift steady st label d h f r, c, λ n. (k n, refl)))
            (λ x r. (
              key_stays device laws with_shift steady st label d x h r,
              c,
              λ n. absurd (or_first-some first x n),
            )))

  release_modifier-Steps :
      (mark : Option ℕ) (t : Release Dev)
      → Steps mark NoKey t
      → Steps mark IsClear (release_modifier device t)
  unfolding release_modifier
  release_modifier-Steps mark (first, st, d) (h, c, k) =
      option_cases (Steps mark IsClear) st.held_modifier (λ f. (h, c, λ n. ((k n).0, (k n).1, f)))
        (λ m f.
          result_cases (Steps mark IsClear) (device.modifier_event m (pos 0) d).0
            (λ _ r.
              (shift_up device laws with_shift steady st m d h r, c, λ n. ((k n).0, (k n).1, refl)))
            (λ x r. (
              shift_stays device laws with_shift steady st m d x h r,
              c,
              λ n. absurd (or_first-some first x n),
            )))

  -- What a method leaves.
  abbrev pub Leaves : {A : Type 0} → Option ℕ → (SpamState → Type 0) → Done Dev A → Type 0
  Leaves mark P (r, st, d) =
      Covers device laws with_shift steady st d
      × (st.cancelled_through ≡ mark)
      × ((a : _) → r ≡ ok a → P st)

  finish_release-Leaves :
      {A : Type 0} (a : A) (mark : Option ℕ) (P : SpamState → Type 0) (t : Release Dev)
      → Steps mark P t
      → Leaves mark P (finish_release device a t)
  unfolding finish_release
  finish_release-Leaves a mark P (none, st, d) (h, c, k) = (h, c, λ _ _. k refl)
  finish_release-Leaves a mark P (some e, st, d) (h, c, k) =
      (cleaned_up device laws with_shift steady st none true d h, c, λ _ n. cc n)

  release_cycle_inputs-Leaves :
      (st : SpamState) (d : Dev)
      → Covers device laws with_shift steady st d
      → Leaves st.cancelled_through NoKey (release_cycle_inputs device st d)
  unfolding release_cycle_inputs
  release_cycle_inputs-Leaves st d h =
      finish_release-Leaves _ st.cancelled_through NoKey _
        (release_key-Steps st.cancelled_through _ (release_mouse-Steps st d h))

  pub release_spam_inputs-Leaves :
      (st : SpamState) (d : Dev)
      → Covers device laws with_shift steady st d
      → Leaves st.cancelled_through IsClear (release_spam_inputs device st d)
  unfolding release_spam_inputs
  release_spam_inputs-Leaves st d h = finish_release-Leaves tt st.cancelled_through IsClear _ (
      release_modifier-Steps st.cancelled_through _
        (release_key-Steps st.cancelled_through _ (release_mouse-Steps st d h)))

  -- A method keeps what is down recorded; and when it succeeds, no key is held.
  abbrev Holds : {A : Type 0} → Done Dev A → Type 0
  Holds (r, st, d) =
      Covers device laws with_shift steady st d × ((a : _) → r ≡ ok a → st.held_key ≡ none)

  abbrev pub Keeps : {A : Type 0} → Done Dev A → Type 0
  Keeps (r, st, d) = Covers device laws with_shift steady st d

  hold_modifier-Holds :
      (m : Option SpamModifier) (st : SpamState) (d : Dev)
      → Covers device laws with_shift steady st d
      → st.held_key ≡ none
      → Holds (hold_modifier device m st d)
  unfolding hold_modifier
  hold_modifier-Holds none st d h f = (h, λ _ _. f)
  hold_modifier-Holds (some m) st d h f =
      result_cases Holds (device.modifier_event m (pos 1) d).0
        (λ _ r. (shift_down device laws with_shift steady st m d h r, λ _ _. f))
        (λ x r. (
          cleaned_up device laws with_shift steady st none true _
              (shift_tried device laws with_shift steady st m d x h r),
          λ _ n. cc,
        ))

  reconcile-Holds :
      (m : Option SpamModifier) (st : SpamState) (d : Dev)
      → Covers device laws with_shift steady st d
      → st.held_key ≡ none
      → Holds (reconcile_spam_modifier device m st d)
  unfolding reconcile_spam_modifier
  reconcile-Holds m st d h f =
      if_cases Holds (same_modifier st.held_modifier m) (λ _. (h, λ _ _. f))
        (λ _.
          option_cases Holds st.held_modifier (λ _. hold_modifier-Holds m st d h f)
            (λ held _.
              result_cases Holds (device.modifier_event held (pos 0) d).0
                (λ _ r.
                  hold_modifier-Holds m (record st { held_modifier = none }) _
                    (shift_up device laws with_shift steady st held d h r) f)
                (λ x r. (
                  cleaned_up device laws with_shift steady st none true _
                      (shift_stays device laws with_shift steady st held d x h r),
                  λ _ n. cc,
                ))))

  abandon-Keeps :
      (st : SpamState) (d : Dev)
      → Covers device laws with_shift steady st d
      → Keeps (abandon device st d)
  unfolding abandon
  abandon-Keeps st d h =
      let (k, _, _) = release_spam_inputs-Leaves st d h in
      result_cases Keeps (release_spam_inputs device st d).0 (λ _ _. k) (λ _ _. k)

  click-Keeps :
      (st : SpamState) (d : Dev)
      → Covers device laws with_shift steady st d
      → Keeps (click device st d)
  unfolding click
  click-Keeps st d h =
      let st' : SpamState = record st { mouse_left_pressed = true } in
      result_cases Keeps (device.mouse_left_event (pos 1) d).0
        (λ _ r.
          let d' = (device.mouse_left_event (pos 1) d).1 in
          let pressed = mouse_down device laws with_shift steady st d h r in
          result_cases Keeps (device.mouse_left_event (pos 0) d').0
            (λ _ r'. mouse_up device laws with_shift steady st' d' pressed r')
            (λ x r'.
              cleaned_up device laws with_shift steady st' none true _
                (mouse_stays device laws with_shift steady st' d' x pressed r')))
        (λ x r.
          cleaned_up device laws with_shift steady st' none true _
            (mouse_tried device laws with_shift steady st d x h r))

  press-Keeps :
      (label : Text) (checks : Checks) (st : SpamState) (d : Dev)
      → Covers device laws with_shift steady st d
      → st.held_key ≡ none
      → Keeps (press_spam_key device label checks st d)
  unfolding press_spam_key
  press-Keeps label checks st d h f =
      let st' : SpamState = record st { held_key = some label } in
      result_cases Keeps (device.key_event label (pos 1) d).0
        (λ _ r.
          let pressed = key_down device laws with_shift steady st label d h f r in
          if_cases Keeps checks.before_click (λ _. abandon-Keeps st' _ pressed)
            (λ _. click-Keeps st' _ pressed))
        (λ x r.
          cleaned_up device laws with_shift steady st' none true _
            (key_tried device laws with_shift steady st label d x h f r))

  pub spam_cycle-Keeps :
      (label : Text) (m : Option SpamModifier) (checks : Checks) (st : SpamState) (d : Dev)
      → Covers device laws with_shift steady st d
      → Keeps (spam_cycle device label m checks st d)
  unfolding spam_cycle
  spam_cycle-Keeps label m checks st d h =
      let (k, _, free) = release_cycle_inputs-Leaves st d h in
      let (_, st1, d1) = release_cycle_inputs device st d in
      result_cases Keeps (release_cycle_inputs device st d).0
        (λ a r.
          if_cases Keeps checks.before_modifier (λ _. abandon-Keeps st1 d1 k)
            (λ _.
              let (k', free') = reconcile-Holds m st1 d1 k (free a r).1 in
              let (_, st2, d2) = reconcile_spam_modifier device m st1 d1 in
              result_cases Keeps (reconcile_spam_modifier device m st1 d1).0
                (λ a' r'.
                  if_cases Keeps checks.before_key (λ _. abandon-Keeps st2 d2 k')
                    (λ _. press-Keeps label checks st2 d2 k' (free' a' r')))
                (λ _ _. k')))
        (λ _ _. k)

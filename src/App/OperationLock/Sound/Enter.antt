-- ===== src/App/OperationLock/Sound/Enter.antt =====
-- A key's state when a guard more is made.
use nndsk_ro_launcher.Base.{
  ℕ, ◌≡◌, refl, ◌∙◌, Bool, true, false, Option, some, Text, ok, text_eq_refl, arith,
}
use nndsk_ro_launcher.Base.Dict.{Text-eq}
use nndsk_ro_launcher.App.OperationLock.{LockState, System, default_state, is_unavailable, enter}
use nndsk_ro_launcher.App.OperationLock.World.{RecordLocks}
use nndsk_ro_launcher.App.OperationLock.Sound.{Holding}
use nndsk_ro_launcher.App.OperationLock.Sound.Tables.{raised, holds_key}

module _ {Os : Type 0} (system : System Os) (locks : RecordLocks system) where
  -- A key that is free takes a first guard.
  pub fresh-Holding :
      (p : ℕ) (key : Text) (shared : Bool) (os os' : Os) (live : Text → Bool → ℕ)
      → live key true ≡ 0
      → live key false ≡ 0
      → system.set_lock p (system.lock_file key) shared os ≡ ok os'
      → Holding
          (system.lock_file key)
          (enter shared (record default_state { cross_process = some (system.lock_file key) }))
          (raised p key shared live key true)
          (raised p key shared live key false)
          (holds_key system locks p key os')
  unfolding enter
  fresh-Holding p key true os os' live s x e = record {
    is_open = refl;
    is_used = refl;
    one_kind = λ h. cc h;
    covers_shared = ground (arith, text_eq_refl key);
    covers_exclusive = ground (arith, text_eq_refl key);
    is_held =
        locks.set_lock_granted p _ true os os' e p _
        ∙ ground (arith, text_eq_refl (system.lock_file key));
  }
  fresh-Holding p key false os os' live s x e = record {
    is_open = refl;
    is_used = refl;
    one_kind = λ h. refl;
    covers_shared = ground (arith, text_eq_refl key);
    covers_exclusive = ground (arith, text_eq_refl key);
    is_held =
        locks.set_lock_granted p _ false os os' e p _
        ∙ ground (arith, text_eq_refl (system.lock_file key));
  }

  -- A key that has shared guards takes one more shared guard.
  pub again-Holding :
      (p : ℕ) (file : Text) (key : Text) (shared : Bool) (a : LockState) (live : Text → Bool → ℕ)
      (held : Option Bool)
      → Holding file a (live key true) (live key false) held
      → is_unavailable shared a ≡ false
      → Holding file
          (enter shared a)
          (raised p key shared live key true)
          (raised p key shared live key false)
          held
  unfolding enter is_unavailable
  again-Holding p file key true a live held h free =
      let c = h.covers_shared in
      let x = h.covers_exclusive in
      record {
        is_open = h.is_open;
        is_used = ground (arith, h.is_used);
        one_kind = λ e. cc (e, free);
        covers_shared = ground (arith, text_eq_refl key);
        covers_exclusive = ground (arith, text_eq_refl key);
        is_held = h.is_held;
      }
  again-Holding p file key false a live held h free = absurd (let u = h.is_used in ground arith)

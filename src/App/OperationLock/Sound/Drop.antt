-- ===== src/App/OperationLock/Sound/Drop.antt =====
-- Dropping a guard keeps the tables sound.
use nndsk_ro_launcher.Base.{
  ℕ, ◌-◌, ◌<◌, ◌≡◌, ◌≢◌, refl, ◌∙◌, Bool, true, false, not, ◌&&◌, Option, none, some, Text, ◌==◌,
  text_eq, text_eq_refl, text_eq-false, if_cases, option_cases, if◌then◌else◌, arith,
}
use nndsk_ro_launcher.Base.Dict.{Text-eq, lookup}
use nndsk_ro_launcher.App.OperationLock.{LockState, System, Operations, leave, drop_guard}
use nndsk_ro_launcher.App.OperationLock.World.{RecordLocks, same_mode, World}
use nndsk_ro_launcher.App.OperationLock.Sound.{
  Holding, Matches, Fits, IsSound, Beside, Beside-refl, close-Beside,
}
use nndsk_ro_launcher.App.OperationLock.Sound.Tables.{
  At, put-Fits, remove-Fits, holds_key, found-At, closed-key, closed-other,
}

-- The guards of a process, when one of a kind is dropped.
abbrev lowered : ℕ → Text → Bool → (Text → Bool → ℕ) → Text → Bool → ℕ
lowered p key shared live k m =
    if p == p && (text_eq key k && same_mode shared m) then live k m - 1 else live k m

lower-Holding :
    (p : ℕ) (file : Text) (key k : Text) (shared : Bool) (a : LockState) (live : Text → Bool → ℕ)
    → (held : Option Bool) → Holding file a (live k true) (live k false) held
    → Holding file a (lowered p key shared live k true) (lowered p key shared live k false) held
lower-Holding p file key k shared a live held h =
    let s = h.covers_shared in
    let x = h.covers_exclusive in
    record {
      is_open = h.is_open;
      is_used = h.is_used;
      one_kind = h.one_kind;
      covers_shared = ground arith;
      covers_exclusive = ground arith;
      is_held = h.is_held;
    }

-- One guard fewer, but not the last.
leave-Holding :
    (p : ℕ) (file : Text) (key : Text) (shared : Bool) (a : LockState) (live : Text → Bool → ℕ)
    → (held : Option Bool) → Holding file a (live key true) (live key false) held
    → 0 < live key shared
    → ((leave shared a).readers == 0 && not (leave shared a).writer) ≡ false
    → Holding file
        (leave shared a)
        (lowered p key shared live key true)
        (lowered p key shared live key false)
        held
unfolding leave
leave-Holding p file key true a live held h b more =
    let s = h.covers_shared in
    let x = h.covers_exclusive in
    let k = h.one_kind in
    record {
      is_open = h.is_open;
      is_used = ground arith;
      one_kind = λ e. ground arith;
      covers_shared = ground (arith, text_eq_refl key);
      covers_exclusive = ground arith;
      is_held = h.is_held;
    }
leave-Holding p file key false a live held h b more =
    let x = h.covers_exclusive in let k = h.one_kind in absurd (ground arith)

-- The last guard: none is left.
last-lowered :
    (p : ℕ) (file : Text) (key : Text) (shared : Bool) (a : LockState) (live : Text → Bool → ℕ)
    → (held : Option Bool) → Holding file a (live key true) (live key false) held
    → 0 < live key shared
    → ((leave shared a).readers == 0 && not (leave shared a).writer) ≡ true
    → (lowered p key shared live key true ≡ 0) × (lowered p key shared live key false ≡ 0)
unfolding leave
last-lowered p file key true a live held h b last =
    let s = h.covers_shared in
    let x = h.covers_exclusive in
    let k = h.one_kind in (ground (arith, text_eq_refl key), ground arith)
last-lowered p file key false a live held h b last =
    let s = h.covers_shared in
    let x = h.covers_exclusive in
    let k = h.one_kind in (ground arith, ground (arith, text_eq_refl key))

leave-cross : (shared : Bool) (a : LockState) → (leave shared a).cross_process ≡ a.cross_process
unfolding leave
leave-cross true a = refl
leave-cross false a = refl

module _ {Os : Type 0} (system : System Os) (locks : RecordLocks system) where
  -- What dropping a guard in a process leaves.
  abbrev pub AfterDrop : World Os → ℕ → Text → Bool → Operations × Os → Type 0
  AfterDrop w p key shared (o, os') =
      Beside system locks p w.os os' × Fits system locks p o os' (lowered p key shared (w.live p))

  -- The guards of another key are as many as before.
  lower-other :
      (w : World Os) (p : ℕ) (key k : Text) (shared : Bool) (os' : Os)
      → IsSound system locks w
      → locks.holds os' p (system.lock_file k) ≡ locks.holds w.os p (system.lock_file k)
      → key ≢ k
      → At system locks p os' (lowered p key shared (w.live p)) k (lookup k (w.tables p).states)
  lower-other w p key k shared os' h e d =
      let away : text_eq key k ≡ false = text_eq-false key k d in
      let same : (m : Bool) → lowered p key shared (w.live p) k m ≡ w.live p k m =
        λ m. ground (arith, away) in
      rw (e, same true, same false) (h.fits p k)

  lower-Matches :
      (p : ℕ) (file : Text) (key k : Text) (shared : Bool) (st : Option LockState)
      (live : Text → Bool → ℕ)
      → (held : Option Bool) → Matches file st (live k true) (live k false) held
      → Matches file st (lowered p key shared live k true) (lowered p key shared live k false) held
  lower-Matches p file key k shared none live held (s, x, h) = (ground arith, ground arith, h)
  lower-Matches p file key k shared (some a) live held h =
      lower-Holding p file key k shared a live held h

  is_live : (shared : Bool) (live : Bool → ℕ) → live true ≡ 0 → live false ≡ 0 → ¬ (0 < live shared)
  is_live true live s x b = omega arith
  is_live false live s x b = omega arith

  pub drop-AfterDrop :
      (w : World Os) (p : ℕ) (key : Text) (shared : Bool)
      → IsSound system locks w
      → 0 < w.live p key shared
      → AfterDrop w p key shared
          (drop_guard system p (record { key = key; shared = shared }) (w.tables p, w.os))
  unfolding drop_guard
  drop-AfterDrop w p key shared h b =
      let file = system.lock_file key in
      if_cases (AfterDrop w p key shared) (w.tables p).poisoned
        (λ _. (
          Beside-refl system locks w p h,
          λ k.
              lower-Matches p (system.lock_file k) key k shared (lookup k (w.tables p).states)
                (w.live p) (holds_key system locks p k w.os) (h.fits p k),
        ))
        (λ _.
          option_cases (AfterDrop w p key shared) (lookup key (w.tables p).states)
            (λ f.
              let (s, x, _) = found-At system locks w p key none h f in
              absurd (is_live shared (w.live p key) s x b))
            (λ a f.
              let holding = found-At system locks w p key (some a) h f in
              if_cases (AfterDrop w p key shared)
                ((leave shared a).readers == 0 && not (leave shared a).writer)
                (λ last.
                  let closing : (leave shared a).cross_process ≡ some file =
                    leave-cross shared a ∙ holding.is_open in
                  let (s, x) =
                    last-lowered p file key shared a (w.live p) (holds_key system locks p key w.os)
                      holding b last in
                  let os' = system.close p file w.os in
                  rw closing (
                    close-Beside system locks w p file h,
                    remove-Fits system locks p (w.tables p) os' (lowered p key shared (w.live p))
                        key (s, x, closed-key system locks p file w.os)
                        (λ k d.
                          lower-other w p key k shared os' h
                            (closed-other system locks p key k w.os d) d),
                  ))
                (λ more. (
                  Beside-refl system locks w p h,
                  put-Fits system locks p (w.tables p) w.os (lowered p key shared (w.live p)) key
                      (leave shared a)
                      (leave-Holding p file key shared a (w.live p)
                        (holds_key system locks p key w.os) holding b more)
                      (λ k d. lower-other w p key k shared w.os h refl d),
                ))))

-- ===== src/App/OperationLock/Sound/Acquire.antt =====
-- `acquire_with_mode` keeps the tables sound.
use nndsk_ro_launcher.Base.{
  ℕ, ◌+◌, ◌≡◌, ◌≢◌, ◌⊎◌, inl, inr, refl, ◌∙◌, Bool, true, false, ◌&&◌, none, some, Text, ◌==◌,
  Result, ok, err, is_ok, text_eq, text_eq-false, if_cases, if◌then◌else◌, arith,
}
use nndsk_ro_launcher.Base.Dict.{Text-eq, lookup, insert, remove}
use nndsk_ro_launcher.App.OperationLock.{
  LockState, OperationGuard, OperationLockError, CrossProcessLockError, System, Weather, Operations,
  default_state, is_unavailable, enter, as_operation_error, entry, finish_acquire,
  acquire_with_mode,
}
use nndsk_ro_launcher.App.OperationLock.World.{RecordLocks, same_mode, World}
use nndsk_ro_launcher.App.OperationLock.Sound.{
  Fits, IsSound, Beside, Beside-refl, close-Beside, lock-Beside,
}
use nndsk_ro_launcher.App.OperationLock.Sound.Tables.{
  Crossed, cross-Crossed, entry-cases, At, put-Fits, remove-Fits, raised, holds_key, kept-At,
  found-At, closed-key, closed-other,
}
use nndsk_ro_launcher.App.OperationLock.Sound.Enter.{fresh-Holding, again-Holding}

module _ {Os : Type 0} (system : System Os) (locks : RecordLocks system) where
  -- What a call of `acquire_with_mode` in a process leaves.
  abbrev pub After :
      World Os
      → ℕ
      → Text
      → Bool
      → Result OperationLockError OperationGuard × Operations × Os
      → Type 0
  After w p key shared (r, o, os') =
      Beside system locks p w.os os'
      × Fits system locks p o os' (λ k m.
        if is_ok r && (p == p && (text_eq key k && same_mode shared m))
        then w.live p k m + 1
        else w.live p k m)

  -- Another key is untouched.
  other-At :
      (w : World Os) (p : ℕ) (key k : Text) (shared : Bool) (os' : Os)
      → IsSound system locks w
      → locks.holds os' p (system.lock_file k) ≡ locks.holds w.os p (system.lock_file k)
      → key ≢ k
      → At system locks p os' (raised p key shared (w.live p)) k (lookup k (w.tables p).states)
  other-At w p key k shared os' h e d =
      let away : text_eq key k ≡ false = text_eq-false key k d in
      let same : (m : Bool) → raised p key shared (w.live p) k m ≡ w.live p k m =
        λ m. ground (arith, away) in
      rw (e, same true, same false) (h.fits p k)

  default-free : (shared : Bool) → is_unavailable shared default_state ≡ false
  unfolding is_unavailable
  default-free true = refl
  default-free false = refl

  busy-After :
      (w : World Os) (p : ℕ) (key : Text) (shared : Bool)
      → IsSound system locks w
      → is_unavailable shared (entry key (w.tables p)) ≡ true
      → (e : OperationLockError)
      → After w p key shared (
        err e,
        record (w.tables p) { states = insert key (entry key (w.tables p)) (w.tables p).states },
        w.os,
      )
  unfolding is_unavailable
  busy-After w p key shared h busy e = elim (entry-cases key (w.tables p)) [
    | inl f ↦ (
      Beside-refl system locks w p h,
      put-Fits system locks p (w.tables p) w.os (w.live p) key (entry key (w.tables p))
          (found-At system locks w p key _ h f) (λ k d. h.fits p k),
    )
    | inr (_, f) ↦ cc (default-free shared)
  ]

  -- A state without a lock of the file is one that was just made.
  unlocked :
      (w : World Os) (p : ℕ) (key : Text)
      → IsSound system locks w
      → (entry key (w.tables p)).cross_process ≡ none
      → (lookup key (w.tables p).states ≡ none) × (entry key (w.tables p) ≡ default_state)
  unlocked w p key h n = elim (entry-cases key (w.tables p)) [
    | inl f ↦ let held = found-At system locks w p key _ h f in cc (n, held.is_open)
    | inr f ↦ f
  ]

  again-After :
      (w : World Os) (p : ℕ) (key : Text) (shared : Bool)
      → IsSound system locks w
      → is_unavailable shared (entry key (w.tables p)) ≡ false
      → (entry key (w.tables p)).cross_process ≢ none
      → After w p key shared (
        ok (record { key = key; shared = shared }),
        record (w.tables p) {
          states = insert key (enter shared (entry key (w.tables p))) (w.tables p).states;
        },
        w.os,
      )
  again-After w p key shared h free is_open = elim (entry-cases key (w.tables p)) [
    | inl f ↦ (
      Beside-refl system locks w p h,
      put-Fits system locks p (w.tables p) w.os (raised p key shared (w.live p)) key
          (enter shared (entry key (w.tables p)))
          (again-Holding system locks p (system.lock_file key) key shared (entry key (w.tables p))
            (w.live p) (holds_key system locks p key w.os) (found-At system locks w p key _ h f)
            free)
          (λ k d. other-At w p key k shared w.os h refl d),
    )
    | inr (_, d) ↦ absurd (is_open (rw d refl))
  ]

  -- A lock that is granted changes what the process holds of one key only.
  granted-other :
      (p : ℕ) (key k : Text) (shared : Bool) (os os' : Os)
      → system.set_lock p (system.lock_file key) shared os ≡ ok os'
      → key ≢ k
      → locks.holds os' p (system.lock_file k) ≡ locks.holds os p (system.lock_file k)
  granted-other p key k shared os os' e d =
      let away : system.lock_file key ≢ system.lock_file k =
        λ same. d (locks.lock_file_injective key k same) in
      locks.set_lock_granted p (system.lock_file key) shared os os' e p (system.lock_file k)
      ∙ ground (arith, text_eq-false _ _ away)

  fresh-After :
      (w : World Os) (p : ℕ) (key : Text) (shared : Bool) (os' : Os)
      → IsSound system locks w
      → (entry key (w.tables p)).cross_process ≡ none
      → system.set_lock p (system.lock_file key) shared w.os ≡ ok os'
      → After w p key shared (
        ok (record { key = key; shared = shared }),
        record (w.tables p) {
          states =
              insert key
                (enter shared
                  (record (entry key (w.tables p)) { cross_process = some (system.lock_file key) }))
                (w.tables p).states;
        },
        os',
      )
  fresh-After w p key shared os' h n e =
      let (f, d) = unlocked w p key h n in
      let (s, x, _) = found-At system locks w p key none h f in
      rw d (
        lock-Beside system locks w p (system.lock_file key) shared os' h e,
        put-Fits system locks p (w.tables p) os' (raised p key shared (w.live p)) key _
            (fresh-Holding system locks p key shared w.os os' (w.live p) s x e)
            (λ k away.
              other-At w p key k shared os' h (granted-other p key k shared w.os os' e away) away),
      )

  failed-After :
      (w : World Os) (p : ℕ) (key : Text) (shared : Bool) (os' : Os) (e : OperationLockError)
      → IsSound system locks w
      → (entry key (w.tables p)).cross_process ≡ none
      → (os' ≡ w.os) ⊎ (os' ≡ system.close p (system.lock_file key) w.os)
      → After w p key shared
          (err e, record (w.tables p) { states = remove key (w.tables p).states }, os')
  failed-After w p key shared os' e h n left =
      let (f, d) = unlocked w p key h n in
      let (s, x, held) = found-At system locks w p key none h f in
      let file = system.lock_file key in
      elim left [
        | inl same ↦ rw same (
          Beside-refl system locks w p h,
          remove-Fits system locks p (w.tables p) w.os (w.live p) key (s, x, held)
              (λ k _. h.fits p k),
        )
        | inr same ↦ rw same (
          close-Beside system locks w p file h,
          remove-Fits system locks p (w.tables p) (system.close p file w.os) (w.live p) key
              (s, x, closed-key system locks p file w.os)
              (λ k d.
                kept-At system locks w p k (system.close p file w.os) h
                  (closed-other system locks p key k w.os d)),
        )
      ]

  Crossed-After :
      (w : World Os) (p : ℕ) (key : Text) (shared : Bool)
      → (t : Result CrossProcessLockError LockState × Os) → IsSound system locks w
      → is_unavailable shared (entry key (w.tables p)) ≡ false
      → Crossed system locks p key shared (entry key (w.tables p)) w.os t
      → After w p key shared (finish_acquire key shared (w.tables p) t)
  unfolding finish_acquire
  Crossed-After w p key shared (ok a, os') h free c = elim c [
    | inl (is_open, e, same) ↦
        let at_a : a ≡ entry key (w.tables p) = cc e in
        rw (at_a, same) (again-After w p key shared h free is_open)
    | inr (n, t) ↦ elim t [
      | inl (e, granted) ↦
          let at_a : a
              ≡ record (entry key (w.tables p)) { cross_process = some (system.lock_file key) } =
            cc e in
          rw at_a (fresh-After w p key shared os' h n granted)
      | inr (_, e, _) ↦ cc e
    ]
  ]
  Crossed-After w p key shared (err x, os') h free c = elim c [
    | inl (_, e, _) ↦ cc e
    | inr (n, t) ↦ elim t [
      | inl (e, _) ↦ cc e
      | inr (_, _, left) ↦ failed-After w p key shared os' (as_operation_error x) h n left
    ]
  ]

  pub acquire-After :
      (weather : Weather) (w : World Os) (p : ℕ) (key : Text) (shared : Bool)
      → IsSound system locks w
      → After w p key shared (acquire_with_mode system weather p key shared (w.tables p, w.os))
  unfolding acquire_with_mode
  acquire-After weather w p key shared h =
      if_cases (After w p key shared) (w.tables p).poisoned
        (λ _. (Beside-refl system locks w p h, h.fits p))
        (λ _.
          if_cases (After w p key shared) (is_unavailable shared (entry key (w.tables p)))
            (λ busy. busy-After w p key shared h busy (OperationLockError.busy false))
            (λ free.
              Crossed-After w p key shared _ h free
                (cross-Crossed system locks weather p key shared (entry key (w.tables p)) w.os)))

-- ===== src/App/OperationLock/Sound/Tables.antt =====
-- One key's state in the table of a process, and what `lock_across_processes` answers.
use nndsk_ro_launcher.Base.{text_eq_refl, text_eq-false}
use nndsk_ro_launcher.Base.{
  ℕ, zero, suc, ◌+◌, ◌≡◌, ◌≢◌, ◌⊎◌, inl, inr, refl, sym, ◌∙◌, subst, Bool, true, false, ◌&&◌,
  Option, none, some, Text, ◌==◌, Result, ok, err, text_eq, text_eq_iff, if_cases, option_cases,
  result_cases, if◌then◌else◌, arith,
}
use nndsk_ro_launcher.Base.Dict.{Text-eq, lookup, insert, remove, lookup-insert, lookup-remove}
use nndsk_ro_launcher.App.OperationLock.{
  LockState, CrossProcessLockError, System, Weather, Operations, default_state, lock_loop,
  lock_across_processes, with_file, cross, entry,
}
use nndsk_ro_launcher.App.OperationLock.World.{RecordLocks, same_mode, World}
use nndsk_ro_launcher.App.OperationLock.Sound.{Matches, Fits, IsSound}

-- The state of a key is there, or it is the default.
pub entry-cases :
    (key : Text) (o : Operations)
    → (lookup key o.states ≡ some (entry key o))
      ⊎ ((lookup key o.states ≡ none) × (entry key o ≡ default_state))
unfolding entry
entry-cases key o = ground arith

-- The guards of a process, when one more of a kind is alive.
abbrev pub raised : ℕ → Text → Bool → (Text → Bool → ℕ) → Text → Bool → ℕ
raised p key shared live k m =
    if p == p && (text_eq key k && same_mode shared m) then live k m + 1 else live k m

module _ {Os : Type 0} (system : System Os) (locks : RecordLocks system) where
  -- What the loop around `fcntl` leaves: the lock is granted, or the file is closed again.
  abbrev Locked : ℕ → Text → Bool → Os → Result CrossProcessLockError Text × Os → Type 0
  Locked p file shared os t =
      ((t.0 ≡ ok file) × (system.set_lock p file shared os ≡ ok t.1))
      ⊎ ((e : CrossProcessLockError) × (t.0 ≡ err e)
          × ((t.1 ≡ os) ⊎ (t.1 ≡ system.close p file os)))

  lock_loop-Locked :
      (n p : ℕ) (file : Text) (shared : Bool) (os : Os)
      → Locked p file shared os (lock_loop system n p file shared os)
  unfolding lock_loop
  lock_loop-Locked (suc n) p file shared os = lock_loop-Locked n p file shared os
  lock_loop-Locked zero p file shared os =
      result_cases (Locked p file shared os) (system.set_lock p file shared os)
        (λ _ e. inl (refl, e)) (λ _ e. inr (_, refl, inr refl))

  lock_across_processes-Locked :
      (weather : Weather) (p : ℕ) (key : Text) (shared : Bool) (os : Os)
      → Locked p
          (system.lock_file key)
          shared
          os
          (lock_across_processes system weather p key shared os)
  unfolding lock_across_processes
  lock_across_processes-Locked weather p key shared os =
      option_cases (Locked p (system.lock_file key) shared os) weather.opened
        (λ _. lock_loop-Locked weather.interruptions p (system.lock_file key) shared os)
        (λ e _. inr (_, refl, inl refl))

  -- What `cross` leaves: the state as it was, when it has the lock, and else as `Locked` says.
  abbrev pub Crossed :
      ℕ → Text → Bool → LockState → Os → Result CrossProcessLockError LockState × Os → Type 0
  Crossed p key shared a os t =
      ((a.cross_process ≢ none) × (t.0 ≡ ok a) × (t.1 ≡ os))
      ⊎ ((a.cross_process ≡ none)
          × (((t.0 ≡ ok (record a { cross_process = some (system.lock_file key) }))
                × (system.set_lock p (system.lock_file key) shared os ≡ ok t.1))
              ⊎ ((e : CrossProcessLockError) × (t.0 ≡ err e)
                  × ((t.1 ≡ os) ⊎ (t.1 ≡ system.close p (system.lock_file key) os)))))

  with_file-Crossed :
      (p : ℕ) (key : Text) (shared : Bool) (a : LockState) (os : Os)
      → (t : Result CrossProcessLockError Text × Os) → a.cross_process ≡ none
      → Locked p (system.lock_file key) shared os t
      → Crossed p key shared a os (with_file a t)
  unfolding with_file
  with_file-Crossed p key shared a os (ok file, os') n h = elim h [
    | inl (e, granted) ↦
        let same : file ≡ system.lock_file key = cc e in inr (n, inl (rw same refl, granted))
    | inr (x, e, _) ↦ cc e
  ]
  with_file-Crossed p key shared a os (err x, os') n h = elim h [
    | inl (e, _) ↦ cc e
    | inr (y, e, left) ↦ inr (n, inr (x, refl, left))
  ]

  pub cross-Crossed :
      (weather : Weather) (p : ℕ) (key : Text) (shared : Bool) (a : LockState) (os : Os)
      → Crossed p key shared a os (cross system weather p key shared a os)
  unfolding cross
  cross-Crossed weather p key shared a os =
      option_cases (Crossed p key shared a os) a.cross_process
        (λ n.
          with_file-Crossed p key shared a os _ n
            (lock_across_processes-Locked weather p key shared os))
        (λ f e. inl (λ n. cc (n, e), refl, refl))

  -- What a state of one key must say.
  abbrev pub At : ℕ → Os → (Text → Bool → ℕ) → Text → Option LockState → Type 0
  At p os live k st =
      Matches (system.lock_file k) st (live k true) (live k false)
        (locks.holds os p (system.lock_file k))

  pub put-Fits :
      (p : ℕ) (o : Operations) (os : Os) (live : Text → Bool → ℕ) (key : Text) (a : LockState)
      → At p os live key (some a)
      → ((k : Text) → key ≢ k → At p os live k (lookup k o.states))
      → Fits system locks p (record o { states = insert key a o.states }) os live
  put-Fits p o os live key a new old k =
      subst (At p os live k) (sym (lookup-insert key k a o.states)) (
        if_cases (At p os live k) (text_eq key k)
          (λ e. let same : key ≡ k = (text_eq_iff key k).0 e in rw⁻¹ same new)
          (λ e. old k (λ same. cc (e, (text_eq_iff key k).1 same))))

  pub remove-Fits :
      (p : ℕ) (o : Operations) (os : Os) (live : Text → Bool → ℕ) (key : Text)
      → At p os live key none
      → ((k : Text) → key ≢ k → At p os live k (lookup k o.states))
      → Fits system locks p (record o { states = remove key o.states }) os live
  remove-Fits p o os live key new old k =
      subst (At p os live k) (sym (lookup-remove key k o.states)) (
        if_cases (At p os live k) (text_eq key k)
          (λ e. let same : key ≡ k = (text_eq_iff key k).0 e in rw⁻¹ same new)
          (λ e. old k (λ same. cc (e, (text_eq_iff key k).1 same))))

  abbrev pub holds_key : ℕ → Text → Os → Option Bool
  holds_key p key os = locks.holds os p (system.lock_file key)

  pub kept-At :
      (w : World Os) (p : ℕ) (k : Text) (os' : Os)
      → IsSound system locks w
      → locks.holds os' p (system.lock_file k) ≡ locks.holds w.os p (system.lock_file k)
      → At p os' (w.live p) k (lookup k (w.tables p).states)
  kept-At w p k os' h e = rw e (h.fits p k)

  pub found-At :
      (w : World Os) (p : ℕ) (key : Text) (st : Option LockState)
      → IsSound system locks w
      → lookup key (w.tables p).states ≡ st
      → At p w.os (w.live p) key st
  found-At w p key st h f = subst (At p w.os (w.live p) key) f (h.fits p key)

  -- Closing a file changes what the process holds of one key only.
  pub closed-key :
      (p : ℕ) (file : Text) (os : Os) → locks.holds (system.close p file os) p file ≡ none
  closed-key p file os = locks.close_releases p file os p file ∙ ground (arith, text_eq_refl file)

  pub closed-other :
      (p : ℕ) (key k : Text) (os : Os)
      → key ≢ k
      → locks.holds (system.close p (system.lock_file key) os) p (system.lock_file k)
        ≡ locks.holds os p (system.lock_file k)
  closed-other p key k os d =
      let away : system.lock_file key ≢ system.lock_file k =
        λ same. d (locks.lock_file_injective key k same) in
      locks.close_releases p (system.lock_file key) os p (system.lock_file k)
      ∙ ground (arith, text_eq-false _ _ away)

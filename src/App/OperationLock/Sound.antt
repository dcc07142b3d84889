-- ===== src/App/OperationLock/Sound.antt =====
-- What the table of each process says of its guards and of its locks of files, and how one process
-- may change it.
pub mod Tables
pub mod Enter
pub mod Acquire
pub mod Drop
use nndsk_ro_launcher.Base.{text_eq, text_eq_iff}
use nndsk_ro_launcher.Base.{
  ℕ, zero, suc, ◌+◌, ◌-◌, ◌<◌, ◌≤◌, ◌≡◌, ◌≢◌, ◌⊎◌, inl, inr, refl, sym, ◌∙◌, subst, Bool, true,
  false, not, ◌&&◌, ◌||◌, Option, none, some, Text, ltb, ◌==◌, ==_refl, Result, ok, err, is_ok,
  Bool-cases, Option-cases, if_cases, option_cases, result_cases, if◌then◌else◌, arith,
}
use nndsk_ro_launcher.Base.Dict.{Text-eq, lookup, insert, remove, lookup-insert, lookup-remove}
use nndsk_ro_launcher.App.OperationLock.{
  LockState, OperationGuard, OperationLockError, CrossProcessLockError, System, Errno, would_block,
  other_errno, Weather, Operations, no_operations, default_state, is_unavailable, enter, leave,
  lock_loop, lock_across_processes, as_operation_error, cross, entry, acquire_with_mode, close_file,
  drop_guard,
}
use nndsk_ro_launcher.App.OperationLock.World.{
  RecordLocks, same_mode, World, acquire_in, drop_in, Step, acquires, drops, Reach, start, later,
}

-- What a state of a key says, beside the numbers of living guards, shared and exclusive, and the
-- process's lock of the key's file.
pub record Holding (file : Text) (a : LockState) (shared exclusive : ℕ) (held : Option Bool)
    : Type 0 where
  pub is_open : a.cross_process ≡ some file
  pub is_used : (a.writer || ltb 0 a.readers) ≡ true
  pub one_kind : a.writer ≡ true → a.readers ≡ 0
  pub covers_shared : shared ≤ a.readers
  pub covers_exclusive : exclusive ≤ (if a.writer then 1 else 0)
  pub is_held : held ≡ some (not a.writer)

abbrev pub Matches : Text → Option LockState → ℕ → ℕ → Option Bool → Type 0
Matches file none shared exclusive held = (shared ≡ 0) × (exclusive ≡ 0) × (held ≡ none)
Matches file (some a) shared exclusive held = Holding file a shared exclusive held

module _ {Os : Type 0} (system : System Os) (locks : RecordLocks system) where
  -- Of one process: every key's state matches.
  abbrev pub Fits : ℕ → Operations → Os → (Text → Bool → ℕ) → Type 0
  Fits p o os live =
      (k : Text)
      → Matches (system.lock_file k) (lookup k o.states) (live k true) (live k false)
          (locks.holds os p (system.lock_file k))

  pub record IsSound (w : World Os) : Type 0 where
    pub fits : (p : ℕ) → Fits p (w.tables p) w.os (w.live p)
    pub beside :
        (p q : ℕ) (f : Text) (a b : Bool)
        → p ≢ q
        → locks.holds w.os p f ≡ some a
        → locks.holds w.os q f ≡ some b
        → (a ≡ true) × (b ≡ true)

  -- A change of the system by one process.
  pub record Beside (p : ℕ) (os os' : Os) : Type 0 where
    pub others : (q : ℕ) (f : Text) → p ≢ q → locks.holds os' q f ≡ locks.holds os q f
    pub still :
        (q : ℕ) (f : Text) (a b : Bool)
        → p ≢ q
        → locks.holds os' p f ≡ some a
        → locks.holds os q f ≡ some b
        → (a ≡ true) × (b ≡ true)

  pub Beside-refl : (w : World Os) (p : ℕ) → IsSound w → Beside p w.os w.os
  Beside-refl w p h = record { others = λ q f d. refl; still = λ q f a b d. h.beside p q f a b d }

  pub close-Beside :
      (w : World Os) (p : ℕ) (f : Text) → IsSound w → Beside p w.os (system.close p f w.os)
  close-Beside w p f h = record {
    others = λ q g d. locks.close_releases p f w.os q g ∙ ground arith;
    still = λ q g a b d k l. elim (Bool-cases (p == p && text_eq f g)) [
      | inl e ↦ cc (rw (e, if◌then◌else◌) at (sym (locks.close_releases p f w.os p g) ∙ k))
      | inr e ↦
          h.beside p q g a b d
            (rw (e, if◌then◌else◌) at (sym (locks.close_releases p f w.os p g) ∙ k)) l
    ];
  }

  pub lock-Beside :
      (w : World Os) (p : ℕ) (f : Text) (shared : Bool) (os' : Os)
      → IsSound w
      → system.set_lock p f shared w.os ≡ ok os'
      → Beside p w.os os'
  lock-Beside w p f shared os' h e = record {
    others = λ q g d. locks.set_lock_granted p f shared w.os os' e q g ∙ ground arith;
    still = λ q g a b d k l. elim (Bool-cases (p == p && text_eq f g)) [
      | inl t ↦
          let same : shared ≡ a = cc (
            rw (t, if◌then◌else◌) at
              (sym (locks.set_lock_granted p f shared w.os os' e p g) ∙ k)) in
          let at_g : f ≡ g = (text_eq_iff f g).0 (ground arith) in
          rw (sym same) (locks.set_lock_beside p f shared w.os os' e q b d (rw (sym at_g) at l))
      | inr t ↦
          h.beside p q g a b d
            (rw (t, if◌then◌else◌) at (sym (locks.set_lock_granted p f shared w.os os' e p g) ∙ k))
            l
    ];
  }

  pub update-IsSound :
      (w : World Os) (p : ℕ) (o : Operations) (os' : Os) (live : ℕ → Text → Bool → ℕ)
      → IsSound w
      → Beside p w.os os'
      → Fits p o os' (live p)
      → ((q : ℕ) (k : Text) (m : Bool) → p ≢ q → live q k m ≡ w.live q k m)
      → IsSound (record { tables = λ q. if p == q then o else w.tables q; os = os'; live = live })
  update-IsSound w p o os' live h b f same = record {
    fits = λ q k.
        if_cases
          (λ (t : Operations).
            Matches (system.lock_file k) (lookup k t.states) (live q k true) (live q k false)
              (locks.holds os' q (system.lock_file k)))
          (p == q)
          (λ e. let at_q : p ≡ q = ground arith in subst (λ x. Fits x o os' (live x)) at_q f k)
          (λ e.
            let d : p ≢ q = ground arith in
            rw (same q k true d, same q k false d, b.others q (system.lock_file k) d) (h.fits q k));
    beside = λ q r g x y d k l. elim (Bool-cases (p == q)) [
      | inl e ↦
          let at_q : p ≡ q = ground arith in
          let away : p ≢ r = rw at_q d in
          b.still r g x y away (rw (sym at_q) at k) (sym (b.others r g away) ∙ l)
      | inr e ↦
          let away : p ≢ q = ground arith in
          elim (Bool-cases (p == r)) [
            | inl e' ↦
                let at_r : p ≡ r = ground arith in
                let (v, u) =
                  b.still q g y x away (rw (sym at_r) at l) (sym (b.others q g away) ∙ k) in
                (u, v)
            | inr e' ↦
                h.beside q r g x y d (sym (b.others q g away) ∙ k)
                  (sym (b.others r g (ground arith)) ∙ l)
          ]
    ];
  }

-- ===== src/App/OperationLock/Waiting.antt =====
-- `acquire_for`: an exclusive guard is tried again while the key is busy, for a bounded time.
use nndsk_ro_launcher.Base.{
  ℕ, zero, suc, ◌+◌, ◌-◌, ◌*◌, ◌/◌, ◌<◌, ◌≤◌, ◌≡◌, refl, subst, min, Bool, true, false, ◌&&◌,
  Option, none, some, Text, ◌==◌, leb, Result, ok, err, Bool-cases, inl, inr, if◌then◌else◌, arith,
}
use nndsk_ro_launcher.App.OperationLock.{
  System, Weather, Operations, OperationGuard, OperationLockError, registry_poisoned,
  acquire_with_mode,
}

-- `Err(OperationLockError::Busy(_))`.
unfoldable pub is_busy : Result OperationLockError OperationGuard → Bool
is_busy (ok _) = false
is_busy (err (OperationLockError.busy _)) = true
is_busy (err (OperationLockError.io _)) = false
is_busy (err registry_poisoned) = false

-- What a process finds at its attempts: the table and the system, as the other threads and
-- processes have left them, and the time since the start, in nanoseconds.
pub record Course (Os : Type 0) : Type 0 where
  pub weather : ℕ → Weather
  pub found : ℕ → Operations × Os
  pub elapsed : ℕ → ℕ

module _ {Os : Type 0} (system : System Os) (course : Course Os) (p : ℕ) (key : Text)
    (timeout : ℕ) where
  unfoldable pub attempt : ℕ → Result OperationLockError OperationGuard
  unfolding acquire_with_mode
  attempt i = (acquire_with_mode system (course.weather i) p key false (course.found i)).0

  -- What is left of the time, and how long the thread sleeps.
  unfoldable pub remaining : ℕ → ℕ
  remaining i = timeout - course.elapsed i

  unfoldable pub sleep_time : ℕ → ℕ
  sleep_time i = min (remaining i) 25_000_000

  -- The loop from one attempt on.
  unfoldable pub acquire_for : ℕ → ℕ → Option (Result OperationLockError OperationGuard)
  unfolding is_busy attempt remaining
  acquire_for zero i = none
  acquire_for (suc fuel) i =
      let rest = acquire_for fuel (i + 1) in
      if is_busy (attempt i) && leb 1 (remaining i) then rest else some (attempt i)

  -- A thread sleeps for the time asked at least, and the clock does not go back.
  abbrev pub Sleeps : Type 0
  Sleeps = (i : ℕ) → course.elapsed i + sleep_time i ≤ course.elapsed (i + 1)

  -- The loop ended at an attempt from the first one on: the earlier ones were busy, with time left.
  pub record Ended (first fuel : ℕ) : Type 0 where
    pub last : ℕ
    pub is_after : first ≤ last
    pub is_soon : last < first + fuel
    pub answer : acquire_for fuel first ≡ some (attempt last)
    pub were_busy : (j : ℕ) → first ≤ j → j < last → is_busy (attempt j) ≡ true
    pub out_of_time : is_busy (attempt last) ≡ true → timeout ≤ course.elapsed last

  -- The first attempt ends the loop, when it is not busy or there is no time left.
  ends_now :
      (fuel i : ℕ) → (is_busy (attempt i) && leb 1 (remaining i)) ≡ false → Ended i (suc fuel)
  unfolding acquire_for remaining
  ends_now fuel i e = record {
    last = i;
    is_after = omega arith;
    is_soon = omega arith;
    answer = rw (e, if◌then◌else◌) refl;
    were_busy = λ j m n. absurd (omega arith);
    out_of_time = λ busy. ground arith;
  }

  -- The loop goes on after a busy attempt.
  ends_later :
      (fuel i : ℕ)
      → (is_busy (attempt i) && leb 1 (remaining i)) ≡ true
      → Ended (i + 1) fuel
      → Ended i (suc fuel)
  unfolding acquire_for
  ends_later fuel i e h =
      let a = h.is_after in
      let s = h.is_soon in
      record {
        last = h.last;
        is_after = omega arith;
        is_soon = omega arith;
        answer = rw (e, if◌then◌else◌) h.answer;
        were_busy = λ j m n. elim (Bool-cases (j == i)) [
          | inl t ↦ let at_i : j ≡ i = ground arith in rw at_i (ground arith)
          | inr t ↦ h.were_busy j (ground arith) n
        ];
        out_of_time = h.out_of_time;
      }

  acquire_for-ends :
      (fuel i : ℕ) → Sleeps → timeout ≤ course.elapsed i + fuel * 25_000_000 → Ended i (suc fuel)
  unfolding remaining sleep_time
  acquire_for-ends zero i slept b = ends_now zero i (ground arith)
  acquire_for-ends (suc fuel) i slept b =
      elim (Bool-cases (is_busy (attempt i) && leb 1 (remaining i))) [
        | inr e ↦ ends_now (suc fuel) i e
        | inl e ↦
            let s = slept i in
            ends_later (suc fuel) i e (acquire_for-ends fuel (i + 1) slept (ground arith))
      ]

  -- The waiting ends: with one attempt for each 25 milliseconds of the timeout, and two more, the
  -- loop answers what its last attempt answers, all the attempts before it were busy, and it
  -- answers that the key is busy only once the timeout is over.
  pub acquire_for-Ended : Sleeps → Ended 0 (timeout / 25_000_000 + 2)
  acquire_for-Ended slept =
      let enough : timeout ≤ course.elapsed 0 + (timeout / 25_000_000 + 1) * 25_000_000 =
        omega arith in
      let count : suc (timeout / 25_000_000 + 1) ≡ timeout / 25_000_000 + 2 = omega arith in
      subst (Ended 0) count (acquire_for-ends (timeout / 25_000_000 + 1) 0 slept enough)

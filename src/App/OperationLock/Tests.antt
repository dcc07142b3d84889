-- ===== src/App/OperationLock/Tests.antt =====
-- The operation lock with a concrete system: the locks of all processes in one list.
use nndsk_ro_launcher.Base.{
  ℕ, ◌*◌, ◌≡◌, ◌≢◌, ◌↔◌, refl, sym, subst, ap, inl, inr, Bool, true, false, not, ◌&&◌, none, some,
  List, [], ◌∷◌, Text, codes, ◌==◌, any, text_eq, text_eq_iff, Bool-cases, ok, err, if◌then◌else◌,
  arith,
}
use nndsk_ro_launcher.Base.Dict.{Eq, lookup, insert, remove, lookup-insert, lookup-remove}
use nndsk_ro_launcher.App.OperationLock.{
  System, would_block, Weather, no_operations, entry, is_unavailable, cross, with_file,
  lock_across_processes, lock_loop, finish_acquire, acquire_with_mode,
}
use nndsk_ro_launcher.App.OperationLock.World.{
  RecordLocks, World, acquire_in, Reach, start, later, acquires,
}
use nndsk_ro_launcher.App.OperationLock.Exclusion.{Reach-exclusive}
use nndsk_ro_launcher.App.OperationLock.Waiting.{
  Course, Sleeps, sleep_time, remaining, Ended, acquire_for-Ended,
}

abbrev same_owner : ℕ × Text → ℕ × Text → Bool
same_owner (p, f) (q, g) = p == q && text_eq f g

same_owner_iff : (a b : ℕ × Text) → (same_owner a b ≡ true) ↔ (a ≡ b)
same_owner_iff (p, f) (q, g) = (
  λ h.
      let e : p ≡ q = ground arith in
      let t : f ≡ g = (text_eq_iff f g).0 (ground arith) in λ i. (e i, t i),
  λ e.
      let at_q : p ≡ q = ap (λ a. a.0) e in
      let at_g : f ≡ g = ap (λ a. a.1) e in ground (arith, (text_eq_iff f g).1 at_g),
)

instance abbrev owner_eq : Eq (ℕ × Text)
owner_eq = record { beq = same_owner; beq_iff = same_owner_iff }

-- Who holds which file, and whether shared.
abbrev Locks : Type 0
Locks = List ((ℕ × Text) × Bool)

-- Another process has a lock of the file that cannot stand beside a new one.
abbrev conflicts : ℕ → Text → Bool → (ℕ × Text) × Bool → Bool
conflicts p f shared ((q, g), other) = not (p == q) && (text_eq f g && not (shared && other))

any-lookup :
    (p : ℕ) (f : Text) (shared : Bool) (os : Locks) (q : ℕ) (other : Bool)
    → any (conflicts p f shared) os ≡ false
    → lookup (q, f) os ≡ some other
    → conflicts p f shared ((q, f), other) ≡ false
unfolding lookup
any-lookup p f shared [] q other h e = cc e
any-lookup p f shared ((r, m) ∷ os) q other h e = elim (Bool-cases (same_owner r (q, f))) [
  | inl s ↦
      let at_q : r ≡ (q, f) = (same_owner_iff r (q, f)).0 s in
      let here : m ≡ other = cc (rw (s, if◌then◌else◌) at e) in
      let head : conflicts p f shared (r, m) ≡ false = ground arith in
      subst (λ x. conflicts p f shared x ≡ false) (λ i. (at_q i, here i)) head
  | inr s ↦ any-lookup p f shared os q other (ground arith) (rw (s, if◌then◌else◌) at e)
]

abbrev posix : System Locks
posix = record {
  lock_file = λ key. key;
  set_lock = λ p f shared os.
      if any (conflicts p f shared) os then err would_block else ok (insert (p, f) shared os);
  close = λ p f os. remove (p, f) os;
}

granted :
    (p : ℕ) (f : Text) (shared : Bool) (os os' : Locks)
    → posix.set_lock p f shared os ≡ ok os'
    → (any (conflicts p f shared) os ≡ false) × (insert (p, f) shared os ≡ os')
granted p f shared os os' e = elim (Bool-cases (any (conflicts p f shared) os)) [
  | inl t ↦ cc (rw (t, if◌then◌else◌) at e)
  | inr t ↦ (t, cc (rw (t, if◌then◌else◌) at e))
]

abbrev posix_locks : RecordLocks posix
posix_locks = record {
  holds = λ os p f. lookup (p, f) os;
  set_lock_granted = λ p f shared os os' e q g.
      let (_, made) = granted p f shared os os' e in
      rw (sym made) (lookup-insert (p, f) (q, g) shared os);
  set_lock_beside = λ p f shared os os' e q other d h.
      let (free, _) = granted p f shared os os' e in
      let c = any-lookup p f shared os q other free h in
      let here = (text_eq_iff f f).1 refl in (ground arith, ground arith);
  close_releases = λ p f os q g. lookup-remove (p, f) (q, g) os;
  lock_file_injective = λ k l e. e;
}

abbrev calm : Weather
calm = record { opened = none; interruptions = 1 }

abbrev key : Text
key = codes "prefix:/home/p"

abbrev before : World Locks
before = record { tables = λ _. no_operations; os = []; live = λ _ _ _. 0 }

-- One process takes the key; another one tries to.
abbrev taken : World Locks
taken = acquire_in posix calm 8 key true (acquire_in posix calm 7 key false before)

taken-Reach : Reach posix posix_locks taken
unfolding lookup
taken-Reach =
    later _ _ (later _ _ (start [] (λ p f. refl)) (acquires before calm 7 key false))
      (acquires (acquire_in posix calm 7 key false before) calm 8 key true)

Reach-exclusive_example :
    (taken.live 7 key false ≡ 1)
    × (taken.live 7 key true ≡ 0)
    × ((q : ℕ) → 7 ≢ q → (taken.live q key true ≡ 0) × (taken.live q key false ≡ 0))
unfolding acquire_in acquire_with_mode entry lookup is_unavailable cross with_file
    lock_across_processes lock_loop finish_acquire text_eq no_operations insert
Reach-exclusive_example = Reach-exclusive posix posix_locks taken taken-Reach 7 key (omega arith)

-- The key stays busy for 60 milliseconds; the thread sleeps as long as it asks.
abbrev course : Course Locks
course = record {
  weather = λ _. calm;
  found = λ _. (no_operations, ((8, key), false) ∷ []);
  elapsed = λ i. i * 25_000_000;
}

course-Sleeps : Sleeps posix course 7 key 50_000_000
unfolding sleep_time remaining
course-Sleeps i = omega arith

acquire_for-Ended_example : Ended posix course 7 key 50_000_000 0 4
acquire_for-Ended_example = acquire_for-Ended posix course 7 key 50_000_000 course-Sleeps

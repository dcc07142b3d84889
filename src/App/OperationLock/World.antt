-- ===== src/App/OperationLock/World.antt =====
-- Several processes that use the operation lock: their steps, in any order.
use nndsk_ro_launcher.Base.{
  ℕ, ◌+◌, ◌-◌, ◌<◌, ◌≡◌, ◌≢◌, Bool, true, false, not, ◌&&◌, Option, none, some, Text, text_eq, ◌==◌,
  ok, is_ok, if◌then◌else◌,
}
use nndsk_ro_launcher.Base.Dict.{Text-eq}
use nndsk_ro_launcher.App.OperationLock.{
  System, Weather, Operations, no_operations, acquire_with_mode, drop_guard,
}

-- What the manual of `fcntl` says of record locks on whole files. `holds` tells whether a process
-- has a lock of a file, and whether it is a shared one.
pub record RecordLocks {Os : Type 0} (system : System Os) : Type 0 where
  pub holds : Os → ℕ → Text → Option Bool
  -- A lock that is granted replaces what the process had on the file, and changes nothing else.
  pub set_lock_granted :
      (p : ℕ) (f : Text) (shared : Bool) (os os' : Os)
      → system.set_lock p f shared os ≡ ok os'
      → (q : ℕ) (g : Text)
      → holds os' q g ≡ (if p == q && text_eq f g then some shared else holds os q g)
  -- It is granted only beside shared locks of other processes, and then only a shared one.
  pub set_lock_beside :
      (p : ℕ) (f : Text) (shared : Bool) (os os' : Os)
      → system.set_lock p f shared os ≡ ok os'
      → (q : ℕ) (other : Bool) → p ≢ q
      → holds os q f ≡ some other
      → (shared ≡ true) × (other ≡ true)
  -- Closing any descriptor of a file gives the process's lock of it back.
  pub close_releases :
      (p : ℕ) (f : Text) (os : Os) (q : ℕ) (g : Text)
      → holds (system.close p f os) q g ≡ (if p == q && text_eq f g then none else holds os q g)
  -- The digests of the keys do not collide.
  pub lock_file_injective : (k l : Text) → system.lock_file k ≡ system.lock_file l → k ≡ l

-- Equal modes.
abbrev pub same_mode : Bool → Bool → Bool
same_mode true m = m
same_mode false m = not m

-- The tables of all processes, the system, and how many guards of a key, exclusive or shared, are
-- alive in a process.
pub record World (Os : Type 0) : Type 0 where
  pub tables : ℕ → Operations
  pub os : Os
  pub live : ℕ → Text → Bool → ℕ

module _ {Os : Type 0} (system : System Os) where
  unfoldable pub acquire_in : Weather → ℕ → Text → Bool → World Os → World Os
  unfolding acquire_with_mode
  acquire_in weather p key shared w =
      let (result, o, os') = acquire_with_mode system weather p key shared (w.tables p, w.os) in
      record {
        tables = λ q. if p == q then o else w.tables q;
        os = os';
        live = λ q k m.
            if is_ok result && (p == q && (Text-eq.beq key k && same_mode shared m))
            then w.live q k m + 1
            else w.live q k m;
      }

  unfoldable pub drop_in : ℕ → Text → Bool → World Os → World Os
  unfolding drop_guard
  drop_in p key shared w =
      let (o, os') =
        drop_guard system p (record { key = key; shared = shared }) (w.tables p, w.os) in
      record {
        tables = λ q. if p == q then o else w.tables q;
        os = os';
        live = λ q k m.
            if p == q && (Text-eq.beq key k && same_mode shared m)
            then w.live q k m - 1
            else w.live q k m;
      }

  -- One call in one process. A guard is dropped only while it is alive.
  pub data Step : World Os → World Os → Type 0 where
    acquires :
        (w : World Os) (weather : Weather) (p : ℕ) (key : Text) (shared : Bool)
        → Step w (acquire_in weather p key shared w)
    drops :
        (w : World Os) (p : ℕ) (key : Text) (shared : Bool)
        → 0 < w.live p key shared
        → Step w (drop_in p key shared w)

  -- What can be reached from processes without operations, where no file is locked.
  pub data Reach (locks : RecordLocks system) : World Os → Type 0 where
    start :
        (os : Os)
        → ((p : ℕ) (f : Text) → locks.holds os p f ≡ none)
        → Reach locks (record { tables = λ _. no_operations; os = os; live = λ _ _ _. 0 })
    later : (w v : World Os) → Reach locks w → Step w v → Reach locks v

-- ===== src/App/OperationLock.antt =====
-- src-tauri/src/utils/operation_lock.rs: exclusive and shared use of a path, by the threads of one
-- process through a table behind a mutex, and by several processes through POSIX record locks.
pub mod Waiting
pub mod World
pub mod Sound
pub mod Exclusion
pub mod Tests
use nndsk_ro_launcher.Base.{
  ℕ, zero, suc, ◌+◌, ◌-◌, Bool, true, false, not, ◌&&◌, ◌||◌, Option, none, some, List, [], Text,
  ltb, ◌==◌, Result, ok, err, if◌then◌else◌,
}
use nndsk_ro_launcher.Base.Dict.{Text-eq, lookup, insert, remove}

-- `cross_process` holds an open lock file, named by its path.
pub record LockState : Type 0 where
  pub readers : ℕ
  pub writer : Bool
  pub cross_process : Option Text

pub record OperationGuard : Type 0 where
  pub key : Text
  pub shared : Bool

pub data OperationLockError : Type 0 where
  -- Whether another process holds the lock.
  busy : Bool → OperationLockError
  io : ℕ → OperationLockError
  registry_poisoned : OperationLockError

pub data CrossProcessLockError : Type 0 where
  busy : CrossProcessLockError
  io : ℕ → CrossProcessLockError

-- The errors of `fcntl` that the code tells apart; EINTR is a number of interruptions below.
pub data Errno : Type 0 where
  would_block : Errno
  other_errno : ℕ → Errno

-- What the system keeps and answers: `set_lock process file shared` is `fcntl` with F_SETLK on the
-- whole file, `close process file` closes the process's descriptor of the file, and `lock_file`
-- is the path of a key's file, named by the SHA-256 of the key.
pub record System (Os : Type 0) : Type 0 where
  pub lock_file : Text → Text
  pub set_lock : ℕ → Text → Bool → Os → Result Errno Os
  pub close : ℕ → Text → Os → Os

-- What happens around one call: whether the directory and the file can be opened, or the error,
-- and how often a signal interrupts `fcntl`.
pub record Weather : Type 0 where
  pub opened : Option ℕ
  pub interruptions : ℕ

-- The table of one process. A mutex is poisoned when a thread panicked while it held it.
pub record Operations : Type 0 where
  pub states : List (Text × LockState)
  pub poisoned : Bool

unfoldable pub no_operations : Operations
no_operations = record { states = []; poisoned = false }

abbrev pub default_state : LockState
default_state = record { readers = 0; writer = false; cross_process = none }

unfoldable pub is_unavailable : Bool → LockState → Bool
is_unavailable shared active =
    if shared then active.writer else active.writer || ltb 0 active.readers

unfoldable pub enter : Bool → LockState → LockState
enter shared active =
    if shared
    then record active { readers = active.readers + 1 }
    else record active { writer = true }

unfoldable pub leave : Bool → LockState → LockState
leave shared active =
    if shared
    then record active { readers = active.readers - 1 }
    else record active { writer = false }

unfoldable pub as_lock_error : Errno → CrossProcessLockError
as_lock_error would_block = CrossProcessLockError.busy
as_lock_error (other_errno n) = CrossProcessLockError.io n

unfoldable pub as_operation_error : CrossProcessLockError → OperationLockError
as_operation_error CrossProcessLockError.busy = OperationLockError.busy true
as_operation_error (CrossProcessLockError.io e) = OperationLockError.io e

-- The state of a key, made when there is none.
unfoldable pub entry : Text → Operations → LockState
entry key o = elim (lookup key o.states) [ none ↦ default_state | some active ↦ active ]

unfoldable pub with_file :
    {Os : Type 0}
    → LockState
    → Result CrossProcessLockError Text × Os
    → Result CrossProcessLockError LockState × Os
with_file active (ok file, os) = (ok (record active { cross_process = some file }), os)
with_file active (err e, os) = (err e, os)

-- The end of `acquire_with_mode`, when the lock of the file is there or is refused.
unfoldable pub finish_acquire :
    {Os : Type 0}
    → Text
    → Bool
    → Operations
    → Result CrossProcessLockError LockState × Os
    → Result OperationLockError OperationGuard × Operations × Os
unfolding enter as_operation_error
finish_acquire key shared o (ok active, os) = (
  ok (record { key = key; shared = shared }),
  record o { states = insert key (enter shared active) o.states },
  os,
)
finish_acquire key shared o (err e, os) =
    (err (as_operation_error e), record o { states = remove key o.states }, os)

module _ {Os : Type 0} (system : System Os) where
  -- The loop around `fcntl`: an interruption is tried again.
  unfoldable pub lock_loop : ℕ → ℕ → Text → Bool → Os → Result CrossProcessLockError Text × Os
  unfolding as_lock_error
  lock_loop (suc n) process file shared os = lock_loop n process file shared os
  lock_loop zero process file shared os = elim (system.set_lock process file shared os) [
    | ok os' ↦ (ok file, os')
    | err e ↦ (err (as_lock_error e), system.close process file os)
  ]

  unfoldable pub lock_across_processes :
      Weather → ℕ → Text → Bool → Os → Result CrossProcessLockError Text × Os
  unfolding lock_loop
  lock_across_processes weather process key shared os = elim weather.opened [
    | some e ↦ (err (CrossProcessLockError.io e), os)
    | none ↦ lock_loop weather.interruptions process (system.lock_file key) shared os
  ]

  -- The lock of the file, unless the process has it: the state of the key with it.
  unfoldable pub cross :
      Weather → ℕ → Text → Bool → LockState → Os → Result CrossProcessLockError LockState × Os
  unfolding lock_across_processes with_file
  cross weather process key shared active os = elim active.cross_process [
    | some _ ↦ (ok active, os)
    | none ↦ with_file active (lock_across_processes weather process key shared os)
  ]

  -- `key` is the namespace with the normalized path.
  unfoldable pub acquire_with_mode :
      Weather
      → ℕ
      → Text
      → Bool
      → Operations × Os
      → Result OperationLockError OperationGuard × Operations × Os
  unfolding entry is_unavailable cross finish_acquire
  acquire_with_mode weather process key shared (o, os) =
      if o.poisoned
      then (err registry_poisoned, o, os)
      else let active = entry key o in
        if is_unavailable shared active
        then (
          err (OperationLockError.busy false),
          record o { states = insert key active o.states },
          os,
        )
        else finish_acquire key shared o (cross weather process key shared active os)

  abbrev pub close_file : ℕ → Option Text → Os → Os
  close_file process none os = os
  close_file process (some file) os = system.close process file os

  -- Dropping a guard. The file of a removed state is closed, which gives its lock back.
  unfoldable pub drop_guard : ℕ → OperationGuard → Operations × Os → Operations × Os
  unfolding leave
  drop_guard process guard (o, os) =
      if o.poisoned then (o, os) else elim (lookup guard.key o.states) [
        | none ↦ (o, os)
        | some active ↦
            let left = leave guard.shared active in
            if left.readers == 0 && not left.writer
            then (
              record o { states = remove guard.key o.states },
              close_file process left.cross_process os,
            )
            else (record o { states = insert guard.key left o.states }, os)
      ]

-- ===== src/App/GameProcess.antt =====
-- src-tauri/src/state/game_process.rs: what the registry of the game's clients keeps. The registry
-- stands behind one mutex, so every method is one atomic step on this state.
pub mod Launching
pub mod Queries
pub mod Stopping
pub mod Handoff
pub mod Run
pub mod Consistent
pub mod Life
pub mod Tests
use nndsk_ro_launcher.Base.{
  ℕ, ◌+◌, Bool, true, false, ◌&&◌, Option, none, some, List, [], Text, ◌==◌, Result, ok, err,
  if◌then◌else◌,
}
use nndsk_ro_launcher.Base.Dict.{Eq}

-- `ProcessIdentity` of crates/ro-tools-linux: a process id and when the process began.
pub record ProcessIdentity : Type 0 where
  pub pid : ℕ
  pub start_time : ℕ

-- The derived equality.
unfoldable pub same_identity : ProcessIdentity → ProcessIdentity → Bool
same_identity a b = a.pid == b.pid && a.start_time == b.start_time

pub data MemoryAccess : Type 0 where
  process_vm_readv : MemoryAccess
  proc_mem : MemoryAccess
  no_readable_writable_region : MemoryAccess
  outside_supervisor : MemoryAccess
  yama_denied : MemoryAccess
  process_exited_or_reused : MemoryAccess
  backend_error : MemoryAccess

pub data ProfileMemory : Type 0 where
  not_configured : ProfileMemory
  address_unmapped : ProfileMemory
  invalid_read : ProfileMemory
  valid : ProfileMemory

-- The leases are handles of other registries, told apart by a number.
pub record ClientRuntimeGuard : Type 0 where
  pub session : ℕ
  pub memory : Option ℕ
  pub memory_access : Option MemoryAccess
  pub profile_memory : Option ProfileMemory

pub record ClientMetadata : Type 0 where
  pub client_id : Text
  pub server_id : Text
  pub server_name : Text

pub data ProcessState : Type 0 where
  -- metadata, controller, stop_requested
  launching : ClientMetadata → Option ProcessIdentity → Bool → ProcessState
  -- metadata, identity, controller, runtime_plan_id, observation_id, runtime, stop_requested
  running :
      ClientMetadata
      → ProcessIdentity
      → Option ProcessIdentity
      → Text
      → Option Text
      → ClientRuntimeGuard
      → Bool
      → ProcessState

pub data GameClientStatus : Type 0 where
  launching : GameClientStatus
  running : GameClientStatus
  stopping : GameClientStatus

pub record GameClientSnapshot : Type 0 where
  pub client_id : Text
  pub server_id : Text
  pub server_name : Text
  pub status : GameClientStatus
  pub pid : Option ℕ
  pub memory_access : Option MemoryAccess
  pub profile_memory : Option ProfileMemory

pub record RunningClientFacts : Type 0 where
  pub identity : ProcessIdentity
  pub controller : Option ProcessIdentity
  pub server_id : Text
  pub server_name : Text
  pub runtime_plan_id : Text
  pub observation_id : Option Text

-- `RegistryState` with the counter of generations beside it, and whether a thread panicked while
-- it held the mutex.
pub record Registry : Type 0 where
  pub clients : List (ℕ × ProcessState)
  pub relaunch_admission_closed : Bool
  pub next_generation : ℕ
  pub poisoned : Bool

-- The messages of the methods' errors.
pub data RegistryError : Type 0 where
  registry_blocked : RegistryError
  relaunching : RegistryError
  another_launching : RegistryError
  client_id_taken : RegistryError
  identity_taken : RegistryError
  reservation_gone : RegistryError
  cancelled_by_user : RegistryError
  already_running : RegistryError
  clients_open : RegistryError
  no_client : RegistryError
  not_exactly_one : RegistryError
  client_gone : RegistryError
  client_stopping : RegistryError
  client_launching : RegistryError
  other_server : Text → RegistryError

pub record StopRequest : Type 0 where
  pub identities : List ProcessIdentity
  pub was_only_client : Bool

pub record FinishedClient : Type 0 where
  pub client_id : Text
  pub server_id : Text
  pub server_name : Text
  pub stop_requested : Bool
  pub remaining_clients : ℕ

unfoldable pub new_registry : Registry
new_registry = record {
  clients = [];
  relaunch_admission_closed = false;
  next_generation = 1;
  poisoned = false;
}

-- `lock`: every method that returns a `Result` begins with it.
unfoldable pub lock : Registry → Result RegistryError (Unit {0})
lock s = if s.poisoned then err registry_blocked else ok tt

abbrev pub metadata : ProcessState → ClientMetadata
metadata (ProcessState.launching m _ _) = m
metadata (ProcessState.running m _ _ _ _ _ _) = m

abbrev pub identity : ProcessState → Option ProcessIdentity
identity (ProcessState.launching _ _ _) = none
identity (ProcessState.running _ i _ _ _ _ _) = some i

-- The two `matches!` on a state's constructor.
abbrev pub is_launching : ProcessState → Bool
is_launching (ProcessState.launching _ _ _) = true
is_launching (ProcessState.running _ _ _ _ _ _ _) = false

abbrev pub stop_requested_of : ProcessState → Bool
stop_requested_of (ProcessState.launching _ _ stop) = stop
stop_requested_of (ProcessState.running _ _ _ _ _ _ stop) = stop

-- `client.identity() == Some(candidate)`.
unfoldable pub has_identity : ProcessIdentity → ProcessState → Bool
unfolding same_identity
has_identity candidate (ProcessState.launching _ _ _) = false
has_identity candidate (ProcessState.running _ i _ _ _ _ _) = same_identity i candidate

unfoldable pub snapshot : ProcessState → GameClientSnapshot
snapshot (ProcessState.launching m _ stop) = record {
  client_id = m.client_id;
  server_id = m.server_id;
  server_name = m.server_name;
  status = if stop then GameClientStatus.stopping else GameClientStatus.launching;
  pid = none;
  memory_access = none;
  profile_memory = none;
}
snapshot (ProcessState.running m i _ _ _ runtime stop) = record {
  client_id = m.client_id;
  server_id = m.server_id;
  server_name = m.server_name;
  status = if stop then GameClientStatus.stopping else GameClientStatus.running;
  pid = some i.pid;
  memory_access = runtime.memory_access;
  profile_memory = runtime.profile_memory;
}

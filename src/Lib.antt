-- ===== src/Lib.antt =====
-- RO Launcher starts clients of Ragnarok Online under Wine and helps to play them. This library
-- models three parts of it: ro-sessiond, the process that starts and ends all programs of a Wine
-- prefix for the app; the core of the tools that read the game's memory and press keys; and of the
-- app in src-tauri what keeps these in order: the registry of running clients, the lock on a
-- prefix, the worker that owns the virtual keyboard, and the choice of a runtime. The app picks a
-- runtime, takes the lock, launches a client through ro-sessiond and notes it in the registry; the
-- tools then press keys through the worker.
--
-- Where each part is:
--   Protocol           crates/ro-session-protocol/src/lib.rs: the messages between the app and
--                      ro-sessiond, validate_process_spec_structure, clamp_grace_ms.
--   Sessiond.Launch    crates/ro-sessiond/src/process.rs: validate_spec_for_launch and the merge of
--                      the environment. The file system is the record FileSystem.
--   Sessiond.Supervisor  crates/ro-sessiond/src/supervisor.rs: the state is the record Supervisor.
--                      Requests holds handle_line, handle_launch and handle_shutdown; Shutdown holds
--                      drain_reap_events and advance_shutdown. Each gives the new state and a list of
--                      outputs (events, spawns, signals) in their order.
--   Sessiond.Commands  the calls that main.rs makes, as data, and runs of lists of them. The modules
--                      beside it prove what all runs keep.
--   Sessiond.Handshake   the handshake in crates/ro-sessiond/src/main.rs: a Moment holds the answers of
--                      the system in one round of its loop.
--   Sessiond.MainLoop  the loop of run_session in crates/ro-sessiond/src/main.rs: a turn takes what
--                      the system answers in it. Turns and Ending prove what all turns keep.
--   Tools.Ports        crates/ro-tools-core/src/ports.rs and error.rs: memory and keyboard.
--   Tools.Hex, Tools.Profiles   profiles.rs and domain.rs of that crate; from_str_radix of the
--                      standard library is written out.
--   Tools.Autopot, Tools.Autobuff, Tools.Spammer   the folders autopot, autobuff and spammer.
--   Tools.Presence     presence.rs: where a client keeps its character, and a snapshot of it.
--   Sessiond.LineReader  crates/ro-sessiond/src/protocol.rs: BoundedLineReader. The state is its
--                      buffer and the arrivals still to come: bytes, or a moment without any.
--   App.GameProcess    src-tauri/src/state/game_process.rs: the state is the record Registry; the
--                      modules Launching, Queries, Stopping and Handoff hold the methods, and Run
--                      has them as calls. Consistent and Life prove what all runs keep.
--   App.OperationLock  src-tauri/src/utils/operation_lock.rs: a process is its table Operations;
--                      World has the steps of several processes on one operating system, and
--                      Waiting the loop of acquire_for.
--   App.InputWorker    src-tauri/src/tools/input/uinput_worker.rs: Commands holds execute_command
--                      and what it calls; Held says which keys a device has down.
--   App.Runtime        src-tauri/src/tools/runtime/resolver.rs, with the types of model.rs and
--                      probe.rs: Resolver, and Capabilities for what a runner must be able to do.
--
-- A method on &mut self is a function from a state to a result and a state; an error keeps the
-- changes made before it. The answers of the operating system (fork and exec, waitpid, the file
-- system, the clock) and of the adapters (memory, keyboard) are arguments or functions of all calls
-- made before, so that the theorems hold for each way in which they may change. Texts are lists of
-- Unicode scalar values. A hash map is a list of pairs with one pair for a key.
--
-- Bounds: 32 launches in flight, 1 MiB for a message, u32 and u64 with their wrap (% 2 ^ 32 and % 2
-- ^ 64) as in a release build; what the counters of the registry show is shown for fewer calls than
-- bring them to their wrap. Fuel is used in two places. A line is read with as many rounds as there
-- are bytes in the buffer and twice those to come, and one more, since a round takes bytes in, a
-- line out, or ends. acquire_for has one round for each 25 milliseconds of its timeout and two
-- more, since a sleep takes 25 milliseconds unless less time is left. The loop around waitpid runs
-- over the finite list of its answers, and every other loop over a list of the state.
--
-- Parameters: the file system; the record locks of fcntl, the opening of lock files and the digest
-- that names them, with the laws of RecordLocks; the uinput device, with the laws of InputLaws,
-- where an event that fails may have been written or not; String::from_utf8; the comparison of
-- paths and the lookup of a managed Proton by its path.
--
-- Not modelled: the JSON encoding, which is serde's; threads that copy streams; the arguments of
-- ro-sessiond; ro-inputd and ro-tools-linux, the adapters to Linux; of the input worker its
-- channels, deadlines and metrics, and the pacing of the spammer's loop; of the runtime its probe
-- and compatibility reports; the rest of the app (runner sessions, prefix set-up and recovery,
-- artifacts, updater, presence service, launcher), most of which is file, network and process work;
-- and the TypeScript interface.
pub mod Base
pub mod Protocol
pub mod Sessiond
pub mod Tools
pub mod App

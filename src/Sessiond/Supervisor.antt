-- ===== src/Sessiond/Supervisor.antt =====
-- crates/ro-sessiond/src/supervisor.rs: the state of a session and its handlers. A handler returns
-- the new state, what it did to the outside, and the `Result` that the caller sees. Answers of the
-- operating system (file system, fork, clock, wait, writes) are arguments.
mod State
mod Requests
mod Shutdown
unfoldable pub use State.*
unfoldable pub use Requests.*
unfoldable pub use Shutdown.*

-- ===== src/App.antt =====
-- src-tauri: the application, whose processes start the game and its tools.
pub mod GameProcess
pub mod OperationLock
pub mod InputWorker
pub mod Runtime

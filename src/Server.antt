-- ===== src/Server.antt =====
-- The server's side of an operation.
pub mod Context
pub mod Lookup
pub mod Handlers
pub mod Respond
pub mod Check
pub mod Clients
pub mod ClientTable
pub mod Known
pub mod Stat
pub mod Illusion
pub mod Unknown
pub mod Created
pub mod Removed
pub mod Serve
pub mod Loop
pub mod Idle
pub mod LoopTable
pub mod Checked
pub mod CheckStep
pub mod SettledRows
pub mod Repaired

-- ===== src/Wrappers.antt =====
-- The wrappers of the C library's calls (ports/unix/guts).
pub mod Modes
pub mod Calls
pub mod Remove
pub mod Rename
pub mod Create
pub mod Change
pub mod Settled
pub mod Honest
pub mod Link
pub mod Access
pub mod Open
pub mod Acl
pub mod AclMode

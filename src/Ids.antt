-- ===== src/Ids.antt =====
-- The ids that a program has under pseudo: the pseudo_* ids of pseudo_client.c, the calls of
-- ports/uids_generic and ports/linux that read and change them, and their passage to a child.
pub mod Decimal
pub mod State
pub mod Calls
pub mod Startup
pub mod Within
pub mod Inherited
pub mod Executed

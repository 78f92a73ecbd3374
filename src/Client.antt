-- ===== src/Client.antt =====
-- The client's side: what the preloaded library remembers of the program's descriptors.
pub mod Descriptors
pub mod Arrays
pub mod Bounds
pub mod Renaming
pub mod Base
pub mod Chroot
pub mod Request
pub mod Ignored
pub mod Closing
pub mod Operation
pub mod Send
pub mod Split
pub mod Attributes
pub mod Spared
pub mod Unsent
pub mod Stored
pub mod View
pub mod Refinement
pub mod Exec
pub mod Users

-- ===== src/Tests.antt =====
-- Runs of the model at concrete inputs.
pub mod Engine
pub mod Data
pub mod Files
pub mod Requests
pub mod Table
pub mod Resolving
pub mod Remembering
pub mod Jail
pub mod Wrapping
pub mod Asking
pub mod Looping
pub mod Values
pub mod Programs
pub mod Opening
pub mod Checking

-- ===== src/Environ.antt =====
-- The environment of a program that is run: the part of pseudo_util.c that puts the library's
-- variables and the library itself into it, and takes the library out.
pub mod Preload
pub mod Setup
pub mod Entries
mod Found
pub mod Shape
pub mod Handed
pub mod Lost
